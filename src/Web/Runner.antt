-- ===== src/Web/Runner.antt =====
-- cmd/jobreport-web/runner.go: the command that makes a report.
pub mod Arguments
use gitlab_procs_exporter.Prelude.{
  Bool, true, false, not, ◌&&◌, Option, none, some, List, [], ◌∷◌, ◌++◌, ◌==◌, list_eq, nat_eq, all,
  if◌then◌else◌,
}
use gitlab_procs_exporter.Prelude.Text.{Text, codes, Unicode}
use gitlab_procs_exporter.JobReport.Meta.{is_digit}
use gitlab_procs_exporter.Web.Store.{Codec, StoreError, StoreResult, failed, done, normalize_url}

pub data RunError : Type 0 where
  bad_url : StoreError → RunError
  bad_job_id : RunError

-- The arguments that the binary is executed with, or why it is not.
pub data Command : Type 0 where
  refused : RunError → Command
  execute : List Text → Command

-- `jobIDPattern`, of a text that is not empty
unfoldable pub is_job_id : Text → Bool
unfolding all
is_job_id = all is_digit

abbrev pub optional : Text → Text → List Text
optional name v = if v == [] then [] else name ∷ (v ∷ [])

abbrev pub arguments : Text → Text → Text → List Text
arguments url job_id window =
    codes "-prom" ∷ (url ∷ (optional (codes "-job-id") job_id ++ optional (codes "-window") window))

abbrev pub with_url : Text → Text → StoreResult Text → Command
with_url job_id window (failed e) = refused (bad_url e)
with_url job_id window (done url) =
    if not (job_id == []) && not (is_job_id job_id)
    then refused bad_job_id
    else execute (codes "report" ∷ arguments url job_id window)

-- `runReport` up to the execution
unfoldable pub run_report : Unicode → Codec → Text → Text → Text → Command
unfolding normalize_url is_job_id
run_report u c prom_url job_id window = with_url job_id window (normalize_url u c prom_url)
