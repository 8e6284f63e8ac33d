-- ===== src/Web/Tests.antt =====
-- Requests at concrete inputs, and instances of the theorems on the window, the runner and the server.
use gitlab_procs_exporter.Prelude.{
  ◌≡◌, ◌⊎◌, refl, Bool, true, false, Option, none, some, List, [], ◌∷◌, arith, All, ◌==◌, list_eq,
  nat_eq, list_beq, if◌then◌else◌, some_inj, subst,
}
use mathlib.Core.Option.{none-ne-some}
use gitlab_procs_exporter.Prelude.Int.{ℤ, pos}
use gitlab_procs_exporter.Prelude.Text.{Text, codes}
use gitlab_procs_exporter.Exporter.Samples.{ascii_only}
use gitlab_procs_exporter.JobReport.Cli.{CliEnv, ok, parse_flags}
use gitlab_procs_exporter.Web.Store.{missing, done, normalize_url}
use gitlab_procs_exporter.Web.Store.Tests.{codec, all_well}
use gitlab_procs_exporter.Web.Window
use gitlab_procs_exporter.Web.Window.{
  Calendar, IsDay, WindowForm, all_empty, build_window, IsFormed, build_window-parse_window,
}
use gitlab_procs_exporter.Web.Runner.{execute, arguments, run_report, is_job_id}
use gitlab_procs_exporter.Web.Runner.Arguments.{formed, run_report-parse_flags}
use gitlab_procs_exporter.Web.Server.{Backend, Request, serve}
use gitlab_procs_exporter.Web.Server.Effects.{IsIdle, IsReport, serve-IsIdle, serve-executes}

abbrev no_env : CliEnv
no_env = record { getenv = λ key. []; is_file = λ path. false; now = pos 0; flag_int = λ s. none }

-- A calendar that knows the first two days.
abbrev day_of : Text → Option ℤ
day_of s =
    if s == codes "1970-01-01"
    then some (pos 0)
    else if s == codes "1970-01-02"
    then some (pos 86_400)
    else none

known-IsDay :
    (a b : Bool) (z : ℤ)
    → (if a then some (pos 0) else if b then some (pos 86_400) else none) ≡ some z
    → IsDay z
known-IsDay true b z h = subst IsDay (some_inj h) (omega arith)
known-IsDay false true z h = subst IsDay (some_inj h) (omega arith)
known-IsDay false false z h = absurd (none-ne-some z h)

day_of-IsDay : (s : Text) (z : ℤ) → day_of s ≡ some z → IsDay z
day_of-IsDay s z h = known-IsDay (s == codes "1970-01-01") (s == codes "1970-01-02") z h

abbrev two_days : Calendar
two_days = record { parse_day = day_of; parse_day-IsDay = day_of-IsDay }

abbrev one_day : WindowForm
one_day = record {
  start_date = codes "1970-01-01";
  start_hour = codes "10";
  start_min = codes "30";
  end_date = codes "1970-01-02";
  end_hour = codes "0";
  end_min = codes "0";
}

one_day_window : build_window two_days one_day ≡ Window.ok (codes "37800..86400")
unfolding build_window list_beq
one_day_window = refl

build_window-parse_window_example :
    ((all_empty one_day ≡ true) × (codes "37800..86400" ≡ []))
    ⊎ ((all_empty one_day ≡ false) × IsFormed two_days one_day (codes "37800..86400"))
build_window-parse_window_example =
    build_window-parse_window two_days one_day (codes "37800..86400") one_day_window

abbrev job_arguments : List Text
job_arguments = codes "report" ∷ arguments (codes "https://prom") (codes "127") []

job_run : run_report ascii_only codec (codes "prom") (codes "127") [] ≡ execute job_arguments
unfolding run_report list_beq
job_run = refl

run_report-parse_flags_example :
    (url : Text) × (argv : List Text) × (normalize_url ascii_only codec (codes "prom") ≡ done url)
    × (job_arguments ≡ codes "report" ∷ argv)
    × ((codes "127" ≡ []) ⊎ (is_job_id (codes "127") ≡ true))
    × (parse_flags no_env argv ≡ ok (formed no_env url (codes "127") []))
run_report-parse_flags_example =
    run_report-parse_flags ascii_only codec no_env (codes "prom") (codes "127") [] job_arguments
      refl job_run

abbrev backend : Backend
backend = record {
  unicode = ascii_only;
  codec = codec;
  writes = all_well;
  calendar = two_days;
  exec = λ args. (codes "report", true);
  clean_path = λ path. path;
}

-- A form that names a URL in each field.
abbrev named_url : Text → Text
named_url name = if name == codes "prom" then codes "prom" else []

abbrev asked : Text → Request
asked method = record { method = method; path = codes "/report"; form = some named_url }

a_command_is_executed :
    (serve backend (asked (codes "POST")) missing).executed
    ≡ (codes "report" ∷ arguments (codes "https://prom") [] []) ∷ []
unfolding serve list_beq
a_command_is_executed = refl

serve-IsIdle_example : IsIdle missing (serve backend (asked (codes "GET")) missing)
serve-IsIdle_example = serve-IsIdle backend (asked (codes "GET")) missing (λ e. cc)

serve-executes_example :
    All (IsReport backend no_env) (serve backend (asked (codes "POST")) missing).executed
serve-executes_example = serve-executes backend no_env refl missing (asked (codes "POST"))
