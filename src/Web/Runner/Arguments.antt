-- ===== src/Web/Runner/Arguments.antt =====
-- What the report's command line reads the arguments of the web form as.
use gitlab_procs_exporter.Prelude.{
  ◌≡◌, ◌⊎◌, refl, ap, ◌∙◌, sym, Bool, true, false, not, ◌&&◌, List, [], ◌∷◌, ◌++◌, ◌==◌, eq_iff,
  list_eq, nat_eq, list_beq, if◌then◌else◌, Bool-cases, inl, inr, All,
}
use mathlib.Core.Bool.{false≢true}
use gitlab_procs_exporter.Prelude.Text.{Text, codes, Unicode, contains, has_prefix, cut_prefix, cut}
use gitlab_procs_exporter.JobReport.Cli.{
  CliConfig, CliEnv, ok, parse_args, arg_of, name_of, set_flag, default_config, with_source,
  parse_flags, is_local_file,
}
use gitlab_procs_exporter.JobReport.Cli.Args.{flags, IsName, split_flags_only}
use gitlab_procs_exporter.Web.Store.{Codec, StoreResult, failed, done, normalize_url}
use gitlab_procs_exporter.Web.Runner.{
  Command, refused, execute, RunError, bad_job_id, is_job_id, arguments, with_url, run_report,
}

-- `v`, or the default where it is empty
abbrev pub given : Text → Text → Text
given v default = if v == [] then default else v

-- The configuration with the values of the form over those of the environment.
abbrev pub formed : CliEnv → Text → Text → Text → CliConfig
formed env url job_id window = record (default_config env) {
  prom_url = url;
  job_id = given job_id (default_config env).job_id;
  window = given window (default_config env).window;
}

abbrev pairs : Text → Bool → Text → Bool → Text → List (Text × Text)
pairs url no_id job_id no_window window =
    (codes "prom", url)
    ∷ ((if no_id then [] else (codes "job-id", job_id) ∷ [])
        ++ (if no_window then [] else (codes "window", window) ∷ []))

parse_args-pairs :
    (env : CliEnv) (cfg : CliConfig) (url job_id window : Text) (no_id no_window : Bool)
    → parse_args env (flags (pairs url no_id job_id no_window window)) cfg
      ≡ ok (record cfg {
        prom_url = url;
        job_id = if no_id then cfg.job_id else job_id;
        window = if no_window then cfg.window else window;
      })
unfolding parse_args arg_of name_of cut cut_prefix set_flag list_beq
parse_args-pairs env cfg url job_id window true true = refl
parse_args-pairs env cfg url job_id window true false = refl
parse_args-pairs env cfg url job_id window false true = refl
parse_args-pairs env cfg url job_id window false false = refl

flags-pairs :
    (url job_id window : Text) (no_id no_window : Bool)
    → codes "-prom"
        ∷ (url
            ∷ ((if no_id then [] else codes "-job-id" ∷ (job_id ∷ []))
                ++ (if no_window then [] else codes "-window" ∷ (window ∷ []))))
      ≡ flags (pairs url no_id job_id no_window window)
flags-pairs url job_id window true true = refl
flags-pairs url job_id window true false = refl
flags-pairs url job_id window false true = refl
flags-pairs url job_id window false false = refl

flags-arguments :
    (url job_id window : Text)
    → arguments url job_id window ≡ flags (pairs url (job_id == []) job_id (window == []) window)
flags-arguments url job_id window = flags-pairs url job_id window (job_id == []) (window == [])

pairs-IsName :
    (url job_id window : Text) (no_id no_window : Bool)
    → All IsName (pairs url no_id job_id no_window window)
unfolding contains has_prefix cut_prefix
pairs-IsName url job_id window true true = (refl, tt)
pairs-IsName url job_id window true false = (refl, (refl, tt))
pairs-IsName url job_id window false true = (refl, (refl, tt))
pairs-IsName url job_id window false false = (refl, (refl, (refl, tt)))

and_false : {A : Type 0} (b : Bool) (x y : A) → (if b && false then x else y) ≡ y
and_false true x y = refl
and_false false x y = refl

no_source :
    (env : CliEnv) (cfg : CliConfig) → env.is_file [] ≡ false → with_source env [] (ok cfg) ≡ ok cfg
unfolding with_source is_local_file has_prefix cut_prefix
no_source env cfg no_file =
    ap (λ b. if cfg.job_url == [] && b then ok (record cfg { job_url = [] }) else ok cfg) no_file
    ∙ and_false (cfg.job_url == []) (ok (record cfg { job_url = [] })) (ok cfg)

parse_flags-pairs :
    (env : CliEnv) (url job_id window : Text) (no_id no_window : Bool)
    → env.is_file [] ≡ false
    → parse_flags env (flags (pairs url no_id job_id no_window window))
      ≡ ok (record (default_config env) {
        prom_url = url;
        job_id = if no_id then (default_config env).job_id else job_id;
        window = if no_window then (default_config env).window else window;
      })
unfolding parse_flags
parse_flags-pairs env url job_id window no_id no_window no_file =
    ap (λ p. with_source env p.0 (parse_args env p.1 (default_config env)))
      (split_flags_only (pairs url no_id job_id no_window window)
        (pairs-IsName url job_id window no_id no_window))
    ∙ ap (with_source env [])
        (parse_args-pairs env (default_config env) url job_id window no_id no_window)
    ∙ no_source env _ no_file

-- The command, by the test on the job's id.
abbrev by_test : Text → Text → Text → Bool → Command
by_test url job_id window b =
    if b then refused bad_job_id else execute (codes "report" ∷ arguments url job_id window)

execute_inj : {a b : List Text} → execute a ≡ execute b → a ≡ b
execute_inj h = cc

abbrev IsRead : CliEnv → Text → Text → StoreResult Text → List Text → Type 0
IsRead env job_id window r args =
    (url : Text) × (argv : List Text) × (r ≡ done url)
    × (args ≡ codes "report" ∷ argv)
    × ((job_id ≡ []) ⊎ (is_job_id job_id ≡ true))
    × (parse_flags env argv ≡ ok (formed env url job_id window))

valid_id :
    (job_id : Text)
    → (not (job_id == []) && not (is_job_id job_id)) ≡ false
    → (job_id ≡ []) ⊎ (is_job_id job_id ≡ true)
valid_id job_id h = elim (Bool-cases (job_id == [])) [
  | inl e ↦ inl ((eq_iff job_id []).0 e)
  | inr n ↦
      inr (not_false (is_job_id job_id) (sym (ap (λ b. not b && not (is_job_id job_id)) n) ∙ h))
]
  where
    not_false : (b : Bool) → not b ≡ false → b ≡ true
    not_false true e = refl
    not_false false e = absurd (false≢true (sym e))

with_url-IsRead :
    (env : CliEnv) (job_id window : Text) (r : StoreResult Text) (args : List Text)
    → env.is_file [] ≡ false
    → with_url job_id window r ≡ execute args
    → IsRead env job_id window r args
with_url-IsRead env job_id window (failed e) args no_file h = cc
with_url-IsRead env job_id window (done url) args no_file h =
    elim (Bool-cases (not (job_id == []) && not (is_job_id job_id))) [
      | inl bad_id ↦ absurd (refused-ne-execute (sym (ap (by_test url job_id window) bad_id) ∙ h))
      | inr good ↦ (
        url,
        arguments url job_id window,
        refl,
        execute_inj (sym h ∙ ap (by_test url job_id window) good),
        valid_id job_id good,
        ap (parse_flags env) (flags-arguments url job_id window)
            ∙ parse_flags-pairs env url job_id window (job_id == []) (window == []) no_file,
      )
    ]
  where
    refused-ne-execute : {e : RunError} → ¬ (refused e ≡ execute args)
    refused-ne-execute q = cc

-- A run that is not refused executes the report with arguments that its command line reads as the
-- URL in its normal form, and the job's id and the window of the form where they are not empty, all
-- else as by the environment; the id is then made of digits. No value is read as a flag.
pub run_report-parse_flags :
    (u : Unicode) (c : Codec) (env : CliEnv) (prom_url job_id window : Text) (args : List Text)
    → env.is_file [] ≡ false
    → run_report u c prom_url job_id window ≡ execute args
    → (url : Text) × (argv : List Text) × (normalize_url u c prom_url ≡ done url)
      × (args ≡ codes "report" ∷ argv)
      × ((job_id ≡ []) ⊎ (is_job_id job_id ≡ true))
      × (parse_flags env argv ≡ ok (formed env url job_id window))
unfolding run_report
run_report-parse_flags u c env prom_url job_id window args no_file h =
    with_url-IsRead env job_id window (normalize_url u c prom_url) args no_file h
