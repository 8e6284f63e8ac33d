-- ===== src/JobReport/LogParse/Tests.antt =====
-- A log with two sections at a concrete input, and instances of its theorems.
use gitlab_procs_exporter.Prelude.{
  ◌<◌, ◌≡◌, refl, true, false, Option, none, some, List, [], ◌∷◌, ◌++◌, arith, All, list_eq, nat_eq,
  list_beq, if◌then◌else◌,
}
use gitlab_procs_exporter.Prelude.Text.{Text, codes, contains}
use gitlab_procs_exporter.Prelude.Decimal.{value}
use gitlab_procs_exporter.Exporter.Samples.{ascii_only}
use gitlab_procs_exporter.JobReport.LogParse.{Mark, Patterns, parse_digits, is_listed}
use gitlab_procs_exporter.JobReport.LogParse.Sections.{IsSpan, IsPhases, epoch}
use gitlab_procs_exporter.JobReport.LogParse.Lines.{parse_job_log, split_lines}
use gitlab_procs_exporter.JobReport.LogParse.Listed.{IsCaptured}
use gitlab_procs_exporter.JobReport.LogParse.Kills.{parse_job_log-kills}
use gitlab_procs_exporter.JobReport.LogParse.Whole.{log_epochs, parse_job_log-window}

abbrev mark : Text → Mark
mark s = record { starts = contains s (codes "start"); digits = codes "17"; name = codes "build" }

abbrev marks_of : Text → List Mark
marks_of ln = if contains ln (codes "section_") then mark ln ∷ [] else []

abbrev two_marks : Patterns
two_marks = record {
  strip_ansi = λ s. s;
  url_parts = λ s. none;
  runner = λ s. none;
  executor = λ s. none;
  pod = λ s. none;
  job_id_url = λ s. none;
  minio = λ s. none;
  project = λ s. none;
  sections = marks_of;
  fail = λ s. none;
  exit = λ s. none;
  core = λ s. none;
  frame = λ s. none;
  kill_name = λ s. none;
  kill_pid = λ s. none;
  artifact = λ s. none;
}

later_epoch : (s : Text) → 0 < epoch (mark s)
unfolding parse_digits value
later_epoch s = omega arith

mark_line-positive : (ln : Text) → All (λ m. 0 < epoch m) (two_marks.sections ln)
mark_line-positive ln =
    elim (contains ln (codes "section_"))
      as (λ b. All (λ m. 0 < epoch m) (if b then mark ln ∷ [] else [])) [
        | true ↦ (later_epoch ln, tt)
        | false ↦ tt
      ]

marks-positive :
    (lines : List Text) → All (λ ln. All (λ m. 0 < epoch m) (two_marks.sections ln)) lines
marks-positive [] = tt
marks-positive (ln ∷ lines) = (mark_line-positive ln, marks-positive lines)

abbrev log : Text
log = codes "section_start" ++ (10 ∷ (codes "make" ++ (10 ∷ codes "section_end")))

parse_job_log-window_example :
    let j = parse_job_log ascii_only two_marks (λ n. []) log [] in
    let seen = log_epochs two_marks (split_lines log) [] in
    IsSpan seen j.start_epoch j.end_epoch × IsPhases seen j.phases
parse_job_log-window_example =
    parse_job_log-window ascii_only two_marks (λ n. []) log [] (marks-positive (split_lines log))

one_phase :
    (parse_job_log ascii_only two_marks (λ n. []) log []).phases
    ≡ record { name = codes "build"; start = 17; end = 17 } ∷ []
unfolding parse_job_log list_beq
one_phase = refl

-- Each line that speaks of a kill names the process make, with the pid 41.
abbrev captured : Text → Text → Option Text
captured v ln = if contains ln (codes "kill") then some v else none

abbrev two_kills : Patterns
two_kills = record two_marks {
  kill_name = captured (codes "make");
  kill_pid = captured (codes "41");
}

abbrev kill_log : Text
kill_log = codes "kill make" ++ (10 ∷ codes "kill again")

listed_once :
    (parse_job_log ascii_only two_kills (λ n. []) kill_log []).killed_names ≡ codes "make" ∷ []
unfolding parse_job_log list_beq is_listed
listed_once = refl

parse_job_log-kills_example :
    let j = parse_job_log ascii_only two_kills (λ n. []) kill_log [] in
    let lines = split_lines kill_log in
    IsCaptured two_kills.kill_name lines j.killed_names
    × IsCaptured two_kills.kill_pid lines j.kill_pids
parse_job_log-kills_example = parse_job_log-kills ascii_only two_kills (λ n. []) kill_log []
