-- ===== src/JobReport/LogParse/Whole.antt =====
-- What a whole log comes to: the window and the phases of the job.
use gitlab_procs_exporter.Prelude.{
  ℕ, ◌<◌, ◌≡◌, refl, ◌∙◌, sym, subst, Option, none, some, List, [], ◌∷◌, All, nat_eq,
}
use mathlib.Core.Option.{none-ne-some}
use gitlab_procs_exporter.Prelude.Text.{Text, Unicode, trim_space}
use gitlab_procs_exporter.Prelude.Map.{lookup}
use gitlab_procs_exporter.JobReport.LogParse.{
  JobInfo, Patterns, LogState, note_runner, note_executor, note_pod, note_job_id, note_minio,
  note_project, mark_loop, parse_digits,
}
use gitlab_procs_exporter.JobReport.LogParse.Sections.{
  IsSpan, IsPhases, IsTracked, IsClock, clock, epoch, add_epochs, mark_loop-IsTracked,
}
use gitlab_procs_exporter.JobReport.LogParse.Lines.{
  note_fail, note_core, note_kill_name, note_kill_pid, note_artifact, note_frame, new_frame,
  from_url, blank, note_head, note_failure, note_tail, on_info, line_step, line_loop, split_lines,
  first_state, finish_log, parse_job_log,
}

-- The instants of all markers of the lines, on top of those before.
abbrev pub log_epochs : Patterns → List Text → List ℕ → List ℕ
log_epochs re [] seen = seen
log_epochs re (ln ∷ lines) seen = log_epochs re lines (add_epochs (re.sections ln) seen)

module _ (j : JobInfo) where
  runner-clock : (o : Option (Text × Text × Text)) → clock (note_runner o j) ≡ clock j
  runner-clock none = refl
  runner-clock (some m) = refl

  executor-clock : (o : Option Text) → clock (note_executor o j) ≡ clock j
  executor-clock none = refl
  executor-clock (some m) = refl

  pod-clock : (o : Option (Text × Text)) → clock (note_pod o j) ≡ clock j
  pod-clock none = refl
  pod-clock (some m) = refl

  job_id-clock : (o : Option Text) → clock (note_job_id o j) ≡ clock j
  job_id-clock none = refl
  job_id-clock (some m) = refl

  minio-clock : (o : Option (Text × Text × Text)) → clock (note_minio o j) ≡ clock j
  minio-clock none = refl
  minio-clock (some m) = refl

  project-clock : (o : Option (Text × Text)) → clock (note_project o j) ≡ clock j
  project-clock none = refl
  project-clock (some m) = refl

  fail-clock :
      (u : Unicode) (re : Patterns) (o : Option Text) → clock (note_fail u re o j) ≡ clock j
  fail-clock u re none = refl
  fail-clock u re (some m) = refl

  core-clock : (o : Option Text) → clock (note_core o j) ≡ clock j
  core-clock none = refl
  core-clock (some m) = refl

  kill_name-clock : (o : Option Text) → clock (note_kill_name o j) ≡ clock j
  kill_name-clock none = refl
  kill_name-clock (some m) = refl

  kill_pid-clock : (o : Option Text) → clock (note_kill_pid o j) ≡ clock j
  kill_pid-clock none = refl
  kill_pid-clock (some m) = refl

  artifact-clock : (o : Option (Text × Text)) → clock (note_artifact o j) ≡ clock j
  artifact-clock none = refl
  artifact-clock (some m) = refl

head-clock : (re : Patterns) (ln : Text) (j : JobInfo) → clock (note_head re ln j) ≡ clock j
unfolding note_head
head-clock re ln j =
    project-clock _ (re.project ln)
    ∙ minio-clock _ (re.minio ln)
    ∙ job_id-clock _ (re.job_id_url ln)
    ∙ pod-clock _ (re.pod ln)
    ∙ executor-clock _ (re.executor ln)
    ∙ runner-clock j (re.runner ln)

failure-clock :
    (u : Unicode) (re : Patterns) (ln : Text) (j : JobInfo)
    → clock (note_failure u re ln j) ≡ clock j
unfolding note_failure
failure-clock u re ln j = core-clock _ (re.core ln) ∙ fail-clock j u re (re.fail ln)

tail-clock : (re : Patterns) (ln : Text) (j : JobInfo) → clock (note_tail re ln j) ≡ clock j
unfolding note_tail
tail-clock re ln j =
    artifact-clock _ (re.artifact ln)
    ∙ kill_pid-clock _ (re.kill_pid ln)
    ∙ kill_name-clock j (re.kill_name ln)

on_info-IsTracked :
    (f : JobInfo → JobInfo) (seen : List ℕ) (st : LogState)
    → clock (f st.info) ≡ clock st.info
    → IsTracked seen st
    → IsTracked seen (on_info f st)
on_info-IsTracked f seen st e h = (subst (IsClock seen) (sym e) h.0, h.1)

new_frame-IsTracked :
    (n : ℕ) (text : Text) (o : Option Text) (seen : List ℕ) (st : LogState)
    → IsTracked seen st
    → IsTracked seen (new_frame n text o st)
new_frame-IsTracked n text none seen st h = h
new_frame-IsTracked n text (some old) seen st h = h

note_frame-IsTracked :
    (u : Unicode) (o : Option (Text × Text)) (seen : List ℕ) (st : LogState)
    → IsTracked seen st
    → IsTracked seen (note_frame u o st)
note_frame-IsTracked u none seen st h = h
note_frame-IsTracked u (some (digits, text)) seen st h =
    new_frame-IsTracked (parse_digits digits) (trim_space u text)
      (lookup (parse_digits digits) st.frame_by_num) seen st h

module _ (u : Unicode) (re : Patterns) where
  line_step-IsTracked :
      (ln : Text) (seen : List ℕ) (st : LogState)
      → All (λ m. 0 < epoch m) (re.sections ln)
      → IsTracked seen st
      → IsTracked (add_epochs (re.sections ln) seen) (line_step u re ln st)
  unfolding line_step
  line_step-IsTracked ln seen st p h =
      let seen' = add_epochs (re.sections ln) seen in
      let headed : LogState = on_info (note_head re ln) st in
      let marked : LogState = mark_loop (re.sections ln) headed in
      let failed : LogState = on_info (note_failure u re ln) marked in
      let framed : LogState = note_frame u (re.frame (trim_space u ln)) failed in
      on_info-IsTracked (note_tail re ln) seen' framed (tail-clock re ln framed.info) (
        note_frame-IsTracked u (re.frame (trim_space u ln)) seen' failed (
          on_info-IsTracked (note_failure u re ln) seen' marked (failure-clock u re ln marked.info)
            (mark_loop-IsTracked (re.sections ln) seen headed p
              (on_info-IsTracked (note_head re ln) seen st (head-clock re ln st.info) h))))

  line_loop-IsTracked :
      (lines : List Text) (seen : List ℕ) (st : LogState)
      → All (λ ln. All (λ m. 0 < epoch m) (re.sections ln)) lines
      → IsTracked seen st
      → IsTracked (log_epochs re lines seen) (line_loop u re lines st)
  unfolding line_loop
  line_loop-IsTracked [] seen st p h = h
  line_loop-IsTracked (ln ∷ lines) seen st (p, ps) h =
      line_loop-IsTracked lines (add_epochs (re.sections ln) seen) (line_step u re ln st) ps
        (line_step-IsTracked ln seen st p h)

from_url-IsClock : (o : Option (Text × Text × Text)) → IsClock [] (clock (from_url o blank))
from_url-IsClock none = ((refl, refl), tt)
from_url-IsClock (some m) = ((refl, refl), tt)

first_state-IsTracked : (re : Patterns) (job_url : Text) → IsTracked [] (first_state re job_url)
unfolding lookup
first_state-IsTracked re job_url =
    (from_url-IsClock (re.url_parts job_url), (λ name t found. absurd (none-ne-some t found)))

-- Where no marker in the lines of a log has the instant zero, the window of the log goes from the earliest to the latest instant
-- of all its markers, both zero where it has none, and each phase begins and ends at the instant of
-- a marker, and so within the window.
pub parse_job_log-window :
    (u : Unicode) (re : Patterns) (date_of : ℕ → Text) (raw job_url : Text)
    → All (λ ln. All (λ m. 0 < epoch m) (re.sections ln)) (split_lines (re.strip_ansi raw))
    → let j = parse_job_log u re date_of raw job_url in
      let seen = log_epochs re (split_lines (re.strip_ansi raw)) [] in
      IsSpan seen j.start_epoch j.end_epoch × IsPhases seen j.phases
unfolding parse_job_log finish_log
parse_job_log-window u re date_of raw job_url p =
    (line_loop-IsTracked u re (split_lines (re.strip_ansi raw)) [] (first_state re job_url) p
      (first_state-IsTracked re job_url)).0
