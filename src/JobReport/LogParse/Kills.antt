-- ===== src/JobReport/LogParse/Kills.antt =====
-- The processes that a log says were killed: which names and pids are listed.
use gitlab_procs_exporter.Prelude.{
  ℕ, ◌≡◌, refl, sym, ap, subst, ◌∙◌, Bool, true, false, Option, none, some, List, [], ◌∷◌,
  if◌then◌else◌, list_eq, nat_eq,
}
use gitlab_procs_exporter.Prelude.Text.{Text, Unicode, trim_space}
use gitlab_procs_exporter.Prelude.Map.{lookup}
use gitlab_procs_exporter.JobReport.LogParse.{
  JobInfo, Mark, Patterns, LogState, note_runner, note_executor, note_pod, note_job_id, note_minio,
  note_project, end_phase, mark_step, mark_loop, parse_digits,
}
use gitlab_procs_exporter.JobReport.LogParse.Listed.{
  add_some, add_all, IsCaptured, add_all-IsCaptured,
}
use gitlab_procs_exporter.JobReport.LogParse.Lines.{
  note_fail, note_core, note_kill_name, note_kill_pid, note_artifact, note_frame, new_frame,
  from_url, blank, note_head, note_failure, note_tail, line_step, line_loop, split_lines,
  first_state, finish_log, parse_job_log,
}

-- The names and the pids.
abbrev kills : JobInfo → List Text × List Text
kills j = (j.killed_names, j.kill_pids)

module _ (j : JobInfo) where
  runner-kills : (o : Option (Text × Text × Text)) → kills (note_runner o j) ≡ kills j
  runner-kills none = refl
  runner-kills (some m) = refl

  executor-kills : (o : Option Text) → kills (note_executor o j) ≡ kills j
  executor-kills none = refl
  executor-kills (some m) = refl

  pod-kills : (o : Option (Text × Text)) → kills (note_pod o j) ≡ kills j
  pod-kills none = refl
  pod-kills (some m) = refl

  job_id-kills : (o : Option Text) → kills (note_job_id o j) ≡ kills j
  job_id-kills none = refl
  job_id-kills (some m) = refl

  minio-kills : (o : Option (Text × Text × Text)) → kills (note_minio o j) ≡ kills j
  minio-kills none = refl
  minio-kills (some m) = refl

  project-kills : (o : Option (Text × Text)) → kills (note_project o j) ≡ kills j
  project-kills none = refl
  project-kills (some m) = refl

  fail-kills :
      (u : Unicode) (re : Patterns) (o : Option Text) → kills (note_fail u re o j) ≡ kills j
  fail-kills u re none = refl
  fail-kills u re (some m) = refl

  core-kills : (o : Option Text) → kills (note_core o j) ≡ kills j
  core-kills none = refl
  core-kills (some m) = refl

  artifact-kills : (o : Option (Text × Text)) → kills (note_artifact o j) ≡ kills j
  artifact-kills none = refl
  artifact-kills (some m) = refl

  name-kills :
      (o : Option Text) → kills (note_kill_name o j) ≡ (add_some o j.killed_names, j.kill_pids)
  name-kills none = refl
  name-kills (some m) = refl

  pid-kills :
      (o : Option Text) → kills (note_kill_pid o j) ≡ (j.killed_names, add_some o j.kill_pids)
  pid-kills none = refl
  pid-kills (some m) = refl

head-kills : (re : Patterns) (ln : Text) (j : JobInfo) → kills (note_head re ln j) ≡ kills j
unfolding note_head
head-kills re ln j =
    project-kills _ (re.project ln)
    ∙ minio-kills _ (re.minio ln)
    ∙ job_id-kills _ (re.job_id_url ln)
    ∙ pod-kills _ (re.pod ln)
    ∙ executor-kills _ (re.executor ln)
    ∙ runner-kills j (re.runner ln)

failure-kills :
    (u : Unicode) (re : Patterns) (ln : Text) (j : JobInfo)
    → kills (note_failure u re ln j) ≡ kills j
unfolding note_failure
failure-kills u re ln j = core-kills _ (re.core ln) ∙ fail-kills j u re (re.fail ln)

abbrev both : Option Text → Option Text → List Text × List Text → List Text × List Text
both name pid (names, pids) = (add_some name names, add_some pid pids)

tail-kills :
    (re : Patterns) (ln : Text) (j : JobInfo)
    → kills (note_tail re ln j) ≡ both (re.kill_name ln) (re.kill_pid ln) (kills j)
unfolding note_tail
tail-kills re ln j =
    artifact-kills _ (re.artifact ln)
    ∙ pid-kills (note_kill_name (re.kill_name ln) j) (re.kill_pid ln)
    ∙ ap (λ k. (k.0, add_some (re.kill_pid ln) k.1)) (name-kills j (re.kill_name ln))

abbrev state_kills : LogState → List Text × List Text
state_kills st = kills st.info

end_phase-kills :
    (name : Text) (ep : ℕ) (o : Option ℕ) (st : LogState)
    → state_kills (end_phase name ep o st) ≡ state_kills st
end_phase-kills name ep none st = refl
end_phase-kills name ep (some t) st = refl

choose-kills :
    (b : Bool) (x y : LogState) (k : List Text × List Text)
    → state_kills x ≡ k
    → state_kills y ≡ k
    → state_kills (if b then x else y) ≡ k
choose-kills true x y k hx hy = hx
choose-kills false x y k hx hy = hy

mark_step-kills : (m : Mark) (st : LogState) → state_kills (mark_step m st) ≡ state_kills st
unfolding mark_step
mark_step-kills m st =
    choose-kills m.starts _ _ (state_kills st) refl
      (end_phase-kills m.name (parse_digits m.digits) (lookup m.name st.phase_start) _)

mark_loop-kills :
    (marks : List Mark) (st : LogState) → state_kills (mark_loop marks st) ≡ state_kills st
unfolding mark_loop
mark_loop-kills [] st = refl
mark_loop-kills (m ∷ marks) st = mark_loop-kills marks (mark_step m st) ∙ mark_step-kills m st

new_frame-kills :
    (n : ℕ) (text : Text) (o : Option Text) (st : LogState)
    → state_kills (new_frame n text o st) ≡ state_kills st
new_frame-kills n text none st = refl
new_frame-kills n text (some old) st = refl

note_frame-kills :
    (u : Unicode) (o : Option (Text × Text)) (st : LogState)
    → state_kills (note_frame u o st) ≡ state_kills st
note_frame-kills u none st = refl
note_frame-kills u (some (digits, text)) st =
    new_frame-kills (parse_digits digits) (trim_space u text)
      (lookup (parse_digits digits) st.frame_by_num) st

line_step-kills :
    (u : Unicode) (re : Patterns) (ln : Text) (st : LogState)
    → state_kills (line_step u re ln st) ≡ both (re.kill_name ln) (re.kill_pid ln) (state_kills st)
unfolding line_step
line_step-kills u re ln st =
    tail-kills re ln _
    ∙ ap (both (re.kill_name ln) (re.kill_pid ln)) (
        note_frame-kills u (re.frame (trim_space u ln)) _
        ∙ failure-kills u re ln _
        ∙ mark_loop-kills (re.sections ln) _
        ∙ head-kills re ln st.info)

line_loop-kills :
    (u : Unicode) (re : Patterns) (lines : List Text) (st : LogState)
    → state_kills (line_loop u re lines st) ≡ (
      add_all re.kill_name lines st.info.killed_names,
      add_all re.kill_pid lines st.info.kill_pids,
    )
unfolding line_loop
line_loop-kills u re [] st = refl
line_loop-kills u re (ln ∷ lines) st =
    line_loop-kills u re lines (line_step u re ln st)
    ∙ ap (λ k. (add_all re.kill_name lines k.0, add_all re.kill_pid lines k.1))
        (line_step-kills u re ln st)

from_url-kills : (o : Option (Text × Text × Text)) → kills (from_url o blank) ≡ ([], [])
from_url-kills none = refl
from_url-kills (some m) = refl

-- The names of the killed processes that the parser lists are those that their pattern captures in
-- some line of the log, each once, and so are the pids.
pub parse_job_log-kills :
    (u : Unicode) (re : Patterns) (date_of : ℕ → Text) (raw job_url : Text)
    → let j = parse_job_log u re date_of raw job_url in
      let lines = split_lines (re.strip_ansi raw) in
      IsCaptured re.kill_name lines j.killed_names × IsCaptured re.kill_pid lines j.kill_pids
unfolding parse_job_log finish_log
parse_job_log-kills u re date_of raw job_url =
    let lines : List Text = split_lines (re.strip_ansi raw) in
    let listed : kills (line_loop u re lines (first_state re job_url)).info
        ≡ (add_all re.kill_name lines [], add_all re.kill_pid lines []) =
      line_loop-kills u re lines (first_state re job_url)
      ∙ ap (λ k. (add_all re.kill_name lines k.0, add_all re.kill_pid lines k.1))
          (from_url-kills (re.url_parts job_url)) in
    subst (λ k. IsCaptured re.kill_name lines k.0 × IsCaptured re.kill_pid lines k.1) (sym listed)
      (add_all-IsCaptured re.kill_name lines, add_all-IsCaptured re.kill_pid lines)
