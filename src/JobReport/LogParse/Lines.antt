-- ===== src/JobReport/LogParse/Lines.antt =====
-- internal/jobreport/logparse.go: one line of the log, and `parseJobLog`.
use gitlab_procs_exporter.Prelude.{
  ℕ, true, false, ◌&&◌, ◌||◌, Option, none, some, List, [], ◌∷◌, ◌++◌, ◌==◌, list_eq, nat_eq, ltb,
  leb, take, map, if◌then◌else◌,
}
use gitlab_procs_exporter.Prelude.Text.{Text, codes, Unicode, trim_space, contains}
use gitlab_procs_exporter.Prelude.Decimal.{format_nat}
use gitlab_procs_exporter.Prelude.Map.{Map, lookup, insert}
use gitlab_procs_exporter.JobReport.LogParse.{
  JobInfo, Patterns, LogState, parse_digits, if_empty, add_new, note_runner, note_executor,
  note_pod, note_job_id, note_minio, note_project, mark_loop,
}

abbrev code_or : Text → Option Text → Text
code_or old none = old
code_or old (some code) = code

abbrev pub note_fail : Unicode → Patterns → Option Text → JobInfo → JobInfo
note_fail u re none j = j
note_fail u re (some msg) j = record j {
  failed = true;
  fail_msg = trim_space u msg;
  exit_code = code_or j.exit_code (re.exit msg);
}

abbrev pub note_core : Option Text → JobInfo → JobInfo
note_core none j = j
note_core (some cmdline) j = record j { core_cmdline = if_empty j.core_cmdline cmdline }

abbrev pub note_kill_name : Option Text → JobInfo → JobInfo
note_kill_name none j = j
note_kill_name (some name) j = record j { killed_names = add_new name j.killed_names }

abbrev pub note_kill_pid : Option Text → JobInfo → JobInfo
note_kill_pid none j = j
note_kill_pid (some pid) j = record j { kill_pids = add_new pid j.kill_pids }

abbrev first_url : Text → Text → Map Text Text → Option Text → Map Text Text
first_url label url m none = insert label url m
first_url label url m (some old) = m

abbrev pub note_artifact : Option (Text × Text) → JobInfo → JobInfo
note_artifact none j = j
note_artifact (some (url, label)) j = record j {
  artifacts = first_url label url j.artifacts (lookup label j.artifacts);
}

abbrev pub new_frame : ℕ → Text → Option Text → LogState → LogState
new_frame n text none st = record st {
  frame_nums = st.frame_nums ++ (n ∷ []);
  frame_by_num = insert n text st.frame_by_num;
}
new_frame n text (some old) st = st

abbrev pub note_frame : Unicode → Option (Text × Text) → LogState → LogState
note_frame u none st = st
note_frame u (some (digits, text)) st =
    let n = parse_digits digits in new_frame n (trim_space u text) (lookup n st.frame_by_num) st

-- The part of a line's handling before the sections, on the info.
unfoldable pub note_head : Patterns → Text → JobInfo → JobInfo
note_head re ln j = note_project (re.project ln) (
    note_minio (re.minio ln) (
      note_job_id (re.job_id_url ln)
        (note_pod (re.pod ln) (note_executor (re.executor ln) (note_runner (re.runner ln) j)))))

-- The part behind the sections, up to the frames.
unfoldable pub note_failure : Unicode → Patterns → Text → JobInfo → JobInfo
unfolding trim_space contains
note_failure u re ln j =
    let j' = note_fail u re (re.fail ln) j in
    let killed = contains ln (codes "force-killing DS processes") in
    note_core (re.core ln) (record j' { crash_kill = killed || j'.crash_kill })

-- The part behind the frames.
unfoldable pub note_tail : Patterns → Text → JobInfo → JobInfo
unfolding lookup insert
note_tail re ln j =
    note_artifact (re.artifact ln)
      (note_kill_pid (re.kill_pid ln) (note_kill_name (re.kill_name ln) j))

abbrev pub on_info : (JobInfo → JobInfo) → LogState → LogState
on_info f st = record st { info = f st.info }

unfoldable pub line_step : Unicode → Patterns → Text → LogState → LogState
unfolding note_head mark_loop note_failure note_tail lookup insert trim_space parse_digits
line_step u re ln st = on_info (note_tail re ln) (
    note_frame u (re.frame (trim_space u ln))
      (on_info (note_failure u re ln) (mark_loop (re.sections ln) (on_info (note_head re ln) st))))

unfoldable pub line_loop : Unicode → Patterns → List Text → LogState → LogState
unfolding line_step
line_loop u re [] st = st
line_loop u re (ln ∷ lines) st = line_loop u re lines (line_step u re ln st)

abbrev onto_first : ℕ → List Text → List Text
onto_first c [] = (c ∷ []) ∷ []
onto_first c (l ∷ lines) = (c ∷ l) ∷ lines

-- strings.Split at newlines
unfoldable pub split_lines : Text → List Text
split_lines [] = [] ∷ []
split_lines (c ∷ s) = let rest = split_lines s in if c == 10 then [] ∷ rest else onto_first c rest

-- sort.Ints
unfoldable pub place_num : ℕ → List ℕ → List ℕ
place_num x [] = x ∷ []
place_num x (y ∷ ys) = let rest = place_num x ys in if leb x y then x ∷ (y ∷ ys) else y ∷ rest

unfoldable pub sort_ints : List ℕ → List ℕ
unfolding place_num
sort_ints [] = []
sort_ints (x ∷ xs) = place_num x (sort_ints xs)

abbrev text_of : Option Text → Text
text_of none = []
text_of (some t) = t

-- `fmt.Sprintf("#%d %s", n, frameByNum[n])`
abbrev pub frame_text : Map ℕ Text → ℕ → Text
frame_text m n = codes "#" ++ (format_nat n ++ (codes " " ++ text_of (lookup n m)))

-- The five frames with the lowest numbers.
unfoldable pub crash_frames : LogState → List Text
unfolding sort_ints lookup format_nat
crash_frames st = map (frame_text st.frame_by_num) (take 5 (sort_ints st.frame_nums))

abbrev pub blank : JobInfo
blank = record {
  job_id = [];
  trace_id = [];
  date = [];
  job_name = [];
  job_slug = [];
  pipeline = [];
  project = [];
  runner = [];
  shard = [];
  system_id = [];
  executor = [];
  pod = [];
  namespace = [];
  start_epoch = 0;
  end_epoch = 0;
  phases = [];
  failed = false;
  fail_msg = [];
  exit_code = [];
  crash_kill = false;
  core_cmdline = [];
  crash_frames = [];
  killed_names = [];
  kill_pids = [];
  artifacts = [];
}

abbrev pub from_url : Option (Text × Text × Text) → JobInfo → JobInfo
from_url none j = j
from_url (some (date, id, trace)) j = record j { date = date; job_id = id; trace_id = trace }

abbrev pub first_state : Patterns → Text → LogState
first_state re job_url = record {
  info = from_url (re.url_parts job_url) blank;
  phase_start = [];
  frame_nums = [];
  frame_by_num = [];
}

-- Behind the loop: the frames, and the date where the URL has none. `date_of` formats an instant as
-- 2006_01_02.
unfoldable pub finish_log : (ℕ → Text) → LogState → JobInfo
unfolding crash_frames
finish_log date_of st =
    let j = st.info in
    record j {
      crash_frames = crash_frames st;
      date = if j.date == [] && ltb 0 j.start_epoch then date_of j.start_epoch else j.date;
    }

unfoldable pub parse_job_log : Unicode → Patterns → (ℕ → Text) → Text → Text → JobInfo
unfolding line_loop split_lines finish_log
parse_job_log u re date_of raw job_url =
    finish_log date_of (line_loop u re (split_lines (re.strip_ansi raw)) (first_state re job_url))
