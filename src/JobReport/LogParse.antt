-- ===== src/JobReport/LogParse.antt =====
-- internal/jobreport/logparse.go: what a job's log says, line by line.
pub mod Sections
pub mod Lines
pub mod Whole
pub mod Listed
pub mod Kills
pub mod Tests
use gitlab_procs_exporter.Prelude.{
  ℕ, ◌-◌, ◌^◌, Bool, false, ◌||◌, Option, none, some, List, [], ◌∷◌, ◌++◌, ◌==◌, list_eq, nat_eq,
  ltb, if◌then◌else◌,
}
use gitlab_procs_exporter.Prelude.Text.{
  Text, codes, Unicode, trim_space, contains, has_prefix, cut_prefix,
}
use gitlab_procs_exporter.Prelude.Decimal.{format_nat, value}
use gitlab_procs_exporter.Prelude.Map.{Map, lookup, insert, delete}

pub record Phase : Type 0 where
  pub name : Text
  pub start : ℕ
  pub end : ℕ

pub record JobInfo : Type 0 where
  pub job_id : Text
  pub trace_id : Text
  pub date : Text
  pub job_name : Text
  pub job_slug : Text
  pub pipeline : Text
  pub project : Text
  pub runner : Text
  pub shard : Text
  pub system_id : Text
  pub executor : Text
  pub pod : Text
  pub namespace : Text
  pub start_epoch : ℕ
  pub end_epoch : ℕ
  pub phases : List Phase
  pub failed : Bool
  pub fail_msg : Text
  pub exit_code : Text
  pub crash_kill : Bool
  pub core_cmdline : Text
  pub crash_frames : List Text
  pub killed_names : List Text
  pub kill_pids : List Text
  pub artifacts : Map Text Text

-- A marker `section_start:1700000000:name` or `section_end:1700000000:name`.
pub record Mark : Type 0 where
  pub starts : Bool
  pub digits : Text
  pub name : Text

-- Package regexp: what the groups of each pattern capture in a text, if it matches.
pub record Patterns : Type 0 where
  pub strip_ansi : Text → Text
  pub url_parts : Text → Option (Text × Text × Text)
  pub runner : Text → Option (Text × Text × Text)
  pub executor : Text → Option Text
  pub pod : Text → Option (Text × Text)
  pub job_id_url : Text → Option Text
  pub minio : Text → Option (Text × Text × Text)
  pub project : Text → Option (Text × Text)
  pub sections : Text → List Mark
  pub fail : Text → Option Text
  pub exit : Text → Option Text
  pub core : Text → Option Text
  pub frame : Text → Option (Text × Text)
  pub kill_name : Text → Option Text
  pub kill_pid : Text → Option Text
  pub artifact : Text → Option (Text × Text)

-- What the loop keeps: the info so far, the sections that have begun, and the frames.
pub record LogState : Type 0 where
  pub info : JobInfo
  pub phase_start : Map Text ℕ
  pub frame_nums : List ℕ
  pub frame_by_num : Map ℕ Text

-- `Duration`
unfoldable pub duration : JobInfo → ℕ
duration j = if ltb j.start_epoch j.end_epoch then j.end_epoch - j.start_epoch else 0

-- `localPath`: the path, where the source is a local file.
unfoldable pub local_path : Text → Option Text
unfolding cut_prefix has_prefix
local_path src = elim (cut_prefix src (codes "file://")) [
  | some p ↦ some p
  | none ↦
      if has_prefix src (codes "http://") || has_prefix src (codes "https://")
      then none
      else some src
]

-- strconv.ParseInt and Atoi of digits, the error ignored: the largest value where they do not fit.
unfoldable pub parse_digits : Text → ℕ
unfolding value
parse_digits s = if ltb (value 0 s) (2 ^ 63) then value 0 s else 2 ^ 63 - 1

abbrev pub if_empty : Text → Text → Text
if_empty old new = if old == [] then new else old

unfoldable pub is_listed : Text → List Text → Bool
is_listed v [] = false
is_listed v (x ∷ xs) = x == v || is_listed v xs

abbrev pub add_new : Text → List Text → List Text
add_new v xs = if is_listed v xs then xs else xs ++ (v ∷ [])

abbrev note_runner : Option (Text × Text × Text) → JobInfo → JobInfo
note_runner none j = j
note_runner (some (runner, shard, id)) j = record j {
  runner = runner;
  shard = shard;
  system_id = id;
}

abbrev note_executor : Option Text → JobInfo → JobInfo
note_executor none j = j
note_executor (some executor) j = record j { executor = if_empty j.executor executor }

abbrev note_pod : Option (Text × Text) → JobInfo → JobInfo
note_pod none j = j
note_pod (some (namespace, pod)) j = record j {
  namespace = if j.pod == [] then namespace else j.namespace;
  pod = if_empty j.pod pod;
}

abbrev note_job_id : Option Text → JobInfo → JobInfo
note_job_id none j = j
note_job_id (some id) j = record j { job_id = if_empty j.job_id id }

abbrev note_minio : Option (Text × Text × Text) → JobInfo → JobInfo
note_minio none j = j
note_minio (some (pipeline, slug, id)) j = record j {
  pipeline = pipeline;
  job_slug = slug;
  job_id = if_empty j.job_id id;
}

abbrev note_project : Option (Text × Text) → JobInfo → JobInfo
note_project none j = j
note_project (some (group, project)) j = record j {
  project = if_empty j.project (group ++ (codes "/" ++ project));
}

-- `if j.StartEpoch == 0 || ep < j.StartEpoch`, `if ep > j.EndEpoch`
abbrev note_epoch : ℕ → JobInfo → JobInfo
note_epoch ep j = record j {
  start_epoch = if j.start_epoch == 0 || ltb ep j.start_epoch then ep else j.start_epoch;
  end_epoch = if ltb j.end_epoch ep then ep else j.end_epoch;
}

abbrev end_phase : Text → ℕ → Option ℕ → LogState → LogState
end_phase name ep none st = st
end_phase name ep (some start) st = record st {
  info = record (st.info) {
    phases = st.info.phases ++ (record { name = name; start = start; end = ep } ∷ []);
  };
  phase_start = delete name st.phase_start;
}

unfoldable pub mark_step : Mark → LogState → LogState
unfolding parse_digits lookup insert delete
mark_step m st =
    let ep = parse_digits m.digits in
    let st' : LogState = record st { info = note_epoch ep st.info } in
    if m.starts
    then record st' { phase_start = insert m.name ep st.phase_start }
    else end_phase m.name ep (lookup m.name st.phase_start) st'

unfoldable pub mark_loop : List Mark → LogState → LogState
unfolding mark_step
mark_loop [] st = st
mark_loop (m ∷ marks) st = mark_loop marks (mark_step m st)
