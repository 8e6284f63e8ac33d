-- ===== src/JobReport/Meta.antt =====
-- internal/jobreport/meta.go: what the labels of a process say of its CI job.
pub mod Capture
pub mod Tests
use gitlab_procs_exporter.Prelude.{
  ℕ, Bool, true, false, not, ◌&&◌, Option, none, some, List, [], ◌∷◌, ◌++◌, ◌==◌, list_eq, nat_eq,
  leb, nat_beq, if◌then◌else◌,
}
use gitlab_procs_exporter.Prelude.Text.{Text, codes, cut_prefix, join}

pub record ProcMeta : Type 0 where
  pub cmdline : Text
  pub shard : Text
  pub job_id : Text
  pub worker_id : Text
  pub job_name : Text
  pub job_slug : Text
  pub pipeline : Text
  pub ref : Text
  pub project : Text

abbrev pub is_digit : ℕ → Bool
is_digit c = leb b'0' c && leb c b'9'

abbrev pub not_comma : ℕ → Bool
not_comma c = not (nat_beq c b',')

abbrev pub not_slash : ℕ → Bool
not_slash c = not (nat_beq c b'/')

-- The longest run of bytes of a class, and what is left behind it.
unfoldable pub span : (ℕ → Bool) → Text → Text × Text
span p [] = ([], [])
span p (c ∷ s) = let rest = span p s in if p c then (c ∷ rest.0, rest.1) else ([], c ∷ s)

-- A match needs at least one byte.
abbrev pub some_run : Text × Text → Option Text
some_run ([], rest) = none
some_run (c ∷ run, rest) = some (c ∷ run)

abbrev pub run_here : (ℕ → Bool) → Option Text → Option Text
run_here p none = none
run_here p (some rest) = some_run (span p rest)

abbrev pub or_later : Option Text → Option Text → Option Text
or_later none later = later
or_later (some found) later = some found

-- The first match of `lit([class]+)`: what the group captures.
unfoldable pub find_run : Text → (ℕ → Bool) → Text → Option Text
unfolding cut_prefix span
find_run lit p [] = run_here p (cut_prefix [] lit)
find_run lit p (c ∷ s) = or_later (run_here p (cut_prefix (c ∷ s) lit)) (find_run lit p s)

abbrev group_or_empty : Option Text → Text
group_or_empty none = []
group_or_empty (some found) = found

-- `cap1` of a pattern of that form
unfoldable pub cap1 : Text → (ℕ → Bool) → Text → Text
unfolding find_run
cap1 lit p s = group_or_empty (find_run lit p s)

-- The text behind a slash.
abbrev behind_slash : Text → Option Text
behind_slash [] = none
behind_slash (c ∷ s) = if nat_beq c b'/' then some s else none

abbrev slot_of : Text → Option Text → Text × Text → Option Text
slot_of host none run = none
slot_of host (some rest) ([], more) = none
slot_of host (some rest) (d ∷ slot, more) = elim (behind_slash more) [
  | none ↦ none
  | some end ↦ some (host ++ (b'/' ∷ (d ∷ slot)))
]

abbrev digits_of : Option Text → Text × Text
digits_of none = ([], [])
digits_of (some rest) = span is_digit rest

abbrev host_of : Text × Text → Option Text
host_of ([], rest) = none
host_of (c ∷ host, rest) = slot_of (c ∷ host) (behind_slash rest) (digits_of (behind_slash rest))

abbrev shard_here : Option Text → Option Text
shard_here none = none
shard_here (some rest) = host_of (span not_slash rest)

-- `reShard`: the first match of `builds/([^/]+/[0-9]+)/`
unfoldable pub find_shard : Text → Option Text
unfolding cut_prefix span
find_shard [] = none
find_shard (c ∷ s) = or_later (shard_here (cut_prefix (c ∷ s) (codes "builds/"))) (find_shard s)

-- `if a == "" { a = b }`
abbrev pub or_if_empty : Text → Text → Text
or_if_empty a b = if a == [] then b else a

unfoldable pub extract_meta : Text → Text → ProcMeta
unfolding cap1 find_shard
extract_meta cmdline environ = record {
  cmdline = cmdline;
  shard = group_or_empty (find_shard cmdline);
  job_id =
      or_if_empty (cap1 (codes "JOB_ID=") is_digit cmdline)
        (cap1 (codes "CI_JOB_ID=") is_digit environ);
  worker_id =
      or_if_empty (cap1 (codes "WORKER_ID=") is_digit cmdline)
        (cap1 (codes "WORKER_ID=") is_digit environ);
  job_name = cap1 (codes "CI_JOB_NAME=") not_comma environ;
  job_slug = cap1 (codes "CI_JOB_NAME_SLUG=") not_comma environ;
  pipeline = cap1 (codes "CI_PIPELINE_ID=") is_digit environ;
  ref = cap1 (codes "CI_COMMIT_REF_NAME=") not_comma environ;
  project = cap1 (codes "CI_PROJECT_NAME=") not_comma environ;
}

-- A part that is left out where its value is empty.
abbrev part : Text → Text → List Text
part label value = if value == [] then [] else (label ++ value) ∷ []

abbrev slug_or_name : ProcMeta → List Text
slug_or_name meta = if meta.job_slug == [] then part [] meta.job_name else meta.job_slug ∷ []

unfoldable pub join_comma : List Text → Text
unfolding join
join_comma parts = join parts (codes ", ")

unfoldable pub job_col : ProcMeta → Text
unfolding join_comma
job_col meta = join_comma (
    part [] meta.shard
    ++ (part (codes "JOB_ID=") meta.job_id
        ++ (part (codes "WORKER_ID=") meta.worker_id ++ slug_or_name meta)))

-- The text up to the first space.
unfoldable pub until_space : Text → Text
until_space [] = []
until_space (c ∷ s) = let rest = until_space s in if nat_beq c 32 then [] else c ∷ rest

-- The text behind the last slash, where there is one.
unfoldable pub behind_last_slash : Text → Option Text
behind_last_slash [] = none
behind_last_slash (c ∷ s) = or_later (behind_last_slash s) (if nat_beq c b'/' then some s else none)

abbrev pub or_whole : Text → Option Text → Text
or_whole tok none = tok
or_whole tok (some base) = base

unfoldable pub first_tok : Text → Text
unfolding until_space behind_last_slash
first_tok cmdline = or_whole (until_space cmdline) (behind_last_slash (until_space cmdline))
