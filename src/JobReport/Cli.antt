-- ===== src/JobReport/Cli.antt =====
-- internal/jobreport/cli.go: the arguments, the window and the choice of the node.
pub mod Args
pub mod Window
pub mod Tests
use gitlab_procs_exporter.Prelude.{
  ℕ, zero, suc, ◌+◌, Bool, true, false, not, ◌&&◌, ◌||◌, Option, none, some, List, [], ◌∷◌, ◌++◌,
  ◌==◌, list_eq, nat_eq, if◌then◌else◌,
}
use gitlab_procs_exporter.Prelude.Int.{
  ℤ, pos, int_leb, int_ltb, int_sub, int_scale, int_over, wrap_int64,
}
use gitlab_procs_exporter.Prelude.Text.{Text, codes, contains, has_prefix, cut_prefix, cut}
use gitlab_procs_exporter.Prelude.Decimal.{parse_int}

pub record CliConfig : Type 0 where
  pub prom_url : Text
  pub proc : Text
  pub node : Text
  pub window : Text
  pub top_n : ℤ
  pub job_url : Text
  pub job_id : Text

-- The environment, the file system, the clock in seconds, and how `flag` reads an int.
pub record CliEnv : Type 0 where
  pub getenv : Text → Text
  pub is_file : Text → Bool
  pub now : ℤ
  pub flag_int : Text → Option ℤ

unfoldable pub env_or : CliEnv → Text → Text → Text
env_or env key default = let v = env.getenv key in if v == [] then default else v

abbrev int_or : ℤ → Option ℤ → ℤ
int_or default none = default
int_or default (some n) = n

unfoldable pub env_int : CliEnv → Text → ℤ → ℤ
unfolding parse_int
env_int env key default =
    let v = env.getenv key in if v == [] then default else int_or default (parse_int v)

abbrev is_flag : Text → Bool
is_flag a = has_prefix a (codes "-")

-- The loop of `splitPositional`; a flag without `=` takes the next argument along.
unfoldable pub split_loop : List Text → Text → List Text → Text × List Text
unfolding has_prefix contains
split_loop [] found rest = (found, rest)
split_loop (a ∷ []) found rest =
    if is_flag a || not (found == []) then (found, rest ++ (a ∷ [])) else (a, rest)
split_loop (a ∷ (v ∷ argv)) found rest = elim (is_flag a) [
  | true ↦ elim (contains a (codes "=")) [
    | true ↦ split_loop (v ∷ argv) found (rest ++ (a ∷ []))
    | false ↦ split_loop argv found (rest ++ (a ∷ (v ∷ [])))
  ]
  | false ↦
      split_loop (v ∷ argv) (if found == [] then a else found)
        (if found == [] then rest else rest ++ (a ∷ []))
]

unfoldable pub split_positional : List Text → Text × List Text
unfolding split_loop
split_positional argv = split_loop argv [] []

pub data FlagsResult : Type 0 where
  ok : CliConfig → FlagsResult
  help bad_flags : FlagsResult

-- What package flag reads an argument as: none of its flags, a bad one, or a name with its value.
pub data Arg : Type 0 where
  stop bad : Arg
  named : Text → Option Text → Arg

abbrev named_by : Text → Option (Text × Text) → Arg
named_by name none = named name none
named_by name (some (before, value)) = named before (some value)

abbrev first_named : ℕ → Option (Text × Text) → Option (Text × Text)
first_named c none = none
first_named c (some (before, value)) = some (c ∷ before, value)

unfoldable pub name_of : Text → Arg
unfolding cut
name_of [] = stop
name_of (c ∷ s) =
    if c == b'-' || c == b'=' then bad else named_by (c ∷ s) (first_named c (cut s (codes "=")))

unfoldable pub arg_of : Text → Arg
unfolding name_of
arg_of [] = stop
arg_of (c ∷ []) = stop
arg_of (c ∷ (d ∷ s)) =
    if c == b'-' then (if d == b'-' then name_of s else name_of (d ∷ s)) else stop

abbrev set_top : CliConfig → Option ℤ → FlagsResult
set_top cfg none = bad_flags
set_top cfg (some n) = ok (record cfg { top_n = n })

abbrev undefined : Text → FlagsResult
undefined name = if name == codes "help" || name == codes "h" then help else bad_flags

-- The flags that `parseFlags` declares.
unfoldable pub set_flag : CliEnv → Text → Text → CliConfig → FlagsResult
set_flag env name v cfg =
    if name == codes "prom"
    then ok (record cfg { prom_url = v })
    else if name == codes "proc"
    then ok (record cfg { proc = v })
    else if name == codes "node"
    then ok (record cfg { node = v })
    else if name == codes "window"
    then ok (record cfg { window = v })
    else if name == codes "top"
    then set_top cfg (env.flag_int v)
    else if name == codes "url"
    then ok (record cfg { job_url = v })
    else if name == codes "job-id"
    then ok (record cfg { job_id = v })
    else undefined name

abbrev last_arg : CliEnv → Arg → CliConfig → FlagsResult
last_arg env stop cfg = ok cfg
last_arg env bad cfg = bad_flags
last_arg env (named name (some v)) cfg = set_flag env name v cfg
last_arg env (named name none) cfg = undefined name

-- `fs.Parse`
unfoldable pub parse_args : CliEnv → List Text → CliConfig → FlagsResult
unfolding arg_of set_flag
parse_args env [] cfg = ok cfg
parse_args env (s ∷ []) cfg = last_arg env (arg_of s) cfg
parse_args env (s ∷ (v ∷ argv)) cfg = elim (arg_of s) [
  | stop ↦ ok cfg
  | bad ↦ bad_flags
  | named name (some x) ↦ elim (set_flag env name x cfg) [
    | ok cfg' ↦ parse_args env (v ∷ argv) cfg'
    | help ↦ help
    | bad_flags ↦ bad_flags
  ]
  | named name none ↦ elim (set_flag env name v cfg) [
    | ok cfg' ↦ parse_args env argv cfg'
    | help ↦ help
    | bad_flags ↦ bad_flags
  ]
]

abbrev without_file_scheme : Text → Text
without_file_scheme arg = elim (cut_prefix arg (codes "file://")) [ none ↦ arg | some p ↦ p ]

unfoldable pub is_local_file : CliEnv → Text → Bool
unfolding cut_prefix
is_local_file env arg = env.is_file (without_file_scheme arg)

-- The values before the flags are read.
unfoldable pub default_config : CliEnv → CliConfig
unfolding env_or env_int
default_config env = record {
  prom_url = env_or env (codes "PROMETHEUS_URL") (codes "http://localhost:9090");
  proc = env_or env (codes "JOBREPORT_PROC") (codes "all");
  node = env_or env (codes "JOBREPORT_NODE") (codes "all");
  window = env_or env (codes "JOBREPORT_WINDOW") (codes "10m");
  top_n = env_int env (codes "JOBREPORT_TOP") (pos 5);
  job_url = env.getenv (codes "JOBREPORT_URL");
  job_id = env.getenv (codes "CI_JOB_ID");
}

unfoldable pub with_source : CliEnv → Text → FlagsResult → FlagsResult
unfolding has_prefix is_local_file
with_source env source help = help
with_source env source bad_flags = bad_flags
with_source env source (ok cfg) =
    if cfg.job_url == [] && (has_prefix source (codes "http") || is_local_file env source)
    then ok (record cfg { job_url = source })
    else ok cfg

unfoldable pub parse_flags : CliEnv → List Text → FlagsResult
unfolding split_positional parse_args default_config with_source
parse_flags env argv =
    with_source env (split_positional argv).0
      (parse_args env (split_positional argv).1 (default_config env))
