-- ===== src/JobReport/Cli/Tests.antt =====
-- Runs of the arguments and the window at concrete inputs, and instances of their theorems.
use gitlab_procs_exporter.Prelude.{
  ◌*◌, ◌≡◌, refl, false, List, [], ◌∷◌, ◌++◌, arith, list_eq, nat_eq, none, if◌then◌else◌,
}
use gitlab_procs_exporter.Prelude.Int.{pos, int_leb, sub_ℕ}
use gitlab_procs_exporter.Prelude.Text.{Text, codes, contains, has_prefix, cut_prefix}
use gitlab_procs_exporter.Prelude.Decimal.{format_int, format_nat}
use gitlab_procs_exporter.JobReport.Cli.{
  CliEnv, parse_flags, with_source, parse_args, default_config,
}
use gitlab_procs_exporter.JobReport.Cli.Args.{flags, parse_flags_either_side}
use gitlab_procs_exporter.JobReport.Cli.Window.{
  window, refused, not_after, parse_window, parse_window-format_int, parse_window_relative,
}

abbrev no_env : CliEnv
no_env = record { getenv = λ key. []; is_file = λ path. false; now = pos 0; flag_int = λ s. none }

parse_window-format_int_example :
    parse_window
      (pos 0)
      (format_int (pos 1_700_000_000) ++ (codes ".." ++ format_int (pos 1_700_000_600)))
    ≡ (if int_leb (pos 1_700_000_600) (pos 1_700_000_000)
        then refused not_after
        else window (pos 1_700_000_000) (pos 1_700_000_600))
parse_window-format_int_example =
    parse_window-format_int (pos 0) (pos 1_700_000_000) (pos 1_700_000_600) (omega arith)
      (omega arith)

ten_minutes :
    parse_window (pos 1_700_000_600) (format_nat 10 ++ (b'm' ∷ []))
    ≡ window (sub_ℕ 1_700_000_600 (10 * 60)) (pos 1_700_000_600)
ten_minutes =
    parse_window_relative 1_700_000_600 10 b'm' 60 refl (omega arith) (omega arith) (omega arith)

abbrev prom_flag : List (Text × Text)
prom_flag = (codes "prom", codes "http://p") ∷ []

abbrev top_flag : List (Text × Text)
top_flag = (codes "top", codes "3") ∷ []

names_prom : contains (codes "-prom") (codes "=") ≡ false
unfolding contains has_prefix cut_prefix
names_prom = refl

names_top : contains (codes "-top") (codes "=") ≡ false
unfolding contains has_prefix cut_prefix
names_top = refl

bare_source : has_prefix (codes "http://log") (codes "-") ≡ false
unfolding has_prefix cut_prefix
bare_source = refl

parse_flags_either_side_example :
    parse_flags no_env (flags prom_flag ++ (codes "http://log" ∷ flags top_flag))
    ≡ with_source no_env
        (codes "http://log")
        (parse_args no_env (flags prom_flag ++ flags top_flag) (default_config no_env))
parse_flags_either_side_example =
    parse_flags_either_side no_env prom_flag top_flag (codes "http://log") (names_prom, tt)
      (names_top, tt) bare_source
