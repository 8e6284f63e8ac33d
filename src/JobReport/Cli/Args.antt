-- ===== src/JobReport/Cli/Args.antt =====
-- internal/jobreport/cli.go: flags on either side of the log's source.
use gitlab_procs_exporter.Prelude.{
  ◌≡◌, refl, ap, ◌∙◌, sym, false, List, [], ◌∷◌, ◌++◌, list_eq, nat_eq, list_beq, append_assoc,
  append-nil, All,
}
use gitlab_procs_exporter.Prelude.Text.{Text, codes, contains, has_prefix, cut_prefix}
use gitlab_procs_exporter.JobReport.Cli.{
  CliEnv, split_loop, split_positional, parse_flags, with_source, parse_args, default_config,
}

-- Flags as the command line has them: a name behind a dash, and its value as the next argument.
abbrev pub flags : List (Text × Text) → List Text
flags [] = []
flags ((name, v) ∷ pairs) = (b'-' ∷ name) ∷ (v ∷ flags pairs)

abbrev pub IsName : Text × Text → Type 0
IsName (name, v) = contains (b'-' ∷ name) (codes "=") ≡ false

split_loop-flags :
    (pairs : List (Text × Text)) (argv : List Text) (found : Text) (rest : List Text)
    → All IsName pairs
    → split_loop (flags pairs ++ argv) found rest ≡ split_loop argv found (rest ++ flags pairs)
unfolding split_loop has_prefix cut_prefix
split_loop-flags [] argv found rest h = ap (split_loop argv found) (sym (append-nil rest))
split_loop-flags ((name, v) ∷ pairs) argv found rest (hn, hs) = rw hn (
    split_loop-flags pairs argv found (rest ++ ((b'-' ∷ name) ∷ (v ∷ []))) hs
    ∙ ap (split_loop argv found) (append_assoc rest ((b'-' ∷ name) ∷ (v ∷ [])) (flags pairs)))

split_loop-source :
    (source : Text) (argv rest : List Text)
    → has_prefix source (codes "-") ≡ false
    → split_loop (source ∷ argv) [] rest ≡ split_loop argv source rest
unfolding split_loop list_beq
split_loop-source source [] rest bare = rw bare refl
split_loop-source source (v ∷ argv) rest bare = rw bare refl

split_flags :
    (before after : List (Text × Text)) (source : Text)
    → All IsName before
    → All IsName after
    → has_prefix source (codes "-") ≡ false
    → split_positional (flags before ++ (source ∷ flags after))
      ≡ (source, flags before ++ flags after)
unfolding split_positional
split_flags before after source hb ha bare =
    split_loop-flags before (source ∷ flags after) [] [] hb
    ∙ split_loop-source source (flags after) (flags before) bare
    ∙ ap (λ argv. split_loop argv source (flags before)) (sym (append-nil (flags after)))
    ∙ split_loop-flags after [] source (flags before) ha

pub split_flags_only :
    (pairs : List (Text × Text))
    → All IsName pairs
    → split_positional (flags pairs) ≡ ([], flags pairs)
unfolding split_positional split_loop
split_flags_only pairs h =
    ap (λ argv. split_loop argv [] []) (sym (append-nil (flags pairs)))
    ∙ split_loop-flags pairs [] [] [] h

-- Where a source that does not begin with a dash stands between flags makes no difference to what
-- the arguments mean: it is split off, and the flags before and behind it are read in their order.
pub parse_flags_either_side :
    (env : CliEnv) (before after : List (Text × Text)) (source : Text)
    → All IsName before
    → All IsName after
    → has_prefix source (codes "-") ≡ false
    → parse_flags env (flags before ++ (source ∷ flags after))
      ≡ with_source env source (parse_args env (flags before ++ flags after) (default_config env))
unfolding parse_flags
parse_flags_either_side env before after source hb ha bare =
    ap (λ p. with_source env p.0 (parse_args env p.1 (default_config env)))
      (split_flags before after source hb ha bare)
