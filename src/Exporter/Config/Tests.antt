-- ===== src/Exporter/Config/Tests.antt =====
-- Runs of the configuration at concrete inputs, and instances of its theorems.
use gitlab_procs_exporter.Prelude.{
  ◌≡◌, ◌≢◌, ◌↔◌, refl, true, none, some, [], ◌∷◌, list_eq, nat_eq, list_beq,
}
use gitlab_procs_exporter.Prelude.Int.{ℤ, pos}
use gitlab_procs_exporter.Prelude.Text.{Text, codes}
use gitlab_procs_exporter.Prelude.Map.{Map, lookup, insert}
use gitlab_procs_exporter.Prelude.Sort.{text_leb}
use gitlab_procs_exporter.Exporter.Samples.{ascii_only}
use gitlab_procs_exporter.Exporter.Label.{max_label_bytes, merged_max_label_bytes}
use gitlab_procs_exporter.Exporter.Label.Limits.{is_allowed}
use gitlab_procs_exporter.Exporter.Config.{
  YamlScalar, int, uint64, other, Config, below_marker, not_integer, ok, err, unmarshal_yaml,
  validate_max_label_bytes, Files, load_config,
}
use gitlab_procs_exporter.Exporter.Config.Validate.{
  error_of, validate_max_label_bytes_least, validate_max_label_bytes_iff,
}
use gitlab_procs_exporter.Exporter.Config.Loaded.{load_config_applies_limits}

abbrev raw_limits : Map Text YamlScalar
raw_limits = (codes "name", int (pos 200)) ∷ (codes "cmdline", uint64 300) ∷ []

abbrev limits : Map Text ℤ
limits = (codes "cmdline", pos 300) ∷ (codes "name", pos 200) ∷ []

decoded : unmarshal_yaml raw_limits ≡ ok limits
unfolding unmarshal_yaml list_beq lookup insert
decoded = refl

not_a_number :
    unmarshal_yaml ((codes "name", other (codes "big")) ∷ []) ≡ err (not_integer (codes "name"))
unfolding unmarshal_yaml list_beq lookup insert
not_a_number = refl

-- Two labels with an error: that of the lesser one is reported.
abbrev bad_limits : Map Text ℤ
bad_limits = (codes "name", pos 0) ∷ (codes "cmdline", pos 9) ∷ []

rejected : validate_max_label_bytes bad_limits ≡ some (below_marker (codes "cmdline") (pos 9))
unfolding validate_max_label_bytes list_beq lookup insert
rejected = refl

validate_max_label_bytes_least_example :
    (name : Text) × (lookup name bad_limits ≢ none)
    × (error_of bad_limits name ≡ some (below_marker (codes "cmdline") (pos 9)))
    × ((j : Text)
        → lookup j bad_limits ≢ none
        → error_of bad_limits j ≢ none
        → text_leb name j ≡ true)
validate_max_label_bytes_least_example =
    validate_max_label_bytes_least bad_limits (below_marker (codes "cmdline") (pos 9)) rejected

validate_max_label_bytes_iff_example : (validate_max_label_bytes limits ≡ none) ↔ (
    (name : Text) (limit : ℤ)
    → lookup name limits ≡ some limit
    → (lookup name max_label_bytes ≢ none) × (is_allowed limit ≡ true))
validate_max_label_bytes_iff_example = validate_max_label_bytes_iff limits

abbrev one_file : Files
one_file = record {
  read_file = λ path. some [];
  unmarshal_strict = λ text. some (record {
    redact_key_substrings = codes " My_ " ∷ codes "  " ∷ [];
    max_label_bytes = raw_limits;
  });
}

abbrev loaded_config : Config
loaded_config = record { redact_key_substrings = codes "my_" ∷ []; max_label_bytes = limits }

loaded : load_config ascii_only one_file (codes "config.yml") ≡ ok loaded_config
unfolding load_config list_beq lookup insert
loaded = refl

found : lookup (codes "name") limits ≡ some (pos 200)
unfolding lookup list_beq
found = refl

load_config_applies_limits_example :
    lookup (codes "name") (merged_max_label_bytes limits) ≡ some (pos 200)
load_config_applies_limits_example =
    load_config_applies_limits ascii_only one_file (codes "config.yml") (codes "name") loaded_config
      (pos 200) loaded found
