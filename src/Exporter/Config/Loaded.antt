-- ===== src/Exporter/Config/Loaded.antt =====
-- What a configuration that was loaded does to the table of limits.
use gitlab_procs_exporter.Prelude.{
  ◌≡◌, ◌≢◌, refl, sym, ap, subst, ◌∙◌, true, Option, none, some, List, [], ◌∷◌, arith, All, eq_iff,
  list_eq, nat_eq,
}
use gitlab_procs_exporter.Prelude.Int.{ℤ}
use gitlab_procs_exporter.Prelude.Text.{Text, Unicode, to_lower, trim_space}
use gitlab_procs_exporter.Prelude.Map.{lookup}
use gitlab_procs_exporter.Exporter.Label.{max_label_bytes, merged_max_label_bytes}
use gitlab_procs_exporter.Exporter.Label.Limits.{
  is_allowed, effective, lookup-merged_max_label_bytes,
}
use gitlab_procs_exporter.Exporter.Config.{
  RawConfig, Config, ConfigError, ok, read_config, parse_config, >>=-eq-ok, Files, or_error, reject,
  load_config, unmarshal_yaml, normalize_substrings, validate_max_label_bytes,
}
use gitlab_procs_exporter.Exporter.Config.Decode.{unmarshal_yaml-lookup}
use gitlab_procs_exporter.Exporter.Config.Validate.{validate_max_label_bytes_iff}

-- A limit that is allowed for a label of the contract is the effective one.
effective-allowed :
    (default override : Option ℤ) (limit : ℤ)
    → default ≢ none
    → is_allowed limit ≡ true
    → override ≡ some limit
    → effective default override ≡ some limit
effective-allowed none override limit known fits h = absurd (known refl)
effective-allowed (some d) none limit known fits h = cc
effective-allowed (some d) (some l) limit known fits h = ground arith

reject-eq-ok :
    (o : Option ConfigError) (cfg : Config) {cfg' : Config}
    → reject o cfg ≡ ok cfg'
    → (o ≡ none) × (cfg ≡ cfg')
unfolding reject
reject-eq-ok none cfg h = (refl, cc)
reject-eq-ok (some e) cfg h = cc

-- The parts that a configuration that was loaded is made of.
load_config-eq-ok :
    (u : Unicode) (files : Files) (path : Text) {cfg : Config}
    → load_config u files path ≡ ok cfg
    → (raw : RawConfig) × (unmarshal_yaml raw.max_label_bytes ≡ ok cfg.max_label_bytes)
      × (normalize_substrings u raw.redact_key_substrings ≡ cfg.redact_key_substrings)
      × (validate_max_label_bytes cfg.max_label_bytes ≡ none)
unfolding load_config
load_config-eq-ok u files path {cfg} h =
    let (text, read, h1) = >>=-eq-ok (or_error (read_config path) (files.read_file path)) _ h in
    let (raw, parsed, h2) =
      >>=-eq-ok (or_error (parse_config path) (files.unmarshal_strict text)) _ h1 in
    let (limits, decoded, h3) = >>=-eq-ok (unmarshal_yaml raw.max_label_bytes) _ h2 in
    let (passed, same) = reject-eq-ok (validate_max_label_bytes limits) _ h3 in
    (
      raw,
      decoded ∙ ap (λ c. ok c.max_label_bytes) same,
      ap (λ c. c.redact_key_substrings) same,
      ap (λ c. validate_max_label_bytes c.max_label_bytes) (sym same) ∙ passed,
    )

-- No limit of a configuration that was loaded is ignored or changed: each one is the limit of its
-- label in the effective table.
pub load_config_applies_limits :
    (u : Unicode) (files : Files) (path name : Text) (cfg : Config) (limit : ℤ)
    → load_config u files path ≡ ok cfg
    → lookup name cfg.max_label_bytes ≡ some limit
    → lookup name (merged_max_label_bytes cfg.max_label_bytes) ≡ some limit
load_config_applies_limits u files path name cfg limit loaded h =
    let (raw, decoded, _, passed) = load_config-eq-ok u files path loaded in
    let (known, fits) = (validate_max_label_bytes_iff cfg.max_label_bytes).0 passed name limit h in
    lookup-merged_max_label_bytes name cfg.max_label_bytes
      (unmarshal_yaml-lookup raw.max_label_bytes decoded).0
    ∙ effective-allowed (lookup name max_label_bytes) (lookup name cfg.max_label_bytes) limit known
        fits h

normalize_substrings-nonempty :
    (u : Unicode) (xs : List Text) → All (λ s. s ≢ []) (normalize_substrings u xs)
unfolding normalize_substrings
normalize_substrings-nonempty u [] = tt
normalize_substrings-nonempty u (x ∷ xs) =
    ground (arith, eq_iff (to_lower u (trim_space u x)) [], normalize_substrings-nonempty u xs)

-- No redaction substring of a configuration that was loaded is empty.
pub load_config_substrings_nonempty :
    (u : Unicode) (files : Files) (path : Text) (cfg : Config)
    → load_config u files path ≡ ok cfg
    → All (λ s. s ≢ []) cfg.redact_key_substrings
load_config_substrings_nonempty u files path cfg loaded =
    let (raw, _, normalized, _) = load_config-eq-ok u files path loaded in
    subst (All (λ s. s ≢ [])) normalized (normalize_substrings-nonempty u raw.redact_key_substrings)
