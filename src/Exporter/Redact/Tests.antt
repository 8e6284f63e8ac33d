-- ===== src/Exporter/Redact/Tests.antt =====
-- Runs of the redaction at concrete inputs, and instances of its theorems.
use gitlab_procs_exporter.Prelude.{◌≡◌, refl, true, [], ◌∷◌, ◌++◌, list_eq, nat_eq, list_beq}
use gitlab_procs_exporter.Prelude.Text.{Text, codes}
use gitlab_procs_exporter.Prelude.Map.{Map, lookup, IsDistinct}
use gitlab_procs_exporter.Exporter.Samples.{ascii_only, whole_numbers}
use gitlab_procs_exporter.Exporter.Redact.{
  sanitize_label_value, is_sensitive_pair, redacted, redact_environ,
}
use gitlab_procs_exporter.Exporter.Redact.Sanitize.{is_sensitive_pair-sanitize}

-- A token with an invalid byte behind it.
abbrev torn_token : Text
torn_token = codes "glpat-" ++ (255 ∷ [])

torn_token_is_sensitive :
    is_sensitive_pair ascii_only whole_numbers (codes "NOTE") torn_token [] ≡ true
unfolding is_sensitive_pair list_beq
torn_token_is_sensitive = refl

is_sensitive_pair-sanitize_example :
    is_sensitive_pair ascii_only whole_numbers (codes "NOTE") (sanitize_label_value torn_token) []
    ≡ is_sensitive_pair ascii_only whole_numbers (codes "NOTE") torn_token []
is_sensitive_pair-sanitize_example =
    is_sensitive_pair-sanitize ascii_only whole_numbers (codes "NOTE") torn_token []

abbrev environ : Map Text Text
environ = (codes "HOME", codes "/root") ∷ (codes "MY_THING", codes "abc") ∷ []

environ-IsDistinct : IsDistinct environ
unfolding lookup list_beq
environ-IsDistinct = (refl, (refl, tt))

configured :
    redact_environ ascii_only whole_numbers environ (codes "my_" ∷ [])
    ≡ (codes "HOME", codes "/root") ∷ (codes "MY_THING", redacted) ∷ []
unfolding redact_environ list_beq
configured = refl
