-- ===== src/Exporter/Environ/Tests.antt =====
-- Runs of the scrubbing at concrete inputs, and instances of its theorems.
use gitlab_procs_exporter.Prelude.{
  ◌≤◌, ◌≡◌, inl, inr, refl, false, ◌||◌, some, [], ◌∷◌, ◌==◌, eq_iff, list_eq, nat_eq, list_beq,
  ltb, length, Bool-cases, subst,
}
use gitlab_procs_exporter.Prelude.Text.{Text, codes, join}
use gitlab_procs_exporter.Prelude.Map.{Map, lookup, keys}
use gitlab_procs_exporter.Exporter.Label.{max_environ_bytes}
use gitlab_procs_exporter.Exporter.Samples.{ascii_only, whole_numbers}
use gitlab_procs_exporter.Exporter.Redact.{is_sensitive_pair}
use gitlab_procs_exporter.Exporter.Environ.{considered, max_environ_vars, scrub_environ}
use gitlab_procs_exporter.Exporter.Environ.Bound.{length-scrub_environ}
use gitlab_procs_exporter.Exporter.Environ.Complete.{pairs, scrub_environ_lem}
use gitlab_procs_exporter.Exporter.Environ.Secret.{
  IsSensitive, DiffersInSecrets, scrub_environ_hides,
}

abbrev with_token : Text → Map Text Text
with_token token = (codes "API_TOKEN", token) ∷ (codes "CI_JOB_NAME", codes "build") ∷ []

scrubbed :
    scrub_environ ascii_only whole_numbers [] (with_token (codes "abc"))
    ≡ (codes "API_TOKEN=[REDACTED], CI_JOB_NAME=build", false)
unfolding scrub_environ list_beq
scrubbed = refl

length-scrub_environ_example :
    length (scrub_environ ascii_only whole_numbers [] (with_token (codes "abc"))).0
    ≤ max_environ_bytes
length-scrub_environ_example =
    length-scrub_environ ascii_only whole_numbers [] (with_token (codes "abc"))

scrub_environ_lem_example :
    let environ = with_token (codes "abc") in
    let (label, truncated) = scrub_environ ascii_only whole_numbers [] environ in
    let complete =
      join (pairs ascii_only whole_numbers [] environ (considered environ)) (codes ", ") in
    (truncated
      ≡ (ltb max_environ_vars (length (keys environ)) || ltb max_environ_bytes (length complete)))
    × (truncated ≡ false → label ≡ complete)
scrub_environ_lem_example = scrub_environ_lem ascii_only whole_numbers [] (with_token (codes "abc"))

sensitive :
    (token : Text) → IsSensitive ascii_only whole_numbers [] (codes "API_TOKEN") (some token)
unfolding is_sensitive_pair
sensitive token = refl

found : (token : Text) → lookup (codes "API_TOKEN") (with_token token) ≡ some token
unfolding lookup list_beq
found token = refl

token-IsSensitive :
    (k token : Text)
    → codes "API_TOKEN" ≡ k
    → IsSensitive ascii_only whole_numbers [] k (lookup k (with_token token))
token-IsSensitive k token e =
    subst (λ j. IsSensitive ascii_only whole_numbers [] j (lookup j (with_token token))) e
      (rw (found token) (sensitive token))

two_tokens :
    DiffersInSecrets ascii_only whole_numbers []
      (with_token (codes "abc"))
      (with_token (codes "of another length"))
unfolding lookup
two_tokens = (
  refl,
  λ k. elim (Bool-cases (codes "API_TOKEN" == k)) [
    | inl same ↦
        let e = (eq_iff (codes "API_TOKEN") k).0 same in
        inr (token-IsSensitive k (codes "abc") e, token-IsSensitive k (codes "of another length") e)
    | inr other ↦ inl (rw other refl)
  ],
)

scrub_environ_hides_example :
    scrub_environ ascii_only whole_numbers [] (with_token (codes "abc"))
    ≡ scrub_environ ascii_only whole_numbers [] (with_token (codes "of another length"))
scrub_environ_hides_example =
    scrub_environ_hides ascii_only whole_numbers [] (with_token (codes "abc"))
      (with_token (codes "of another length")) two_tokens
