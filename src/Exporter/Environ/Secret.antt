-- ===== src/Exporter/Environ/Secret.antt =====
-- No byte of a sensitive value reaches the `environ` label.
use gitlab_procs_exporter.Prelude.{
  ◌≡◌, ◌⊎◌, inl, inr, refl, ap, ◌∙◌, sym, true, Option, List, [], ◌∷◌, ◌++◌, list_eq, nat_eq,
  if◌then◌else◌, ltb, take, length,
}
use gitlab_procs_exporter.Prelude.Text.{Text, codes, Unicode}
use gitlab_procs_exporter.Prelude.Map.{Map, lookup, keys}
use gitlab_procs_exporter.Prelude.Sort.{sort_strings}
use gitlab_procs_exporter.Exporter.Redact.{
  Floats, is_sensitive_pair, redacted, sanitize_label_value,
}
use gitlab_procs_exporter.Exporter.Label.{environ_trunc_marker}
use gitlab_procs_exporter.Exporter.Redact.Sanitize.{is_sensitive_pair-sanitize}
use gitlab_procs_exporter.Exporter.Environ.{
  max_environ_vars, max_environ_value_len, or_empty, shown_val, pair, Written, write_pair,
  scrub_loop, considered, scrub_environ,
}

module _ (u : Unicode) (fl : Floats) (extra : List Text) where
  -- The variable is sensitive with its value as the process has it.
  abbrev pub IsSensitive : Text → Option Text → Type 0
  IsSensitive k o = is_sensitive_pair u fl k (or_empty o) extra ≡ true

  -- Two environments that differ in the values of sensitive variables at most.
  abbrev pub DiffersInSecrets : Map Text Text → Map Text Text → Type 0
  DiffersInSecrets environ environ' =
      (keys environ ≡ keys environ')
      × ((k : Text)
          → (lookup k environ ≡ lookup k environ')
            ⊎ (IsSensitive k (lookup k environ) × IsSensitive k (lookup k environ')))

  shown_val_sensitive :
      (k v : Text)
      → is_sensitive_pair u fl k v extra ≡ true
      → shown_val u fl extra k (sanitize_label_value v) ≡ redacted
  unfolding shown_val
  shown_val_sensitive k v h =
      ap
        (λ b.
          if b
          then redacted
          else (if ltb max_environ_value_len (length (sanitize_label_value v))
              then environ_trunc_marker (sanitize_label_value v)
              else sanitize_label_value v))
        (is_sensitive_pair-sanitize u fl k v extra ∙ h)

  pair_sensitive :
      (k v : Text)
      → is_sensitive_pair u fl k v extra ≡ true
      → pair u fl extra k v ≡ sanitize_label_value k ++ (codes "=" ++ redacted)
  unfolding pair
  pair_sensitive k v h =
      ap (λ s. sanitize_label_value k ++ (codes "=" ++ s)) (shown_val_sensitive k v h)

  same_pair :
      (k : Text) (o o' : Option Text)
      → (o ≡ o') ⊎ (IsSensitive k o × IsSensitive k o')
      → pair u fl extra k (or_empty o) ≡ pair u fl extra k (or_empty o')
  same_pair k o o' (inl same) = ap (λ x. pair u fl extra k (or_empty x)) same
  same_pair k o o' (inr (h, h')) =
      pair_sensitive k (or_empty o) h ∙ sym (pair_sensitive k (or_empty o') h')

  same_loop :
      (environ environ' : Map Text Text)
      → DiffersInSecrets environ environ'
      → (ks : List Text) (w : Written)
      → scrub_loop u fl extra environ ks w ≡ scrub_loop u fl extra environ' ks w
  unfolding scrub_loop
  same_loop environ environ' d [] w = refl
  same_loop environ environ' d (k ∷ ks) w =
      ap (λ p. scrub_loop u fl extra environ ks (write_pair p w))
        (same_pair k (lookup k environ) (lookup k environ') (d.1 k))
      ∙ same_loop environ environ' d ks
          (write_pair (pair u fl extra k (or_empty (lookup k environ'))) w)

-- Two environments with the same names in the same order that differ in the values of sensitive
-- variables only give the same label and the same flag.
pub scrub_environ_hides :
    (u : Unicode) (fl : Floats) (extra : List Text) (environ environ' : Map Text Text)
    → DiffersInSecrets u fl extra environ environ'
    → scrub_environ u fl extra environ ≡ scrub_environ u fl extra environ'
unfolding scrub_environ
scrub_environ_hides u fl extra environ environ' d =
    same_loop u fl extra environ environ' d (considered environ) _
    ∙ ap
        (λ ks.
          scrub_loop u fl extra environ' (take max_environ_vars (sort_strings ks))
            ([], ltb max_environ_vars (length (sort_strings ks))))
        d.0
