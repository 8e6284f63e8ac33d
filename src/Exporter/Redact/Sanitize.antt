-- ===== src/Exporter/Redact/Sanitize.antt =====
-- The label and the JSON API agree on what is a secret: one tests the value as the process has it,
-- the other once its invalid bytes are replaced.
use gitlab_procs_exporter.Prelude.{
  ℕ, ◌≤◌, ◌<◌, ◌≡◌, refl, sym, ◌∙◌, Bool, true, false, List, [], ◌∷◌, arith, All, ◌==◌, list_eq,
  nat_eq, list_beq, any, all, Bool-cases, inl, inr, and-eq-true, ltb, ltb→lt,
}
use mathlib.Core.Bool.{false≢true}
use gitlab_procs_exporter.Prelude.Text.{Text, codes, Unicode, has_prefix}
use gitlab_procs_exporter.Prelude.Utf8.{
  valid_string, valid_string-ascii, to_valid_utf8, to_valid_utf8-valid_string,
}
use gitlab_procs_exporter.Prelude.Utf8.Replace.{
  has_prefix-to_valid_utf8, count_byte-to_valid_utf8, all-to_valid_utf8,
}
use gitlab_procs_exporter.Exporter.Redact.{
  Floats, sanitize_label_value, is_token_byte, is_token_charset, token_prefixes, is_secret_value,
  is_sensitive_pair,
}

pub sanitize_label_value-valid_string : (v : Text) → valid_string (sanitize_label_value v) ≡ true
unfolding sanitize_label_value
sanitize_label_value-valid_string v = ground (arith, to_valid_utf8-valid_string v)

high_is_no_token : (c : ℕ) → 128 ≤ c → is_token_byte c ≡ false
unfolding is_token_byte
high_is_no_token c h = ground arith

token_is_ascii : (v : Text) → is_token_charset v ≡ true → All (λ c. c < 128) v
unfolding is_token_charset all
token_is_ascii [] h = tt
token_is_ascii (c ∷ v) h =
    let (here, later) = and-eq-true (is_token_byte c) _ h in
    (ground (arith, high_is_no_token c), token_is_ascii v later)

abbrev ascii : Text → Bool
ascii = all (λ c. ltb c 128)

ascii-All : (p : Text) → ascii p ≡ true → All (λ c. c < 128) p
unfolding all
ascii-All [] h = tt
ascii-All (c ∷ p) h =
    let (here, later) = and-eq-true (ltb c 128) _ h in (ltb→lt c 128 here, ascii-All p later)

any-has_prefix :
    (v : Text) (ps : List Text)
    → all ascii ps ≡ true
    → any (has_prefix (to_valid_utf8 v)) ps ≡ any (has_prefix v) ps
unfolding any all
any-has_prefix v [] h = refl
any-has_prefix v (p ∷ ps) h =
    let (here, later) = and-eq-true (ascii p) _ h in
    rw (has_prefix-to_valid_utf8 v p (ascii-All p here), any-has_prefix v ps later) refl

prefixes_are_ascii : all ascii token_prefixes ≡ true
unfolding all
prefixes_are_ascii = refl

invalid_is_no_token : (v : Text) → valid_string v ≡ false → is_token_charset v ≡ false
invalid_is_no_token v h = elim (Bool-cases (is_token_charset v)) [
  | inl token ↦ absurd (false≢true (sym h ∙ valid_string-ascii v (token_is_ascii v token)))
  | inr other ↦ other
]

is_token_charset-to_valid_utf8 :
    (v : Text) → is_token_charset (to_valid_utf8 v) ≡ is_token_charset v
unfolding is_token_charset
is_token_charset-to_valid_utf8 v = all-to_valid_utf8 is_token_byte v high_is_no_token

abbrev never : ℕ → Bool
never c = false

empty_iff : (v : Text) → (v == []) ≡ all never v
unfolding all list_beq
empty_iff [] = refl
empty_iff (c ∷ v) = refl

to_valid_utf8-empty : (v : Text) → (to_valid_utf8 v == []) ≡ (v == [])
to_valid_utf8-empty v =
    empty_iff (to_valid_utf8 v) ∙ (all-to_valid_utf8 never v (λ c h. refl) ∙ sym (empty_iff v))

has_prefix_jwt :
    (v : Text) → has_prefix (to_valid_utf8 v) (codes "eyJ") ≡ has_prefix v (codes "eyJ")
has_prefix_jwt v =
    has_prefix-to_valid_utf8 v (codes "eyJ") (omega arith, (omega arith, (omega arith, tt)))

invalid_secret :
    (fl : Floats) (v : Text)
    → valid_string v ≡ false
    → is_secret_value fl (to_valid_utf8 v) ≡ is_secret_value fl v
unfolding is_secret_value
invalid_secret fl v h =
    rw
      (
        to_valid_utf8-empty v,
        any-has_prefix v token_prefixes prefixes_are_ascii,
        has_prefix_jwt v,
        count_byte-to_valid_utf8 b'.' v (omega arith),
        is_token_charset-to_valid_utf8 v,
        invalid_is_no_token v h,
      )
      (ground arith)

is_secret_value-sanitize :
    (fl : Floats) (v : Text) → is_secret_value fl (sanitize_label_value v) ≡ is_secret_value fl v
unfolding sanitize_label_value
is_secret_value-sanitize fl v = elim (Bool-cases (valid_string v)) [
  | inl valid ↦ rw valid refl
  | inr invalid ↦ rw invalid (invalid_secret fl v invalid)
]

-- A variable is sensitive with its value as the process has it exactly if it is with its value
-- sanitized.
pub is_sensitive_pair-sanitize :
    (u : Unicode) (fl : Floats) (key val : Text) (extra : List Text)
    → is_sensitive_pair u fl key (sanitize_label_value val) extra
      ≡ is_sensitive_pair u fl key val extra
unfolding is_sensitive_pair
is_sensitive_pair-sanitize u fl key val extra = rw (is_secret_value-sanitize fl val) refl
