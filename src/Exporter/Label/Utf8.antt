-- ===== src/Exporter/Label/Utf8.antt =====
-- A bounded label value is valid UTF-8 if the value was.
use gitlab_procs_exporter.Prelude.{
  list_eq, none, Option, ℕ, zero, suc, ◌/◌, ◌%◌, ◌<◌, ◌≡◌, ◌⊎◌, ◌||◌, refl, true, some, [], ◌∷◌,
  ◌++◌, arith, leb, length, take, All, All-append, get_elem?, ◌==◌, nat_eq, Bool-cases, inl, inr,
}
use gitlab_procs_exporter.Prelude.Int.{ℤ, pos, negsuc}
use gitlab_procs_exporter.Prelude.Text.{Text, codes}
use gitlab_procs_exporter.Prelude.Decimal.{IsDigit, format_nat, format_nat-IsDigit}
use gitlab_procs_exporter.Prelude.Utf8.{
  valid_string, valid_string-take, valid_string-append, valid_string-ascii,
}
use gitlab_procs_exporter.Exporter.Label.Bounds.{walk_back-le}
use gitlab_procs_exporter.Prelude.Map.{lookup}
use gitlab_procs_exporter.Exporter.Label.{
  Hasher, trunc_ellipsis, hex_digit, hex, fingerprint, starts_rune, walk_back, environ_trunc_marker,
  marker, cut_at, truncate_with_fingerprint, Limits, Observer, bound_by, bound_label_with,
}

abbrev IsAscii : ℕ → Type 0
IsAscii c = c < 128

hex_digit-lt : (n : ℕ) → n < 16 → hex_digit n < 128
unfolding hex_digit
hex_digit-lt n h = ground arith

All-hex : (s : Text) → All (λ b. b < 256) s → All IsAscii (hex s)
unfolding hex
All-hex [] h = tt
All-hex (b ∷ s) (hb, hs) =
    (hex_digit-lt (b / 16) (omega arith), (hex_digit-lt (b % 16) (omega arith), All-hex s hs))

All-take : (n : ℕ) (s : Text) → All IsAscii s → All IsAscii (take n s)
All-take zero s h = tt
All-take (suc n) [] h = tt
All-take (suc n) (c ∷ s) (hc, hs) = (hc, All-take n s hs)

digits-IsAscii : (s : Text) → All IsDigit s → All IsAscii s
digits-IsAscii [] h = tt
digits-IsAscii (c ∷ s) (hc, hs) = (omega arith, digits-IsAscii s hs)

trunc_ellipsis-valid_string : valid_string trunc_ellipsis ≡ true
unfolding valid_string
trunc_ellipsis-valid_string = refl

fingerprint-IsAscii : (h : Hasher) (s : Text) → All IsAscii (fingerprint h s)
unfolding fingerprint
fingerprint-IsAscii h s =
    All-take 12 (hex (h.sum256 (h.salt ++ s)))
      (All-hex (h.sum256 (h.salt ++ s)) (h.sum256-bytes (h.salt ++ s)))

marker-valid_string : (h : Hasher) (s : Text) → valid_string (marker h s) ≡ true
unfolding marker
marker-valid_string h s =
    let end = fingerprint h s ++ codes "]" in
    let tail = codes ";sha256=" ++ end in
    let body = format_nat (length s) ++ tail in
    let end-ascii =
      All-append IsAscii (fingerprint h s) (codes "]") (fingerprint-IsAscii h s) (omega arith) in
    let tail-ascii = All-append IsAscii (codes ";sha256=") end (omega arith) end-ascii in
    let body-ascii =
      All-append IsAscii (format_nat (length s)) tail
        (digits-IsAscii (format_nat (length s)) (format_nat-IsDigit (length s))) tail-ascii in
    valid_string-append trunc_ellipsis (codes "[len=" ++ body) trunc_ellipsis-valid_string (
      valid_string-ascii (codes "[len=" ++ body)
        (All-append IsAscii (codes "[len=") body (omega arith) body-ascii))

pub environ_trunc_marker-valid_string : (s : Text) → valid_string (environ_trunc_marker s) ≡ true
unfolding environ_trunc_marker
environ_trunc_marker-valid_string s =
    let digits-are = digits-IsAscii (format_nat (length s)) (format_nat-IsDigit (length s)) in
    let tail-ascii =
      All-append IsAscii (format_nat (length s)) (codes "]") digits-are (omega arith) in
    valid_string-ascii (environ_trunc_marker s) (
      All-append IsAscii (codes "[TRUNCATED;len=") (format_nat (length s) ++ codes "]")
        (omega arith) tail-ascii)

-- The walk back stops at the start of a rune, or at the start of the text.
walk_back-starts_rune :
    (s : Text) (i : ℕ) → (walk_back s i ≡ 0) ⊎ (starts_rune (get_elem? s (walk_back s i)) ≡ true)
unfolding walk_back
walk_back-starts_rune s zero = inl refl
walk_back-starts_rune s (suc i) = elim (Bool-cases (starts_rune (get_elem? s (suc i)))) [
  | inl start ↦ rw start (inr start)
  | inr inside ↦ rw inside (walk_back-starts_rune s i)
]

get_elem?-some : (s : Text) (i : ℕ) → i < length s → (b : ℕ) × (get_elem? s i ≡ some b)
get_elem?-some [] i h = elim h [ ]
get_elem?-some (c ∷ s) zero h = (c, refl)
get_elem?-some (c ∷ s) (suc i) h = get_elem?-some s i (omega arith)

take_valid :
    (s : Text) (i : ℕ)
    → valid_string s ≡ true
    → starts_rune (get_elem? s i) ≡ true
    → i < length s
    → valid_string (take i s) ≡ true
take_valid s i valid start inside =
    let (b, e) = get_elem?-some s i inside in valid_string-take i s valid e (rw e at start)

empty_valid : (s : Text) → valid_string (take 0 s) ≡ true
unfolding valid_string
empty_valid s = refl

-- Truncation keeps valid UTF-8 valid, at every limit.
pub truncate_with_fingerprint-valid_string :
    (h : Hasher) (s : Text) (max : ℤ)
    → valid_string s ≡ true
    → valid_string (truncate_with_fingerprint h s max) ≡ true
unfolding truncate_with_fingerprint cut_at
truncate_with_fingerprint-valid_string h s (negsuc n) valid = valid
truncate_with_fingerprint-valid_string h s (pos max) valid =
    elim (Bool-cases (max == 0 || leb (length s) max)) [
      | inl short ↦ rw short valid
      | inr long ↦ rw long (cut_at_valid (ground arith))
    ]
  where
    cut_at_valid : max < length s → valid_string (cut_at h s max) ≡ true
    cut_at_valid long =
        let inside : walk_back s max < length s = omega (arith, walk_back-le s max) in
        valid_string-append (take (walk_back s max) s) (marker h s)
          (elim (walk_back-starts_rune s max) [
            | inl zero_cut ↦ rw zero_cut (empty_valid s)
            | inr start ↦ take_valid s (walk_back s max) valid start inside
          ])
          (marker-valid_string h s)

bound_by-valid_string :
    (h : Hasher) (o : Option ℤ) (name value : Text) (obs : Observer)
    → valid_string value ≡ true
    → valid_string (bound_by h o name value obs).0 ≡ true
unfolding bound_by
bound_by-valid_string h none name value obs valid = valid
bound_by-valid_string h (some max) name value obs valid =
    truncate_with_fingerprint-valid_string h value max valid

pub bound_label_with-valid_string :
    (h : Hasher) (limits : Limits) (name value : Text) (obs : Observer)
    → valid_string value ≡ true
    → valid_string (bound_label_with h limits name value obs).0 ≡ true
unfolding bound_label_with
bound_label_with-valid_string h limits name value obs =
    bound_by-valid_string h (lookup name limits) name value obs
