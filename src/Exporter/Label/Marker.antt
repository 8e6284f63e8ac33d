-- ===== src/Exporter/Label/Marker.antt =====
-- The marker tells over-long values apart.
use gitlab_procs_exporter.Prelude.{
  ℕ, ◌<◌, ◌≡◌, ◌≢◌, refl, sym, ap, ◌∙◌, [], ◌∷◌, ◌++◌, append_assoc, arith, length, length-append,
  take, All, nat_eq,
}
use gitlab_procs_exporter.Prelude.Int.{pos}
use gitlab_procs_exporter.Prelude.Text.{Text, codes}
use gitlab_procs_exporter.Prelude.Decimal.{IsDigit, format_nat, format_nat-IsDigit, format_nat_inj}
use gitlab_procs_exporter.Exporter.Label.{
  Hasher, fingerprint, walk_back, marker, cut_at, truncate_with_fingerprint,
}
use gitlab_procs_exporter.Exporter.Label.Bounds.{length-fingerprint}

-- Texts that end alike in length end alike.
append-eq_of_length :
    (xs ys us vs : Text) → length us ≡ length vs → xs ++ us ≡ ys ++ vs → (xs ≡ ys) × (us ≡ vs)
append-eq_of_length [] [] us vs n h = (refl, h)
append-eq_of_length [] (y ∷ ys) us vs n h = absurd (omega (arith, ap length h, length-append ys vs))
append-eq_of_length (x ∷ xs) [] us vs n h = absurd (omega (arith, ap length h, length-append xs us))
append-eq_of_length (x ∷ xs) (y ∷ ys) us vs n h = ground (arith, append-eq_of_length xs ys us vs n)

-- The equals sign before the digits is the last one.
no_equals : (ds xs es : Text) → All IsDigit ds → ds ≢ xs ++ (b'=' ∷ es)
no_equals [] [] es h e = ground arith
no_equals [] (x ∷ xs) es h e = ground arith
no_equals (d ∷ ds) [] es h e = ground arith
no_equals (d ∷ ds) (x ∷ xs) es h e = no_equals ds xs es h.1 (ground arith)

split_at_equals :
    (xs ys ds es : Text)
    → All IsDigit ds
    → All IsDigit es
    → xs ++ (b'=' ∷ ds) ≡ ys ++ (b'=' ∷ es)
    → (xs ≡ ys) × (ds ≡ es)
split_at_equals [] [] ds es hd he h = ground arith
split_at_equals [] (y ∷ ys) ds es hd he h = absurd (no_equals ds ys es hd (ground arith))
split_at_equals (x ∷ xs) [] ds es hd he h = absurd (no_equals es xs ds he (ground arith))
split_at_equals (x ∷ xs) (y ∷ ys) ds es hd he h = ground (arith, split_at_equals xs ys ds es hd he)

-- A marker reads as `…[len` `=` digits and a tail of fixed length.
tail_of : Hasher → Text → Text
tail_of h s = codes ";sha256=" ++ (fingerprint h s ++ codes "]")

abbrev head : Text
head = 226 ∷ 128 ∷ 166 ∷ codes "[len"

regroup :
    (h : Hasher) (s p : Text)
    → p ++ marker h s ≡ (((p ++ head) ++ (b'=' ∷ format_nat (length s))) ++ tail_of h s)
unfolding marker tail_of
regroup h s p = simp append_assoc

length-tail_of : (h : Hasher) (s : Text) → length (tail_of h s) ≡ 21
unfolding tail_of
length-tail_of h s =
    omega (arith, length-append (fingerprint h s) (codes "]"), length-fingerprint h s)

append_marker_inj :
    (h : Hasher) (s t p q : Text)
    → p ++ marker h s ≡ q ++ marker h t
    → (p ≡ q) × ((length s ≡ length t) × (fingerprint h s ≡ fingerprint h t))
unfolding tail_of
append_marker_inj h s t p q e =
    let (front, tails) =
      append-eq_of_length ((p ++ head) ++ (b'=' ∷ format_nat (length s)))
        ((q ++ head) ++ (b'=' ∷ format_nat (length t))) (tail_of h s) (tail_of h t)
        (length-tail_of h s ∙ sym (length-tail_of h t)) (sym (regroup h s p) ∙ e ∙ regroup h t q) in
    let (heads, numbers) =
      split_at_equals (p ++ head) (q ++ head) (format_nat (length s)) (format_nat (length t))
        (format_nat-IsDigit (length s)) (format_nat-IsDigit (length t)) front in
    (
      (append-eq_of_length p q head head refl heads).0,
      (
        format_nat_inj (length s) (length t) numbers,
        (append-eq_of_length (fingerprint h s) (fingerprint h t) (codes "]") (codes "]") refl
            (ground arith)).0,
      ),
    )

-- Two values that are longer than a positive limit and are published alike have the same kept
-- prefix, the same length and the same fingerprint.
pub truncate_with_fingerprint_tells_apart :
    (h : Hasher) (s t : Text) (max : ℕ)
    → 0 < max
    → max < length s
    → max < length t
    → truncate_with_fingerprint h s (pos max) ≡ truncate_with_fingerprint h t (pos max)
    → (take (walk_back s max) s ≡ take (walk_back t max) t)
      × ((length s ≡ length t) × (fingerprint h s ≡ fingerprint h t))
unfolding truncate_with_fingerprint cut_at
truncate_with_fingerprint_tells_apart h s t max positive long_s long_t e =
    append_marker_inj h s t (take (walk_back s max) s) (take (walk_back t max) t) (ground arith)
