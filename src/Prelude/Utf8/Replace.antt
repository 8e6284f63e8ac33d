-- ===== src/Prelude/Utf8/Replace.antt =====
-- What the replacement of invalid bytes keeps: the ASCII bytes.
use Prim.Native.Nat.{ℕ, zero, suc, ◌≤◌, ◌<◌}
use mathlib.Core.Path.{◌≡◌, refl}
use mathlib.Core.Logic.{inl, inr}
use mathlib.Core.Bool.{Bool, true, false}
use mathlib.Core.List.{[], ◌∷◌, ◌++◌}
use native.Mathlib.Omega.{arith}
use gitlab_procs_exporter.Prelude.Tests.{leb, Bool-cases, leb→gt, leb→le}
use gitlab_procs_exporter.Prelude.Lists.{all, All}
use gitlab_procs_exporter.Prelude.Text.{Text, has_prefix, cut_prefix, count_byte}
use gitlab_procs_exporter.Prelude.Utf8.{
  begins_rune, begins_rune-ascii, more-ascii, to_valid, to_valid_utf8, valid_piece, more,
}

-- An ASCII byte is a rune.
to_valid_ascii :
    (b : Bool) (c : ℕ) (s : Text) → c < 128 → to_valid 0 b (c ∷ s) ≡ c ∷ to_valid 0 false s
unfolding to_valid
to_valid_ascii b c s h = rw (begins_rune-ascii c s h, more-ascii c h) refl

-- Any other byte leaves one that is not ASCII in its place.
to_valid_other :
    (c : ℕ) (s : Text)
    → 128 ≤ c
    → (d : ℕ) × (t : Text) × (to_valid 0 false (c ∷ s) ≡ d ∷ t) × (128 ≤ d)
unfolding to_valid
to_valid_other c s h = elim (Bool-cases (begins_rune c s)) [
  | inl good ↦ (c, to_valid (more c) false s, rw good refl, h)
  | inr bad ↦ (239, 191 ∷ (189 ∷ to_valid 0 true s), rw bad refl, omega arith)
]

to_valid_nil : to_valid 0 false [] ≡ []
unfolding to_valid
to_valid_nil = refl

has_prefix-other :
    (s p : Text) (c d q : ℕ) (t : Text)
    → 128 ≤ c
    → 128 ≤ d
    → q < 128
    → has_prefix (d ∷ t) (q ∷ p) ≡ has_prefix (c ∷ s) (q ∷ p)
unfolding has_prefix cut_prefix
has_prefix-other s p c d q t hc hd hq = ground arith

has_prefix-to_valid :
    (s p : Text) → All (λ q. q < 128) p → has_prefix (to_valid 0 false s) p ≡ has_prefix s p
unfolding has_prefix cut_prefix
has_prefix-to_valid s [] h = refl
has_prefix-to_valid [] (q ∷ p) h = rw to_valid_nil refl
has_prefix-to_valid (c ∷ s) (q ∷ p) (hq, hp) = elim (Bool-cases (leb 128 c)) [
  | inl high ↦
      let (d, t, e, hd) = to_valid_other c s (leb→le 128 c high) in
      rw e (has_prefix-other s p c d q t (leb→le 128 c high) hd hq)
  | inr low ↦
      rw (to_valid_ascii false c s (leb→gt 128 c low)) (ground (arith, has_prefix-to_valid s p hp))
]

-- A text has an ASCII prefix exactly if it has it once its invalid bytes are replaced.
pub has_prefix-to_valid_utf8 :
    (s p : Text) → All (λ q. q < 128) p → has_prefix (to_valid_utf8 s) p ≡ has_prefix s p
unfolding to_valid_utf8
has_prefix-to_valid_utf8 s p h = has_prefix-to_valid s p h

count_byte-piece :
    (b : ℕ) (inv : Bool) (c : ℕ) (t : Text)
    → b < 128
    → count_byte b (valid_piece false inv c ++ t) ≡ count_byte b t
unfolding count_byte
count_byte-piece b true c t h = refl
count_byte-piece b false c t h = ground arith

count_byte-to_valid :
    (b k : ℕ) (inv : Bool) (s : Text) → b < 128 → count_byte b (to_valid k inv s) ≡ count_byte b s
unfolding count_byte to_valid
count_byte-to_valid b k inv [] h = refl
count_byte-to_valid b (suc k) inv (c ∷ s) h = omega (arith, count_byte-to_valid b k false s h)
count_byte-to_valid b zero inv (c ∷ s) h = elim (Bool-cases (leb 128 c)) [
  | inl high ↦ elim (Bool-cases (begins_rune c s)) [
    | inl good ↦ rw good (ground (arith, count_byte-to_valid b (more c) false s h))
    | inr bad ↦ rw bad (
        ground
          (arith, count_byte-piece b inv c (to_valid 0 true s) h, count_byte-to_valid b 0 true s h))
  ]
  | inr low ↦
      rw (to_valid_ascii inv c s (leb→gt 128 c low))
        (ground (arith, count_byte-to_valid b 0 false s h))
]

pub count_byte-to_valid_utf8 :
    (b : ℕ) (s : Text) → b < 128 → count_byte b (to_valid_utf8 s) ≡ count_byte b s
unfolding to_valid_utf8
count_byte-to_valid_utf8 b s h = count_byte-to_valid b 0 false s h

-- A test that only ASCII bytes pass is passed by a text or by none of the two.
all-to_valid :
    (p : ℕ → Bool) (s : Text)
    → ((c : ℕ) → 128 ≤ c → p c ≡ false)
    → all p (to_valid 0 false s) ≡ all p s
unfolding all
all-to_valid p [] h = rw to_valid_nil refl
all-to_valid p (c ∷ s) h = elim (Bool-cases (leb 128 c)) [
  | inl high ↦
      let (d, t, e, hd) = to_valid_other c s (leb→le 128 c high) in
      rw (e, h c (leb→le 128 c high), h d hd) refl
  | inr low ↦ rw (to_valid_ascii false c s (leb→gt 128 c low), all-to_valid p s h) refl
]

pub all-to_valid_utf8 :
    (p : ℕ → Bool) (s : Text)
    → ((c : ℕ) → 128 ≤ c → p c ≡ false)
    → all p (to_valid_utf8 s) ≡ all p s
unfolding to_valid_utf8
all-to_valid_utf8 p s h = all-to_valid p s h
