-- ===== src/Prelude/Utf8.antt =====
-- UTF-8 as `unicode/utf8` reads it.
pub mod Replace
use Prim.Native.Nat.{ℕ, zero, suc, ◌+◌, ◌≤◌, ◌<◌}
use mathlib.Core.Path.{◌≡◌, refl, ◌∙◌}
use mathlib.Core.Logic.{inl, inr}
use mathlib.Core.Bool.{Bool, true, false, not, ◌&&◌, ◌||◌}
use mathlib.Core.List.{[], ◌∷◌, ◌++◌}
use mathlib.Core.Option.{Option, none, some}
use native.Mathlib.Omega.{arith}
use gitlab_procs_exporter.Prelude.Tests.{ltb, leb, nat_beq, if◌then◌else◌, and-eq-true, Bool-cases}
use gitlab_procs_exporter.Prelude.Lists.{take, get_elem?, All}
use gitlab_procs_exporter.Prelude.Text.{Text}

-- utf8.RuneStart: b & 0xC0 != 0x80
abbrev pub rune_start : ℕ → Bool
rune_start b = not (leb 128 b && leb b 191)

-- The bytes that can begin a rune, how many must follow, and the range of the next one.
is_lead : ℕ → Bool
is_lead b = ltb b 128 || (leb 194 b && leb b 244)

unfoldable pub more : ℕ → ℕ
more b = if ltb b 128 then 0 else if ltb b 224 then 1 else if ltb b 240 then 2 else 3

lowest : ℕ → ℕ
lowest b = if nat_beq b 224 then 160 else if nat_beq b 240 then 144 else 128

highest : ℕ → ℕ
highest b = if nat_beq b 237 then 159 else if nat_beq b 244 then 143 else 191

-- `n` more bytes of the rune are to come, the next one from `lo` to `hi`.
valid_from : ℕ → ℕ → ℕ → Text → Bool
valid_from zero lo hi [] = true
valid_from (suc n) lo hi [] = false
valid_from zero lo hi (b ∷ s) = is_lead b && valid_from (more b) (lowest b) (highest b) s
valid_from (suc n) lo hi (b ∷ s) = leb lo b && leb b hi && valid_from n 128 191 s

-- utf8.ValidString
unfoldable pub valid_string : Text → Bool
unfolding valid_from is_lead more lowest highest
valid_string = valid_from 0 128 191

lowest-range : (b : ℕ) → 128 ≤ lowest b
unfolding lowest
lowest-range b = ground arith

highest-range : (b : ℕ) → highest b ≤ 191
unfolding highest
highest-range b = ground arith

-- A cut before the start of a rune leaves whole runes.
valid_from-take :
    (n lo hi i : ℕ) (s : Text) {b : ℕ}
    → 128 ≤ lo
    → hi ≤ 191
    → valid_from n lo hi s ≡ true
    → get_elem? s i ≡ some b
    → rune_start b ≡ true
    → valid_from n lo hi (take i s) ≡ true
unfolding valid_from
valid_from-take n lo hi i [] h1 h2 h e r = cc
valid_from-take zero lo hi zero (c ∷ s) h1 h2 h e r = refl
valid_from-take (suc n) lo hi zero (c ∷ s) h1 h2 h e r = ground arith
valid_from-take zero lo hi (suc i) (c ∷ s) h1 h2 h e r =
    let (lead, rest) = and-eq-true (is_lead c) _ h in
    rw lead (
      valid_from-take (more c) (lowest c) (highest c) i s (lowest-range c) (highest-range c) rest e
        r)
valid_from-take (suc n) lo hi (suc i) (c ∷ s) h1 h2 h e r =
    let (inside, rest) = and-eq-true (leb lo c && leb c hi) _ h in
    rw inside (valid_from-take n 128 191 i s (omega arith) (omega arith) rest e r)

pub valid_string-take :
    (i : ℕ) (s : Text) {b : ℕ}
    → valid_string s ≡ true
    → get_elem? s i ≡ some b
    → rune_start b ≡ true
    → valid_string (take i s) ≡ true
unfolding valid_string
valid_string-take i s = valid_from-take 0 128 191 i s (omega arith) (omega arith)

-- Between runes the range says nothing.
valid_from_zero : (lo hi : ℕ) (t : Text) → valid_from 0 lo hi t ≡ valid_from 0 128 191 t
unfolding valid_from
valid_from_zero lo hi [] = refl
valid_from_zero lo hi (c ∷ t) = refl

valid_from-append :
    (n lo hi : ℕ) (s t : Text)
    → valid_from n lo hi s ≡ true
    → valid_string t ≡ true
    → valid_from n lo hi (s ++ t) ≡ true
unfolding valid_from valid_string
valid_from-append zero lo hi [] t h k = valid_from_zero lo hi t ∙ k
valid_from-append (suc n) lo hi [] t h k = cc
valid_from-append zero lo hi (c ∷ s) t h k =
    let (lead, rest) = and-eq-true (is_lead c) _ h in
    rw lead (valid_from-append (more c) (lowest c) (highest c) s t rest k)
valid_from-append (suc n) lo hi (c ∷ s) t h k =
    let (inside, rest) = and-eq-true (leb lo c && leb c hi) _ h in
    rw inside (valid_from-append n 128 191 s t rest k)

pub valid_string-append :
    (s t : Text) → valid_string s ≡ true → valid_string t ≡ true → valid_string (s ++ t) ≡ true
unfolding valid_string
valid_string-append s t h k = valid_from-append 0 128 191 s t h k

ascii_lead : (c : ℕ) → c < 128 → is_lead c ≡ true
unfolding is_lead
ascii_lead c h = ground arith

ascii_more : (c : ℕ) → c < 128 → more c ≡ 0
unfolding more
ascii_more c h = ground arith

pub valid_string-ascii : (s : Text) → All (λ c. c < 128) s → valid_string s ≡ true
unfolding valid_string valid_from
valid_string-ascii [] h = refl
valid_string-ascii (c ∷ s) (hc, hs) =
    rw (ascii_lead c hc, ascii_more c hc) (valid_from_zero _ _ s ∙ valid_string-ascii s hs)

-- The next `n` bytes complete a rune.
unfoldable pub valid_tail : ℕ → ℕ → ℕ → Text → Bool
valid_tail zero lo hi s = true
valid_tail (suc n) lo hi [] = false
valid_tail (suc n) lo hi (b ∷ s) = leb lo b && leb b hi && valid_tail n 128 191 s

unfoldable pub begins_rune : ℕ → Text → Bool
unfolding is_lead more lowest highest valid_tail
begins_rune c s = is_lead c && valid_tail (more c) (lowest c) (highest c) s

-- U+FFFD in UTF-8
abbrev pub rune_error : Text
rune_error = 239 ∷ 191 ∷ 189 ∷ []

abbrev pub valid_piece : Bool → Bool → ℕ → Text
valid_piece true after_invalid c = c ∷ []
valid_piece false false c = rune_error
valid_piece false true c = []

-- `k` bytes of a valid rune are to be kept; the flag says that the last byte was an invalid one.
unfoldable pub to_valid : ℕ → Bool → Text → Text
unfolding begins_rune more
to_valid k after_invalid [] = []
to_valid (suc k) after_invalid (c ∷ s) = c ∷ to_valid k false s
to_valid zero after_invalid (c ∷ s) =
    let good = begins_rune c s in
    valid_piece good after_invalid c ++ to_valid (if good then more c else 0) (not good) s

-- strings.ToValidUTF8 with the replacement character: one for each run of invalid bytes.
unfoldable pub to_valid_utf8 : Text → Text
unfolding to_valid
to_valid_utf8 = to_valid 0 false

valid_from-rune_error : (t : Text) → valid_from 0 128 191 (rune_error ++ t) ≡ valid_from 0 128 191 t
unfolding valid_from is_lead more lowest highest
valid_from-rune_error t = valid_from_zero 128 191 t

replaced_valid :
    (b : Bool) (c lo hi : ℕ) (t : Text)
    → valid_from 0 128 191 t ≡ true
    → valid_from 0 lo hi (valid_piece false b c ++ t) ≡ true
replaced_valid true c lo hi t h = valid_from_zero lo hi t ∙ h
replaced_valid false c lo hi t h = valid_from_zero lo hi _ ∙ (valid_from-rune_error t ∙ h)

begins_rune_parts :
    (c : ℕ) (s : Text)
    → begins_rune c s ≡ true
    → (is_lead c ≡ true) × (valid_tail (more c) (lowest c) (highest c) s ≡ true)
unfolding begins_rune
begins_rune_parts c s h = and-eq-true (is_lead c) _ h

to_valid-valid :
    (k lo hi : ℕ) (after_invalid : Bool) (s : Text)
    → valid_tail k lo hi s ≡ true
    → valid_from k lo hi (to_valid k after_invalid s) ≡ true
unfolding to_valid valid_from valid_tail
to_valid-valid zero lo hi b [] h = refl
to_valid-valid (suc k) lo hi b [] h = cc
to_valid-valid (suc k) lo hi b (c ∷ s) h =
    let (inside, rest) = and-eq-true (leb lo c && leb c hi) _ h in
    rw inside (to_valid-valid k 128 191 false s rest)
to_valid-valid zero lo hi b (c ∷ s) h = elim (Bool-cases (begins_rune c s)) [
  | inl good ↦
      let (lead, rest) = begins_rune_parts c s good in
      rw (good, lead) (to_valid-valid (more c) (lowest c) (highest c) false s rest)
  | inr bad ↦
      rw bad
        (replaced_valid b c lo hi (to_valid 0 true s) (to_valid-valid zero 128 191 true s refl))
]

-- What the replacement leaves is valid.
pub to_valid_utf8-valid_string : (s : Text) → valid_string (to_valid_utf8 s) ≡ true
unfolding valid_string to_valid_utf8 valid_tail
to_valid_utf8-valid_string s = to_valid-valid 0 128 191 false s refl

pub begins_rune-ascii : (c : ℕ) (s : Text) → c < 128 → begins_rune c s ≡ true
unfolding begins_rune valid_tail
begins_rune-ascii c s h = rw (ascii_lead c h, ascii_more c h) refl

pub more-ascii : (c : ℕ) → c < 128 → more c ≡ 0
more-ascii = ascii_more
