-- ===== src/Prelude/Decimal.antt =====
-- Decimal text of numbers: what the program uses of `strconv`, and `%d` of `fmt`.
use Prim.Native.Nat.{ℕ, zero, suc, ◌+◌, ◌-◌, ◌*◌, ◌/◌, ◌%◌, ◌^◌, ◌≤◌, ◌<◌}
use mathlib.Core.Path.{◌≡◌, refl, ap, ◌∙◌}
use mathlib.Core.Logic.{◌≢◌}
use mathlib.Core.List.{[], ◌∷◌, ◌++◌, concat-ne-nil}
use mathlib.Core.Bool.{Bool, true, false, ◌&&◌}
use mathlib.Core.Option.{Option, none, some}
use native.Mathlib.Omega.{arith}
use gitlab_procs_exporter.Prelude.Tests.{ltb, leb, lt→ltb, le→leb, if◌then◌else◌}
use gitlab_procs_exporter.Prelude.Int.{ℤ, pos, negsuc, neg_ℕ, IsInt64}
use gitlab_procs_exporter.Prelude.Lists.{all, length, length-append, All, All-append}
use gitlab_procs_exporter.Prelude.Equality.{◌==◌, eq_iff, ne→false, list_eq, nat_eq}
use gitlab_procs_exporter.Prelude.Text.{Text, codes}

-- The fuel bounds the number of digits.
digits : ℕ → ℕ → Text
digits zero n = []
digits (suc f) n =
    let rest = digits f (n / 10) ++ (b'0' + n % 10) ∷ [] in
    if ltb n 10 then (b'0' + n) ∷ [] else rest

-- strconv.Itoa of a number that is not negative
unfoldable pub format_nat : ℕ → Text
unfolding digits
format_nat n = digits (suc n) n

-- `%d`
unfoldable pub format_int : ℤ → Text
unfolding format_nat
format_int (pos n) = format_nat n
format_int (negsuc n) = b'-' ∷ format_nat (n + 1)

abbrev pub IsDigit : ℕ → Type 0
IsDigit c = (b'0' ≤ c) × (c ≤ b'9')

-- the number that digits spell behind `n`
unfoldable pub value : ℕ → Text → ℕ
value n [] = n
value n (c ∷ s) = value (n * 10 + (c - b'0')) s

value-append : (n : ℕ) (s t : Text) → value n (s ++ t) ≡ value (value n s) t
unfolding value
value-append n [] t = refl
value-append n (c ∷ s) t = value-append (n * 10 + (c - b'0')) s t

value-digits : (f n : ℕ) → n < f → value 0 (digits f n) ≡ n
unfolding digits value
value-digits zero n h = elim h [ ]
value-digits (suc f) n h =
    ground
      (arith, value-digits f (n / 10), value-append 0 (digits f (n / 10)) ((b'0' + n % 10) ∷ []))

digits-IsDigit : (f n : ℕ) → All IsDigit (digits f n)
unfolding digits
digits-IsDigit zero n = tt
digits-IsDigit (suc f) n = ground (
  arith,
  All-append IsDigit (digits f (n / 10)) ((b'0' + n % 10) ∷ []) (digits-IsDigit f (n / 10)),
)

length-digits : (k f n : ℕ) → n < 10 ^ suc k → length (digits f n) ≤ suc k
unfolding digits
length-digits k zero n h = omega arith
length-digits zero (suc f) n h = ground arith
length-digits (suc k) (suc f) n h =
    ground
      (arith, length-digits k f (n / 10), length-append (digits f (n / 10)) ((b'0' + n % 10) ∷ []))

-- Printing loses nothing.
pub value-format_nat : (n : ℕ) → value 0 (format_nat n) ≡ n
unfolding format_nat
value-format_nat n = value-digits (suc n) n (omega arith)

pub format_nat-IsDigit : (n : ℕ) → All IsDigit (format_nat n)
unfolding format_nat
format_nat-IsDigit n = digits-IsDigit (suc n) n

pub format_nat_inj : (m n : ℕ) → format_nat m ≡ format_nat n → m ≡ n
format_nat_inj m n h = cc (value-format_nat m, value-format_nat n)

-- A number below a power of ten has no more digits than the exponent.
pub length-format_nat : (k n : ℕ) → n < 10 ^ suc k → length (format_nat n) ≤ suc k
unfolding format_nat
length-format_nat k n h = length-digits k (suc n) n h

format_123 : format_int (negsuc 122) ≡ codes "-123"
unfolding format_int
format_123 = refl

format_zero : format_int (pos 0) ≡ codes "0"
unfolding format_int
format_zero = refl

digits-ne-nil : (f n : ℕ) → digits (suc f) n ≢ []
unfolding digits
digits-ne-nil f n = ground (arith, concat-ne-nil (b'0' + n % 10) (digits f (n / 10)))

pub format_nat-ne-nil : (n : ℕ) → format_nat n ≢ []
unfolding format_nat
format_nat-ne-nil n = digits-ne-nil n n

abbrev is_digit : ℕ → Bool
is_digit c = leb b'0' c && leb c b'9'

-- strconv.ParseUint in base 10: `none` is an error.
unfoldable pub parse_uint : ℕ → Text → Option ℕ
unfolding all value
parse_uint bits s =
    if s == []
    then none
    else if all is_digit s && ltb (value 0 s) (2 ^ bits)
    then some (value 0 s)
    else none

all-IsDigit : (s : Text) → All IsDigit s → all is_digit s ≡ true
unfolding all
all-IsDigit [] h = refl
all-IsDigit (c ∷ s) (hc, hs) = ground (arith, all-IsDigit s hs)

-- What is printed is read back, if it fits.
pub parse_uint-format_nat : (bits n : ℕ) → n < 2 ^ bits → parse_uint bits (format_nat n) ≡ some n
unfolding parse_uint
parse_uint-format_nat bits n fits = ground (
  arith,
  eq_iff (format_nat n) [],
  format_nat-ne-nil n,
  value-format_nat n,
  all-IsDigit (format_nat n) (format_nat-IsDigit n),
)

abbrev signed : Bool → ℕ → Option ℕ → Option ℤ
signed negative limit none = none
signed true limit (some n) = if leb n limit then some (neg_ℕ n) else none
signed false limit (some n) = if ltb n limit then some (pos n) else none

-- strconv.ParseInt in base 10 with 64 bits: `none` is an error.
unfoldable pub parse_int : Text → Option ℤ
unfolding parse_uint
parse_int [] = none
parse_int (c ∷ s) =
    if c == b'-'
    then signed true (2 ^ 63) (parse_uint 64 s)
    else if c == b'+'
    then signed false (2 ^ 63) (parse_uint 64 s)
    else signed false (2 ^ 63) (parse_uint 64 (c ∷ s))

parse_int-digits :
    (s : Text) (n : ℕ)
    → s ≢ []
    → All IsDigit s
    → parse_uint 64 s ≡ some n
    → n < 2 ^ 63
    → parse_int s ≡ some (pos n)
unfolding parse_int
parse_int-digits [] n ne h e lt = absurd (ne refl)
parse_int-digits (c ∷ s) n ne (hc, hs) e lt = rw (ne→false c b'-' (λ q. absurd (omega arith))) (
    rw (ne→false c b'+' (λ q. absurd (omega arith)))
      (ap (signed false (2 ^ 63)) e ∙ rw (lt→ltb n (2 ^ 63) lt) refl))

parse_int-minus :
    (s : Text) (n : ℕ)
    → parse_uint 64 s ≡ some (suc n)
    → n < 2 ^ 63
    → parse_int (b'-' ∷ s) ≡ some (negsuc n)
unfolding parse_int
parse_int-minus s n e h =
    ap (signed true (2 ^ 63)) e ∙ rw (le→leb (suc n) (2 ^ 63) (omega arith)) refl

-- What is printed of an `int64` is read back.
pub parse_int-format_int : (z : ℤ) → IsInt64 z → parse_int (format_int z) ≡ some z
unfolding format_int
parse_int-format_int (pos n) h =
    parse_int-digits (format_nat n) n (format_nat-ne-nil n) (format_nat-IsDigit n)
      (parse_uint-format_nat 64 n (omega arith)) h
parse_int-format_int (negsuc n) h =
    parse_int-minus (format_nat (n + 1)) n
      (parse_uint-format_nat 64 (n + 1) (omega arith) ∙ ap some (omega arith)) h
