-- ===== src/JobReport/Cli/Window.antt =====
-- internal/jobreport/cli.go: `parseWindow` and `stepFor`.
use gitlab_procs_exporter.Prelude.{
  ℕ, zero, suc, ◌+◌, ◌*◌, ◌/◌, ◌^◌, ◌≤◌, ◌<◌, ◌≡◌, ◌≢◌, refl, ap, ◌∙◌, sym, true, Option, none,
  some, [], ◌∷◌, ◌++◌, ◌==◌, nat_eq, ne→false, arith, ltb, ltb→lt, ltb→ge, Bool-cases, inl, inr,
  All, All-append, if◌then◌else◌,
}
use mathlib.Core.Option.{none-ne-some}
use gitlab_procs_exporter.Prelude.Int.{
  ℤ, pos, negsuc, int_leb, int_ltb, int_sub, int_scale, int_over, wrap_int64, IsInt64, pos_part,
  sub_ℕ, wrap_int64-IsInt64, neg_ℕ,
}
use gitlab_procs_exporter.Prelude.Text.{Text, codes, cut, cut_prefix}
use gitlab_procs_exporter.Prelude.Decimal.{
  parse_int, format_int, format_nat, parse_int-format_int, format_nat-IsDigit, IsDigit,
  format_nat-ne-nil,
}

pub data WindowError : Type 0 where
  bad_absolute not_after bad_window bad_unit : WindowError

pub data Window : Type 0 where
  window : ℤ → ℤ → Window
  refused : WindowError → Window

abbrev pub absolute : Option ℤ → Option ℤ → Window
absolute (some s) (some e) = if int_leb e s then refused not_after else window s e
absolute (some s) none = refused bad_absolute
absolute none e = refused bad_absolute

abbrev seconds_of : ℕ → Option ℕ
seconds_of c =
    if c == b's'
    then some 1
    else if c == b'm'
    then some 60
    else if c == b'h'
    then some 3600
    else if c == b'd'
    then some 86400
    else none

abbrev pub back_from : ℤ → Option ℤ → Option ℕ → Window
back_from now none mult = refused bad_window
back_from now (some n) none = refused bad_unit
back_from now (some n) (some mult) =
    window (wrap_int64 (int_sub now (wrap_int64 (int_scale n mult)))) now

-- `win[:len(win)-1]` and `win[len(win)-1]`
unfoldable pub split_last : ℕ → Text → Text × ℕ
split_last c [] = ([], c)
split_last c (d ∷ s) = (c ∷ (split_last d s).0, (split_last d s).1)

abbrev number_and_unit : ℤ → Text × ℕ → Window
number_and_unit now (number, unit) = back_from now (parse_int number) (seconds_of unit)

unfoldable pub relative : ℤ → Text → Window
unfolding split_last parse_int
relative now [] = refused bad_window
relative now (c ∷ []) = refused bad_window
relative now (c ∷ (d ∷ s)) = number_and_unit now (split_last c (d ∷ s))

abbrev either_form : ℤ → Text → Option (Text × Text) → Window
either_form now win none = relative now win
either_form now win (some (s, e)) = absolute (parse_int s) (parse_int e)

-- The clock is read where the window is relative.
unfoldable pub parse_window : ℤ → Text → Window
unfolding cut relative parse_int
parse_window now win = either_form now win (cut win (codes ".."))

unfoldable pub step_for : ℤ → ℤ → ℤ
unfolding wrap_int64
step_for start end =
    let step = int_over (wrap_int64 (int_sub end start)) 30 in
    if int_ltb step (pos 15) then pos 15 else step

-- No byte of the text is a dot.
abbrev NoDot : Text → Type 0
NoDot s = All (λ c. c ≢ b'.') s

cut-append :
    (s rest : Text) → NoDot s → cut (s ++ (codes ".." ++ rest)) (codes "..") ≡ some (s, rest)
unfolding cut cut_prefix
cut-append [] rest h = refl
cut-append (c ∷ s) rest (hc, hs) = rw (ne→false c b'.' hc) (rw (cut-append s rest hs) refl)

no_cut : (s : Text) → NoDot s → cut s (codes "..") ≡ none
unfolding cut cut_prefix
no_cut [] h = refl
no_cut (c ∷ s) (hc, hs) = rw (ne→false c b'.' hc) (rw (no_cut s hs) refl)

digits-NoDot : (s : Text) → All IsDigit s → NoDot s
digits-NoDot [] h = tt
digits-NoDot (c ∷ s) (hc, hs) = ((λ e. absurd (omega arith)), digits-NoDot s hs)

format_int-NoDot : (z : ℤ) → NoDot (format_int z)
unfolding format_int
format_int-NoDot (pos n) = digits-NoDot (format_nat n) (format_nat-IsDigit n)
format_int-NoDot (negsuc n) =
    ((λ e. absurd (omega arith)), digits-NoDot (format_nat (n + 1)) (format_nat-IsDigit (n + 1)))

-- Two printed instants with two dots between them are read back as the window from the first to the
-- second, whatever the clock says, and are refused exactly where the second is not after the first.
pub parse_window-format_int :
    (now s e : ℤ)
    → IsInt64 s
    → IsInt64 e
    → parse_window now (format_int s ++ (codes ".." ++ format_int e))
      ≡ (if int_leb e s then refused not_after else window s e)
unfolding parse_window
parse_window-format_int now s e hs he =
    rw (cut-append (format_int s) (format_int e) (format_int-NoDot s))
      (rw (parse_int-format_int s hs) (rw (parse_int-format_int e he) refl))

split_last-concat : (c d : ℕ) (s : Text) → split_last c (s ++ (d ∷ [])) ≡ (c ∷ s, d)
unfolding split_last
split_last-concat c d [] = refl
split_last-concat c d (x ∷ s) = rw (split_last-concat x d s) refl

relative-concat :
    (now : ℤ) (s : Text) (c : ℕ)
    → s ≢ []
    → relative now (s ++ (c ∷ [])) ≡ back_from now (parse_int s) (seconds_of c)
unfolding relative
relative-concat now [] c ne = absurd (ne refl)
relative-concat now (x ∷ []) c ne = refl
relative-concat now (x ∷ (y ∷ s)) c ne = ap (number_and_unit now) (split_last-concat x c (y ∷ s))

NoDot-concat : (s : Text) (c : ℕ) → NoDot s → c ≢ b'.' → NoDot (s ++ (c ∷ []))
NoDot-concat s c h ne = All-append (λ d. d ≢ b'.') s (c ∷ []) h (ne, tt)

sub_ℕ-IsInt64 : (a b : ℕ) → a < 2 ^ 63 → b < 2 ^ 63 → IsInt64 (sub_ℕ a b)
sub_ℕ-IsInt64 a b ha hb = ground arith

int_sub_pos : (a b : ℕ) → int_sub (pos a) (pos b) ≡ sub_ℕ a b
int_sub_pos a b = ground arith

parse_int-format_nat : (n : ℕ) → n < 2 ^ 63 → parse_int (format_nat n) ≡ some (pos n)
unfolding format_int
parse_int-format_nat n h = parse_int-format_int (pos n) h

-- A printed number with one of the units s, m, h and d behind it is the window of so many seconds,
-- minutes, hours or days before the clock, if both the clock and the length are below 2 ^ 63 seconds.
pub parse_window_relative :
    (t n c mult : ℕ)
    → seconds_of c ≡ some mult
    → t < 2 ^ 63
    → n < 2 ^ 63
    → n * mult < 2 ^ 63
    → parse_window (pos t) (format_nat n ++ (c ∷ [])) ≡ window (sub_ℕ t (n * mult)) (pos t)
unfolding parse_window
parse_window_relative t n c mult unit ht hn hm =
    rw
      (no_cut (format_nat n ++ (c ∷ [])) (
        NoDot-concat (format_nat n) c (digits-NoDot (format_nat n) (format_nat-IsDigit n))
          (dot c unit)))
      (relative-concat (pos t) (format_nat n) c (format_nat-ne-nil n)
        ∙ ap (λ o. back_from (pos t) o (seconds_of c)) (parse_int-format_nat n hn)
        ∙ ap (back_from (pos t) (some (pos n))) unit
        ∙ ap (λ z. window z (pos t))
            (ap (λ z. wrap_int64 (int_sub (pos t) z)) (wrap_int64-IsInt64 (pos (n * mult)) hm)
              ∙ ap wrap_int64 (int_sub_pos t (n * mult))
              ∙ (wrap_int64-IsInt64 (sub_ℕ t (n * mult)) (sub_ℕ-IsInt64 t (n * mult) ht hm))))
  where
    dot : (c : ℕ) → seconds_of c ≡ some mult → c ≢ b'.'
    dot c h e = absurd (none-ne-some mult (ap seconds_of (sym e) ∙ h))

step_of : ℤ → ℤ
step_of z = let step = int_over z 30 in if int_ltb step (pos 15) then pos 15 else step

neg_ℕ-less : (m : ℕ) → int_ltb (neg_ℕ m) (pos 15) ≡ true
neg_ℕ-less zero = refl
neg_ℕ-less (suc m) = ground arith

step_of-bounds : (z : ℤ) → (s : ℕ) × (step_of z ≡ pos s) × (15 ≤ s) × (pos_part z < 32 * s)
unfolding step_of
step_of-bounds (pos n) = elim (Bool-cases (ltb (n / 30 + 0) (15 + 0))) [
  | inl less ↦ rw less (15, refl, omega arith, omega (arith, ltb→lt (n / 30 + 0) (15 + 0) less))
  | inr more ↦ rw more (
    n / 30,
    refl,
    omega (arith, ltb→ge (n / 30 + 0) (15 + 0) more),
    omega (arith, ltb→ge (n / 30 + 0) (15 + 0) more),
  )
]
step_of-bounds (negsuc n) = rw (neg_ℕ-less (suc n / 30)) (15, refl, omega arith, omega arith)

-- A step is at least 15 seconds long, and a window whose length is an `int64` has fewer than 32
-- steps.
pub step_for-bounds :
    (start end : ℤ)
    → IsInt64 (int_sub end start)
    → (s : ℕ) × (step_for start end ≡ pos s) × (15 ≤ s) × (pos_part (int_sub end start) < 32 * s)
unfolding step_for step_of
step_for-bounds start end h =
    let (s, e, low, high) = step_of-bounds (int_sub end start) in
    (s, ap step_of (wrap_int64-IsInt64 (int_sub end start) h) ∙ e, low, high)
