-- ===== src/Web/Window.antt =====
-- cmd/jobreport-web/window.go: the window of a run, from the fields of the form.
use gitlab_procs_exporter.Prelude.{
  ℕ, ◌+◌, ◌*◌, ◌≤◌, ◌<◌, ◌≡◌, ◌≢◌, ◌⊎◌, refl, ap, ◌∙◌, sym, subst, Bool, true, false, ◌&&◌, ◌||◌,
  Option, none, some, [], ◌++◌, ◌==◌, list_eq, nat_eq, arith, if◌then◌else◌, Bool-cases, inl, inr,
  ltb, some_inj,
}
use gitlab_procs_exporter.Prelude.Int.{ℤ, pos, negsuc, int_leb, int_add, IsInt64}
use mathlib.Core.Option.{none-ne-some}
use gitlab_procs_exporter.Prelude.Text.{Text, codes}
use gitlab_procs_exporter.Prelude.Decimal.{parse_int, format_int}
use gitlab_procs_exporter.JobReport.Cli.Window.{
  window, refused, not_after, parse_window, parse_window-format_int,
}

-- A day of the years 0 to 9999, by the seconds of its midnight from 1970 on.
abbrev pub IsDay : ℤ → Type 0
IsDay (pos n) = n ≤ 253402214400
IsDay (negsuc n) = n < 62167219200

-- Package time: `time.Parse` of a date with a year of four digits, in UTC.
pub record Calendar : Type 0 where
  pub parse_day : Text → Option ℤ
  pub parse_day-IsDay : (s : Text) (z : ℤ) → parse_day s ≡ some z → IsDay z

pub data FormError : Type 0 where
  incomplete bad_date bad_hour bad_minute end_not_after : FormError

pub data FormResult {ℓ} (A : Type ℓ) : Type ℓ where
  ok : A → FormResult A
  rejected : FormError → FormResult A

-- A number from 0 to a limit, as `Atoi` reads it.
abbrev in_range : ℕ → Option ℤ → Option ℕ
in_range limit none = none
in_range limit (some (negsuc n)) = none
in_range limit (some (pos n)) = if ltb limit n then none else some n

-- `time.Date(...).Unix()`
abbrev with_time : Option ℤ → Option ℕ → Option ℕ → FormResult ℤ
with_time none hour minute = rejected bad_date
with_time (some day) none minute = rejected bad_hour
with_time (some day) (some h) none = rejected bad_minute
with_time (some day) (some h) (some m) = ok (int_add day (h * 3600 + m * 60))

unfoldable pub parse_utc_moment : Calendar → Text → Text → Text → FormResult ℤ
unfolding parse_int
parse_utc_moment c date hour minute =
    if date == [] || hour == [] || minute == []
    then rejected incomplete
    else with_time (c.parse_day date) (in_range 23 (parse_int hour))
        (in_range 59 (parse_int minute))

-- The six fields of the form.
pub record WindowForm : Type 0 where
  pub start_date : Text
  pub start_hour : Text
  pub start_min : Text
  pub end_date : Text
  pub end_hour : Text
  pub end_min : Text

abbrev pub all_empty : WindowForm → Bool
all_empty f =
    f.start_date == []
    && f.start_hour == []
    && f.start_min == []
    && f.end_date == []
    && f.end_hour == []
    && f.end_min == []

pub between : FormResult ℤ → FormResult ℤ → FormResult Text
unfolding format_int
between (rejected e) end = rejected e
between (ok start) (rejected e) = rejected e
between (ok start) (ok end) =
    if int_leb end start
    then rejected end_not_after
    else ok (format_int start ++ (codes ".." ++ format_int end))

unfoldable pub build_window : Calendar → WindowForm → FormResult Text
unfolding between parse_utc_moment
build_window c f =
    if all_empty f
    then ok []
    else between (parse_utc_moment c f.start_date f.start_hour f.start_min)
        (parse_utc_moment c f.end_date f.end_hour f.end_min)

ok_inj {ℓ} : {A : Type ℓ} {a b : A} → ok a ≡ ok b → a ≡ b
ok_inj h = cc

rejected-ne-ok {ℓ} : {A : Type ℓ} {e : FormError} {a : A} → rejected e ≢ ok a
rejected-ne-ok = λ h. cc

-- The instant of a day, an hour and a minute that were read, in seconds.
abbrev IsInstant : Option ℤ → Option ℤ → Option ℤ → ℤ → Type 0
IsInstant date hour minute z =
    (day : ℤ) × (h : ℕ) × (m : ℕ) × (date ≡ some day)
    × (hour ≡ some (pos h))
    × (h ≤ 23)
    × (minute ≡ some (pos m))
    × (m ≤ 59)
    × (z ≡ int_add day (60 * (60 * h + m)))

-- A group of three fields names the instant `z`.
abbrev pub IsTime : Calendar → Text → Text → Text → ℤ → Type 0
IsTime c date hour minute = IsInstant (c.parse_day date) (parse_int hour) (parse_int minute)

int_add-IsInt64 : (z : ℤ) (n : ℕ) → IsDay z → n ≤ 90000 → IsInt64 (int_add z n)
int_add-IsInt64 (pos a) n h hn = omega arith
int_add-IsInt64 (negsuc a) n h hn = ground arith

in_range_lem :
    (limit n : ℕ) (o : Option ℤ) → in_range limit o ≡ some n → (o ≡ some (pos n)) × (n ≤ limit)
in_range_lem limit n none h = absurd (none-ne-some n h)
in_range_lem limit n (some (negsuc m)) h = absurd (none-ne-some n h)
in_range_lem limit n (some (pos m)) h = elim (Bool-cases (ltb limit m)) [
  | inl over ↦ absurd (none-ne-some n (rw over at h))
  | inr within ↦
      let e : m ≡ n = some_inj (rw within at h) in (ap (λ k. some (pos k)) e, ground arith)
]

with_time-IsInstant :
    (day : Option ℤ) (hour minute : Option ℤ) (oh om : Option ℕ) (z : ℤ)
    → in_range 23 hour ≡ oh
    → in_range 59 minute ≡ om
    → with_time day oh om ≡ ok z
    → IsInstant day hour minute z
with_time-IsInstant none hour minute oh om z eh em h = cc
with_time-IsInstant (some day) hour minute none om z eh em h = cc
with_time-IsInstant (some day) hour minute (some a) none z eh em h = cc
with_time-IsInstant (some day) hour minute (some a) (some b) z eh em h =
    let (hours, ha) = in_range_lem 23 a hour eh in
    let (minutes, mb) = in_range_lem 59 b minute em in
    (day, a, b, refl, hours, ha, minutes, mb, sym (ok_inj h) ∙ ap (int_add day) (omega arith))

parse_utc_moment-IsTime :
    (c : Calendar) (date hour minute : Text) (z : ℤ)
    → parse_utc_moment c date hour minute ≡ ok z
    → IsTime c date hour minute z
unfolding parse_utc_moment
parse_utc_moment-IsTime c date hour minute z h =
    elim (Bool-cases (date == [] || hour == [] || minute == [])) [
      | inl e ↦ absurd (rejected-ne-ok (rw e at h))
      | inr n ↦
          with_time-IsInstant (c.parse_day date) (parse_int hour) (parse_int minute) _ _ z refl refl
            (rw n at h)
    ]

IsTime-IsInt64 :
    (c : Calendar) (date hour minute : Text) (z : ℤ) → IsTime c date hour minute z → IsInt64 z
IsTime-IsInt64 c date hour minute z (day, h, m, known, hours, hh, minutes, hm, e) =
    subst IsInt64 (sym e)
      (int_add-IsInt64 day (60 * (60 * h + m)) (c.parse_day-IsDay date day known) (omega arith))

-- What the report reads a window as: one that ends after it starts.
abbrev pub IsRead : Text → Type 0
IsRead w = (s : ℤ) × (e : ℤ) × (int_leb e s ≡ false) × ((now : ℤ) → parse_window now w ≡ window s e)

-- What a text says of two instants: the report reads it as the window between them, and the second is
-- later.
abbrev pub IsWindow : ℤ → ℤ → Text → Type 0
IsWindow s e w = (int_leb e s ≡ false) × ((now : ℤ) → parse_window now w ≡ window s e)

between-IsWindow :
    (start end : FormResult ℤ) (w : Text)
    → ((s : ℤ) → start ≡ ok s → IsInt64 s)
    → ((e : ℤ) → end ≡ ok e → IsInt64 e)
    → between start end ≡ ok w
    → (s : ℤ) × (e : ℤ) × (start ≡ ok s) × (end ≡ ok e) × IsWindow s e w
unfolding between
between-IsWindow (rejected e) end w hs he h = absurd (rejected-ne-ok h)
between-IsWindow (ok start) (rejected e) w hs he h = absurd (rejected-ne-ok h)
between-IsWindow (ok start) (ok end) w hs he h = elim (Bool-cases (int_leb end start)) [
  | inl no_time ↦ absurd (rejected-ne-ok (rw no_time at h))
  | inr after ↦ (
    start,
    end,
    refl,
    refl,
    (
      after,
      (λ now.
          ap (parse_window now) (sym (ok_inj (rw after at h)))
          ∙ parse_window-format_int now start end (hs start refl) (he end refl)
          ∙ ap (λ b. if b then refused not_after else window start end) after),
    ),
  )
]

-- The two instants of a form, which its text gives to the report.
abbrev pub IsFormed : Calendar → WindowForm → Text → Type 0
IsFormed c f w =
    (s : ℤ) × (e : ℤ) × IsTime c f.start_date f.start_hour f.start_min s
    × IsTime c f.end_date f.end_hour f.end_min e
    × IsWindow s e w

pub IsFormed-IsRead : (c : Calendar) (f : WindowForm) (w : Text) → IsFormed c f w → IsRead w
IsFormed-IsRead c f w (s, e, starts, ends, is_window) = (s, e, is_window.0, is_window.1)

-- The form and the report agree on windows: what the form gives is empty, where all its fields are
-- empty, or a text that the report reads, whatever its clock says, as the window from the instant of
-- the form's first three fields to the later instant of the other three. An instant is the seconds of
-- the date's midnight, and those of an hour from 0 to 23 and a minute from 0 to 59.
pub build_window-parse_window :
    (c : Calendar) (f : WindowForm) (w : Text)
    → build_window c f ≡ ok w
    → ((all_empty f ≡ true) × (w ≡ [])) ⊎ ((all_empty f ≡ false) × IsFormed c f w)
unfolding build_window
build_window-parse_window c f w h = elim (Bool-cases (all_empty f)) [
  | inl empty ↦ inl (empty, ok_inj (sym h ∙ ap (λ b. if b then ok [] else formed) empty))
  | inr filled ↦
      let (s, e, at_s, at_e, is_window) =
        between-IsWindow start end w
          (λ s k. IsTime-IsInt64 c f.start_date f.start_hour f.start_min s (starts s k))
          (λ e k. IsTime-IsInt64 c f.end_date f.end_hour f.end_min e (ends e k))
          (sym (ap (λ b. if b then ok [] else formed) filled) ∙ h) in
      inr (filled, (s, e, starts s at_s, ends e at_e, is_window))
]
  where
    start : FormResult ℤ
    start = parse_utc_moment c f.start_date f.start_hour f.start_min

    end : FormResult ℤ
    end = parse_utc_moment c f.end_date f.end_hour f.end_min

    formed : FormResult Text
    formed = between start end

    starts : (s : ℤ) → start ≡ ok s → IsTime c f.start_date f.start_hour f.start_min s
    starts s k = parse_utc_moment-IsTime c f.start_date f.start_hour f.start_min s k

    ends : (e : ℤ) → end ≡ ok e → IsTime c f.end_date f.end_hour f.end_min e
    ends e k = parse_utc_moment-IsTime c f.end_date f.end_hour f.end_min e k
