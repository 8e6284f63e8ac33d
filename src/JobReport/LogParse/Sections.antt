-- ===== src/JobReport/LogParse/Sections.antt =====
-- What the window and the phases of a job are, by the section markers of its log.
use gitlab_procs_exporter.Prelude.{
  ℕ, ◌≤◌, ◌<◌, ◌≡◌, refl, ◌∙◌, sym, subst, Bool, true, false, ◌||◌, Option, none, some, List, [],
  ◌∷◌, ◌⊎◌, ◌==◌, nat_eq, list_eq, arith, ltb, All, All-append, All-weaken, Member, Bool-cases,
  if◌then◌else◌, inl, inr, some_inj,
}
use mathlib.Core.Option.{none-ne-some}
use gitlab_procs_exporter.Prelude.Text.{Text}
use gitlab_procs_exporter.Prelude.Map.{Map, lookup, insert, delete, lookup-insert, lookup-delete}
use gitlab_procs_exporter.JobReport.LogParse.{
  Phase, JobInfo, Mark, LogState, parse_digits, end_phase, mark_step, mark_loop,
}

abbrev pub epoch : Mark → ℕ
epoch m = parse_digits m.digits

-- The earliest and the latest of the instants, or zero where there are none.
abbrev pub IsSpan : List ℕ → ℕ → ℕ → Type 0
IsSpan [] s e = (s ≡ 0) × (e ≡ 0)
IsSpan (x ∷ xs) s e =
    (0 < s) × Member s (x ∷ xs) × Member e (x ∷ xs) × All (λ t. (s ≤ t) × (t ≤ e)) (x ∷ xs)

abbrev earliest : ℕ → ℕ → ℕ
earliest s ep = if s == 0 || ltb ep s then ep else s

abbrev latest : ℕ → ℕ → ℕ
latest e ep = if ltb e ep then ep else e

within :
    (xs : List ℕ) {s e s' e' : ℕ}
    → s' ≤ s
    → e ≤ e'
    → All (λ t. (s ≤ t) × (t ≤ e)) xs
    → All (λ t. (s' ≤ t) × (t ≤ e')) xs
within [] hs he h = tt
within (x ∷ xs) hs he (hx, h) = (omega arith, within xs hs he h)

earliest_lem :
    (s ep : ℕ)
    → 0 < s
    → 0 < ep
    → let s' = earliest s ep in (0 < s') × (s' ≤ s) × (s' ≤ ep) × ((s' ≡ ep) ⊎ (s' ≡ s))
earliest_lem s ep hs hep = ground arith

latest_lem : (e ep : ℕ) → let e' = latest e ep in (e ≤ e') × (ep ≤ e') × ((e' ≡ ep) ⊎ (e' ≡ e))
latest_lem e ep = ground arith

first-earliest : (s ep : ℕ) → s ≡ 0 → earliest s ep ≡ ep
first-earliest s ep h = ground arith

first-latest : (e ep : ℕ) → e ≡ 0 → latest e ep ≡ ep
first-latest e ep h = ground arith

or_before : {a b x : ℕ} (xs : List ℕ) → (a ≡ x) ⊎ (a ≡ b) → Member b xs → Member a (x ∷ xs)
or_before xs (inl e) m = inl e
or_before xs (inr e) m = inr (subst (λ t. Member t xs) (sym e) m)

step-IsSpan :
    (seen : List ℕ) (s e ep : ℕ)
    → 0 < ep
    → IsSpan seen s e
    → IsSpan (ep ∷ seen) (earliest s ep) (latest e ep)
step-IsSpan [] s e ep p (hs, he) =
    let es : earliest s ep ≡ ep = first-earliest s ep hs in
    let ee : latest e ep ≡ ep = first-latest e ep he in
    (omega arith, inl es, inl ee, ((omega arith, omega arith), tt))
step-IsSpan (x ∷ xs) s e ep p (hs, ms, me, bounds) =
    let (above, le, le_ep, from) = earliest_lem s ep hs p in
    let (ge, ge_ep, from') = latest_lem e ep in
    (
      above,
      or_before (x ∷ xs) from ms,
      or_before (x ∷ xs) from' me,
      ((le_ep, ge_ep), within (x ∷ xs) le ge bounds),
    )

-- Each phase begins and ends at one of the instants.
abbrev pub IsPhases : List ℕ → List Phase → Type 0
IsPhases seen phases = All (λ p. Member p.start seen × Member p.end seen) phases

abbrev IsPending : List ℕ → Map Text ℕ → Type 0
IsPending seen m = (name : Text) (t : ℕ) → lookup name m ≡ some t → Member t seen

-- What the sections leave in the info.
abbrev pub clock : JobInfo → ℕ × ℕ × List Phase
clock j = (j.start_epoch, j.end_epoch, j.phases)

abbrev pub IsClock : List ℕ → ℕ × ℕ × List Phase → Type 0
IsClock seen (s, e, phases) = IsSpan seen s e × IsPhases seen phases

abbrev pub IsTracked : List ℕ → LogState → Type 0
IsTracked seen st = IsClock seen (clock st.info) × IsPending seen st.phase_start

abbrev pub add_epochs : List Mark → List ℕ → List ℕ
add_epochs [] seen = seen
add_epochs (m ∷ marks) seen = add_epochs marks (epoch m ∷ seen)

more-IsPhases :
    (ep : ℕ) (seen : List ℕ) (phases : List Phase)
    → IsPhases seen phases
    → IsPhases (ep ∷ seen) phases
more-IsPhases ep seen =
    All-weaken (λ p. Member p.start seen × Member p.end seen)
      (λ p. Member p.start (ep ∷ seen) × Member p.end (ep ∷ seen)) (λ p h. (inr h.0, inr h.1))

insert-IsPending :
    (name : Text) (ep : ℕ) (seen : List ℕ) (m : Map Text ℕ)
    → IsPending seen m
    → IsPending (ep ∷ seen) (insert name ep m)
insert-IsPending name ep seen m h j t found = elim (Bool-cases (name == j)) [
  | inl same ↦ inl (sym (some_inj (rw same at (sym (lookup-insert name j ep m)) ∙ found)))
  | inr other ↦ inr (h j t (rw other at (sym (lookup-insert name j ep m)) ∙ found))
]

delete-IsPending :
    (name : Text) (seen : List ℕ) (m : Map Text ℕ)
    → IsPending seen m
    → IsPending seen (delete name m)
delete-IsPending name seen m h j t found = elim (Bool-cases (name == j)) [
  | inl same ↦ absurd (none-ne-some t (rw same at (sym (lookup-delete name j m)) ∙ found))
  | inr other ↦ h j t (rw other at (sym (lookup-delete name j m)) ∙ found)
]

choose-IsTracked :
    (seen : List ℕ) (b : Bool) (x y : LogState)
    → IsTracked seen x
    → IsTracked seen y
    → IsTracked seen (if b then x else y)
choose-IsTracked seen true x y hx hy = hx
choose-IsTracked seen false x y hx hy = hy

end_phase-IsTracked :
    (name : Text) (ep : ℕ) (seen : List ℕ) (o : Option ℕ) (st : LogState)
    → ((t : ℕ) → o ≡ some t → Member t seen)
    → IsTracked (ep ∷ seen) st
    → IsTracked (ep ∷ seen) (end_phase name ep o st)
end_phase-IsTracked name ep seen none st begun h = h
end_phase-IsTracked name ep seen (some t) st begun h = (
  (
    h.0.0,
    All-append (λ p. Member p.start (ep ∷ seen) × Member p.end (ep ∷ seen)) st.info.phases _ h.0.1
        ((inr (begun t refl), inl refl), tt),
  ),
  delete-IsPending name (ep ∷ seen) st.phase_start h.1,
)

mark_step-IsTracked :
    (m : Mark) (seen : List ℕ) (st : LogState)
    → 0 < epoch m
    → IsTracked seen st
    → IsTracked (epoch m ∷ seen) (mark_step m st)
unfolding mark_step
mark_step-IsTracked m seen st p h =
    let span = step-IsSpan seen st.info.start_epoch st.info.end_epoch (epoch m) p h.0.0 in
    let phases = more-IsPhases (epoch m) seen st.info.phases h.0.1 in
    choose-IsTracked (epoch m ∷ seen) m.starts _ _
      ((span, phases), insert-IsPending m.name (epoch m) seen st.phase_start h.1)
      (end_phase-IsTracked m.name (epoch m) seen (lookup m.name st.phase_start) _ (h.1 m.name)
        ((span, phases), (λ name t found. inr (h.1 name t found))))

pub mark_loop-IsTracked :
    (marks : List Mark) (seen : List ℕ) (st : LogState)
    → All (λ m. 0 < epoch m) marks
    → IsTracked seen st
    → IsTracked (add_epochs marks seen) (mark_loop marks st)
unfolding mark_loop
mark_loop-IsTracked [] seen st p h = h
mark_loop-IsTracked (m ∷ marks) seen st (p, ps) h =
    mark_loop-IsTracked marks (epoch m ∷ seen) (mark_step m st) ps
      (mark_step-IsTracked m seen st p h)
