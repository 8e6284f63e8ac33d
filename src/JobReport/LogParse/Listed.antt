-- ===== src/JobReport/LogParse/Listed.antt =====
-- Lists to which `parseJobLog` adds what is not in them.
use gitlab_procs_exporter.Prelude.{
  ◌≡◌, ◌↔◌, ◌⊎◌, refl, sym, ap, subst, ◌∙◌, true, Option, none, some, List, [], ◌∷◌, ◌==◌, eq_iff,
  list_eq, nat_eq, Member, Bool-cases, inl, inr, some_inj,
}
use mathlib.Core.Bool.{false≢true}
use mathlib.Core.Option.{none-ne-some}
use gitlab_procs_exporter.Prelude.Text.{Text}
use gitlab_procs_exporter.Prelude.Sort.{IsUnique, Member-concat, concat-IsUnique}
use gitlab_procs_exporter.JobReport.LogParse.{is_listed, add_new}

abbrev pub add_some : Option Text → List Text → List Text
add_some none xs = xs
add_some (some v) xs = add_new v xs

-- What a pattern captures in the lines, each text once.
abbrev pub add_all : (Text → Option Text) → List Text → List Text → List Text
add_all f [] xs = xs
add_all f (ln ∷ lines) xs = add_all f lines (add_some (f ln) xs)

-- The pattern captures the text in one of the lines.
abbrev pub Captures : (Text → Option Text) → Text → List Text → Type 0
Captures f x [] = ⊥
Captures f x (ln ∷ lines) = (f ln ≡ some x) ⊎ Captures f x lines

is_listed_iff : (x : Text) (ys : List Text) → (is_listed x ys ≡ true) ↔ Member x ys
unfolding is_listed
is_listed_iff x [] = (λ h. absurd (false≢true h), λ m. absurd m)
is_listed_iff x (y ∷ ys) = elim (Bool-cases (y == x)) [
  | inl same ↦ rw same (λ h. inl (sym ((eq_iff y x).0 same)), λ m. refl)
  | inr other ↦ rw other (
    λ h. inr ((is_listed_iff x ys).0 h),
    λ m. elim m [
      | inl e ↦ absurd (false≢true (sym other ∙ (eq_iff y x).1 (sym e)))
      | inr k ↦ (is_listed_iff x ys).1 k
    ],
  )
]

-- Adding keeps a list free of repetition, and adds just the text.
abbrev IsAdded : Option Text → List Text → List Text → Type 0
IsAdded o xs xs' =
    (IsUnique xs → IsUnique xs') × ((x : Text) → Member x xs' ↔ (Member x xs ⊎ (o ≡ some x)))

add_some-IsAdded : (o : Option Text) (xs : List Text) → IsAdded o xs (add_some o xs)
add_some-IsAdded none xs =
    (λ h. h, λ x. (λ m. inl m, λ k. elim k [ inl m ↦ m | inr e ↦ absurd (none-ne-some x e) ]))
add_some-IsAdded (some v) xs = elim (Bool-cases (is_listed v xs)) [
  | inl old ↦ rw old (
    λ h. h,
    λ x. (
      λ m. inl m,
      λ k. elim k [
        | inl m ↦ m
        | inr e ↦ subst (λ y. Member y xs) (some_inj e) ((is_listed_iff v xs).0 old)
      ],
    ),
  )
  | inr new ↦ rw new (
    concat-IsUnique v xs (λ m. false≢true (sym new ∙ (is_listed_iff v xs).1 m)),
    λ x. (
      λ m. elim ((Member-concat x v xs).0 m) [
        | inl k ↦ inl k
        | inr e ↦ inr (ap (λ y. some y) (sym e))
      ],
      λ k. (Member-concat x v xs).1 (elim k [ inl m ↦ inl m | inr e ↦ inr (sym (some_inj e)) ]),
    ),
  )
]

-- A list holds what the pattern captures in the lines, each text once.
abbrev pub IsCaptured : (Text → Option Text) → List Text → List Text → Type 0
IsCaptured f lines xs = IsUnique xs × ((x : Text) → Member x xs ↔ Captures f x lines)

add_all-IsUnique :
    (f : Text → Option Text) (lines xs : List Text) → IsUnique xs → IsUnique (add_all f lines xs)
add_all-IsUnique f [] xs h = h
add_all-IsUnique f (ln ∷ lines) xs h =
    add_all-IsUnique f lines (add_some (f ln) xs) ((add_some-IsAdded (f ln) xs).0 h)

add_all-Member :
    (f : Text → Option Text) (lines xs : List Text) (x : Text)
    → Member x (add_all f lines xs) ↔ (Member x xs ⊎ Captures f x lines)
add_all-Member f [] xs x = (λ m. inl m, λ k. elim k [ inl m ↦ m | inr c ↦ absurd c ])
add_all-Member f (ln ∷ lines) xs x =
    let added = (add_some-IsAdded (f ln) xs).1 x in
    let later = add_all-Member f lines (add_some (f ln) xs) x in
    (
      λ m. elim (later.0 m) [
        | inl k ↦ elim (added.0 k) [ inl old ↦ inl old | inr e ↦ inr (inl e) ]
        | inr c ↦ inr (inr c)
      ],
      λ k. elim k [
        | inl old ↦ later.1 (inl (added.1 (inl old)))
        | inr c ↦ elim c [ inl e ↦ later.1 (inl (added.1 (inr e))) | inr d ↦ later.1 (inr d) ]
      ],
    )

pub add_all-IsCaptured :
    (f : Text → Option Text) (lines : List Text) → IsCaptured f lines (add_all f lines [])
add_all-IsCaptured f lines = (
  add_all-IsUnique f lines [] tt,
  λ x. (
    λ m. elim ((add_all-Member f lines [] x).0 m) [ inl k ↦ absurd k | inr c ↦ c ],
    λ c. (add_all-Member f lines [] x).1 (inr c),
  ),
)
