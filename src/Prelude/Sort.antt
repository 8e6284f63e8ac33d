-- ===== src/Prelude/Sort.antt =====
-- sort.Strings: texts in the order of their bytes.
use Prim.Native.Nat.{suc}
use mathlib.Core.Path.{◌≡◌, refl, sym, subst}
use mathlib.Core.Logic.{◌⊎◌, ◌↔◌, inl, inr}
use mathlib.Core.Bool.{Bool, true, false}
use mathlib.Core.List.{List, [], ◌∷◌, ◌++◌}
use native.Mathlib.Omega.{arith}
use gitlab_procs_exporter.Prelude.Tests.{ltb, nat_beq, if◌then◌else◌, Bool-cases}
use gitlab_procs_exporter.Prelude.Lists.{All, length, Member}
use gitlab_procs_exporter.Prelude.Text.{Text}

-- s <= t
unfoldable pub text_leb : Text → Text → Bool
text_leb [] t = true
text_leb (c ∷ s) [] = false
text_leb (c ∷ s) (d ∷ t) = let rest = text_leb s t in if nat_beq c d then rest else ltb c d

pub text_leb_total : (s t : Text) → text_leb s t ≡ false → text_leb t s ≡ true
unfolding text_leb
text_leb_total [] t h = cc
text_leb_total (c ∷ s) [] h = refl
text_leb_total (c ∷ s) (d ∷ t) h = ground (arith, text_leb_total s t)

pub text_leb_trans :
    (s t u : Text) → text_leb s t ≡ true → text_leb t u ≡ true → text_leb s u ≡ true
unfolding text_leb
text_leb_trans [] t u h k = refl
text_leb_trans (c ∷ s) [] u h k = cc
text_leb_trans (c ∷ s) (d ∷ t) [] h k = cc
text_leb_trans (c ∷ s) (d ∷ t) (e ∷ u) h k = ground (arith, text_leb_trans s t u)

unfoldable pub place : Text → List Text → List Text
unfolding text_leb
place x [] = x ∷ []
place x (y ∷ ys) = let rest = place x ys in if text_leb x y then x ∷ (y ∷ ys) else y ∷ rest

unfoldable pub sort_strings : List Text → List Text
unfolding place
sort_strings [] = []
sort_strings (x ∷ xs) = place x (sort_strings xs)

-- Each text is before all that follow.
abbrev pub IsSorted : List Text → Type 0
IsSorted [] = Unit
IsSorted (x ∷ xs) = All (λ y. text_leb x y ≡ true) xs × IsSorted xs

-- The two ways to go on, for the proofs by cases.
abbrev placed : Bool → Text → Text → List Text → List Text
placed b x y ys = if b then x ∷ (y ∷ ys) else y ∷ place x ys

place-Member : (x y : Text) (ys : List Text) → Member y (place x ys) → (y ≡ x) ⊎ Member y ys
unfolding place
place-Member x y [] h = h
place-Member x y (z ∷ zs) h = elim (Bool-cases (text_leb x z)) [
  | inl first ↦ subst (λ b. Member y (placed b x z zs)) first h
  | inr later ↦ elim (subst (λ b. Member y (placed b x z zs)) later h) [
    | inl e ↦ inr (inl e)
    | inr m ↦ elim (place-Member x y zs m) [ inl e ↦ inl e | inr k ↦ inr (inr k) ]
  ]
]

Member-place : (x y : Text) (ys : List Text) → (y ≡ x) ⊎ Member y ys → Member y (place x ys)
unfolding place
Member-place x y [] h = h
Member-place x y (z ∷ zs) h = elim (Bool-cases (text_leb x z)) [
  | inl first ↦ subst (λ b. Member y (placed b x z zs)) (sym first) h
  | inr later ↦
      subst (λ b. Member y (placed b x z zs)) (sym later)
        (elim h [
          | inl e ↦ inr (Member-place x y zs (inl e))
          | inr m ↦ elim m [ inl e ↦ inl e | inr k ↦ inr (Member-place x y zs (inr k)) ]
        ])
]

All-place {ℓ} :
    (P : Text → Type ℓ) (x : Text) (ys : List Text) → P x → All P ys → All P (place x ys)
unfolding place
All-place P x [] px h = (px, tt)
All-place P x (y ∷ ys) px h = elim (Bool-cases (text_leb x y)) [
  | inl first ↦ subst (λ b. All P (placed b x y ys)) (sym first) (px, h)
  | inr later ↦ subst (λ b. All P (placed b x y ys)) (sym later) (h.0, All-place P x ys px h.1)
]

All-after :
    (x y : Text) (ys : List Text)
    → text_leb x y ≡ true
    → All (λ z. text_leb y z ≡ true) ys
    → All (λ z. text_leb x z ≡ true) ys
All-after x y [] h k = tt
All-after x y (z ∷ zs) h k = (text_leb_trans x y z h k.0, All-after x y zs h k.1)

place-IsSorted : (x : Text) (ys : List Text) → IsSorted ys → IsSorted (place x ys)
unfolding place
place-IsSorted x [] h = (tt, tt)
place-IsSorted x (y ∷ ys) h = elim (Bool-cases (text_leb x y)) [
  | inl first ↦
      subst (λ b. IsSorted (placed b x y ys)) (sym first) ((first, All-after x y ys first h.0), h)
  | inr later ↦
      subst (λ b. IsSorted (placed b x y ys)) (sym later)
        (
          All-place (λ z. text_leb y z ≡ true) x ys (text_leb_total x y later) h.0,
          place-IsSorted x ys h.1,
        )
]

pub sort_strings-IsSorted : (xs : List Text) → IsSorted (sort_strings xs)
unfolding sort_strings
sort_strings-IsSorted [] = tt
sort_strings-IsSorted (x ∷ xs) = place-IsSorted x (sort_strings xs) (sort_strings-IsSorted xs)

-- Sorting keeps the members.
pub sort_strings-Member : (y : Text) (xs : List Text) → Member y (sort_strings xs) ↔ Member y xs
unfolding sort_strings
sort_strings-Member y [] = (λ h. h, λ h. h)
sort_strings-Member y (x ∷ xs) = (
  λ h. elim (place-Member x y (sort_strings xs) h) [
    | inl e ↦ inl e
    | inr m ↦ inr ((sort_strings-Member y xs).0 m)
  ],
  λ h.
      Member-place x y (sort_strings xs)
        (elim h [ inl e ↦ inl e | inr m ↦ inr ((sort_strings-Member y xs).1 m) ]),
)

length-place : (x : Text) (ys : List Text) → length (place x ys) ≡ suc (length ys)
unfolding place
length-place x [] = refl
length-place x (y ∷ ys) = ground (arith, length-place x ys)

pub length-sort_strings : (xs : List Text) → length (sort_strings xs) ≡ length xs
unfolding sort_strings
length-sort_strings [] = refl
length-sort_strings (x ∷ xs) =
    omega (arith, length-place x (sort_strings xs), length-sort_strings xs)

-- No text stands twice.
abbrev pub IsUnique : List Text → Type 0
IsUnique [] = Unit
IsUnique (x ∷ xs) = (¬ Member x xs) × IsUnique xs

place-IsUnique : (x : Text) (ys : List Text) → (¬ Member x ys) → IsUnique ys → IsUnique (place x ys)
unfolding place
place-IsUnique x [] new h = ((λ m. m), tt)
place-IsUnique x (y ∷ ys) new h = elim (Bool-cases (text_leb x y)) [
  | inl first ↦ subst (λ b. IsUnique (placed b x y ys)) (sym first) (new, h)
  | inr later ↦
      subst (λ b. IsUnique (placed b x y ys)) (sym later)
        (
          (λ m. elim (place-Member x y ys m) [ inl e ↦ new (inl (sym e)) | inr k ↦ h.0 k ]),
          place-IsUnique x ys (λ m. new (inr m)) h.1,
        )
]

pub sort_strings-IsUnique : (xs : List Text) → IsUnique xs → IsUnique (sort_strings xs)
unfolding sort_strings
sort_strings-IsUnique [] h = tt
sort_strings-IsUnique (x ∷ xs) h =
    place-IsUnique x (sort_strings xs) (λ m. h.0 ((sort_strings-Member x xs).0 m))
      (sort_strings-IsUnique xs h.1)

pub Member-concat :
    (x y : Text) (ys : List Text) → Member x (ys ++ (y ∷ [])) ↔ (Member x ys ⊎ (x ≡ y))
Member-concat x y [] = (
  λ m. elim m [ inl e ↦ inr e | inr k ↦ absurd k ],
  λ h. elim h [ inl k ↦ absurd k | inr e ↦ inl e ],
)
Member-concat x y (z ∷ ys) = (
  λ m. elim m [
    | inl e ↦ inl (inl e)
    | inr k ↦ elim ((Member-concat x y ys).0 k) [ inl l ↦ inl (inr l) | inr e ↦ inr e ]
  ],
  λ h. elim h [
    | inl m ↦ elim m [ inl e ↦ inl e | inr k ↦ inr ((Member-concat x y ys).1 (inl k)) ]
    | inr e ↦ inr ((Member-concat x y ys).1 (inr e))
  ],
)

pub concat-IsUnique :
    (x : Text) (ys : List Text) → (¬ Member x ys) → IsUnique ys → IsUnique (ys ++ (x ∷ []))
concat-IsUnique x [] new h = ((λ m. m), tt)
concat-IsUnique x (y ∷ ys) new h = (
  (λ m. elim ((Member-concat y x ys).0 m) [ inl k ↦ h.0 k | inr e ↦ new (inl (sym e)) ]),
  concat-IsUnique x ys (λ m. new (inr m)) h.1,
)
