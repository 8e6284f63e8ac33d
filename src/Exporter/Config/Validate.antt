-- ===== src/Exporter/Config/Validate.antt =====
-- Which overrides a configuration may make, which error is reported, and that none is ignored.
use gitlab_procs_exporter.Prelude.{
  ◌≡◌, ◌≢◌, ◌↔◌, inl, inr, refl, sym, ap, subst, ◌∙◌, true, Option, none, some, List, [], ◌∷◌,
  arith, Member, All, list_eq, nat_eq, Option-cases,
}
use gitlab_procs_exporter.Prelude.Int.{ℤ, pos, negsuc}
use gitlab_procs_exporter.Prelude.Text.{Text}
use gitlab_procs_exporter.Prelude.Map.{Map, lookup, keys, lookup-some-Member, Member-lookup-ne-none}
use gitlab_procs_exporter.Prelude.Sort.{
  text_leb, IsSorted, sort_strings-Member, sort_strings-IsSorted,
}
use gitlab_procs_exporter.Exporter.Label.{max_label_bytes}
use gitlab_procs_exporter.Exporter.Label.Limits.{is_allowed}
use gitlab_procs_exporter.Exporter.Config.{
  ConfigError, check_limit, check_override, first_error, validate_loop, sorted_keys,
  validate_max_label_bytes,
}

-- The error of one label of a map of overrides, if it has one.
abbrev pub error_of : Map Text ℤ → Text → Option ConfigError
error_of overrides name = check_override name (lookup name max_label_bytes) (lookup name overrides)

first_error-eq-none : (a b : Option ConfigError) → first_error a b ≡ none → (a ≡ none) × (b ≡ none)
first_error-eq-none none b h = (refl, h)
first_error-eq-none (some e) b h = cc

validate_loop-eq-none :
    (overrides : Map Text ℤ) (names : List Text) (j : Text)
    → validate_loop overrides names ≡ none
    → Member j names
    → error_of overrides j ≡ none
unfolding validate_loop
validate_loop-eq-none overrides [] j h m = absurd m
validate_loop-eq-none overrides (name ∷ names) j h m =
    let (here, later) =
      first_error-eq-none (error_of overrides name) (validate_loop overrides names) h in
    elim m [
      | inl e ↦ ap (error_of overrides) e ∙ here
      | inr k ↦ validate_loop-eq-none overrides names j later k
    ]

validate_loop-all_none :
    (overrides : Map Text ℤ) (names : List Text)
    → ((j : Text) → Member j names → error_of overrides j ≡ none)
    → validate_loop overrides names ≡ none
unfolding validate_loop
validate_loop-all_none overrides [] h = refl
validate_loop-all_none overrides (name ∷ names) h =
    ap (λ o. first_error o (validate_loop overrides names)) (h name (inl refl))
    ∙ validate_loop-all_none overrides names (λ j m. h j (inr m))

-- The error that is reported is that of a label, and no label with an error is before it.
abbrev IsLeastError : Map Text ℤ → List Text → ConfigError → Type 0
IsLeastError overrides names e =
    (name : Text) × Member name names
    × (error_of overrides name ≡ some e)
    × ((j : Text) → Member j names → error_of overrides j ≢ none → text_leb name j ≡ true)

text_leb_refl : (s : Text) → text_leb s s ≡ true
unfolding text_leb
text_leb_refl [] = refl
text_leb_refl (c ∷ s) = ground (arith, text_leb_refl s)

All-Member {ℓ} : (P : Text → Type ℓ) (xs : List Text) (j : Text) → All P xs → Member j xs → P j
All-Member P [] j h m = absurd m
All-Member P (x ∷ xs) j h (inl e) = subst P (sym e) h.0
All-Member P (x ∷ xs) j h (inr m) = All-Member P xs j h.1 m

validate_loop-least :
    (overrides : Map Text ℤ) (names : List Text) (e : ConfigError)
    → IsSorted names
    → validate_loop overrides names ≡ some e
    → IsLeastError overrides names e
unfolding validate_loop
validate_loop-least overrides [] e sorted h = cc
validate_loop-least overrides (name ∷ names) e sorted h =
    elim (Option-cases (error_of overrides name)) [
      | inl fine ↦
          let (least, m, its_error, before) =
            validate_loop-least overrides names e sorted.1 (rw fine at h) in
          (
            least,
            inr m,
            its_error,
            λ j k bad. elim k [
              | inl same ↦ absurd (bad (ap (error_of overrides) same ∙ fine))
              | inr later ↦ before j later bad
            ],
          )
      | inr (e', bad) ↦ (
        name,
        inl refl,
        bad ∙ (rw bad at h),
        λ j k _. elim k [
          | inl same ↦ subst (λ t. text_leb name t ≡ true) (sym same) (text_leb_refl name)
          | inr later ↦ All-Member (λ t. text_leb name t ≡ true) names j sorted.0 later
        ],
      )
    ]

-- The error of a rejected map of overrides is that of the least label, in byte order, that has
-- one.
pub validate_max_label_bytes_least :
    (overrides : Map Text ℤ) (e : ConfigError)
    → validate_max_label_bytes overrides ≡ some e
    → (name : Text) × (lookup name overrides ≢ none)
      × (error_of overrides name ≡ some e)
      × ((j : Text)
          → lookup j overrides ≢ none
          → error_of overrides j ≢ none
          → text_leb name j ≡ true)
unfolding validate_max_label_bytes
validate_max_label_bytes_least overrides e h =
    let (name, m, its_error, before) =
      validate_loop-least overrides (sorted_keys overrides) e
        (sort_strings-IsSorted (keys overrides)) h in
    (
      name,
      Member-lookup-ne-none name overrides ((sort_strings-Member name (keys overrides)).0 m),
      its_error,
      λ j present. before j ((sort_strings-Member j (keys overrides)).1 (present_Member j present)),
    )
  where
    present_Member : (j : Text) → lookup j overrides ≢ none → Member j (keys overrides)
    present_Member j present = elim (Option-cases (lookup j overrides)) [
      | inl missing ↦ absurd (present missing)
      | inr (v, found) ↦ lookup-some-Member j overrides found
    ]

check_limit-is_allowed :
    (name : Text) (limit : ℤ) → (check_limit name limit ≡ none) ↔ (is_allowed limit ≡ true)
unfolding check_limit
check_limit-is_allowed name (pos n) = (λ h. ground arith, λ h. ground arith)
check_limit-is_allowed name (negsuc n) = (λ h. ground arith, λ h. ground arith)

check_override_iff :
    (name : Text) (default : Option ℤ) (limit : ℤ)
    → (check_override name default (some limit) ≡ none)
      ↔ ((default ≢ none) × (is_allowed limit ≡ true))
unfolding check_override
check_override_iff name none limit = (λ h. cc, λ h. absurd (h.0 refl))
check_override_iff name (some d) limit = (
  λ h. (λ e. cc, (check_limit-is_allowed name limit).0 h),
  λ h. (check_limit-is_allowed name limit).1 h.1,
)

-- A map of overrides passes exactly if each label is of the contract and its limit is between the
-- size of the marker and the ceiling.
pub validate_max_label_bytes_iff :
    (overrides : Map Text ℤ)
    → (validate_max_label_bytes overrides ≡ none) ↔ (
        (name : Text) (limit : ℤ)
        → lookup name overrides ≡ some limit
        → (lookup name max_label_bytes ≢ none) × (is_allowed limit ≡ true))
unfolding validate_max_label_bytes
validate_max_label_bytes_iff overrides = (
  λ h name limit found. (check_override_iff name (lookup name max_label_bytes) limit).0 (
      ap (check_override name (lookup name max_label_bytes)) (sym found)
      ∙ validate_loop-eq-none overrides (sorted_keys overrides) name h (
          (sort_strings-Member name (keys overrides)).1 (lookup-some-Member name overrides found))),
  λ h. validate_loop-all_none overrides (sorted_keys overrides) (λ name m.
      fine h name
        (Member-lookup-ne-none name overrides ((sort_strings-Member name (keys overrides)).0 m))),
)
  where
    fine :
        ((name : Text) (limit : ℤ)
          → lookup name overrides ≡ some limit
          → (lookup name max_label_bytes ≢ none) × (is_allowed limit ≡ true))
        → (name : Text) → lookup name overrides ≢ none
        → error_of overrides name ≡ none
    fine h name present = elim (Option-cases (lookup name overrides)) [
      | inl missing ↦ absurd (present missing)
      | inr (limit, found) ↦
          ap (check_override name (lookup name max_label_bytes)) found
          ∙ (check_override_iff name (lookup name max_label_bytes) limit).1 (h name limit found)
    ]
