-- ===== src/Exporter/Label/Limits.antt =====
-- The effective table, the ceiling on every value that it bounds, and the counter of cuts.
use gitlab_procs_exporter.Prelude.{
  ℕ, ◌+◌, ◌^◌, ◌≤◌, ◌<◌, ◌≡◌, ◌≢◌, refl, sym, ap, subst, some_inj, ◌∙◌, ◌&&◌, ◌||◌, Bool, not, true,
  false, Option, none, some, [], ◌∷◌, arith, length, ◌==◌, eq_iff, nat_eq, list_eq, if◌then◌else◌,
  Option-cases, Bool-cases, inl, inr,
}
use gitlab_procs_exporter.Prelude.Int.{ℤ, pos, negsuc, int_ltb}
use gitlab_procs_exporter.Prelude.Text.{Text}
use gitlab_procs_exporter.Prelude.Map.{Map, lookup, lookup-insert, IsDistinct}
use gitlab_procs_exporter.Exporter.Label.{
  Hasher, Limits, max_label_bytes, max_environ_bytes, max_label_bytes_ceiling, min_label_bytes,
  apply_override, override_loop, merged_max_label_bytes, truncate_with_fingerprint, Truncations,
  cuts_of, observe_truncation, Observer, bound_by, bound_label_with,
}
use gitlab_procs_exporter.Exporter.Label.Bounds.{length-truncate_with_fingerprint}

-- The limits that an override may set.
abbrev pub is_allowed : ℤ → Bool
is_allowed limit =
    not (int_ltb limit (pos min_label_bytes) || int_ltb (pos max_label_bytes_ceiling) limit)

-- The limit of a label, from the published entry and the override.
abbrev pub effective : Option ℤ → Option ℤ → Option ℤ
effective none override = none
effective (some default) none = some default
effective (some default) (some limit) = some (if is_allowed limit then limit else default)

lookup-apply_override :
    (label name : Text) (limit : ℤ) (o : Option ℤ) (out : Limits)
    → lookup label out ≡ o
    → lookup name (apply_override label limit o out)
      ≡ (if label == name then effective (lookup name out) (some limit) else lookup name out)
unfolding apply_override
lookup-apply_override label name limit none out h = ground (arith, eq_iff label name)
lookup-apply_override label name limit (some d) out h =
    ground (arith, eq_iff label name, lookup-insert label name limit out)

lookup-override_loop :
    (name : Text) (overrides : Map Text ℤ) (out : Limits)
    → IsDistinct overrides
    → lookup name (override_loop overrides out)
      ≡ effective (lookup name out) (lookup name overrides)
unfolding override_loop lookup
lookup-override_loop name [] out d = ground arith
lookup-override_loop name ((label, limit) ∷ rest) out d =
    let out' = apply_override label limit (lookup label out) out in
    ground (
      arith,
      eq_iff label name,
      lookup-apply_override label name limit (lookup label out) out refl,
      lookup-override_loop name rest out' d.1,
    )

-- For overrides in which no label stands twice: exactly the labels of the published contract have
-- a limit; an override with a limit between the marker's size and the ceiling is applied, and
-- every other label keeps its published limit.
pub lookup-merged_max_label_bytes :
    (name : Text) (overrides : Map Text ℤ)
    → IsDistinct overrides
    → lookup name (merged_max_label_bytes overrides)
      ≡ effective (lookup name max_label_bytes) (lookup name overrides)
unfolding merged_max_label_bytes
lookup-merged_max_label_bytes name overrides d =
    lookup-override_loop name overrides max_label_bytes d

-- A limit that leaves room for the marker below the ceiling of a label value.
abbrev IsSafe : ℤ → Type 0
IsSafe limit = (n : ℕ) × (limit ≡ pos n) × (0 < n) × (n ≤ max_label_bytes_ceiling)

max_label_bytes-IsSafe :
    (name : Text) (limit : ℤ) → lookup name max_label_bytes ≡ some limit → IsSafe limit
unfolding lookup
max_label_bytes-IsSafe name (pos n) h = (n, refl, ground arith, ground arith)
max_label_bytes-IsSafe name (negsuc n) h = ground arith

allowed-IsSafe : (limit : ℤ) → is_allowed limit ≡ true → IsSafe limit
allowed-IsSafe (pos n) h = (n, refl, ground arith, ground arith)
allowed-IsSafe (negsuc n) h = ground arith

effective-IsSafe :
    (default override : Option ℤ) (limit : ℤ)
    → ((l : ℤ) → default ≡ some l → IsSafe l)
    → effective default override ≡ some limit
    → IsSafe limit
effective-IsSafe none override limit safe h = cc
effective-IsSafe (some d) none limit safe h = safe limit h
effective-IsSafe (some d) (some l) limit safe h = elim (Bool-cases (is_allowed l)) [
  | inl fits ↦ subst IsSafe (some_inj (ap some (chosen fits) ∙ h)) (allowed-IsSafe l fits)
  | inr out ↦ subst IsSafe (some_inj (ap some (kept out) ∙ h)) (safe d refl)
]
  where
    chosen : is_allowed l ≡ true → l ≡ (if is_allowed l then l else d)
    chosen fits = rw fits

    kept : is_allowed l ≡ false → d ≡ (if is_allowed l then l else d)
    kept out = rw out

effective-eq-none :
    (default override : Option ℤ) → effective default override ≡ none → default ≡ none
effective-eq-none none override h = refl
effective-eq-none (some d) none h = h
effective-eq-none (some d) (some l) h = cc

merged-IsSafe :
    (overrides : Map Text ℤ) (name : Text) (limit : ℤ)
    → IsDistinct overrides
    → lookup name (merged_max_label_bytes overrides) ≡ some limit
    → IsSafe limit
merged-IsSafe overrides name limit d h =
    effective-IsSafe (lookup name max_label_bytes) (lookup name overrides) limit
      (max_label_bytes-IsSafe name) (sym (lookup-merged_max_label_bytes name overrides d) ∙ h)

bound_by-le :
    (h : Hasher) (limit : ℤ) (name value : Text) (obs : Observer)
    → IsSafe limit
    → length value < 10 ^ 20
    → length (bound_by h (some limit) name value obs).0 ≤ max_environ_bytes
unfolding bound_by
bound_by-le h limit name value obs (n, e, positive, small) fits =
    rw e (omega (arith, length-truncate_with_fingerprint h value n positive fits))

-- Whatever the overrides of a configuration say, where no label stands twice, a value of fewer
-- than 10^20 bytes that goes out under a label of the contract has at most `maxEnvironBytes`
-- bytes, its marker included.
pub length-bound_label_with :
    (h : Hasher) (overrides : Map Text ℤ) (name value : Text) (obs : Observer)
    → IsDistinct overrides
    → lookup name max_label_bytes ≢ none
    → length value < 10 ^ 20
    → length (bound_label_with h (merged_max_label_bytes overrides) name value obs).0
      ≤ max_environ_bytes
unfolding bound_label_with
length-bound_label_with h overrides name value obs d covered fits =
    elim (Option-cases (lookup name (merged_max_label_bytes overrides))) [
      | inl missing ↦ absurd (
          covered (
            effective-eq-none _ _ (sym (lookup-merged_max_label_bytes name overrides d) ∙ missing)))
      | inr (limit, e) ↦
          rw e (bound_by-le h limit name value obs (merged-IsSafe overrides name limit d e) fits)
    ]

-- How often an observer has counted a label.
abbrev pub seen_cuts : Text → Observer → ℕ
seen_cuts label none = 0
seen_cuts label (some t) = cuts_of label t

cuts_of-observe_truncation :
    (name label : Text) (t : Truncations)
    → cuts_of label (observe_truncation name t) ≡ cuts_of label t + (if name == label then 1 else 0)
unfolding observe_truncation
cuts_of-observe_truncation name label t =
    ground (arith, eq_iff name label, lookup-insert name label (cuts_of name t + 1) t)

abbrev CountsCuts : Text → Text → Text → Truncations → Text × Observer → Type 0
CountsCuts name value label t (out, obs) =
    seen_cuts label obs ≡ cuts_of label t + (if name == label && not (out == value) then 1 else 0)

bound_by_observes :
    (h : Hasher) (o : Option ℤ) (name value label : Text) (t : Truncations)
    → CountsCuts name value label t (bound_by h o name value (some t))
unfolding bound_by
bound_by_observes h none name value label t = ground (arith, eq_iff value value)
bound_by_observes h (some max) name value label t = ground (
  arith,
  eq_iff (truncate_with_fingerprint h value max) value,
  cuts_of-observe_truncation name label t,
)

-- With a counter, a label's count goes up by one exactly when a value of that label is changed, and
-- no other count moves.
pub bound_label_with_observes :
    (h : Hasher) (limits : Limits) (name value label : Text) (t : Truncations)
    → let (out, obs) = bound_label_with h limits name value (some t) in
      seen_cuts label obs ≡ cuts_of label t + (if name == label && not (out == value) then 1 else 0)
unfolding bound_label_with
bound_label_with_observes h limits name value label t =
    bound_by_observes h (lookup name limits) name value label t

bound_by_value :
    (h : Hasher) (o : Option ℤ) (name value : Text) (obs : Observer)
    → (bound_by h o name value obs).0 ≡ (bound_by h o name value none).0
unfolding bound_by
bound_by_value h none name value obs = refl
bound_by_value h (some max) name value obs = refl

-- The value that goes out does not depend on who counts.
pub bound_label_with_value :
    (h : Hasher) (limits : Limits) (name value : Text) (obs : Observer)
    → (bound_label_with h limits name value obs).0 ≡ (bound_label_with h limits name value none).0
unfolding bound_label_with
bound_label_with_value h limits name value obs =
    bound_by_value h (lookup name limits) name value obs
