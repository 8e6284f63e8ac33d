-- ===== src/Exporter/Config/Decode.antt =====
-- `UnmarshalYAML` takes every limit over as it is written, or fails.
use gitlab_procs_exporter.Prelude.{
  ◌≡◌, ◌⊎◌, inl, inr, refl, sym, ap, subst, ◌∙◌, Option, none, some, List, [], ◌∷◌, arith, Member,
  ◌==◌, eq_iff, list_eq, nat_eq, if◌then◌else◌, Bool-cases,
}
use mathlib.Core.Bool.{false≢true}
use gitlab_procs_exporter.Prelude.Int.{ℤ}
use gitlab_procs_exporter.Prelude.Text.{Text}
use gitlab_procs_exporter.Prelude.Map.{
  Map, lookup, keys, lookup-insert, IsDistinct, insert-IsDistinct, lookup-some-Member,
}
use gitlab_procs_exporter.Prelude.Sort.{sort_strings-Member}
use gitlab_procs_exporter.Exporter.Label.{Limits}
use gitlab_procs_exporter.Exporter.Config.{
  YamlScalar, ok, >>=-eq-ok, decode_limit, decode_step, decode_loop, sorted_keys, unmarshal_yaml,
}

ok_inj : {a b : Limits} → ok a ≡ ok b → a ≡ b
ok_inj h = cc

-- What a step leaves under each name.
decode_step-lookup :
    (name j : Text) (o : Option ℤ) (out out' : Limits)
    → decode_step name o out ≡ ok out'
    → lookup j out' ≡ (if name == j then o else lookup j out)
unfolding decode_step
decode_step-lookup name j none out out' h = cc
decode_step-lookup name j (some limit) out out' h = ground (arith, lookup-insert name j limit out)

decode_step-IsDistinct :
    (name : Text) (o : Option ℤ) (out out' : Limits)
    → IsDistinct out
    → decode_step name o out ≡ ok out'
    → IsDistinct out'
unfolding decode_step
decode_step-IsDistinct name none out out' d h = cc
decode_step-IsDistinct name (some limit) out out' d h =
    subst IsDistinct (ok_inj h) (insert-IsDistinct name limit out d)

decode_loop-lookup :
    (raw : Map Text YamlScalar) (j : Text) (names : List Text) (out out' : Limits)
    → decode_loop raw names out ≡ ok out'
    → Member j names ⊎ (lookup j out ≡ decode_limit j (lookup j raw))
    → lookup j out' ≡ decode_limit j (lookup j raw)
unfolding decode_loop
decode_loop-lookup raw j [] out out' h (inl m) = absurd m
decode_loop-lookup raw j [] out out' h (inr e) = ground arith
decode_loop-lookup raw j (name ∷ names) out out' h m =
    let (mid, step, rest) =
      >>=-eq-ok (decode_step name (decode_limit name (lookup name raw)) out) (decode_loop raw names)
        h in
    let at_j = decode_step-lookup name j (decode_limit name (lookup name raw)) out mid step in
    decode_loop-lookup raw j names mid out' rest (elim (Bool-cases (name == j)) [
      | inl same ↦
          inr (rw same at at_j ∙ ap (λ t. decode_limit t (lookup t raw)) ((eq_iff name j).0 same))
      | inr other ↦ elim m [
        | inl (inl e) ↦ absurd (false≢true (sym other ∙ (eq_iff name j).1 (sym e)))
        | inl (inr k) ↦ inl k
        | inr e ↦ inr (rw other at at_j ∙ e)
      ]
    ])

decode_loop-IsDistinct :
    (raw : Map Text YamlScalar) (names : List Text) (out out' : Limits)
    → IsDistinct out
    → decode_loop raw names out ≡ ok out'
    → IsDistinct out'
unfolding decode_loop
decode_loop-IsDistinct raw [] out out' d h = subst IsDistinct (ok_inj h) d
decode_loop-IsDistinct raw (name ∷ names) out out' d h =
    let (mid, step, rest) =
      >>=-eq-ok (decode_step name (decode_limit name (lookup name raw)) out) (decode_loop raw names)
        h in
    decode_loop-IsDistinct raw names mid out' (decode_step-IsDistinct name _ out mid d step) rest

-- When the decoder accepts the mapping, every limit that it read is the integer that the file
-- gives for the label (clamped to the range of `int`), and it read no other one.
pub unmarshal_yaml-lookup :
    (raw : Map Text YamlScalar) {out : Limits}
    → unmarshal_yaml raw ≡ ok out
    → IsDistinct out × ((name : Text) → lookup name out ≡ decode_limit name (lookup name raw))
unfolding unmarshal_yaml lookup
unmarshal_yaml-lookup raw {out} h = (
  decode_loop-IsDistinct raw (sorted_keys raw) [] out tt h,
  λ name.
      decode_loop-lookup raw name (sorted_keys raw) [] out h (listed name (lookup name raw) refl),
)
  where
    listed :
        (name : Text) (o : Option YamlScalar)
        → lookup name raw ≡ o
        → Member name (sorted_keys raw) ⊎ (none ≡ decode_limit name o)
    listed name none e = inr refl
    listed name (some v) e =
        inl ((sort_strings-Member name (keys raw)).1 (lookup-some-Member name raw e))
