-- ===== src/Exporter/Redact/Hide.antt =====
-- What `RedactEnviron` shows of each variable.
use mathlib.Core.Bool.{false≢true}
use gitlab_procs_exporter.Prelude.{
  subst, some_inj, Bool-cases, inl, inr, refl, sym, true, if◌then◌else◌, ◌==◌, ap, ◌≡◌, refl, ◌∙◌,
  Option, none, some, List, [], ◌∷◌, arith, eq_iff, list_eq, nat_eq, if◌then◌else◌,
}
use gitlab_procs_exporter.Prelude.Text.{Text, Unicode}
use gitlab_procs_exporter.Prelude.Map.{Map, lookup, insert, lookup-insert, IsDistinct}
use gitlab_procs_exporter.Exporter.Redact.{
  Floats, is_sensitive_pair, redacted, shown_value, redact_loop, redact_environ,
}

-- What the API shows under a name, from what the process has under it.
abbrev pub shown : Unicode → Floats → List Text → Text → Option Text → Option Text
shown u fl extra k none = none
shown u fl extra k (some v) = some (if is_sensitive_pair u fl k v extra then redacted else v)

abbrev or_else : Option Text → Option Text → Option Text
or_else none d = d
or_else (some v) d = some v

lookup-redact_loop :
    (u : Unicode) (fl : Floats) (extra : List Text) (j : Text) (environ out : Map Text Text)
    → IsDistinct environ
    → lookup j (redact_loop u fl extra environ out)
      ≡ or_else (shown u fl extra j (lookup j environ)) (lookup j out)
unfolding redact_loop shown_value lookup
lookup-redact_loop u fl extra j [] out d = refl
lookup-redact_loop u fl extra j ((k, v) ∷ environ) out (fresh, d) = ground (
  arith,
  eq_iff k j,
  lookup-redact_loop u fl extra j environ (insert k (shown_value u fl extra k v) out) d,
  lookup-insert k j (shown_value u fl extra k v) out,
)

or_else-none : (o : Option Text) → or_else o none ≡ o
or_else-none none = refl
or_else-none (some v) = refl

-- For an environment in which no name stands twice: every variable is shown under its name and no
-- other one; a sensitive one shows `[REDACTED]` and each other one its value.
pub lookup-redact_environ :
    (u : Unicode) (fl : Floats) (environ : Map Text Text) (extra : List Text) (k : Text)
    → IsDistinct environ
    → lookup k (redact_environ u fl environ extra) ≡ shown u fl extra k (lookup k environ)
unfolding redact_environ lookup
lookup-redact_environ u fl environ extra k d =
    lookup-redact_loop u fl extra k environ [] d
    ∙ or_else-none (shown u fl extra k (lookup k environ))

module _ (u : Unicode) (fl : Floats) (extra : List Text) where
  -- A sensitive value is the text that stands for one.
  abbrev pub IsShowable : Map Text Text → Type 0
  IsShowable out =
      (k v : Text) → lookup k out ≡ some v → is_sensitive_pair u fl k v extra ≡ true → v ≡ redacted

  shown_value-IsShowable :
      (k v : Text)
      → is_sensitive_pair u fl k (shown_value u fl extra k v) extra ≡ true
      → shown_value u fl extra k v ≡ redacted
  unfolding shown_value
  shown_value-IsShowable k v h = elim (Bool-cases (is_sensitive_pair u fl k v extra)) [
    | inl secret ↦ ap (λ b. if b then redacted else v) secret
    | inr public ↦ absurd (
        false≢true (
          sym public
          ∙ subst (λ b. is_sensitive_pair u fl k (if b then redacted else v) extra ≡ true) public
              h))
  ]

  insert-IsShowable :
      (k v : Text) (out : Map Text Text)
      → IsShowable out
      → IsShowable (insert k (shown_value u fl extra k v) out)
  insert-IsShowable k v out fine j w found secret = elim (Bool-cases (k == j)) [
    | inl same ↦
        let here = (eq_iff k j).0 same in
        let its =
          some_inj
            (rw same at (sym (lookup-insert k j (shown_value u fl extra k v) out) ∙ found)) in
        sym its
        ∙ shown_value-IsShowable k v (
            subst (λ t. is_sensitive_pair u fl k t extra ≡ true) (sym its)
              (subst (λ t. is_sensitive_pair u fl t w extra ≡ true) (sym here) secret))
    | inr other ↦
        fine j w (rw other at (sym (lookup-insert k j (shown_value u fl extra k v) out) ∙ found))
          secret
  ]

  redact_loop-IsShowable :
      (environ out : Map Text Text)
      → IsShowable out
      → IsShowable (redact_loop u fl extra environ out)
  unfolding redact_loop
  redact_loop-IsShowable [] out fine = fine
  redact_loop-IsShowable ((k, v) ∷ environ) out fine =
      redact_loop-IsShowable environ (insert k (shown_value u fl extra k v) out)
        (insert-IsShowable k v out fine)

pub redact_environ-IsShowable :
    (u : Unicode) (fl : Floats) (environ : Map Text Text) (extra : List Text)
    → IsShowable u fl extra (redact_environ u fl environ extra)
unfolding redact_environ lookup
redact_environ-IsShowable u fl environ extra =
    redact_loop-IsShowable u fl extra environ [] (λ k v found secret. cc)
