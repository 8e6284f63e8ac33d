-- ===== src/Exporter/Kube/Store.antt =====
-- The snapshot of the pods.
use gitlab_procs_exporter.Prelude.{
  ◌≡◌, refl, ap, ◌∙◌, Option, none, some, List, [], ◌∷◌, ◌==◌, list_eq, nat_eq, keep, get_last?,
  Bool-cases, inl, inr,
}
use gitlab_procs_exporter.Prelude.Text.{Text}
use gitlab_procs_exporter.Prelude.Map.{Map, lookup, insert, lookup-insert}
use gitlab_procs_exporter.Exporter.Kube.{KubePodInfo, KubeStore, replace_loop, replace, get}

abbrev or_else : Option KubePodInfo → Option KubePodInfo → Option KubePodInfo
or_else none d = d
or_else (some v) d = some v

get_last?-cons :
    (x : KubePodInfo) (xs : List KubePodInfo) → get_last? (x ∷ xs) ≡ or_else (get_last? xs) (some x)
get_last?-cons x [] = refl
get_last?-cons x (y ∷ []) = refl
get_last?-cons x (y ∷ (z ∷ zs)) = get_last?-cons x (z ∷ zs)

or_else_assoc : (a b c : Option KubePodInfo) → or_else a (or_else b c) ≡ or_else (or_else a b) c
or_else_assoc none b c = refl
or_else_assoc (some v) b c = refl

-- The last pod of a list under a uid.
abbrev pub last_with : Text → List KubePodInfo → Option KubePodInfo
last_with uid pods = get_last? (keep (λ p. p.uid == uid) pods)

lookup-replace_loop :
    (uid : Text) (pods : List KubePodInfo) (next : Map Text KubePodInfo)
    → lookup uid (replace_loop pods next) ≡ or_else (last_with uid pods) (lookup uid next)
unfolding replace_loop keep
lookup-replace_loop uid [] next = refl
lookup-replace_loop uid (p ∷ pods) next = elim (Bool-cases (p.uid == uid)) [
  | inl same ↦
      lookup-replace_loop uid pods (insert p.uid p next)
      ∙ (ap (or_else (last_with uid pods)) (lookup-insert p.uid uid p next)
          ∙ rw same (
              rw (get_last?-cons p (keep (λ q. q.uid == uid) pods))
                (or_else_assoc (last_with uid pods) (some p) (lookup uid next))))
  | inr other ↦
      lookup-replace_loop uid pods (insert p.uid p next)
      ∙ (ap (or_else (last_with uid pods)) (lookup-insert p.uid uid p next) ∙ rw other refl)
]

or_else-none : (o : Option KubePodInfo) → or_else o none ≡ o
or_else-none none = refl
or_else-none (some v) = refl

-- After `Replace`, `Get` finds the last pod of the new list under the uid, whatever the store
-- held before.
pub get-replace :
    (uid : Text) (pods : List KubePodInfo) (ks : KubeStore)
    → get uid (replace pods ks) ≡ last_with uid pods
unfolding get replace lookup
get-replace uid pods ks = lookup-replace_loop uid pods [] ∙ or_else-none (last_with uid pods)
