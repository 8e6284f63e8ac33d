-- ===== src/JobReport/Prom/Richest.antt =====
-- Which series of a process its metadata comes from.
use gitlab_procs_exporter.Prelude.{
  ℕ, ◌≤◌, ◌<◌, ◌≡◌, ◌≢◌, refl, ap, ◌∙◌, sym, subst, Bool, true, false, Option, none, some, List, [],
  ◌∷◌, ◌++◌, ◌==◌, eq_iff, nat_eq, list_eq, arith, if◌then◌else◌, length, All, leb→le, leb→gt,
  All-append, All-weaken, append_assoc, append-nil, Bool-cases, inl, inr,
}
use mathlib.Core.Bool.{false≢true}
use gitlab_procs_exporter.Prelude.Int.{ℤ}
use gitlab_procs_exporter.Prelude.Text.{Text, codes}
use gitlab_procs_exporter.Prelude.Map.{Map, lookup, insert, lookup-insert}
use gitlab_procs_exporter.JobReport.Meta.{ProcMeta}
use gitlab_procs_exporter.JobReport.Prom.{
  Series, label, series_key, meta_of, is_poorer, meta_loop, Transport, meta_map, query_range,
  PromResp, found, value, map_result,
}

abbrev pub size : Series → ℕ
size s = length (label (codes "cmdline") s)

-- Of the series of a key, one with the longest command line, and the first of those.
abbrev pub IsRichest : Text → List Series → Option Series → Type 0
IsRichest k series none = All (λ t. series_key t ≢ k) series
IsRichest k series (some s) =
    (before : List Series) × (after : List Series) × (series ≡ before ++ (s ∷ after))
    × (series_key s ≡ k)
    × All (λ t. series_key t ≡ k → size t < size s) before
    × All (λ t. series_key t ≡ k → size t ≤ size s) after

abbrev pub on_some {ℓ} : {V : Type ℓ} → (Series → V) → Option Series → Option V
on_some v none = none
on_some v (some s) = some (v s)

abbrev cmd : Series → Text
cmd s = label (codes "cmdline") s

abbrev cmd_of : Option Series → Option Text
cmd_of = on_some cmd

abbrev step : Text → Series → Option Series → Option Series
step k s cur =
    if series_key s == k
    then (if is_poorer (label (codes "cmdline") s) (cmd_of cur) then cur else some s)
    else cur

pub richest : Text → List Series → Option Series → Option Series
richest k [] cur = cur
richest k (s ∷ series) cur = richest k series (step k s cur)

module _ (k : Text) where
  other-IsRichest :
      (s : Series) (seen : List Series) (cur : Option Series)
      → series_key s ≢ k
      → IsRichest k seen cur
      → IsRichest k (seen ++ (s ∷ [])) cur
  other-IsRichest s seen none ne h = All-append (λ t. series_key t ≢ k) seen _ h (ne, tt)
  other-IsRichest s seen (some b) ne (before, after, e, same, less, most) = (
    before,
    after ++ (s ∷ []),
    ap (λ t. t ++ (s ∷ [])) e ∙ append_assoc before (b ∷ after) (s ∷ []),
    same,
    less,
    All-append (λ t. series_key t ≡ k → size t ≤ size b) after _ most ((λ q. absurd (ne q)), tt),
  )

  same-IsRichest :
      (s : Series) (seen : List Series) (cur : Option Series) (poorer : Bool)
      → series_key s ≡ k
      → is_poorer (label (codes "cmdline") s) (cmd_of cur) ≡ poorer
      → IsRichest k seen cur
      → IsRichest k (seen ++ (s ∷ [])) (if poorer then cur else some s)
  same-IsRichest s seen none true e p h = absurd (false≢true p)
  same-IsRichest s seen none false e p h = (
    seen,
    [],
    refl,
    e,
    All-weaken (λ t. series_key t ≢ k) (λ t. series_key t ≡ k → size t < size s)
        (λ t ne q. absurd (ne q)) seen h,
    tt,
  )
  same-IsRichest s seen (some b) true e p (before, after, split, same, less, most) = (
    before,
    after ++ (s ∷ []),
    ap (λ t. t ++ (s ∷ [])) split ∙ append_assoc before (b ∷ after) (s ∷ []),
    same,
    less,
    All-append (λ t. series_key t ≡ k → size t ≤ size b) after _ most
        ((λ q. leb→le (size s) (size b) p), tt),
  )
  same-IsRichest s seen (some b) false e p (before, after, split, same, less, most) =
      let bigger : size b < size s = leb→gt (size s) (size b) p in
      (
        seen,
        [],
        refl,
        e,
        subst (All (λ t. series_key t ≡ k → size t < size s)) (sym split) (
            All-append (λ t. series_key t ≡ k → size t < size s) before (b ∷ after)
              (All-weaken (λ t. series_key t ≡ k → size t < size b)
                (λ t. series_key t ≡ k → size t < size s) (λ t h q. omega (arith, h q)) before less)
              (
                (λ q. bigger),
                All-weaken (λ t. series_key t ≡ k → size t ≤ size b)
                    (λ t. series_key t ≡ k → size t < size s) (λ t h q. omega (arith, h q)) after
                    most,
              )),
        tt,
      )

  step-IsRichest :
      (s : Series) (seen : List Series) (cur : Option Series)
      → IsRichest k seen cur
      → IsRichest k (seen ++ (s ∷ [])) (step k s cur)
  step-IsRichest s seen cur h = elim (Bool-cases (series_key s == k)) [
    | inl same ↦ rw same (same-IsRichest s seen cur _ ((eq_iff (series_key s) k).0 same) refl h)
    | inr other ↦
        rw other (
          other-IsRichest s seen cur (λ e. false≢true (sym other ∙ (eq_iff (series_key s) k).1 e))
            h)
  ]

  richest-IsRichest :
      (series seen : List Series) (cur : Option Series)
      → IsRichest k seen cur
      → IsRichest k (seen ++ series) (richest k series cur)
  unfolding richest
  richest-IsRichest [] seen cur h = subst (λ l. IsRichest k l cur) (sym (append-nil seen)) h
  richest-IsRichest (s ∷ series) seen cur h =
      subst (λ l. IsRichest k l (richest k series (step k s cur)))
        (append_assoc seen (s ∷ []) series)
        (richest-IsRichest series (seen ++ (s ∷ [])) (step k s cur) (step-IsRichest s seen cur h))

  lookup-step :
      {V : Type 0} (v : Series → V) (s : Series) (cur : Option Series) (m : Map Text V) (p : Bool)
      → (series_key s ≡ k → is_poorer (cmd s) (cmd_of cur) ≡ p)
      → lookup k m ≡ on_some v cur
      → lookup k (if p then m else insert (series_key s) (v s) m) ≡ on_some v (step k s cur)
  lookup-step v s cur m true same h = elim (Bool-cases (series_key s == k)) [
    | inl e ↦ rw e (rw (same ((eq_iff (series_key s) k).0 e)) h)
    | inr other ↦ rw other h
  ]
  lookup-step v s cur m false same h = elim (Bool-cases (series_key s == k)) [
    | inl e ↦
        rw (lookup-insert (series_key s) k (v s) m)
          (rw e (rw (same ((eq_iff (series_key s) k).0 e)) refl))
    | inr other ↦ rw (lookup-insert (series_key s) k (v s) m) (rw other h)
  ]

  lookup-meta_loop :
      (series : List Series) (best : Map Text Text) (out : Map Text ProcMeta) (cur : Option Series)
      → lookup k best ≡ cmd_of cur
      → lookup k out ≡ on_some meta_of cur
      → lookup k (meta_loop series best out) ≡ on_some meta_of (richest k series cur)
  unfolding meta_loop richest
  lookup-meta_loop [] best out cur hb ho = ho
  lookup-meta_loop (s ∷ series) best out cur hb ho =
      let same : series_key s ≡ k
          → is_poorer (cmd s) (cmd_of cur) ≡ is_poorer (cmd s) (lookup (series_key s) best) =
        (λ e. ap (is_poorer (cmd s)) (sym (ap (λ j. lookup j best) e ∙ hb))) in
      lookup-meta_loop series _ _ (step k s cur) (lookup-step cmd s cur best _ same hb)
        (lookup-step meta_of s cur out _ same ho)

-- What the metadata of a key is taken from.
abbrev pub IsMetaOf : Text → List Series → Option ProcMeta → Type 0
IsMetaOf k series o = (s : Option Series) × IsRichest k series s × (o ≡ on_some meta_of s)

-- The metadata of a process, where the query gives a response: a process that no series names has
-- none; that of another comes from the first of its series with the longest command line.
pub meta_map_lem :
    (t : Transport) (base filter : Text) (start end step : ℤ) (pr : PromResp)
    → (query_range t base (codes "gitlab_process_info" ++ filter) start end step).result ≡ found pr
    → (out : Map Text ProcMeta) × (meta_map t base filter start end step ≡ value out)
      × ((k : Text) → IsMetaOf k pr.result (lookup k out))
unfolding meta_map lookup
meta_map_lem t base filter start end step pr h = (
  meta_loop pr.result [] [],
  ap (map_result (λ (r : PromResp). meta_loop r.result [] [])) h,
  λ k. (
    richest k pr.result none,
    richest-IsRichest k pr.result [] none tt,
    lookup-meta_loop k pr.result [] [] none refl refl,
  ),
)
