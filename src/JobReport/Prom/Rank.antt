-- ===== src/JobReport/Prom/Rank.antt =====
-- internal/jobreport/prom.go: `topN`, the ranked rows of a table.
use mathlib.Core.List.{Perm}
use mathlib.Core.List.Perm
use gitlab_procs_exporter.Prelude.{
  ◌≡◌, ap, Bool, true, false, Option, none, some, List, [], ◌∷◌, ◌++◌, nat_eq, list_eq,
  if◌then◌else◌, All, Bool-cases, inl, inr,
}
use gitlab_procs_exporter.Prelude.Int.{ℤ}
use gitlab_procs_exporter.Prelude.Text.{Text, codes}
use gitlab_procs_exporter.Prelude.Decimal.{format_int}
use gitlab_procs_exporter.Prelude.Map.{Map, lookup}
use gitlab_procs_exporter.Exporter.History.{Float64}
use gitlab_procs_exporter.JobReport.Meta.{ProcMeta}
use gitlab_procs_exporter.JobReport.Prom.{
  PromResp, Series, label, series_key, instant_float, Transport, query_instant, found, Answer,
  value, map_result,
}

pub record TopRow : Type 0 where
  pub name : Text
  pub pid : Text
  pub node : Text
  pub val : Float64
  pub meta : ProcMeta

-- `meta[key]`; the metadata of an empty process has empty fields only.
abbrev meta_or_empty : Option ProcMeta → ProcMeta
meta_or_empty none = record {
  cmdline = [];
  shard = [];
  job_id = [];
  worker_id = [];
  job_name = [];
  job_slug = [];
  pipeline = [];
  ref = [];
  project = [];
}
meta_or_empty (some m) = m

abbrev pub row_of : Map Text ProcMeta → Series → Float64 → TopRow
row_of meta s v = record {
  name = label (codes "name") s;
  pid = label (codes "pid") s;
  node = label (codes "node_ip") s;
  val = v;
  meta = meta_or_empty (lookup (series_key s) meta);
}

abbrev with_row : Map Text ProcMeta → Series → Option Float64 → List TopRow → List TopRow
with_row meta s none rows = rows
with_row meta s (some v) rows = row_of meta s v ∷ rows

-- A series without a value that can be read gives no row.
unfoldable pub rows_of : (Text → Option Float64) → Map Text ProcMeta → List Series → List TopRow
unfolding instant_float label lookup series_key
rows_of parse_float meta [] = []
rows_of parse_float meta (s ∷ result) =
    with_row meta s (instant_float parse_float s.value) (rows_of parse_float meta result)

-- A row goes in front of the first row that is not above it.
unfoldable pub place_row : (Float64 → Float64 → Bool) → TopRow → List TopRow → List TopRow
place_row above x [] = x ∷ []
place_row above x (y ∷ ys) =
    let rest = place_row above x ys in if above y.val x.val then y ∷ rest else x ∷ (y ∷ ys)

-- sort.SliceStable by `rows[i].Val > rows[j].Val`
unfoldable pub slice_stable : (Float64 → Float64 → Bool) → List TopRow → List TopRow
unfolding place_row
slice_stable above [] = []
slice_stable above (x ∷ rows) = place_row above x (slice_stable above rows)

abbrev pub ranked : Transport → Map Text ProcMeta → PromResp → List TopRow
ranked t meta pr = slice_stable t.above (rows_of t.parse_float meta pr.result)

unfoldable pub top_n : Transport → Text → Text → ℤ → ℤ → Map Text ProcMeta → Answer (List TopRow)
unfolding query_instant slice_stable rows_of
top_n t base expr n end meta =
    map_result (ranked t meta)
      (query_instant t base (codes "topk(" ++ (format_int n ++ (codes ", " ++ (expr ++ codes ")"))))
        end).result

place_row-Perm :
    (above : Float64 → Float64 → Bool) (x : TopRow) (rows : List TopRow)
    → Perm (place_row above x rows) (x ∷ rows)
unfolding place_row
place_row-Perm above x [] = Perm.refl (x ∷ [])
place_row-Perm above x (y ∷ ys) = elim (Bool-cases (above y.val x.val)) [
  | inl first ↦ rw first (Perm.trans (Perm.cons y (place_row-Perm above x ys)) (Perm.swap x y ys))
  | inr last ↦ rw last (Perm.refl (x ∷ (y ∷ ys)))
]

slice_stable-Perm :
    (above : Float64 → Float64 → Bool) (rows : List TopRow) → Perm (slice_stable above rows) rows
unfolding slice_stable
slice_stable-Perm above [] = Perm.refl []
slice_stable-Perm above (x ∷ rows) =
    Perm.trans (place_row-Perm above x (slice_stable above rows))
      (Perm.cons x (slice_stable-Perm above rows))

-- No row stands above one in front of it.
abbrev pub IsRanked : (Float64 → Float64 → Bool) → List TopRow → Type 0
IsRanked above [] = Unit
IsRanked above (x ∷ rows) = All (λ y. above y.val x.val ≡ false) rows × IsRanked above rows

-- The order of float64 on the values that are no NaN.
pub record IsOrder (is_nan : Float64 → Bool) (above : Float64 → Float64 → Bool) : Type 0 where
  pub asymmetric :
      (x y : Float64) → is_nan x ≡ false → is_nan y ≡ false → above y x ≡ true → above x y ≡ false
  pub negatively_transitive :
      (x y z : Float64)
      → is_nan x ≡ false
      → is_nan y ≡ false
      → is_nan z ≡ false
      → above z y ≡ false
      → above y x ≡ false
      → above z x ≡ false

-- No row has NaN for its value.
abbrev pub HasNumbers : (Float64 → Bool) → List TopRow → Type 0
HasNumbers is_nan rows = All (λ r. is_nan r.val ≡ false) rows

module _ (is_nan : Float64 → Bool) (above : Float64 → Float64 → Bool)
    (order : IsOrder is_nan above) where
  All-place_row :
      (P : TopRow → Type 0) (x : TopRow) (rows : List TopRow)
      → P x
      → All P rows
      → All P (place_row above x rows)
  unfolding place_row
  All-place_row P x [] px h = (px, tt)
  All-place_row P x (y ∷ ys) px h = elim (Bool-cases (above y.val x.val)) [
    | inl first ↦ rw first (h.0, All-place_row P x ys px h.1)
    | inr last ↦ rw last (px, h)
  ]

  All-below :
      (x y : TopRow) (rows : List TopRow)
      → is_nan x.val ≡ false
      → is_nan y.val ≡ false
      → above y.val x.val ≡ false
      → HasNumbers is_nan rows
      → All (λ z. above z.val y.val ≡ false) rows
      → All (λ z. above z.val x.val ≡ false) rows
  All-below x y [] nx ny last ns h = tt
  All-below x y (z ∷ rows) nx ny last (nz, ns) (hz, h) = (
    order.negatively_transitive x.val y.val z.val nx ny nz hz last,
    All-below x y rows nx ny last ns h,
  )

  place_row-IsRanked :
      (x : TopRow) (rows : List TopRow)
      → is_nan x.val ≡ false
      → HasNumbers is_nan rows
      → IsRanked above rows
      → IsRanked above (place_row above x rows)
  unfolding place_row
  place_row-IsRanked x [] nx ns h = (tt, tt)
  place_row-IsRanked x (y ∷ ys) nx (ny, ns) h = elim (Bool-cases (above y.val x.val)) [
    | inl first ↦ rw first (
      All-place_row (λ z. above z.val y.val ≡ false) x ys (order.asymmetric x.val y.val nx ny first)
          h.0,
      place_row-IsRanked x ys nx ns h.1,
    )
    | inr last ↦ rw last ((last, All-below x y ys nx ny last ns h.0), h)
  ]

  slice_stable-HasNumbers :
      (rows : List TopRow) → HasNumbers is_nan rows → HasNumbers is_nan (slice_stable above rows)
  unfolding slice_stable
  slice_stable-HasNumbers [] ns = tt
  slice_stable-HasNumbers (x ∷ rows) (nx, ns) =
      All-place_row (λ r. is_nan r.val ≡ false) x (slice_stable above rows) nx
        (slice_stable-HasNumbers rows ns)

  slice_stable-IsRanked :
      (rows : List TopRow) → HasNumbers is_nan rows → IsRanked above (slice_stable above rows)
  unfolding slice_stable
  slice_stable-IsRanked [] ns = tt
  slice_stable-IsRanked (x ∷ rows) (nx, ns) =
      place_row-IsRanked x (slice_stable above rows) nx (slice_stable-HasNumbers rows ns)
        (slice_stable-IsRanked rows ns)

-- The rows of a table, where the query gives a response and no value of its rows is NaN, for a
-- comparison that is an order on the other values: one row for each of its
-- series whose value can be read, each as often, and no row has a value above that of a row in
-- front of it.
pub top_n_lem :
    (t : Transport) (is_nan : Float64 → Bool) (base expr : Text) (n end : ℤ)
    (meta : Map Text ProcMeta) (pr : PromResp)
    → IsOrder is_nan t.above
    → HasNumbers is_nan (rows_of t.parse_float meta pr.result)
    → (query_instant t base
        (codes "topk(" ++ (format_int n ++ (codes ", " ++ (expr ++ codes ")"))))
        end).result
      ≡ found pr
    → (rows : List TopRow) × (top_n t base expr n end meta ≡ value rows)
      × Perm rows (rows_of t.parse_float meta pr.result)
      × IsRanked t.above rows
unfolding top_n
top_n_lem t is_nan base expr n end meta pr order numbers h = (
  ranked t meta pr,
  ap (map_result (ranked t meta)) h,
  slice_stable-Perm t.above (rows_of t.parse_float meta pr.result),
  slice_stable-IsRanked is_nan t.above order (rows_of t.parse_float meta pr.result) numbers,
)
