-- ===== src/JobReport/Render/Table.antt =====
-- A whole table: the cells are cut to the limit, and the lines have one width.
use gitlab_procs_exporter.Prelude.{
  ℕ, zero, suc, ◌+◌, ◌-◌, ◌≤◌, ◌<◌, ◌≡◌, ◌≢◌, refl, true, false, List, [], ◌∷◌, take, length,
  length-append, length-take, arith, All,
}
use gitlab_procs_exporter.JobReport.Render.{
  Runes, cut_cell, column_count, cut_cells, cut_rows, widths, widen, body_lines, zeros, box_lines,
  table_lines,
}
use gitlab_procs_exporter.JobReport.Render.Box.{
  total, Fits, Shape, length-rule, length-row_body, widths-Fits, widths-le,
}

length-cut_cell : (maxw : ℕ) (v : Runes) → 3 ≤ maxw → length (cut_cell maxw v) ≤ maxw
unfolding cut_cell
length-cut_cell maxw v h = ground (
  arith,
  length-append (take (maxw - 3) v) (b'.' ∷ (b'.' ∷ (b'.' ∷ []))),
  length-take (maxw - 3) v,
)

cut_cells-le :
    (maxw n : ℕ) (r : List Runes) → 3 ≤ maxw → All (λ v. length v ≤ maxw) (cut_cells maxw n r)
unfolding cut_cells
cut_cells-le maxw zero r h = tt
cut_cells-le maxw (suc n) [] h = (length-cut_cell maxw [] h, cut_cells-le maxw n [] h)
cut_cells-le maxw (suc n) (v ∷ r) h = (length-cut_cell maxw v h, cut_cells-le maxw n r h)

cut_rows-le :
    (maxw n : ℕ) (rows : List (List Runes))
    → 3 ≤ maxw
    → All (λ cells. All (λ v. length v ≤ maxw) cells) (cut_rows maxw n rows)
unfolding cut_rows
cut_rows-le maxw n [] h = tt
cut_rows-le maxw n (r ∷ rows) h = (cut_cells-le maxw n r h, cut_rows-le maxw n rows h)

cut_cells-Shape : (maxw n : ℕ) (r : List Runes) → Shape (zeros n) (cut_cells maxw n r)
unfolding cut_cells
cut_cells-Shape maxw zero r = tt
cut_cells-Shape maxw (suc n) [] = cut_cells-Shape maxw n []
cut_cells-Shape maxw (suc n) (v ∷ r) = cut_cells-Shape maxw n r

cut_rows-Shape :
    (maxw n : ℕ) (rows : List (List Runes)) → All (Shape (zeros n)) (cut_rows maxw n rows)
unfolding cut_rows
cut_rows-Shape maxw n [] = tt
cut_rows-Shape maxw n (r ∷ rows) = (cut_cells-Shape maxw n r, cut_rows-Shape maxw n rows)

zeros-le : (m n : ℕ) → All (λ w. w ≤ m) (zeros n)
zeros-le m zero = tt
zeros-le m (suc n) = (omega arith, zeros-le m n)

abbrev pub IsWide : ℕ → List Runes → Type 0
IsWide n = All (λ l. length l ≡ n)

body_lines-IsWide :
    (w : ℕ) (ws : List ℕ) (rows : List (List Runes))
    → All (Fits (w ∷ ws)) rows
    → IsWide (total (w ∷ ws) + 1) (body_lines (w ∷ ws) rows)
unfolding body_lines
body_lines-IsWide w ws [] h = tt
body_lines-IsWide w ws (cells ∷ []) (hc, h) =
    (omega (arith, length-row_body false (w ∷ ws) cells hc), (length-rule 9492 9524 9496 w ws, tt))
body_lines-IsWide w ws (cells ∷ (next ∷ rows)) (hc, h) = (
  omega (arith, length-row_body false (w ∷ ws) cells hc),
  (length-rule 9500 9532 9508 w ws, body_lines-IsWide w ws (next ∷ rows) h),
)

box_lines-IsWide :
    (ws : List ℕ) (rows : List (List Runes))
    → ws ≢ []
    → All (Fits ws) rows
    → IsWide (total ws + 1) (box_lines ws rows)
box_lines-IsWide [] rows ne h = absurd (ne refl)
box_lines-IsWide (w ∷ ws) [] ne h = tt
box_lines-IsWide (w ∷ ws) (header ∷ rows) ne (hh, h) = (
  length-rule 9484 9516 9488 w ws,
  (
    omega (arith, length-row_body true (w ∷ ws) header hh),
    (length-rule 9500 9532 9508 w ws, body_lines-IsWide w ws rows h),
  ),
)

-- The widths of the columns of a table.
abbrev pub widths_of : List (List Runes) → ℕ → List ℕ
widths_of rows maxw = widths (zeros (column_count rows)) (cut_rows maxw (column_count rows) rows)

zeros-ne-nil : (n : ℕ) → 0 < n → zeros n ≢ []
zeros-ne-nil zero h = absurd (omega arith)
zeros-ne-nil (suc n) h = λ e. cc

widen-ne-nil : (ws : List ℕ) (cells : List Runes) → ws ≢ [] → widen ws cells ≢ []
unfolding widen
widen-ne-nil [] cells h = absurd (h refl)
widen-ne-nil (w ∷ ws) [] h = h
widen-ne-nil (w ∷ ws) (v ∷ cells) h = λ e. cc

widths-ne-nil : (rows : List (List Runes)) (ws : List ℕ) → ws ≢ [] → widths ws rows ≢ []
unfolding widths
widths-ne-nil [] ws h = h
widths-ne-nil (cells ∷ rows) ws h = widths-ne-nil rows (widen ws cells) (widen-ne-nil ws cells h)

ne-nil : (rows : List (List Runes)) (maxw : ℕ) → 0 < column_count rows → widths_of rows maxw ≢ []
ne-nil rows maxw h =
    widths-ne-nil (cut_rows maxw (column_count rows) rows) (zeros (column_count rows))
      (zeros-ne-nil (column_count rows) h)

-- Where some row has a cell, the lines of a table all have one width, in runes; and no column is wider
-- than the limit of a cell, where that is at least 3.
pub table_lines-IsWide :
    (rows : List (List Runes)) (maxw : ℕ)
    → 0 < column_count rows
    → IsWide (total (widths_of rows maxw) + 1) (table_lines rows maxw)
      × (3 ≤ maxw → All (λ w. w ≤ maxw) (widths_of rows maxw))
unfolding table_lines
table_lines-IsWide rows maxw h = (
  box_lines-IsWide (widths_of rows maxw) (cut_rows maxw (column_count rows) rows)
      (ne-nil rows maxw h)
      (widths-Fits (zeros (column_count rows)) (cut_rows maxw (column_count rows) rows)
        (cut_rows-Shape maxw (column_count rows) rows)),
  λ limit.
      widths-le maxw (zeros (column_count rows)) (cut_rows maxw (column_count rows) rows)
        (zeros-le maxw (column_count rows)) (cut_rows-le maxw (column_count rows) rows limit),
)
