-- ===== src/JobReport/Render.antt =====
-- internal/jobreport/render.go: tables drawn in boxes. Here a string is the list of its runes, which is
-- what the code counts and cuts.
pub mod Box
pub mod Table
pub mod Tests
use Prim.Native.Nat.{max}
use gitlab_procs_exporter.Prelude.{
  ℕ, zero, suc, ◌+◌, ◌-◌, ◌/◌, Bool, true, false, List, [], ◌∷◌, ◌++◌, ltb, take, length,
  if◌then◌else◌,
}

abbrev pub Runes : Type 0
Runes = List ℕ

-- `truncRunes`: nothing where no rune is wanted.
abbrev pub trunc_runes : Runes → ℕ → Runes
trunc_runes s n = take n s

unfoldable pub repeat : ℕ → ℕ → Runes
repeat zero c = []
repeat (suc n) c = c ∷ repeat n c

abbrev dots : Runes
dots = b'.' ∷ (b'.' ∷ (b'.' ∷ []))

unfoldable pub cut_cell : ℕ → Runes → Runes
cut_cell maxw v = if ltb maxw (length v) then trunc_runes v (maxw - 3) ++ dots else v

unfoldable pub column_count : List (List Runes) → ℕ
column_count [] = 0
column_count (r ∷ rows) = max (length r) (column_count rows)

-- A row with as many cells as there are columns.
unfoldable pub cut_cells : ℕ → ℕ → List Runes → List Runes
unfolding cut_cell
cut_cells maxw zero r = []
cut_cells maxw (suc n) [] = cut_cell maxw [] ∷ cut_cells maxw n []
cut_cells maxw (suc n) (v ∷ r) = cut_cell maxw v ∷ cut_cells maxw n r

unfoldable pub cut_rows : ℕ → ℕ → List (List Runes) → List (List Runes)
unfolding cut_cells
cut_rows maxw n [] = []
cut_rows maxw n (r ∷ rows) = cut_cells maxw n r ∷ cut_rows maxw n rows

-- `if w > width[j] { width[j] = w }`, over one row
unfoldable pub widen : List ℕ → List Runes → List ℕ
widen [] cells = []
widen (w ∷ ws) [] = w ∷ ws
widen (w ∷ ws) (v ∷ cells) = (if ltb w (length v) then length v else w) ∷ widen ws cells

unfoldable pub widths : List ℕ → List (List Runes) → List ℕ
unfolding widen
widths ws [] = ws
widths ws (cells ∷ rows) = widths (widen ws cells) rows

-- The part of a rule between its ends.
unfoldable pub rule_body : ℕ → List ℕ → Runes
unfolding repeat
rule_body mid [] = []
rule_body mid (w ∷ []) = repeat (w + 2) 9472
rule_body mid (w ∷ (v ∷ ws)) = repeat (w + 2) 9472 ++ (mid ∷ rule_body mid (v ∷ ws))

unfoldable pub rule : ℕ → ℕ → ℕ → List ℕ → Runes
unfolding rule_body
rule l mid r ws = l ∷ (rule_body mid ws ++ (r ∷ []))

-- A cell with its padding, and the bar behind it.
unfoldable pub pad_cell : Bool → ℕ → Runes → Runes
unfolding repeat
pad_cell true w v =
    let pad = w - length v in
    32 ∷ (repeat (pad / 2) 32 ++ (v ++ (repeat (pad - pad / 2) 32 ++ (32 ∷ (9474 ∷ [])))))
pad_cell false w v = 32 ∷ (v ++ (repeat (w - length v) 32 ++ (32 ∷ (9474 ∷ []))))

unfoldable pub row_body : Bool → List ℕ → List Runes → Runes
unfolding pad_cell
row_body header (w ∷ ws) (v ∷ cells) = pad_cell header w v ++ row_body header ws cells
row_body header [] cells = []
row_body header (w ∷ ws) [] = []

abbrev pub row_line : Bool → List ℕ → List Runes → Runes
row_line header ws cells = 9474 ∷ row_body header ws cells

abbrev pub middle : List ℕ → Runes
middle ws = rule 9500 9532 9508 ws

-- The rows behind the header, each with the rule below it.
unfoldable pub body_lines : List ℕ → List (List Runes) → List Runes
unfolding row_body rule
body_lines ws [] = []
body_lines ws (cells ∷ []) = row_line false ws cells ∷ (rule 9492 9524 9496 ws ∷ [])
body_lines ws (cells ∷ (next ∷ rows)) =
    row_line false ws cells ∷ (middle ws ∷ body_lines ws (next ∷ rows))

abbrev pub zeros : ℕ → List ℕ
zeros zero = []
zeros (suc n) = 0 ∷ zeros n

-- The lines of the table with these cells.
abbrev pub box_lines : List ℕ → List (List Runes) → List Runes
box_lines ws [] = []
box_lines ws (header ∷ rows) =
    rule 9484 9516 9488 ws ∷ (row_line true ws header ∷ (middle ws ∷ body_lines ws rows))

unfoldable pub table_lines : List (List Runes) → ℕ → List Runes
unfolding column_count cut_rows widths body_lines rule row_body
table_lines rows maxw =
    let cells = cut_rows maxw (column_count rows) rows in
    box_lines (widths (zeros (column_count rows)) cells) cells

unfoldable pub with_newlines : List Runes → Runes
with_newlines [] = []
with_newlines (l ∷ lines) = l ++ (10 ∷ with_newlines lines)

unfoldable pub render_table : List (List Runes) → ℕ → Runes
unfolding table_lines with_newlines
render_table rows maxw = with_newlines (table_lines rows maxw)
