-- ===== src/JobReport/Render/Box.antt =====
-- The shape of a table: its lines have one width.
use gitlab_procs_exporter.Prelude.{
  ℕ, zero, suc, ◌+◌, ◌-◌, ◌/◌, ◌≤◌, ◌≡◌, refl, Bool, true, false, List, [], ◌∷◌, ◌++◌, length,
  length-append, arith, All,
}
use gitlab_procs_exporter.JobReport.Render.{
  Runes, repeat, widen, widths, rule_body, rule, pad_cell, row_body,
}

length-repeat : (n c : ℕ) → length (repeat n c) ≡ n
unfolding repeat
length-repeat zero c = refl
length-repeat (suc n) c = omega (arith, length-repeat n c)

-- The sum of the widths with what stands between the columns.
abbrev pub total : List ℕ → ℕ
total [] = 0
total (w ∷ ws) = w + 3 + total ws

-- Cells fit into their columns, one for each.
abbrev pub Fits : List ℕ → List Runes → Type 0
Fits [] [] = Unit
Fits [] (v ∷ cells) = ⊥
Fits (w ∷ ws) [] = ⊥
Fits (w ∷ ws) (v ∷ cells) = (length v ≤ w) × Fits ws cells

length-rule_body : (mid w : ℕ) (ws : List ℕ) → length (rule_body mid (w ∷ ws)) + 1 ≡ total (w ∷ ws)
unfolding rule_body
length-rule_body mid w [] = omega (arith, length-repeat (w + 2) 9472)
length-rule_body mid w (v ∷ ws) = omega (
  arith,
  length-repeat (w + 2) 9472,
  length-append (repeat (w + 2) 9472) (mid ∷ rule_body mid (v ∷ ws)),
  length-rule_body mid v ws,
)

pub length-rule :
    (l mid r w : ℕ) (ws : List ℕ) → length (rule l mid r (w ∷ ws)) ≡ total (w ∷ ws) + 1
unfolding rule
length-rule l mid r w ws =
    omega (arith, length-append (rule_body mid (w ∷ ws)) (r ∷ []), length-rule_body mid w ws)

length-pad_cell :
    (header : Bool) (w : ℕ) (v : Runes) → length v ≤ w → length (pad_cell header w v) ≡ w + 3
unfolding pad_cell
length-pad_cell true w v h =
    let pad : ℕ = w - length v in
    let right : Runes = repeat (pad - pad / 2) 32 ++ (32 ∷ (9474 ∷ [])) in
    omega (
      arith,
      length-append (repeat (pad / 2) 32) (v ++ right),
      length-append v right,
      length-append (repeat (pad - pad / 2) 32) (32 ∷ (9474 ∷ [])),
      length-repeat (pad / 2) 32,
      length-repeat (pad - pad / 2) 32,
    )
length-pad_cell false w v h =
    let right : Runes = repeat (w - length v) 32 ++ (32 ∷ (9474 ∷ [])) in
    omega (
      arith,
      length-append v right,
      length-append (repeat (w - length v) 32) (32 ∷ (9474 ∷ [])),
      length-repeat (w - length v) 32,
    )

pub length-row_body :
    (header : Bool) (ws : List ℕ) (cells : List Runes)
    → Fits ws cells
    → length (row_body header ws cells) ≡ total ws
unfolding row_body
length-row_body header [] [] h = refl
length-row_body header [] (v ∷ cells) h = absurd h
length-row_body header (w ∷ ws) [] h = absurd h
length-row_body header (w ∷ ws) (v ∷ cells) (hv, h) = omega (
  arith,
  length-append (pad_cell header w v) (row_body header ws cells),
  length-pad_cell header w v hv,
  length-row_body header ws cells h,
)

-- As many cells as columns.
abbrev pub Shape : List ℕ → List Runes → Type 0
Shape [] [] = Unit
Shape [] (v ∷ cells) = ⊥
Shape (w ∷ ws) [] = ⊥
Shape (w ∷ ws) (v ∷ cells) = Shape ws cells

widen-Shape : (ws : List ℕ) (cells row : List Runes) → Shape ws row → Shape (widen ws cells) row
unfolding widen
widen-Shape [] cells row h = h
widen-Shape (w ∷ ws) [] row h = h
widen-Shape (w ∷ ws) (v ∷ cells) [] h = h
widen-Shape (w ∷ ws) (v ∷ cells) (r ∷ row) h = widen-Shape ws cells row h

widen-Fits : (ws : List ℕ) (cells : List Runes) → Shape ws cells → Fits (widen ws cells) cells
unfolding widen
widen-Fits [] [] h = tt
widen-Fits [] (v ∷ cells) h = absurd h
widen-Fits (w ∷ ws) [] h = absurd h
widen-Fits (w ∷ ws) (v ∷ cells) h = (ground arith, widen-Fits ws cells h)

Fits-widen : (ws : List ℕ) (cells row : List Runes) → Fits ws row → Fits (widen ws cells) row
unfolding widen
Fits-widen [] cells row h = h
Fits-widen (w ∷ ws) [] row h = h
Fits-widen (w ∷ ws) (v ∷ cells) [] h = absurd h
Fits-widen (w ∷ ws) (v ∷ cells) (r ∷ row) (hr, h) = (ground arith, Fits-widen ws cells row h)

Fits-widths :
    (ws : List ℕ) (rows : List (List Runes)) (row : List Runes)
    → Fits ws row
    → Fits (widths ws rows) row
unfolding widths
Fits-widths ws [] row h = h
Fits-widths ws (cells ∷ rows) row h =
    Fits-widths (widen ws cells) rows row (Fits-widen ws cells row h)

All-widen-Shape :
    (ws : List ℕ) (cells : List Runes) (rows : List (List Runes))
    → All (Shape ws) rows
    → All (Shape (widen ws cells)) rows
All-widen-Shape ws cells [] h = tt
All-widen-Shape ws cells (row ∷ rows) (hr, h) =
    (widen-Shape ws cells row hr, All-widen-Shape ws cells rows h)

pub widths-Fits :
    (ws : List ℕ) (rows : List (List Runes))
    → All (Shape ws) rows
    → All (Fits (widths ws rows)) rows
unfolding widths
widths-Fits ws [] h = tt
widths-Fits ws (cells ∷ rows) (hc, h) = (
  Fits-widths (widen ws cells) rows cells (widen-Fits ws cells hc),
  widths-Fits (widen ws cells) rows (All-widen-Shape ws cells rows h),
)

-- No column is wider than a limit that its cells keep.
widen-le :
    (m : ℕ) (ws : List ℕ) (cells : List Runes)
    → All (λ w. w ≤ m) ws
    → All (λ v. length v ≤ m) cells
    → All (λ w. w ≤ m) (widen ws cells)
unfolding widen
widen-le m [] cells hw hc = tt
widen-le m (w ∷ ws) [] hw hc = hw
widen-le m (w ∷ ws) (v ∷ cells) (hw, hws) (hv, hc) = (ground arith, widen-le m ws cells hws hc)

pub widths-le :
    (m : ℕ) (ws : List ℕ) (rows : List (List Runes))
    → All (λ w. w ≤ m) ws
    → All (λ cells. All (λ v. length v ≤ m) cells) rows
    → All (λ w. w ≤ m) (widths ws rows)
unfolding widths
widths-le m ws [] hw h = hw
widths-le m ws (cells ∷ rows) hw (hc, h) =
    widths-le m (widen ws cells) rows (widen-le m ws cells hw hc) h
