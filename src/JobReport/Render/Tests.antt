-- ===== src/JobReport/Render/Tests.antt =====
-- A table at a concrete input, and instances of its theorems.
use gitlab_procs_exporter.Prelude.{◌+◌, ◌≤◌, ◌≡◌, refl, List, [], ◌∷◌, arith, All}
use gitlab_procs_exporter.Prelude.Text.{codes}
use gitlab_procs_exporter.JobReport.Render.{Runes, column_count, table_lines}
use gitlab_procs_exporter.JobReport.Render.Box.{total}
use gitlab_procs_exporter.JobReport.Render.Table.{IsWide, widths_of, table_lines-IsWide}

abbrev two_rows : List (List Runes)
two_rows = (codes "#" ∷ (codes "proc" ∷ [])) ∷ ((codes "1" ∷ (codes "gitlab-runner" ∷ [])) ∷ [])

two_columns : column_count two_rows ≡ 2
unfolding column_count
two_columns = refl

table_lines-IsWide_example :
    IsWide (total (widths_of two_rows 8) + 1) (table_lines two_rows 8)
    × (3 ≤ 8 → All (λ w. w ≤ 8) (widths_of two_rows 8))
table_lines-IsWide_example = table_lines-IsWide two_rows 8 (omega (arith, two_columns))
