-- ===== src/Exporter/Label/Tests.antt =====
-- Runs of the bounding of labels at concrete inputs, and instances of its theorems.
use gitlab_procs_exporter.Prelude.{
  ◌≤◌, ◌≡◌, ◌≢◌, refl, true, none, some, [], ◌∷◌, ◌++◌, arith, length, list_eq, nat_eq, list_beq,
}
use gitlab_procs_exporter.Prelude.Int.{ℤ, pos}
use gitlab_procs_exporter.Prelude.Text.{Text, codes}
use gitlab_procs_exporter.Prelude.Decimal.{format_nat}
use gitlab_procs_exporter.Prelude.Utf8.{valid_string}
use gitlab_procs_exporter.Prelude.Map.{Map, lookup, insert, IsDistinct}
use gitlab_procs_exporter.Exporter.Samples.{sum_hasher}
use gitlab_procs_exporter.Exporter.Label.{
  max_label_bytes, max_environ_bytes, merged_max_label_bytes, walk_back, truncate_with_fingerprint,
  environ_trunc_marker, bound_label_with,
}
use gitlab_procs_exporter.Exporter.Label.Limits.{length-bound_label_with}

-- Thirty characters, the eleventh of them in two bytes.
abbrev long_name : Text
long_name = codes "0123456789" ++ (195 ∷ 169 ∷ codes "0123456789abcdefghi")

-- A cut inside the rune walks back to its start.
cut_before_rune : walk_back long_name 11 ≡ 10
unfolding walk_back
cut_before_rune = refl

truncated :
    truncate_with_fingerprint sum_hasher (codes "abcdef") (pos 2)
    ≡ codes "ab" ++ (226 ∷ 128 ∷ 166 ∷ codes "[len=6;sha256=090909090909]")
unfolding truncate_with_fingerprint format_nat
truncated = refl

environ_marker : environ_trunc_marker (codes "abcdef") ≡ codes "[TRUNCATED;len=6]"
unfolding environ_trunc_marker
environ_marker = refl

long_name-valid_string : valid_string long_name ≡ true
unfolding valid_string
long_name-valid_string = refl

-- One override that is applied, one over the ceiling, one for an unknown label.
abbrev overrides : Map Text ℤ
overrides = (codes "cmdline", pos 4096) ∷ (codes "name", pos 9000) ∷ (codes "pid", pos 64) ∷ []

overrides-IsDistinct : IsDistinct overrides
unfolding lookup list_beq
overrides-IsDistinct = (refl, (refl, (refl, tt)))

merged :
    (lookup (codes "cmdline") (merged_max_label_bytes overrides) ≡ some (pos 4096))
    × (lookup (codes "name") (merged_max_label_bytes overrides) ≡ some (pos 128))
    × (lookup (codes "pid") (merged_max_label_bytes overrides) ≡ none)
unfolding merged_max_label_bytes lookup insert list_beq
merged = (refl, refl, refl)

name_covered : lookup (codes "name") max_label_bytes ≢ none
unfolding lookup list_beq
name_covered h = cc

length-bound_label_with_example :
    length
      (bound_label_with sum_hasher
        (merged_max_label_bytes overrides)
        (codes "name")
        long_name
        none).0
    ≤ max_environ_bytes
length-bound_label_with_example =
    length-bound_label_with sum_hasher overrides (codes "name") long_name none overrides-IsDistinct
      name_covered (omega arith)
