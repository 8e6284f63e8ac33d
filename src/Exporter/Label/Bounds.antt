-- ===== src/Exporter/Label/Bounds.antt =====
-- How long a bounded label value can be.
use gitlab_procs_exporter.Prelude.{
  ℕ, zero, suc, ◌+◌, ◌*◌, ◌^◌, ◌≤◌, ◌<◌, ◌≡◌, [], ◌∷◌, ◌++◌, arith, length, take, length-append,
  length-take, nat_eq,
}
use gitlab_procs_exporter.Prelude.Int.{pos}
use gitlab_procs_exporter.Prelude.Text.{Text, codes}
use gitlab_procs_exporter.Prelude.Decimal.{format_nat, length-format_nat}
use gitlab_procs_exporter.Exporter.Label.{
  Hasher, hex, fingerprint, walk_back, marker, cut_at, truncate_with_fingerprint, max_marker_len,
  environ_trunc_marker,
}

length-hex : (s : Text) → length (hex s) ≡ 2 * length s
unfolding hex
length-hex [] = omega arith
length-hex (b ∷ s) = omega (arith, length-hex s)

pub length-fingerprint : (h : Hasher) (s : Text) → length (fingerprint h s) ≡ 12
unfolding fingerprint
length-fingerprint h s = omega (
  arith,
  length-take 12 (hex (h.sum256 (h.salt ++ s))),
  length-hex (h.sum256 (h.salt ++ s)),
  h.length-sum256 (h.salt ++ s),
)

pub length-marker :
    (h : Hasher) (s : Text) → length (marker h s) ≡ 29 + length (format_nat (length s))
unfolding marker
length-marker h s =
    let tail = codes ";sha256=" ++ (fingerprint h s ++ codes "]") in
    omega (
      arith,
      length-append (format_nat (length s)) tail,
      length-append (fingerprint h s) (codes "]"),
      length-fingerprint h s,
    )

pub walk_back-le : (s : Text) (i : ℕ) → walk_back s i ≤ i
unfolding walk_back
walk_back-le s zero = omega arith
walk_back-le s (suc i) = ground (arith, walk_back-le s i)

-- The decimal length of any text that a machine can hold has at most twenty digits.
pub length-marker-le :
    (h : Hasher) (s : Text) → length s < 10 ^ 20 → length (marker h s) ≤ max_marker_len
length-marker-le h s fits = omega (arith, length-marker h s, length-format_nat 19 (length s) fits)

-- A positive limit bounds every value of fewer than 10^20 bytes: what goes out has at most `limit
-- + maxMarkerLen` bytes.
pub length-truncate_with_fingerprint :
    (h : Hasher) (s : Text) (max : ℕ)
    → 0 < max
    → length s < 10 ^ 20
    → length (truncate_with_fingerprint h s (pos max)) ≤ max + max_marker_len
unfolding truncate_with_fingerprint cut_at
length-truncate_with_fingerprint h s max positive fits =
    let kept = take (walk_back s max) s in
    ground (
      arith,
      length-append kept (marker h s),
      length-take (walk_back s max) s,
      walk_back-le s max,
      length-marker-le h s fits,
    )

-- The marker of an environ value is shorter than any value that it replaces.
pub length-environ_trunc_marker :
    (s : Text) → length s < 10 ^ 20 → length (environ_trunc_marker s) ≤ 36
unfolding environ_trunc_marker
length-environ_trunc_marker s fits =
    omega (
      arith,
      length-append (format_nat (length s)) (codes "]"),
      length-format_nat 19 (length s) fits,
    )
