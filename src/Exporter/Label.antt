-- ===== src/Exporter/Label.antt =====
-- exporter/labelbound.go: the limits on label values and the truncation marker.
pub mod Bounds
pub mod Utf8
pub mod Marker
pub mod Limits
pub mod Tests
use gitlab_procs_exporter.Prelude.{
  ℕ, zero, suc, ◌+◌, ◌-◌, ◌/◌, ◌%◌, ◌<◌, ◌≡◌, Bool, true, false, not, ◌&&◌, ◌||◌, Option, none,
  some, List, [], ◌∷◌, ◌++◌, ltb, leb, ◌==◌, list_eq, nat_eq, list_beq, if◌then◌else◌, length, take,
  get_elem?, All,
}
use gitlab_procs_exporter.Prelude.Int.{ℤ, pos, negsuc, int_ltb}
use gitlab_procs_exporter.Prelude.Text.{Text, codes}
use gitlab_procs_exporter.Prelude.Decimal.{format_nat}
use gitlab_procs_exporter.Prelude.Utf8.{rune_start}
use gitlab_procs_exporter.Prelude.Map.{Map, lookup, insert}

-- A table of limits; an `int` of Go is an integer.
abbrev pub Limits : Type 0
Limits = Map Text ℤ

abbrev pub max_label_bytes : Limits
max_label_bytes =
    (codes "name", pos 128)
    ∷ (codes "cmdline", pos 2048)
    ∷ (codes "ci_job_name", pos 256)
    ∷ (codes "ci_project_path", pos 256)
    ∷ (codes "ci_job_id", pos 32)
    ∷ (codes "ci_pipeline_id", pos 32)
    ∷ []

-- U+2026 in UTF-8
abbrev pub trunc_ellipsis : Text
trunc_ellipsis = 226 ∷ 128 ∷ 166 ∷ []

abbrev pub trunc_fingerprint_len : ℕ
trunc_fingerprint_len = 12

abbrev pub trunc_max_len_digits : ℕ
trunc_max_len_digits = 20

abbrev pub max_marker_len : ℕ
max_marker_len =
    length trunc_ellipsis
    + length (codes "[len=")
    + trunc_max_len_digits
    + length (codes ";sha256=")
    + trunc_fingerprint_len
    + length (codes "]")

-- Of exporter/collector.go.
abbrev pub max_environ_bytes : ℕ
max_environ_bytes = 8192

abbrev pub min_label_bytes : ℕ
min_label_bytes = max_marker_len

abbrev pub max_label_bytes_ceiling : ℕ
max_label_bytes_ceiling = max_environ_bytes - max_marker_len

-- The body of the loop over the overrides, for what the table holds under the label: an entry for
-- an unknown label, or with a limit outside the range, is passed over.
pub apply_override : Text → ℤ → Option ℤ → Limits → Limits
apply_override label limit none out = out
apply_override label limit (some _) out =
    if int_ltb limit (pos min_label_bytes) || int_ltb (pos max_label_bytes_ceiling) limit
    then out
    else insert label limit out

pub override_loop : Map Text ℤ → Limits → Limits
unfolding apply_override
override_loop [] out = out
override_loop ((label, limit) ∷ rest) out =
    override_loop rest (apply_override label limit (lookup label out) out)

-- The copy of the published table, and the overrides on it.
unfoldable pub merged_max_label_bytes : Map Text ℤ → Limits
unfolding override_loop
merged_max_label_bytes overrides = override_loop overrides max_label_bytes

-- crypto/sha256 and crypto/rand, which the program calls: the digest of a text is 32 bytes, and the
-- salt is drawn once for a process.
pub record Hasher : Type 0 where
  pub sum256 : Text → Text
  pub salt : Text
  pub length-sum256 : (s : Text) → length (sum256 s) ≡ 32
  pub sum256-bytes : (s : Text) → All (λ b. b < 256) (sum256 s)

hex_digit : ℕ → ℕ
hex_digit n = if ltb n 10 then b'0' + n else b'a' + (n - 10)

-- hex.EncodeToString
pub hex : Text → Text
unfolding hex_digit
hex [] = []
hex (b ∷ s) = hex_digit (b / 16) ∷ hex_digit (b % 16) ∷ hex s

unfoldable pub fingerprint : Hasher → Text → Text
unfolding hex
fingerprint h s = take trunc_fingerprint_len (hex (h.sum256 (h.salt ++ s)))

-- `for i > 0 && !utf8.RuneStart(s[i]) { i-- }`
abbrev starts_rune : Option ℕ → Bool
starts_rune none = true
starts_rune (some b) = rune_start b

pub walk_back : Text → ℕ → ℕ
walk_back s zero = zero
walk_back s (suc i) =
    let back = walk_back s i in if starts_rune (get_elem? s (suc i)) then suc i else back

-- What stands behind the prefix that is kept.
pub marker : Hasher → Text → Text
unfolding fingerprint
marker h s =
    trunc_ellipsis
    ++ (codes "[len="
        ++ (format_nat (length s) ++ (codes ";sha256=" ++ (fingerprint h s ++ codes "]"))))

-- The cut of a text that is longer than the limit.
pub cut_at : Hasher → Text → ℕ → Text
unfolding walk_back marker
cut_at h s max = take (walk_back s max) s ++ marker h s

unfoldable pub truncate_with_fingerprint : Hasher → Text → ℤ → Text
unfolding cut_at
truncate_with_fingerprint h s (negsuc n) = s
truncate_with_fingerprint h s (pos max) =
    if max == 0 || leb (length s) max then s else cut_at h s max

unfoldable pub environ_trunc_marker : Text → Text
unfolding format_nat
environ_trunc_marker s = codes "[TRUNCATED;len=" ++ (format_nat (length s) ++ codes "]")

-- The counter of truncations, by label.
abbrev pub Truncations : Type 0
Truncations = Map Text ℕ

abbrev or_zero : Option ℕ → ℕ
or_zero none = 0
or_zero (some n) = n

abbrev pub cuts_of : Text → Truncations → ℕ
cuts_of label t = or_zero (lookup label t)

-- `pc.truncations.WithLabelValues(label).Inc()` of exporter/collector.go
unfoldable pub observe_truncation : Text → Truncations → Truncations
observe_truncation label t = insert label (cuts_of label t + 1) t

-- The observer is `none` for a caller without a registry.
abbrev pub Observer : Type 0
Observer = Option Truncations

abbrev observed : Text → Observer → Observer
observed name none = none
observed name (some t) = some (observe_truncation name t)

pub bound_by : Hasher → Option ℤ → Text → Text → Observer → Text × Observer
unfolding truncate_with_fingerprint observe_truncation
bound_by h none name value obs = (value, obs)
bound_by h (some max) name value obs =
    let bounded = truncate_with_fingerprint h value max in
    (bounded, if not (bounded == value) then observed name obs else obs)

-- The value that goes out, and the observer behind it.
unfoldable pub bound_label_with : Hasher → Limits → Text → Text → Observer → Text × Observer
unfolding bound_by
bound_label_with h limits name value obs = bound_by h (lookup name limits) name value obs
