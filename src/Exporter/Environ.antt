-- ===== src/Exporter/Environ.antt =====
-- scrubEnviron of exporter/collector.go: the `environ` label of gitlab_process_info.
pub mod Bound
pub mod Complete
pub mod Secret
pub mod Tests
use gitlab_procs_exporter.Prelude.{
  ℕ, ◌+◌, Bool, true, false, ◌||◌, Option, none, some, List, [], ◌∷◌, ◌++◌, ltb, if◌then◌else◌,
  length, take, list_eq, nat_eq,
}
use gitlab_procs_exporter.Prelude.Text.{Text, codes, Unicode}
use gitlab_procs_exporter.Prelude.Map.{Map, lookup, keys}
use gitlab_procs_exporter.Prelude.Sort.{sort_strings}
use gitlab_procs_exporter.Exporter.Label.{max_environ_bytes, environ_trunc_marker}
use gitlab_procs_exporter.Exporter.Redact.{
  Floats, sanitize_label_value, is_sensitive_pair, redacted,
}

abbrev pub max_environ_vars : ℕ
max_environ_vars = 100

abbrev pub max_environ_value_len : ℕ
max_environ_value_len = 256

-- A missing key reads as the empty text.
abbrev pub or_empty : Option Text → Text
or_empty none = []
or_empty (some v) = v

-- The `switch`: what is shown of a sanitized value.
pub shown_val : Unicode → Floats → List Text → Text → Text → Text
unfolding is_sensitive_pair environ_trunc_marker
shown_val u fl extra k val =
    if is_sensitive_pair u fl k val extra
    then redacted
    else if ltb max_environ_value_len (length val)
    then environ_trunc_marker val
    else val

-- fmt.Sprintf("%s=%s", sanitizeLabelValue(k), val)
unfoldable pub pair : Unicode → Floats → List Text → Text → Text → Text
unfolding sanitize_label_value shown_val
pair u fl extra k v =
    sanitize_label_value k ++ (codes "=" ++ shown_val u fl extra k (sanitize_label_value v))

-- What has been written so far, and the flag `truncated`.
abbrev pub Written : Type 0
Written = Text × Bool

abbrev separator : ℕ → Text
separator written = if ltb 0 written then codes ", " else []

-- The end of the loop's body: the pair is written, or skipped where it would exceed the ceiling.
unfoldable pub write_pair : Text → Written → Written
write_pair p (b, truncated) =
    if ltb max_environ_bytes (length b + length (separator (length b)) + length p)
    then (b, true)
    else (b ++ (separator (length b) ++ p), truncated)

pub scrub_loop : Unicode → Floats → List Text → Map Text Text → List Text → Written → Written
unfolding pair write_pair lookup
scrub_loop u fl extra environ [] w = w
scrub_loop u fl extra environ (k ∷ ks) w =
    scrub_loop u fl extra environ ks
      (write_pair (pair u fl extra k (or_empty (lookup k environ))) w)

-- The keys that are considered, in the order of their bytes.
abbrev pub considered : Map Text Text → List Text
unfolding sort_strings
considered environ = take max_environ_vars (sort_strings (keys environ))

unfoldable pub scrub_environ : Unicode → Floats → List Text → Map Text Text → Written
unfolding scrub_loop sort_strings
scrub_environ u fl extra environ =
    scrub_loop u fl extra environ (considered environ)
      ([], ltb max_environ_vars (length (sort_strings (keys environ))))
