-- ===== src/Exporter/Environ/Bound.antt =====
-- The `environ` label is never over its ceiling, and it is always valid UTF-8.
use gitlab_procs_exporter.Prelude.{
  ℕ, ◌≤◌, ◌≡◌, refl, Bool, true, false, List, [], ◌∷◌, ◌++◌, arith, ltb, if◌then◌else◌, length,
  length-append, list_eq, nat_eq,
}
use gitlab_procs_exporter.Prelude.Text.{Text, codes, Unicode}
use gitlab_procs_exporter.Prelude.Map.{Map, lookup}
use gitlab_procs_exporter.Prelude.Utf8.{valid_string, valid_string-append, valid_string-ascii}
use gitlab_procs_exporter.Exporter.Label.{max_environ_bytes, environ_trunc_marker}
use gitlab_procs_exporter.Exporter.Redact.{
  Floats, redacted, sanitize_label_value, is_sensitive_pair,
}
use gitlab_procs_exporter.Exporter.Redact.Sanitize.{sanitize_label_value-valid_string}
use gitlab_procs_exporter.Exporter.Label.Utf8.{environ_trunc_marker-valid_string}
use gitlab_procs_exporter.Exporter.Environ.{
  max_environ_value_len, or_empty, shown_val, pair, Written, write_pair, scrub_loop, considered,
  scrub_environ,
}

-- What the loop keeps true of the text that it has written.
abbrev IsFit : Text → Type 0
IsFit b = (length b ≤ max_environ_bytes) × (valid_string b ≡ true)

abbrev choose : Bool → Text → Text → Text
choose b s t = if b then s else t

choose-valid :
    (b : Bool) (s t : Text)
    → valid_string s ≡ true
    → valid_string t ≡ true
    → valid_string (choose b s t) ≡ true
choose-valid true s t hs ht = hs
choose-valid false s t hs ht = ht

separator-valid : (n : ℕ) → valid_string (choose (ltb 0 n) (codes ", ") []) ≡ true
separator-valid n =
    choose-valid (ltb 0 n) (codes ", ") [] (valid_string-ascii (codes ", ") (omega arith))
      (valid_string-ascii [] tt)

write_pair-le :
    (p : Text) (w : Written)
    → length w.0 ≤ max_environ_bytes
    → length (write_pair p w).0 ≤ max_environ_bytes
unfolding write_pair
write_pair-le p (b, t) small =
    let sep = choose (ltb 0 (length b)) (codes ", ") [] in
    ground (arith, length-append b (sep ++ p), length-append sep p)

write_pair-valid :
    (p : Text) (w : Written)
    → valid_string p ≡ true
    → valid_string w.0 ≡ true
    → valid_string (write_pair p w).0 ≡ true
unfolding write_pair
write_pair-valid p (b, t) valid fine =
    let sep = choose (ltb 0 (length b)) (codes ", ") [] in
    ground (
      arith,
      valid_string-append b (sep ++ p),
      valid_string-append sep p,
      separator-valid (length b),
    )

redacted-valid : valid_string redacted ≡ true
redacted-valid = valid_string-ascii redacted (omega arith)

shown_val-valid :
    (u : Unicode) (fl : Floats) (extra : List Text) (k v : Text)
    → valid_string v ≡ true
    → valid_string (shown_val u fl extra k v) ≡ true
unfolding shown_val
shown_val-valid u fl extra k v h =
    choose-valid (is_sensitive_pair u fl k v extra) redacted _ redacted-valid (
      choose-valid (ltb max_environ_value_len (length v)) (environ_trunc_marker v) v
        (environ_trunc_marker-valid_string v) h)

pair-valid :
    (u : Unicode) (fl : Floats) (extra : List Text) (k v : Text)
    → valid_string (pair u fl extra k v) ≡ true
unfolding pair
pair-valid u fl extra k v =
    let shown = shown_val u fl extra k (sanitize_label_value v) in
    valid_string-append (sanitize_label_value k) (codes "=" ++ shown)
      (sanitize_label_value-valid_string k)
      (valid_string-append (codes "=") shown (valid_string-ascii (codes "=") (omega arith)) (
        shown_val-valid u fl extra k (sanitize_label_value v)
          (sanitize_label_value-valid_string v)))

scrub_loop-IsFit :
    (u : Unicode) (fl : Floats) (extra : List Text) (environ : Map Text Text) (ks : List Text)
    (w : Written)
    → IsFit w.0
    → IsFit (scrub_loop u fl extra environ ks w).0
unfolding scrub_loop
scrub_loop-IsFit u fl extra environ [] w h = h
scrub_loop-IsFit u fl extra environ (k ∷ ks) w h =
    let p = pair u fl extra k (or_empty (lookup k environ)) in
    scrub_loop-IsFit u fl extra environ ks (write_pair p w) (
      write_pair-le p w h.0,
      write_pair-valid p w (pair-valid u fl extra k (or_empty (lookup k environ))) h.1,
    )

-- Whatever the environment of a process holds, its label has at most `maxEnvironBytes` bytes.
pub length-scrub_environ :
    (u : Unicode) (fl : Floats) (extra : List Text) (environ : Map Text Text)
    → length (scrub_environ u fl extra environ).0 ≤ max_environ_bytes
unfolding scrub_environ valid_string
length-scrub_environ u fl extra environ =
    (scrub_loop-IsFit u fl extra environ (considered environ) _ (omega arith, refl)).0

-- Whatever bytes the environment holds, the label is valid UTF-8.
pub scrub_environ-valid_string :
    (u : Unicode) (fl : Floats) (extra : List Text) (environ : Map Text Text)
    → valid_string (scrub_environ u fl extra environ).0 ≡ true
unfolding scrub_environ valid_string
scrub_environ-valid_string u fl extra environ =
    (scrub_loop-IsFit u fl extra environ (considered environ) _ (omega arith, refl)).1
