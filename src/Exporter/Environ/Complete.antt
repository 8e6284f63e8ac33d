-- ===== src/Exporter/Environ/Complete.antt =====
-- When the list of variables in the `environ` label is complete, and that the flag says so.
use gitlab_procs_exporter.Prelude.{
  ◌+◌, ◌≤◌, ◌<◌, ◌≡◌, refl, sym, ap, ◌∙◌, Bool, true, false, ◌||◌, List, [], ◌∷◌, ◌++◌, arith, ltb,
  ltb→ge, if◌then◌else◌, length, length-append, subst, Bool-cases, inl, inr, list_eq, nat_eq, map,
  append_assoc,
}
use mathlib.Core.Bool.{false≢true}
use gitlab_procs_exporter.Prelude.Text.{Text, codes, Unicode, join}
use gitlab_procs_exporter.Prelude.Map.{Map, lookup, keys}
use gitlab_procs_exporter.Prelude.Sort.{sort_strings, length-sort_strings}
use gitlab_procs_exporter.Exporter.Label.{max_environ_bytes}
use gitlab_procs_exporter.Exporter.Redact.{Floats, sanitize_label_value}
use gitlab_procs_exporter.Exporter.Environ.{
  max_environ_vars, or_empty, shown_val, pair, Written, write_pair, scrub_loop, considered,
  scrub_environ,
}

module _ (u : Unicode) (fl : Floats) (extra : List Text) (environ : Map Text Text) where
  -- The pairs of some keys, none left out.
  abbrev pub pairs : List Text → List Text
  pairs ks = map (λ k. pair u fl extra k (or_empty (lookup k environ))) ks

-- Written one after the other, with the separator that the loop puts before each but the first.
written : Text → List Text → Text
written b [] = b
written b (p ∷ ps) = written (b ++ ((if ltb 0 (length b) then codes ", " else []) ++ p)) ps

written-grows : (b : Text) (ps : List Text) → length b ≤ length (written b ps)
unfolding written
written-grows b [] = omega arith
written-grows b (p ∷ ps) =
    let s = (if ltb 0 (length b) then codes ", " else []) ++ p in
    omega (arith, length-append b s, written-grows (b ++ s) ps)

-- The flag is set exactly when a pair does not fit, and if none is skipped all are written.
abbrev IsExact : Text → Bool → List Text → Written → Type 0
IsExact b t ps (out, flag) =
    (flag ≡ (t || ltb max_environ_bytes (length (written b ps))))
    × (flag ≡ false → out ≡ written b ps)

abbrev after : Text → Text → Text
after b p = (if ltb 0 (length b) then codes ", " else []) ++ p

length-after :
    (b p : Text)
    → length (after b p) ≡ length (if ltb 0 (length b) then codes ", " else []) + length p
length-after b p = length-append (if ltb 0 (length b) then codes ", " else []) p

write_pair_over :
    (p b : Text) (t : Bool)
    → ltb max_environ_bytes (length b + length (after b p)) ≡ true
    → write_pair p (b, t) ≡ (b, true)
unfolding write_pair
write_pair_over p b t h = ground (arith, length-after b p)

write_pair_fits :
    (p b : Text) (t : Bool)
    → ltb max_environ_bytes (length b + length (after b p)) ≡ false
    → write_pair p (b, t) ≡ (b ++ after b p, t)
unfolding write_pair
write_pair_fits p b t h = ground (arith, length-after b p)

length-fits :
    (p b : Text)
    → ltb max_environ_bytes (length b + length (after b p)) ≡ false
    → length (b ++ after b p) ≤ max_environ_bytes
length-fits p b h =
    let fits = ltb→ge max_environ_bytes (length b + length (after b p)) h in
    omega (arith, length-append b (after b p))

over-IsExact :
    (p b : Text) (t : Bool) (ps : List Text) (w : Written)
    → ltb max_environ_bytes (length b + length (after b p)) ≡ true
    → IsExact b true ps w
    → IsExact b t (p ∷ ps) w
unfolding written
over-IsExact p b t ps (out, flag) over (raised, _) = (
  ground (arith, length-append b (after b p), written-grows (b ++ after b p) ps),
  λ h. absurd (false≢true (sym h ∙ raised)),
)

nil-IsExact : (b : Text) (t : Bool) → length b ≤ max_environ_bytes → IsExact b t [] (b, t)
unfolding written
nil-IsExact b t small = (ground arith, λ h. refl)

module _ (u : Unicode) (fl : Floats) (extra : List Text) (environ : Map Text Text) where
  scrub_loop-IsExact :
      (ks : List Text) (b : Text) (t : Bool)
      → length b ≤ max_environ_bytes
      → IsExact b t (pairs u fl extra environ ks) (scrub_loop u fl extra environ ks (b, t))
  unfolding scrub_loop written
  scrub_loop-IsExact [] b t small = nil-IsExact b t small
  scrub_loop-IsExact (k ∷ ks) b t small =
      let p = pair u fl extra k (or_empty (lookup k environ)) in
      let ps = pairs u fl extra environ ks in
      elim (Bool-cases (ltb max_environ_bytes (length b + length (after b p)))) [
        | inl over ↦
            subst (λ w. IsExact b t (p ∷ ps) (scrub_loop u fl extra environ ks w))
              (sym (write_pair_over p b t over))
              (over-IsExact p b t ps _ over (scrub_loop-IsExact ks b true small))
        | inr fits ↦
            subst (λ w. IsExact b t (p ∷ ps) (scrub_loop u fl extra environ ks w))
              (sym (write_pair_fits p b t fits))
              (scrub_loop-IsExact ks (b ++ after b p) t (length-fits p b fits))
      ]

join-append :
    (s p : Text) (ps : List Text)
    → join ((s ++ p) ∷ ps) (codes ", ") ≡ s ++ join (p ∷ ps) (codes ", ")
unfolding join
join-append s p [] = refl
join-append s p (q ∷ qs) =
    ap (λ t. t ++ join (q ∷ qs) (codes ", ")) (append_assoc s p (codes ", "))
    ∙ append_assoc s (p ++ codes ", ") (join (q ∷ qs) (codes ", "))

after_some : (b p : Text) → 0 < length b → after b p ≡ codes ", " ++ p
after_some b p h = ground arith

join_one : (b : Text) → b ≡ join (b ∷ []) (codes ", ")
unfolding join
join_one b = refl

join-cons :
    (b p : Text) (ps : List Text)
    → b ++ (codes ", " ++ join (p ∷ ps) (codes ", ")) ≡ join (b ∷ (p ∷ ps)) (codes ", ")
unfolding join
join-cons b p ps = sym (append_assoc b (codes ", ") (join (p ∷ ps) (codes ", ")))

written-join :
    (b : Text) (ps : List Text) → 0 < length b → written b ps ≡ join (b ∷ ps) (codes ", ")
unfolding written
written-join b [] h = join_one b
written-join b (p ∷ ps) h =
    ap (λ s. written (b ++ s) ps) (after_some b p h)
    ∙ (written-join (b ++ (codes ", " ++ p)) ps (omega (arith, length-append b (codes ", " ++ p)))
        ∙ (join-append b (codes ", " ++ p) ps
            ∙ (ap (λ t. b ++ t) (join-append (codes ", ") p ps) ∙ join-cons b p ps)))

-- A pair is never empty.
pair-positive :
    (u : Unicode) (fl : Floats) (extra : List Text) (k v : Text) → 0 < length (pair u fl extra k v)
unfolding pair
pair-positive u fl extra k v =
    let shown = shown_val u fl extra k (sanitize_label_value v) in
    omega (
      arith,
      length-append (sanitize_label_value k) (codes "=" ++ shown),
      length-append (codes "=") shown,
    )

written-pairs :
    (u : Unicode) (fl : Floats) (extra : List Text) (environ : Map Text Text) (ks : List Text)
    → written [] (pairs u fl extra environ ks) ≡ join (pairs u fl extra environ ks) (codes ", ")
unfolding written join
written-pairs u fl extra environ [] = refl
written-pairs u fl extra environ (k ∷ ks) =
    written-join (pair u fl extra k (or_empty (lookup k environ))) (pairs u fl extra environ ks)
      (pair-positive u fl extra k (or_empty (lookup k environ)))

abbrev IsLabelOf : Map Text Text → Text → Written → Type 0
IsLabelOf environ complete (label, truncated) =
    (truncated
      ≡ (ltb max_environ_vars (length (keys environ)) || ltb max_environ_bytes (length complete)))
    × (truncated ≡ false → label ≡ complete)

flagged :
    (u : Unicode) (fl : Floats) (extra : List Text) (environ : Map Text Text)
    → IsLabelOf environ
        (written [] (pairs u fl extra environ (considered environ)))
        (scrub_environ u fl extra environ)
unfolding scrub_environ
flagged u fl extra environ =
    let (exact, complete) =
      scrub_loop-IsExact u fl extra environ (considered environ) []
        (ltb max_environ_vars (length (sort_strings (keys environ)))) (omega arith) in
    (
      exact
          ∙ ap
              (λ n.
                ltb max_environ_vars n
                || ltb max_environ_bytes
                    (length (written [] (pairs u fl extra environ (considered environ)))))
              (length-sort_strings (keys environ)),
      complete,
    )

-- The flag is set exactly if there are more than `maxEnvironVars` variables or the pairs of those
-- considered, joined, are over `maxEnvironBytes`; otherwise the label is all of them joined.
pub scrub_environ_lem :
    (u : Unicode) (fl : Floats) (extra : List Text) (environ : Map Text Text)
    → let (label, truncated) = scrub_environ u fl extra environ in
      let complete = join (pairs u fl extra environ (considered environ)) (codes ", ") in
      (truncated
        ≡ (ltb max_environ_vars (length (keys environ)) || ltb max_environ_bytes (length complete)))
      × (truncated ≡ false → label ≡ complete)
unfolding scrub_environ
scrub_environ_lem u fl extra environ =
    subst (λ c. IsLabelOf environ c (scrub_environ u fl extra environ))
      (written-pairs u fl extra environ (considered environ)) (flagged u fl extra environ)
