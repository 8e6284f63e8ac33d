-- ===== src/Exporter/ProcIo/Parse.antt =====
-- parseProcIO reads what the kernel prints.
use gitlab_procs_exporter.Prelude.{
  ℕ, ◌^◌, ◌<◌, ◌≡◌, refl, ap, ◌∙◌, Bool, true, false, Option, none, some, List, All, [], ◌∷◌, ◌++◌,
  arith, ◌==◌, eq_iff, list_eq, nat_eq, list_beq, if◌then◌else◌,
}
use gitlab_procs_exporter.Prelude.Text.{Text, codes, cut, cut_prefix}
use gitlab_procs_exporter.Prelude.Decimal.{format_nat, parse_uint-format_nat}
use gitlab_procs_exporter.Exporter.ProcIo.{
  IoStats, no_io, ok, scanned, store_at, set_target, parse_line, then_parse, parse_lines,
  end_of_scan, parse_proc_io,
}

-- A line of the file.
abbrev pub line : Text → ℕ → Text
line key n = key ++ (codes ": " ++ format_nat n)

-- A key in which no part is the separator.
abbrev clean : Text → Bool
clean [] = true
clean (c ∷ s) = let rest = clean s in if c == b':' then false else rest

cut-line :
    (key val : Text)
    → clean key ≡ true
    → cut (key ++ (codes ": " ++ val)) (codes ": ") ≡ some (key, val)
unfolding cut cut_prefix
cut-line [] val h = refl
cut-line (c ∷ key) val h = ground (arith, eq_iff c b':', cut-line key val)

parse_line-known :
    (key : Text) (n : ℕ) (st st' : IoStats)
    → n < 2 ^ 64
    → store_at key n st ≡ some st'
    → parse_line (some (key, format_nat n)) st ≡ ok st'
unfolding parse_line set_target
parse_line-known key n st st' small h = rw (parse_uint-format_nat 64 n small, h) refl

parse_line-unknown :
    (key : Text) (n : ℕ) (st : IoStats)
    → store_at key n st ≡ none
    → n < 2 ^ 64
    → parse_line (some (key, format_nat n)) st ≡ ok st
unfolding parse_line set_target
parse_line-unknown key n st h small = rw (parse_uint-format_nat 64 n small, h) refl

-- The number goes where the key says, and a key that is not known changes nothing.
abbrev kept : Option IoStats → IoStats → IoStats
kept none st = st
kept (some st') st = st'

parse_line-line :
    (key : Text) (n : ℕ) (st : IoStats)
    → clean key ≡ true
    → n < 2 ^ 64
    → parse_line (cut (line key n) (codes ": ")) st ≡ ok (kept (store_at key n st) st)
parse_line-line key n st plain small =
    ap (λ o. parse_line o st) (cut-line key (format_nat n) plain)
    ∙ by_store (store_at key n st) refl
  where
    by_store :
        (o : Option IoStats)
        → store_at key n st ≡ o
        → parse_line (some (key, format_nat n)) st ≡ ok (kept o st)
    by_store none h = parse_line-unknown key n st h small
    by_store (some st') h = parse_line-known key n st st' small h

abbrev IsEntry : Text × ℕ → Type 0
IsEntry (key, n) = (clean key ≡ true) × (n < 2 ^ 64)

abbrev pub lines : List (Text × ℕ) → List Text
lines [] = []
lines ((key, n) ∷ kvs) = line key n ∷ lines kvs

abbrev stored : List (Text × ℕ) → IoStats → IoStats
stored [] st = st
stored ((key, n) ∷ kvs) st = stored kvs (kept (store_at key n st) st)

parse_lines-stored :
    (kvs : List (Text × ℕ)) (st : IoStats)
    → All IsEntry kvs
    → parse_lines (lines kvs) st ≡ ok (stored kvs st)
unfolding parse_lines then_parse
parse_lines-stored [] st h = refl
parse_lines-stored ((key, n) ∷ kvs) st ((plain, small), h) =
    rw (parse_line-line key n st plain small)
      (parse_lines-stored kvs (kept (store_at key n st) st) h)

-- The counters of the file as the kernel prints it, three of which the program does not read.
abbrev pub kernel_counters : ℕ → ℕ → ℕ → IoStats → List (Text × ℕ)
kernel_counters rchar wchar cancelled st =
    (codes "rchar", rchar)
    ∷ (codes "wchar", wchar)
    ∷ (codes "syscr", st.read_syscalls)
    ∷ (codes "syscw", st.write_syscalls)
    ∷ (codes "read_bytes", st.read_bytes)
    ∷ (codes "write_bytes", st.write_bytes)
    ∷ (codes "cancelled_write_bytes", cancelled)
    ∷ []

-- The counters that the kernel prints, each below 2^64, are read back exactly.
pub parse_proc_io-kernel_counters :
    (rchar wchar cancelled : ℕ) (st : IoStats)
    → rchar < 2 ^ 64
    → wchar < 2 ^ 64
    → cancelled < 2 ^ 64
    → st.read_bytes < 2 ^ 64
    → st.write_bytes < 2 ^ 64
    → st.read_syscalls < 2 ^ 64
    → st.write_syscalls < 2 ^ 64
    → parse_proc_io (scanned (lines (kernel_counters rchar wchar cancelled st)) none) ≡ ok st
unfolding parse_proc_io then_parse store_at list_beq
parse_proc_io-kernel_counters rchar wchar cancelled st h1 h2 h3 h4 h5 h6 h7 =
    ap (λ r. then_parse r (end_of_scan none))
      (parse_lines-stored (kernel_counters rchar wchar cancelled st) no_io (
        (refl, h1),
        ((refl, h2), ((refl, h6), ((refl, h7), ((refl, h4), ((refl, h5), ((refl, h3), tt)))))),
      ))
