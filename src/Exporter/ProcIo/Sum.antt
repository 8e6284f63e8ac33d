-- ===== src/Exporter/ProcIo/Sum.antt =====
-- SelfIO: whose counters are summed, and when there is no sum.
use gitlab_procs_exporter.Prelude.{
  ℕ, ◌+◌, ◌%◌, ◌^◌, ◌<◌, ◌≡◌, refl, ap, ◌∙◌, Bool, true, false, ◌||◌, Option, none, some, List, [],
  ◌∷◌, arith, if◌then◌else◌, Bool-cases, inl, inr,
}
use gitlab_procs_exporter.Exporter.ProcIo.{
  IoStats, no_io, plus64, add, IoError, not_exist, no_live_task, parsing, failed, IoResult, ok, err,
  TaskEntry, Total, parse_proc_io, add_task, then_total, walk_tasks, finish_walk, self_io,
}

-- What the files of the threads give, one for each entry that is a directory.
abbrev pub thread_results : List TaskEntry → List (IoResult IoStats)
thread_results [] = []
thread_results (e ∷ entries) =
    if e.is_dir then parse_proc_io e.io ∷ thread_results entries else thread_results entries

-- The first error that is not that of a thread that is gone.
abbrev pub first_failure : List (IoResult IoStats) → Option IoError
first_failure [] = none
first_failure (ok st ∷ rs) = first_failure rs
first_failure (err not_exist ∷ rs) = first_failure rs
first_failure (err no_live_task ∷ rs) = some no_live_task
first_failure (err (parsing key) ∷ rs) = some (parsing key)
first_failure (err (failed what) ∷ rs) = some (failed what)

-- The counters of the threads that are there.
abbrev pub live_stats : List (IoResult IoStats) → List IoStats
live_stats [] = []
live_stats (ok st ∷ rs) = st ∷ live_stats rs
live_stats (err e ∷ rs) = live_stats rs

abbrev pub sum_of : (IoStats → ℕ) → List IoStats → ℕ
sum_of f [] = 0
sum_of f (st ∷ ss) = f st + sum_of f ss

-- The sums, as `uint64`.
abbrev pub summed : List IoStats → IoStats
summed ss = record {
  read_bytes = sum_of (λ s. s.read_bytes) ss % 2 ^ 64;
  write_bytes = sum_of (λ s. s.write_bytes) ss % 2 ^ 64;
  read_syscalls = sum_of (λ s. s.read_syscalls) ss % 2 ^ 64;
  write_syscalls = sum_of (λ s. s.write_syscalls) ss % 2 ^ 64;
}

abbrev pub outcome : Option IoError → List IoStats → IoResult IoStats
outcome (some e) ss = err e
outcome none [] = err no_live_task
outcome none (s ∷ ss) = ok (summed (s ∷ ss))

add_all : IoStats → List IoStats → IoStats
add_all t [] = t
add_all t (s ∷ ss) = add_all (add t s) ss

abbrev some_live : List IoStats → Bool
some_live [] = false
some_live (s ∷ ss) = true

abbrev walked : Option IoError → List IoStats → Total → IoResult Total
walked (some e) ss t = err e
walked none ss (total, live) = ok (add_all total ss, live || some_live ss)

walk_results : (rs : List (IoResult IoStats)) → Total → IoResult Total
walk_results [] t = ok t
walk_results (r ∷ rs) t = then_total (add_task r t) (λ t'. walk_results rs t')

then_total_ext :
    (r : IoResult Total) (f g : Total → IoResult Total)
    → ((t : Total) → f t ≡ g t)
    → then_total r f ≡ then_total r g
then_total_ext (ok t) f g h = h t
then_total_ext (err e) f g h = refl

walk_tasks-results :
    (entries : List TaskEntry) (t : Total)
    → walk_tasks entries t ≡ walk_results (thread_results entries) t
unfolding walk_tasks walk_results
walk_tasks-results [] t = refl
walk_tasks-results (e ∷ entries) t = elim (Bool-cases e.is_dir) [
  | inl dir ↦ rw dir (
      then_total_ext (add_task (parse_proc_io e.io) t) (λ t'. walk_tasks entries t')
        (λ t'. walk_results (thread_results entries) t') (λ t'. walk_tasks-results entries t'))
  | inr file ↦ rw file (walk_tasks-results entries t)
]

walked_cons :
    (o : Option IoError) (st : IoStats) (ss : List IoStats) (total : IoStats) (live : Bool)
    → walked o ss (add total st, true) ≡ walked o (st ∷ ss) (total, live)
unfolding add_all
walked_cons (some e) st ss total live = refl
walked_cons none st ss total true = refl
walked_cons none st ss total false = refl

walk_results-walked :
    (rs : List (IoResult IoStats)) (total : IoStats) (live : Bool)
    → walk_results rs (total, live) ≡ walked (first_failure rs) (live_stats rs) (total, live)
unfolding walk_results add_task add_all
walk_results-walked [] total live = ground arith
walk_results-walked (ok st ∷ rs) total live =
    walk_results-walked rs (add total st) true
    ∙ walked_cons (first_failure rs) st (live_stats rs) total live
walk_results-walked (err not_exist ∷ rs) total live = walk_results-walked rs total live
walk_results-walked (err no_live_task ∷ rs) total live = refl
walk_results-walked (err (parsing key) ∷ rs) total live = refl
walk_results-walked (err (failed what) ∷ rs) total live = refl

abbrev IsSmall : IoStats → Type 0
IsSmall t =
    (t.read_bytes < 2 ^ 64)
    × (t.write_bytes < 2 ^ 64)
    × (t.read_syscalls < 2 ^ 64)
    × (t.write_syscalls < 2 ^ 64)

-- The totals with more counters on them.
abbrev on_top : IoStats → List IoStats → IoStats
on_top t ss = record {
  read_bytes = plus64 t.read_bytes (sum_of (λ s. s.read_bytes) ss);
  write_bytes = plus64 t.write_bytes (sum_of (λ s. s.write_bytes) ss);
  read_syscalls = plus64 t.read_syscalls (sum_of (λ s. s.read_syscalls) ss);
  write_syscalls = plus64 t.write_syscalls (sum_of (λ s. s.write_syscalls) ss);
}

plus64_small : (a : ℕ) → a < 2 ^ 64 → a ≡ plus64 a 0
plus64_small a h = omega arith

plus64_assoc : (a b c : ℕ) → plus64 (plus64 a b) c ≡ plus64 a (b + c)
plus64_assoc a b c = omega arith

same_stats :
    {a b : IoStats}
    → a.read_bytes ≡ b.read_bytes
    → a.write_bytes ≡ b.write_bytes
    → a.read_syscalls ≡ b.read_syscalls
    → a.write_syscalls ≡ b.write_syscalls
    → a ≡ b
same_stats h1 h2 h3 h4 = cc

add-IsSmall : (t s : IoStats) → IsSmall (add t s)
unfolding add
add-IsSmall t s = (omega arith, omega arith, omega arith, omega arith)

on_top-add : (t s : IoStats) (ss : List IoStats) → on_top (add t s) ss ≡ on_top t (s ∷ ss)
unfolding add
on_top-add t s ss =
    same_stats (plus64_assoc t.read_bytes s.read_bytes (sum_of (λ s. s.read_bytes) ss))
      (plus64_assoc t.write_bytes s.write_bytes (sum_of (λ s. s.write_bytes) ss))
      (plus64_assoc t.read_syscalls s.read_syscalls (sum_of (λ s. s.read_syscalls) ss))
      (plus64_assoc t.write_syscalls s.write_syscalls (sum_of (λ s. s.write_syscalls) ss))

add_all-on_top : (t : IoStats) (ss : List IoStats) → IsSmall t → add_all t ss ≡ on_top t ss
unfolding add_all
add_all-on_top t [] (h1, h2, h3, h4) =
    same_stats (plus64_small t.read_bytes h1) (plus64_small t.write_bytes h2)
      (plus64_small t.read_syscalls h3) (plus64_small t.write_syscalls h4)
add_all-on_top t (s ∷ ss) h = add_all-on_top (add t s) ss (add-IsSmall t s) ∙ on_top-add t s ss

zero_plus64 : (n : ℕ) → plus64 0 n ≡ n % 2 ^ 64
zero_plus64 n = omega arith

on_top_zero : (ss : List IoStats) → on_top no_io ss ≡ summed ss
on_top_zero ss =
    same_stats (zero_plus64 (sum_of (λ s. s.read_bytes) ss))
      (zero_plus64 (sum_of (λ s. s.write_bytes) ss))
      (zero_plus64 (sum_of (λ s. s.read_syscalls) ss))
      (zero_plus64 (sum_of (λ s. s.write_syscalls) ss))

finish_walk-walked :
    (o : Option IoError) (ss : List IoStats)
    → finish_walk (walked o ss (no_io, false)) ≡ outcome o ss
unfolding finish_walk
finish_walk-walked (some e) ss = refl
finish_walk-walked none [] = refl
finish_walk-walked none (s ∷ ss) = ap ok (
    add_all-on_top no_io (s ∷ ss) (omega arith, omega arith, omega arith, omega arith)
    ∙ on_top_zero (s ∷ ss))

-- The result is the first error that is not that of a vanished thread, where there is one; else the
-- sums modulo 2^64 over the threads that are left, or `ErrNoLiveTask` if there is none.
pub self_io_lem :
    (entries : List TaskEntry)
    → let rs = thread_results entries in
      self_io (ok entries) ≡ outcome (first_failure rs) (live_stats rs)
unfolding self_io
self_io_lem entries =
    ap finish_walk (
      walk_tasks-results entries (no_io, false)
      ∙ walk_results-walked (thread_results entries) no_io false)
    ∙ finish_walk-walked (first_failure (thread_results entries))
        (live_stats (thread_results entries))
