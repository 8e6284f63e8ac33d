-- ===== src/Exporter/ProcIo.antt =====
-- exporter/procio.go and exporter/procio_linux.go: the I/O of the threads of a process.
pub mod Parse
pub mod Sum
pub mod Tests
use gitlab_procs_exporter.Prelude.{
  ℕ, ◌+◌, ◌%◌, ◌^◌, Bool, true, false, Option, none, some, List, [], ◌∷◌, ◌==◌, list_eq, nat_eq,
  list_beq, if◌then◌else◌,
}
use gitlab_procs_exporter.Prelude.Text.{Text, codes, cut}
use gitlab_procs_exporter.Prelude.Decimal.{parse_uint}

pub record IoStats : Type 0 where
  pub read_bytes : ℕ
  pub write_bytes : ℕ
  pub read_syscalls : ℕ
  pub write_syscalls : ℕ

abbrev pub no_io : IoStats
no_io = record { read_bytes = 0; write_bytes = 0; read_syscalls = 0; write_syscalls = 0 }

-- A sum of two `uint64`
abbrev pub plus64 : ℕ → ℕ → ℕ
plus64 a b = (a + b) % 2 ^ 64

unfoldable pub add : IoStats → IoStats → IoStats
add s o = record {
  read_bytes = plus64 s.read_bytes o.read_bytes;
  write_bytes = plus64 s.write_bytes o.write_bytes;
  read_syscalls = plus64 s.read_syscalls o.read_syscalls;
  write_syscalls = plus64 s.write_syscalls o.write_syscalls;
}

pub data IoError : Type 0 where
  not_exist : IoError
  no_live_task : IoError
  parsing : Text → IoError
  failed : Text → IoError

pub data IoResult {ℓ} (A : Type ℓ) : Type ℓ where
  ok : A → IoResult A
  err : IoError → IoResult A

-- What the kernel's file system and `bufio.Scanner` make of a file: it cannot be opened, or its lines
-- up to an error of the scanner.
pub data IoFile : Type 0 where
  not_opened : IoError → IoFile
  scanned : List Text → Option IoError → IoFile

-- `target` of the `switch`: the counter under a key, replaced.
unfoldable pub store_at : Text → ℕ → IoStats → Option IoStats
store_at key n st =
    if key == codes "read_bytes"
    then some (record st { read_bytes = n })
    else if key == codes "write_bytes"
    then some (record st { write_bytes = n })
    else if key == codes "syscr"
    then some (record st { read_syscalls = n })
    else if key == codes "syscw"
    then some (record st { write_syscalls = n })
    else none

pub set_target : Text → Option ℕ → Option IoStats → IoStats → IoResult IoStats
set_target key n none st = ok st
set_target key none (some st') st = err (parsing key)
set_target key (some n) (some st') st = ok st'

abbrev or_zero : Option ℕ → ℕ
or_zero none = 0
or_zero (some n) = n

-- One line; a line without the separator is passed over.
pub parse_line : Option (Text × Text) → IoStats → IoResult IoStats
unfolding set_target store_at parse_uint
parse_line none st = ok st
parse_line (some (key, val)) st =
    let n = parse_uint 64 val in set_target key n (store_at key (or_zero n) st) st

pub then_parse : IoResult IoStats → (IoStats → IoResult IoStats) → IoResult IoStats
then_parse (ok st) f = f st
then_parse (err e) f = err e

pub parse_lines : List Text → IoStats → IoResult IoStats
unfolding parse_line cut then_parse
parse_lines [] st = ok st
parse_lines (line ∷ lines) st =
    then_parse (parse_line (cut line (codes ": ")) st) (λ st'. parse_lines lines st')

abbrev end_of_scan : Option IoError → IoStats → IoResult IoStats
end_of_scan none st = ok st
end_of_scan (some e) st = err e

unfoldable pub parse_proc_io : IoFile → IoResult IoStats
unfolding parse_lines
parse_proc_io (not_opened e) = err e
parse_proc_io (scanned lines e) = then_parse (parse_lines lines no_io) (end_of_scan e)

-- An entry of the directory `task`, and the file `io` in it.
pub record TaskEntry : Type 0 where
  pub is_dir : Bool
  pub io : IoFile

-- The totals, and the flag `live`.
abbrev pub Total : Type 0
Total = IoStats × Bool

-- What becomes of the totals with one thread's counters; a thread that is gone changes nothing.
pub add_task : IoResult IoStats → Total → IoResult Total
unfolding add
add_task (ok st) (total, live) = ok (add total st, true)
add_task (err not_exist) t = ok t
add_task (err no_live_task) t = err no_live_task
add_task (err (parsing key)) t = err (parsing key)
add_task (err (failed what)) t = err (failed what)

abbrev pub then_total : IoResult Total → (Total → IoResult Total) → IoResult Total
then_total (ok t) f = f t
then_total (err e) f = err e

pub walk_tasks : List TaskEntry → Total → IoResult Total
unfolding add_task parse_proc_io
walk_tasks [] t = ok t
walk_tasks (e ∷ entries) t =
    then_total (if e.is_dir then add_task (parse_proc_io e.io) t else ok t)
      (λ t'. walk_tasks entries t')

pub finish_walk : IoResult Total → IoResult IoStats
finish_walk (err e) = err e
finish_walk (ok (total, true)) = ok total
finish_walk (ok (total, false)) = err no_live_task

-- The directory `task` of a process is read, or it is not.
unfoldable pub self_io : IoResult (List TaskEntry) → IoResult IoStats
unfolding walk_tasks finish_walk
self_io (err e) = err e
self_io (ok entries) = finish_walk (walk_tasks entries (no_io, false))
