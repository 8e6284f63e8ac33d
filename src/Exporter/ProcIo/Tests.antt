-- ===== src/Exporter/ProcIo/Tests.antt =====
-- Runs of the reading of I/O counters at concrete inputs, and instances of its theorems.
use gitlab_procs_exporter.Prelude.{◌≡◌, refl, true, false, none, list_beq, List, [], ◌∷◌, arith}
use gitlab_procs_exporter.Prelude.Text.{codes}
use gitlab_procs_exporter.Exporter.ProcIo.{
  IoStats, not_exist, no_live_task, parsing, ok, err, not_opened, scanned, parse_proc_io, TaskEntry,
  self_io,
}
use gitlab_procs_exporter.Exporter.ProcIo.Parse.{
  lines, kernel_counters, parse_proc_io-kernel_counters,
}
use gitlab_procs_exporter.Exporter.ProcIo.Sum.{
  thread_results, first_failure, live_stats, outcome, self_io_lem,
}

abbrev some_io : IoStats
some_io = record {
  read_bytes = 4096;
  write_bytes = 18446744073709551615;
  read_syscalls = 7;
  write_syscalls = 2;
}

bad_number : parse_proc_io (scanned (codes "syscr: -1" ∷ []) none) ≡ err (parsing (codes "syscr"))
unfolding parse_proc_io list_beq
bad_number = refl

parse_proc_io-kernel_counters_example :
    parse_proc_io (scanned (lines (kernel_counters 100 200 0 some_io)) none) ≡ ok some_io
parse_proc_io-kernel_counters_example =
    parse_proc_io-kernel_counters 100 200 0 some_io (omega arith) (omega arith) (omega arith)
      (omega arith) (omega arith) (omega arith) (omega arith)

abbrev one_line : TaskEntry
one_line = record { is_dir = true; io = scanned (codes "read_bytes: 5" ∷ []) none }

-- Two live threads, one that is gone, and a file that is no thread.
abbrev entries : List TaskEntry
entries =
    one_line
    ∷ record { is_dir = true; io = not_opened not_exist }
    ∷ record { is_dir = false; io = not_opened no_live_task }
    ∷ one_line
    ∷ []

two_live :
    self_io (ok entries)
    ≡ ok (record { read_bytes = 10; write_bytes = 0; read_syscalls = 0; write_syscalls = 0 })
unfolding self_io parse_proc_io list_beq
two_live = refl

self_io_lem_example :
    self_io (ok entries)
    ≡ outcome (first_failure (thread_results entries)) (live_stats (thread_results entries))
self_io_lem_example = self_io_lem entries
