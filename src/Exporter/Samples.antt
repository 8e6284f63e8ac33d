-- ===== src/Exporter/Samples.antt =====
-- Concrete data for the runs: parameters that are total functions, a process and a store.
use gitlab_procs_exporter.Prelude.{
  ℕ, ◌+◌, ◌*◌, ◌-◌, ◌/◌, ◌%◌, ◌<◌, refl, true, [], ◌∷◌, arith, All, leb,
}
use gitlab_procs_exporter.Prelude.Int.{ℤ, pos}
use gitlab_procs_exporter.Prelude.Text.{Text, codes, Unicode}
use gitlab_procs_exporter.Exporter.History.{
  ProcessSample, HistoryStore, new_history_store, add_sample,
}
use gitlab_procs_exporter.Exporter.Label.{Hasher}
use gitlab_procs_exporter.Exporter.Redact.{Floats}

-- A digest of 32 equal bytes, the sum of the text.
abbrev pub checksum : Text → ℕ
checksum [] = 0
checksum (c ∷ s) = (c + checksum s) % 256

abbrev pub eight : ℕ → Text → Text
eight b rest = b ∷ b ∷ b ∷ b ∷ b ∷ b ∷ b ∷ b ∷ rest

abbrev pub sum_bytes : Text → Text
sum_bytes s = let b = checksum s in eight b (eight b (eight b (eight b [])))

checksum-lt : (s : Text) → checksum s < 256
checksum-lt [] = omega arith
checksum-lt (c ∷ s) = omega arith

pub sum_bytes-lt : (s : Text) → All (λ b. b < 256) (sum_bytes s)
sum_bytes-lt s = omega (arith, checksum-lt s)

abbrev pub sum_hasher : Hasher
sum_hasher = record {
  sum256 = sum_bytes;
  salt = codes "salt";
  length-sum256 = λ s. refl;
  sum256-bytes = sum_bytes-lt;
}

abbrev pub ascii_only : Unicode
ascii_only = record { lower = λ s. s; trim = λ s. s }

abbrev pub sample : ℕ → ℤ → ℤ → ProcessSample
sample time pid create_time = record {
  timestamp = time;
  pid = pid;
  name = codes "bash";
  pod_uid = codes "uid-1";
  cmd_line = codes "bash -l";
  environ =
      (codes "HOME", codes "/root")
      ∷ (codes "CI_JOB_NAME", codes "build")
      ∷ (codes "API_TOKEN", codes "abc")
      ∷ [];
  cpu_usage = 0;
  cpu_seconds = 0;
  memory_rss = 4096;
  memory_vms = 8192;
  io_read = 0;
  io_write = 0;
  io_read_syscalls = 0;
  io_write_syscalls = 0;
  io_read_self = 0;
  io_write_self = 0;
  io_read_syscalls_self = 0;
  io_write_syscalls_self = 0;
  create_time = create_time;
  is_active = true;
}

abbrev pub first_sample : ProcessSample
first_sample = sample 1000000000000 (pos 42) (pos 7)

abbrev pub one_process : HistoryStore
one_process = add_sample 1000000000000 first_sample new_history_store

-- Whole numbers in place of the floating ones; every logarithm is zero.
abbrev pub whole_numbers : Floats
whole_numbers = record {
  of_nat = λ n. n;
  plus = λ a b. a + b;
  minus = λ a b. a - b;
  times = λ a b. a * b;
  over = λ a b. a / b;
  log2 = λ a. 0;
  at_most = leb;
  visited = λ counts. counts;
}
