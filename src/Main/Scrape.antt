-- ===== src/Main/Scrape.antt =====
-- scrape and liveProcess of main.go: one pass over the processes of the host.
pub mod Listed
pub mod Tests
use gitlab_procs_exporter.Prelude.{
  ℕ, Bool, true, false, not, Option, none, some, List, [], ◌∷◌, ◌==◌, int_eq, list_eq, nat_eq,
  if◌then◌else◌,
}
use gitlab_procs_exporter.Prelude.Int.{ℤ}
use gitlab_procs_exporter.Prelude.Text.{Text, codes, cut}
use gitlab_procs_exporter.Prelude.Map.{Map, lookup, insert, delete}
use gitlab_procs_exporter.Exporter.History.{
  ProcessSample, HistoryStore, Float64, add_sample, mark_inactive, is_seen,
}
use gitlab_procs_exporter.Exporter.Redact.{Floats}
use gitlab_procs_exporter.Exporter.ProcIo.{IoStats, no_io}

-- A `*process.Process` of gopsutil, by the identity of the object.
abbrev pub Handle : Type 0
Handle = ℕ

-- What the methods of a `*process.Process` return; `none` is an error or a nil result.
pub record Reading : Type 0 where
  pub name : Option Text
  pub create_time : Option ℤ
  pub cmdline : Option Text
  pub percent : Option Float64
  pub times : Option (Float64 × Float64)
  pub memory_info : Option (ℕ × ℕ)
  pub io_counters : Option IoStats
  pub environ : Option (List Text)

-- What the host answers during one scrape. The clock is read once for the samples, and once more by
-- each operation of the store.
pub record Host : Type 0 where
  pub pids : Option (List ℤ)
  pub is_running : Handle → Bool
  pub new_process : ℤ → Option Handle
  pub reading : Handle → Reading
  pub self_io : ℤ → Option IoStats
  pub process_pod_uid : ℤ → Text
  pub now : ℕ
  pub now_unix_milli : ℤ
  pub add_clock : ℤ → ℕ
  pub mark_clock : ℕ

abbrev pub Cache : Type 0
Cache = Map ℤ Handle

-- The handle that is used, and the cache.
pub keep_handle : ℤ → Option Handle → Cache → Option Handle × Cache
unfolding insert
keep_handle pid none cache = (none, cache)
keep_handle pid (some p) cache = (some p, insert pid p cache)

pub use_cached : Host → ℤ → Option Handle → Cache → Option Handle × Cache
unfolding keep_handle delete
use_cached host pid none cache = keep_handle pid (host.new_process pid) cache
use_cached host pid (some p) cache =
    if host.is_running p
    then (some p, cache)
    else keep_handle pid (host.new_process pid) (delete pid cache)

unfoldable pub live_process : Host → ℤ → Cache → Option Handle × Cache
unfolding use_cached lookup
live_process host pid cache = use_cached host pid (lookup pid cache) cache

abbrev pub or_default {ℓ} : {A : Type ℓ} → Option A → A → A
or_default none d = d
or_default (some a) d = a

abbrev put_var : Option (Text × Text) → Map Text Text → Map Text Text
put_var none environ = environ
put_var (some (k, v)) environ = insert k v environ

-- strings.SplitN(env, "=", 2)
pub environ_map : List Text → Map Text Text → Map Text Text
unfolding cut insert
environ_map [] environ = environ
environ_map (env ∷ envs) environ = environ_map envs (put_var (cut env (codes "=")) environ)

abbrev cpu_total : Floats → Option (Float64 × Float64) → Float64
cpu_total fl none = fl.of_nat 0
cpu_total fl (some (user, system)) = fl.plus user system

-- The sample of a process with a name.
unfoldable pub sample_of : Floats → Host → Bool → ℤ → Text → Reading → ProcessSample
unfolding environ_map
sample_of fl host in_cluster pid name r =
    let memory = or_default r.memory_info (0, 0) in
    let io = or_default r.io_counters no_io in
    let self = or_default (host.self_io pid) no_io in
    record {
      timestamp = host.now;
      pid = pid;
      name = name;
      pod_uid = if in_cluster then host.process_pod_uid pid else [];
      cmd_line = or_default r.cmdline [];
      environ = environ_map (or_default r.environ []) [];
      cpu_usage = or_default r.percent (fl.of_nat 0);
      cpu_seconds = cpu_total fl r.times;
      memory_rss = memory.0;
      memory_vms = memory.1;
      io_read = io.read_bytes;
      io_write = io.write_bytes;
      io_read_syscalls = io.read_syscalls;
      io_write_syscalls = io.write_syscalls;
      io_read_self = self.read_bytes;
      io_write_self = self.write_bytes;
      io_read_syscalls_self = self.read_syscalls;
      io_write_syscalls_self = self.write_syscalls;
      create_time = or_default r.create_time host.now_unix_milli;
      is_active = true;
    }

pub store_named : Floats → Host → Bool → ℤ → Option Text → Reading → HistoryStore → HistoryStore
unfolding sample_of add_sample
store_named fl host in_cluster pid none r hs = hs
store_named fl host in_cluster pid (some name) r hs =
    add_sample (host.add_clock pid) (sample_of fl host in_cluster pid name r) hs

-- A process without a handle or without a name is left out.
pub store_process : Floats → Host → Bool → ℤ → Option Handle → HistoryStore → HistoryStore
unfolding store_named
store_process fl host in_cluster pid none hs = hs
store_process fl host in_cluster pid (some p) hs =
    let r = host.reading p in store_named fl host in_cluster pid r.name r hs

pub record Scraper : Type 0 where
  pub store : HistoryStore
  pub proc_cache : Cache

-- The loop over the pids, with `activePids`.
pub scrape_loop : Floats → Host → Bool → List ℤ → Map ℤ Bool → Scraper → Map ℤ Bool × Scraper
unfolding live_process store_process insert
scrape_loop fl host in_cluster [] active st = (active, st)
scrape_loop fl host in_cluster (pid ∷ pids) active st =
    let (handle, cache) = live_process host pid st.proc_cache in
    scrape_loop fl host in_cluster pids (insert pid true active)
      (record { store = store_process fl host in_cluster pid handle st.store; proc_cache = cache })

-- The last loop: entries of pids that were not listed go.
pub purge_loop : Map ℤ Bool → Cache → Cache → Cache
unfolding delete
purge_loop active [] cache = cache
purge_loop active ((pid, p) ∷ rest) cache =
    purge_loop active rest (if not (is_seen active pid) then delete pid cache else cache)

pub finish_scrape : Host → Map ℤ Bool × Scraper → Scraper
unfolding purge_loop mark_inactive
finish_scrape host (active, st) = record {
  store = mark_inactive host.mark_clock active st.store;
  proc_cache = purge_loop active st.proc_cache st.proc_cache;
}

pub scrape_listed : Floats → Host → Bool → Option (List ℤ) → Scraper → Scraper
unfolding scrape_loop finish_scrape
scrape_listed fl host in_cluster none st = st
scrape_listed fl host in_cluster (some pids) st =
    finish_scrape host (scrape_loop fl host in_cluster pids [] st)

unfoldable pub scrape : Floats → Host → Bool → Scraper → Scraper
unfolding scrape_listed
scrape fl host in_cluster st = scrape_listed fl host in_cluster host.pids st
