-- ===== src/Exporter/History.antt =====
-- exporter/history.go: the samples of each process over the last ten minutes.
pub mod Key
pub mod Prune
pub mod Invariant
pub mod Mark
pub mod Run
pub mod Query
pub mod Active
pub mod Reuse
pub mod Tests
use gitlab_procs_exporter.Prelude.{
  ℕ, ◌+◌, Bool, true, false, not, ◌&&◌, Option, none, some, List, [], ◌∷◌, ◌++◌, ltb, ◌==◌, int_eq,
  list_eq, nat_eq, list_beq, if◌then◌else◌, keep, get_last?,
}
use gitlab_procs_exporter.Prelude.Int.{ℤ}
use gitlab_procs_exporter.Prelude.Text.{Text, codes, Unicode, to_lower, contains}
use gitlab_procs_exporter.Prelude.Decimal.{format_int}
use gitlab_procs_exporter.Prelude.Map.{Map, lookup, insert, delete}

-- The bits of a float64. The store only hands them on.
abbrev pub Float64 : Type 0
Float64 = ℕ

-- Instants are nanoseconds since the zero time of Go.
pub record ProcessSample : Type 0 where
  pub timestamp : ℕ
  pub pid : ℤ
  pub name : Text
  pub pod_uid : Text
  pub cmd_line : Text
  pub environ : Map Text Text
  pub cpu_usage : Float64
  pub cpu_seconds : Float64
  pub memory_rss : ℕ
  pub memory_vms : ℕ
  pub io_read : ℕ
  pub io_write : ℕ
  pub io_read_syscalls : ℕ
  pub io_write_syscalls : ℕ
  pub io_read_self : ℕ
  pub io_write_self : ℕ
  pub io_read_syscalls_self : ℕ
  pub io_write_syscalls_self : ℕ
  pub create_time : ℤ
  pub is_active : Bool

pub record HistoryStore : Type 0 where
  pub processes : Map Text (List ProcessSample)
  pub active_keys : Map ℤ Text

abbrev pub new_history_store : HistoryStore
new_history_store = record { processes = []; active_keys = [] }

-- fmt.Sprintf("%d-%d", sample.PID, sample.CreateTime)
unfoldable pub process_key : ℤ → ℤ → Text
unfolding format_int
process_key pid create_time = format_int pid ++ (b'-' ∷ format_int create_time)

-- 10 * time.Minute
abbrev pub retention : ℕ
retention = 600000000000

-- s.Timestamp.After(now.Add(-10 * time.Minute))
abbrev pub is_fresh : ℕ → ProcessSample → Bool
is_fresh now s = ltb now (s.timestamp + retention)

-- Reading a missing key of a map of slices gives the nil slice.
abbrev pub or_nil : Option (List ProcessSample) → List ProcessSample
or_nil none = []
or_nil (some samples) = samples

abbrev pub samples_of : Text → Map Text (List ProcessSample) → List ProcessSample
samples_of key m = or_nil (lookup key m)

-- The end of both pruning loops: an entry with nothing left goes.
pub store_valid :
    Text → List ProcessSample → Map Text (List ProcessSample) → Map Text (List ProcessSample)
store_valid key [] m = delete key m
store_valid key (s ∷ valid) m = insert key (s ∷ valid) m

pub prune_expired_samples : ℕ → Text → HistoryStore → HistoryStore
unfolding store_valid
prune_expired_samples now key hs = record hs {
  processes = store_valid key (keep (is_fresh now) (samples_of key hs.processes)) hs.processes;
}

-- The loop ranges over the entries that the map had when it began.
pub prune_loop :
    ℕ
    → Map Text (List ProcessSample)
    → Map Text (List ProcessSample)
    → Map Text (List ProcessSample)
prune_loop now [] m = m
prune_loop now ((key, samples) ∷ rest) m =
    prune_loop now rest (store_valid key (keep (is_fresh now) samples) m)

pub prune_all : ℕ → HistoryStore → HistoryStore
unfolding prune_loop store_valid
prune_all now hs = record hs { processes = prune_loop now hs.processes hs.processes }

unfoldable pub add_sample : ℕ → ProcessSample → HistoryStore → HistoryStore
unfolding prune_expired_samples process_key
add_sample now sample hs =
    let key = process_key sample.pid sample.create_time in
    prune_expired_samples now key (record {
      processes = insert key (samples_of key hs.processes ++ sample ∷ []) hs.processes;
      active_keys = insert sample.pid key hs.active_keys;
    })

-- samples[len(samples)-1].IsActive = false
pub deactivate_last : List ProcessSample → List ProcessSample
deactivate_last [] = []
deactivate_last (s ∷ []) = record s { is_active = false } ∷ []
deactivate_last (s ∷ (t ∷ ts)) = s ∷ deactivate_last (t ∷ ts)

-- activePids[pid]
abbrev pub is_seen : Map ℤ Bool → ℤ → Bool
is_seen active_pids pid = elim (lookup pid active_pids) [ none ↦ false | some b ↦ b ]

pub deactivate_entry :
    Text
    → Option (List ProcessSample)
    → Map Text (List ProcessSample)
    → Map Text (List ProcessSample)
unfolding deactivate_last
deactivate_entry key none m = m
deactivate_entry key (some samples) m = insert key (deactivate_last samples) m

-- The body of the loop for a pid that the scrape did not see. The slice is written in place, so the
-- entry of the map changes too.
pub retire : ℤ → Text → HistoryStore → HistoryStore
unfolding deactivate_entry
retire pid key hs = record {
  processes = deactivate_entry key (lookup key hs.processes) hs.processes;
  active_keys = delete pid hs.active_keys;
}

pub mark_loop : Map ℤ Bool → Map ℤ Text → HistoryStore → HistoryStore
unfolding retire
mark_loop active_pids [] hs = hs
mark_loop active_pids ((pid, key) ∷ rest) hs =
    mark_loop active_pids rest (if not (is_seen active_pids pid) then retire pid key hs else hs)

unfoldable pub mark_inactive : ℕ → Map ℤ Bool → HistoryStore → HistoryStore
unfolding mark_loop prune_all
mark_inactive now active_pids hs = prune_all now (mark_loop active_pids hs.active_keys hs)

abbrev pub append_latest : Option ProcessSample → List ProcessSample → List ProcessSample
append_latest none active = active
append_latest (some s) active = s ∷ active

pub active_loop : Map Text (List ProcessSample) → Map ℤ Text → List ProcessSample
active_loop m [] = []
active_loop m ((pid, key) ∷ rest) =
    append_latest (get_last? (samples_of key m)) (active_loop m rest)

unfoldable pub get_active_processes : HistoryStore → List ProcessSample
unfolding active_loop
get_active_processes hs = active_loop hs.processes hs.active_keys

-- strings.Contains(strings.ToLower(s), strings.ToLower(substr))
unfoldable pub strings_contains_ignore_case : Unicode → Text → Text → Bool
unfolding contains to_lower
strings_contains_ignore_case u s substr = contains (to_lower u s) (to_lower u substr)

-- `match` of the query loop
unfoldable pub query_match : Unicode → Text → Text → ProcessSample → Bool
unfolding strings_contains_ignore_case
query_match u query_type value latest =
    if query_type == codes "pid" && format_int latest.pid == value
    then true
    else if query_type == codes "name" && strings_contains_ignore_case u latest.name value
    then true
    else false

query_loop :
    Unicode
    → Text
    → Text
    → Map Text (List ProcessSample)
    → Map Text (List ProcessSample)
    → Map Text (List ProcessSample)
unfolding query_match
query_loop u query_type value [] result = result
query_loop u query_type value ((key, samples) ∷ rest) result =
    query_loop u query_type value rest (elim (get_last? samples) [
      | none ↦ result
      | some latest ↦
          if query_match u query_type value latest then insert key samples result else result
    ])

unfoldable pub query_history : Unicode → Text → Text → HistoryStore → Map Text (List ProcessSample)
unfolding query_loop
query_history u query_type value hs = query_loop u query_type value hs.processes []
