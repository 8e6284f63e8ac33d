-- ===== src/Exporter/History/Run.antt =====
-- Any interleaving of the operations. Each holds the lock of the store, so a run is a sequence.
use gitlab_procs_exporter.Prelude.{ℕ, Bool}
use gitlab_procs_exporter.Prelude.Int.{ℤ}
use gitlab_procs_exporter.Prelude.Map.{Map, lookup}
use gitlab_procs_exporter.Exporter.History.{
  ProcessSample, HistoryStore, new_history_store, add_sample, mark_inactive,
}
use gitlab_procs_exporter.Exporter.History.Invariant.{IsValid, add_sample-IsValid}
use gitlab_procs_exporter.Exporter.History.Mark.{mark_inactive-IsValid}

-- The writing operations; each reads the clock once.
pub data Step : HistoryStore → HistoryStore → Type 0 where
  add : (now : ℕ) (s : ProcessSample) (hs : HistoryStore) → Step hs (add_sample now s hs)
  mark :
      (now : ℕ) (active_pids : Map ℤ Bool) (hs : HistoryStore)
      → Step hs (mark_inactive now active_pids hs)

pub data Reach : HistoryStore → Type 0 where
  start : Reach new_history_store
  next : {hs hs' : HistoryStore} → Reach hs → Step hs hs' → Reach hs'

new_history_store-IsValid : IsValid new_history_store
unfolding lookup
new_history_store-IsValid = record {
  processes_distinct = tt;
  active_distinct = tt;
  nonempty = λ key ss h. cc;
  keyed = λ key ss h. cc;
  owned = λ pid key h. cc;
}

Step-IsValid : {hs hs' : HistoryStore} → Step hs hs' → IsValid hs → IsValid hs'
Step-IsValid (add now s hs) v = add_sample-IsValid now s v
Step-IsValid (mark now active_pids hs) v = mark_inactive-IsValid now active_pids v

-- Every store that adding samples and marking processes inactive can reach, at any times and in
-- any order, is well formed: no key stands twice, no timeline is empty, each sample stands under
-- the key of its process, and each active pid has a key of its own.
pub Reach-IsValid : {hs : HistoryStore} → Reach hs → IsValid hs
Reach-IsValid start = new_history_store-IsValid
Reach-IsValid (next r st) = Step-IsValid st (Reach-IsValid r)
