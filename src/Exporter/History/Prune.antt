-- ===== src/Exporter/History/Prune.antt =====
-- What pruning and retiring leave under each key.
use gitlab_procs_exporter.Prelude.{
  ℕ, ◌≡◌, ◌≢◌, refl, ap, Bool, true, false, not, ◌&&◌, ◌||◌, Option, none, some, List, [], ◌∷◌,
  arith, ◌==◌, eq_iff, int_eq, list_eq, nat_eq, if◌then◌else◌, keep,
}
use gitlab_procs_exporter.Prelude.Int.{ℤ}
use gitlab_procs_exporter.Prelude.Text.{Text}
use gitlab_procs_exporter.Prelude.Map.{
  Map, lookup, lookup-insert, lookup-delete, IsDistinct, insert-IsDistinct, delete-IsDistinct,
}
use gitlab_procs_exporter.Exporter.History.{
  ProcessSample, HistoryStore, is_fresh, store_valid, prune_loop, deactivate_last, is_seen,
  deactivate_entry, retire, mark_loop,
}

abbrev pub live : List ProcessSample → Option (List ProcessSample)
live [] = none
live (s ∷ ss) = some (s ∷ ss)

pub live-eq-some :
    (l : List ProcessSample) {ss : List ProcessSample} → live l ≡ some ss → (l ≡ ss) × (ss ≢ [])
live-eq-some [] h = cc
live-eq-some (x ∷ l) h = ground arith

pub lookup-store_valid :
    (key j : Text) (valid : List ProcessSample) (m : Map Text (List ProcessSample))
    → lookup j (store_valid key valid m) ≡ (if key == j then live valid else lookup j m)
unfolding store_valid
lookup-store_valid key j [] m = lookup-delete key j m
lookup-store_valid key j (s ∷ valid) m = lookup-insert key j (s ∷ valid) m

pub store_valid-IsDistinct :
    (key : Text) (valid : List ProcessSample) (m : Map Text (List ProcessSample))
    → IsDistinct m
    → IsDistinct (store_valid key valid m)
unfolding store_valid
store_valid-IsDistinct key [] m h = delete-IsDistinct key m h
store_valid-IsDistinct key (s ∷ valid) m h = insert-IsDistinct key (s ∷ valid) m h

-- The entry of a key after the loop: from the entries that it ranges over, or as it was.
abbrev pub pruned :
    ℕ → Option (List ProcessSample) → Option (List ProcessSample) → Option (List ProcessSample)
pruned now none other = other
pruned now (some ss) other = live (keep (is_fresh now) ss)

pub lookup-prune_loop :
    (now : ℕ) (j : Text) (entries m : Map Text (List ProcessSample))
    → IsDistinct entries
    → lookup j (prune_loop now entries m) ≡ pruned now (lookup j entries) (lookup j m)
unfolding prune_loop lookup
lookup-prune_loop now j [] m h = refl
lookup-prune_loop now j ((key, ss) ∷ rest) m h =
    let valid = keep (is_fresh now) ss in
    ground (
      arith,
      eq_iff key j,
      lookup-store_valid key j valid m,
      lookup-prune_loop now j rest (store_valid key valid m) h.1,
    )

pub prune_loop-IsDistinct :
    (now : ℕ) (entries m : Map Text (List ProcessSample))
    → IsDistinct m
    → IsDistinct (prune_loop now entries m)
unfolding prune_loop
prune_loop-IsDistinct now [] m h = h
prune_loop-IsDistinct now ((key, ss) ∷ rest) m h =
    prune_loop-IsDistinct now rest _ (store_valid-IsDistinct key (keep (is_fresh now) ss) m h)

pub deactivate_last_idem :
    (ss : List ProcessSample) → deactivate_last (deactivate_last ss) ≡ deactivate_last ss
unfolding deactivate_last
deactivate_last_idem [] = refl
deactivate_last_idem (s ∷ []) = refl
deactivate_last_idem (s ∷ (t ∷ [])) = refl
deactivate_last_idem (s ∷ (t ∷ (u ∷ us))) = ap (λ l. s ∷ l) (deactivate_last_idem (t ∷ (u ∷ us)))

-- Some pid that was not seen is active under this key.
unfoldable pub retired : Map ℤ Bool → Map ℤ Text → Text → Bool
retired active_pids [] j = false
retired active_pids ((pid, key) ∷ rest) j =
    not (is_seen active_pids pid) && key == j || retired active_pids rest j

abbrev pub deactivated : Bool → Option (List ProcessSample) → Option (List ProcessSample)
deactivated b none = none
deactivated b (some ss) = some (if b then deactivate_last ss else ss)

lookup-deactivate_entry :
    (key j : Text) (o : Option (List ProcessSample)) (m : Map Text (List ProcessSample))
    → lookup key m ≡ o
    → lookup j (deactivate_entry key o m) ≡ deactivated (key == j) (lookup j m)
unfolding deactivate_entry
lookup-deactivate_entry key j none m h = ground (arith, eq_iff key j)
lookup-deactivate_entry key j (some ss) m h =
    ground (arith, eq_iff key j, lookup-insert key j (deactivate_last ss) m)

lookup-retire :
    (pid : ℤ) (key j : Text) (hs : HistoryStore)
    → lookup j (retire pid key hs).processes ≡ deactivated (key == j) (lookup j hs.processes)
unfolding retire
lookup-retire pid key j hs =
    lookup-deactivate_entry key j (lookup key hs.processes) hs.processes refl

deactivated_twice :
    (a b : Bool) (o : Option (List ProcessSample))
    → deactivated a (deactivated b o) ≡ deactivated (b || a) o
deactivated_twice a b none = refl
deactivated_twice a b (some ss) = ground (arith, deactivate_last_idem ss)

pub lookup-mark_loop :
    (active_pids : Map ℤ Bool) (j : Text) (entries : Map ℤ Text) (hs : HistoryStore)
    → lookup j (mark_loop active_pids entries hs).processes
      ≡ deactivated (retired active_pids entries j) (lookup j hs.processes)
unfolding mark_loop retired
lookup-mark_loop active_pids j [] hs = ground arith
lookup-mark_loop active_pids j ((pid, key) ∷ rest) hs = ground (
  arith,
  lookup-mark_loop active_pids j rest hs,
  lookup-mark_loop active_pids j rest (retire pid key hs),
  lookup-retire pid key j hs,
  deactivated_twice (retired active_pids rest j) (key == j) (lookup j hs.processes),
)

-- A pid stays active as long as the scrape saw it.
abbrev pub still_active : Bool → Option Text → Option Text → Option Text
still_active true entry now = now
still_active false none now = now
still_active false (some key) now = none

pub active-mark_loop :
    (active_pids : Map ℤ Bool) (p : ℤ) (entries : Map ℤ Text) (hs : HistoryStore)
    → lookup p (mark_loop active_pids entries hs).active_keys
      ≡ still_active (is_seen active_pids p) (lookup p entries) (lookup p hs.active_keys)
unfolding mark_loop lookup retire
active-mark_loop active_pids p [] hs = ground arith
active-mark_loop active_pids p ((pid, key) ∷ rest) hs = ground (
  arith,
  eq_iff pid p,
  lookup-delete pid p hs.active_keys,
  active-mark_loop active_pids p rest hs,
  active-mark_loop active_pids p rest (retire pid key hs),
)
