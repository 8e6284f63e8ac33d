-- ===== src/Exporter/History/Mark.antt =====
-- `MarkInactive`: what it leaves, and that the store stays well formed.
use gitlab_procs_exporter.Prelude.{
  ℕ, ◌≡◌, ◌≢◌, refl, sym, ap, subst, ◌∙◌, not, Bool, true, false, Option, none, some, List, [], ◌∷◌,
  arith, All, int_eq, list_eq, nat_eq, if◌then◌else◌, keep, some_inj,
}
use gitlab_procs_exporter.Prelude.Int.{ℤ}
use gitlab_procs_exporter.Prelude.Text.{Text}
use gitlab_procs_exporter.Prelude.Map.{
  Map, lookup, IsDistinct, insert-IsDistinct, delete-IsDistinct,
}
use gitlab_procs_exporter.Exporter.History.{
  ProcessSample, HistoryStore, is_fresh, prune_all, deactivate_last, is_seen, deactivate_entry,
  retire, mark_loop, mark_inactive,
}
use gitlab_procs_exporter.Exporter.History.Prune.{
  live-eq-some, pruned, prune_loop-IsDistinct, retired, deactivated, lookup-mark_loop,
  active-mark_loop,
}
use gitlab_procs_exporter.Exporter.History.Invariant.{
  HasKey, IsKeyOf, IsValid, All-keep, All-deactivate_last, deactivate_last-ne-nil, lookup-prune_all,
}

retire-IsDistinct :
    (pid : ℤ) (key : Text) (hs : HistoryStore)
    → IsDistinct hs.processes × IsDistinct hs.active_keys
    → IsDistinct (retire pid key hs).processes × IsDistinct (retire pid key hs).active_keys
unfolding retire
retire-IsDistinct pid key hs (hp, ha) =
    (deactivate_entry-IsDistinct (lookup key hs.processes), delete-IsDistinct pid hs.active_keys ha)
  where
    deactivate_entry-IsDistinct :
        (o : Option (List ProcessSample)) → IsDistinct (deactivate_entry key o hs.processes)
    deactivate_entry-IsDistinct none = hp
    deactivate_entry-IsDistinct (some ss) =
        insert-IsDistinct key (deactivate_last ss) hs.processes hp

abbrev DistinctKeys : HistoryStore → Type 0
DistinctKeys hs = IsDistinct hs.processes × IsDistinct hs.active_keys

retire_if-IsDistinct :
    (seen : Bool) (pid : ℤ) (key : Text) (hs : HistoryStore)
    → DistinctKeys hs
    → DistinctKeys (if not seen then retire pid key hs else hs)
retire_if-IsDistinct true pid key hs h = h
retire_if-IsDistinct false pid key hs h = retire-IsDistinct pid key hs h

mark_loop-IsDistinct :
    (active_pids : Map ℤ Bool) (entries : Map ℤ Text) (hs : HistoryStore)
    → DistinctKeys hs
    → DistinctKeys (mark_loop active_pids entries hs)
unfolding mark_loop
mark_loop-IsDistinct active_pids [] hs h = h
mark_loop-IsDistinct active_pids ((pid, key) ∷ rest) hs h =
    mark_loop-IsDistinct active_pids rest _
      (retire_if-IsDistinct (is_seen active_pids pid) pid key hs h)

-- What holds of each timeline of a valid store.
abbrev Timeline : Text → List ProcessSample → Type 0
Timeline key ss = (ss ≢ []) × All (HasKey key) ss

deactivated_kept :
    (b : Bool) (key : Text) (o : Option (List ProcessSample)) (ss : List ProcessSample)
    → deactivated b o ≡ some ss
    → ((old : List ProcessSample) → o ≡ some old → Timeline key old)
    → Timeline key ss
deactivated_kept b key none ss h old = cc
deactivated_kept true key (some l) ss h old =
    let (full, same) = old l refl in
    subst (Timeline key) (some_inj h)
      (deactivate_last-ne-nil l full, All-deactivate_last key l same)
deactivated_kept false key (some l) ss h old = old ss h

pruned_kept :
    (now : ℕ) (key : Text) (o : Option (List ProcessSample)) (ss : List ProcessSample)
    → pruned now o none ≡ some ss
    → ((old : List ProcessSample) → o ≡ some old → Timeline key old)
    → Timeline key ss
pruned_kept now key none ss h old = cc
pruned_kept now key (some l) ss h old =
    let (e, full) = live-eq-some (keep (is_fresh now) l) h in
    (full, rw (← e) (All-keep (HasKey key) (is_fresh now) l (old l refl).1))

module _ (now : ℕ) (active_pids : Map ℤ Bool) {hs : HistoryStore} (v : IsValid hs) where
  distinct_after : DistinctKeys (mark_loop active_pids hs.active_keys hs)
  distinct_after =
      mark_loop-IsDistinct active_pids hs.active_keys hs (v.processes_distinct, v.active_distinct)

  -- A well-formed store after `MarkInactive`, read key by key and pid by pid: a timeline keeps
  -- exactly its fresh samples, after its last one is marked if some pid that was not seen is active
  -- under the timeline's key, and goes if none is left; a pid is active exactly if it was active and
  -- has been seen, under the key that it had.
  pub mark_inactive_lem :
      ((j : Text)
        → lookup j (mark_inactive now active_pids hs).processes
          ≡ pruned now
              (deactivated (retired active_pids hs.active_keys j) (lookup j hs.processes))
              none)
      × ((pid : ℤ)
          → lookup pid (mark_inactive now active_pids hs).active_keys
            ≡ (if is_seen active_pids pid then lookup pid hs.active_keys else none))
  unfolding mark_inactive
  mark_inactive_lem = (
    λ j.
        lookup-prune_all now j (mark_loop active_pids hs.active_keys hs) distinct_after.0
        ∙ ap (λ o. pruned now o none) (lookup-mark_loop active_pids j hs.active_keys hs),
    λ pid. unfold prune_all in ground (arith, active-mark_loop active_pids pid hs.active_keys hs),
  )

  mark_inactive-Timeline :
      (j : Text) (ss : List ProcessSample)
      → lookup j (mark_inactive now active_pids hs).processes ≡ some ss
      → Timeline j ss
  mark_inactive-Timeline j ss h = pruned_kept now j _ ss (sym (mark_inactive_lem.0 j) ∙ h) λ old e.
      deactivated_kept (retired active_pids hs.active_keys j) j _ old e
        λ l at_j. (v.nonempty j l at_j, v.keyed j l at_j)

  mark_inactive_owned :
      (pid : ℤ) (key : Text)
      → lookup pid (mark_inactive now active_pids hs).active_keys ≡ some key
      → IsKeyOf pid key
  mark_inactive_owned pid key h = v.owned pid key (ground (arith, mark_inactive_lem.1 pid))

  pub mark_inactive-IsValid : IsValid (mark_inactive now active_pids hs)
  unfolding mark_inactive prune_all
  mark_inactive-IsValid = record {
    processes_distinct =
        prune_loop-IsDistinct now ((mark_loop active_pids hs.active_keys hs).processes) _
          distinct_after.0;
    active_distinct = distinct_after.1;
    nonempty = λ j ss h. (mark_inactive-Timeline j ss h).0;
    keyed = λ j ss h. (mark_inactive-Timeline j ss h).1;
    owned = mark_inactive_owned;
  }
