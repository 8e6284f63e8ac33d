-- ===== src/Exporter/History/Reuse.antt =====
-- A pid that the kernel reuses between two scrapes.
use gitlab_procs_exporter.Prelude.{
  ℕ, ◌≡◌, ◌≢◌, refl, sym, ap, ◌∙◌, Bool, true, false, Option, none, some, List, [], ◌∷◌, arith,
  eq_iff, eq_refl, ne→false, some_inj, int_eq, list_eq, nat_eq, keep, get_last?, get_last?-concat,
}
use gitlab_procs_exporter.Prelude.Int.{ℤ}
use gitlab_procs_exporter.Prelude.Text.{Text}
use gitlab_procs_exporter.Prelude.Map.{Map, lookup, lookup-insert, IsDistinct}
use gitlab_procs_exporter.Exporter.History.{
  ProcessSample, HistoryStore, process_key, is_fresh, samples_of, or_nil, add_sample,
  prune_expired_samples, mark_inactive,
}
use gitlab_procs_exporter.Exporter.History.Key.{process_key_inj}
use gitlab_procs_exporter.Exporter.History.Prune.{pruned, retired, deactivated}
use gitlab_procs_exporter.Exporter.History.Invariant.{
  IsValid, lookup-add_sample, add_sample-IsValid,
}
use gitlab_procs_exporter.Exporter.History.Mark.{mark_inactive_lem}
use gitlab_procs_exporter.Exporter.History.Active.{keep-concat, or_nil-live, samples_of-add_sample}

-- No pid is active under a key, so the key is not retired.
retired-eq-false :
    (active_pids : Map ℤ Bool) (entries : Map ℤ Text) (j : Text)
    → IsDistinct entries
    → ((pid : ℤ) → lookup pid entries ≢ some j)
    → retired active_pids entries j ≡ false
unfolding retired lookup
retired-eq-false active_pids [] j d h = refl
retired-eq-false active_pids ((pid, key) ∷ rest) j d h =
    let here : (key ≢ j) = λ e. h pid (rw (eq_refl pid) (ap some e)) in
    let later : ((p : ℤ) → lookup p rest ≢ some j) = λ p e. h p (ground (arith, eq_iff pid p)) in
    ground (arith, ne→false key j here, retired-eq-false active_pids rest j d.1 later)

or_nil-pruned :
    (now : ℕ) (o : Option (List ProcessSample))
    → or_nil (pruned now o none) ≡ keep (is_fresh now) (or_nil o)
unfolding keep
or_nil-pruned now none = refl
or_nil-pruned now (some ss) = or_nil-live (keep (is_fresh now) ss)

deactivated-false : (o : Option (List ProcessSample)) → deactivated false o ≡ o
deactivated-false none = refl
deactivated-false (some ss) = refl

module _ (now now' later : ℕ) (s t : ProcessSample) {hs : HistoryStore} (v : IsValid hs) where
  -- When the newcomer of the same pid is added, no pid is active under the old key.
  not_active_under_old_key :
      t.pid ≡ s.pid
      → t.create_time ≢ s.create_time
      → (pid : ℤ)
      → lookup pid (add_sample now' t (add_sample now s hs)).active_keys
        ≢ some (process_key s.pid s.create_time)
  unfolding add_sample prune_expired_samples
  not_active_under_old_key same_pid other pid e =
      let v' = add_sample-IsValid now' t (add_sample-IsValid now s v) in
      let (c, key) = v'.owned pid (process_key s.pid s.create_time) e in
      let at_pid = same_pid ∙ (process_key_inj s.pid pid s.create_time c key).0 in
      let new_key = process_key t.pid t.create_time in
      let found = lookup-insert t.pid pid new_key (add_sample now s hs).active_keys in
      let equal = sym (rw ((eq_iff t.pid pid).1 at_pid) at found) ∙ e in
      other (process_key_inj t.pid s.pid t.create_time s.create_time (some_inj equal)).1

  -- A process of a well-formed store that is replaced by another one of the same pid and another
  -- start time keeps its last sample as it was added, `IsActive` included, whatever the next scrape
  -- saw, while that sample is fresh.
  pub replaced_process_stays_active :
      (active_pids : Map ℤ Bool)
      → t.pid ≡ s.pid
      → t.create_time ≢ s.create_time
      → is_fresh now s ≡ true
      → is_fresh later s ≡ true
      → get_last? (
          samples_of
            (process_key s.pid s.create_time)
            (mark_inactive later active_pids (add_sample now' t (add_sample now s hs))).processes)
        ≡ some s
  replaced_process_stays_active active_pids same_pid other fresh_now fresh_later =
      let key = process_key s.pid s.create_time in
      let hs1 = add_sample now s hs in
      let hs2 = add_sample now' t hs1 in
      let v' = add_sample-IsValid now' t (add_sample-IsValid now s v) in
      let old = keep (is_fresh now) (samples_of key hs.processes) in
      let not_retired =
        retired-eq-false active_pids hs2.active_keys key v'.active_distinct
          (not_active_under_old_key same_pid other) in
      let apart : (process_key t.pid t.create_time ≢ key) =
        λ e. other (process_key_inj t.pid s.pid t.create_time s.create_time e).1 in
      let untouched : lookup key hs2.processes ≡ lookup key hs1.processes =
        rw (
          lookup-add_sample now' t key hs1,
          ne→false (process_key t.pid t.create_time) key apart,
        ) in
      rw
        (
          (mark_inactive_lem later active_pids v').0 key,
          not_retired,
          deactivated-false,
          or_nil-pruned,
          untouched,
          samples_of-add_sample now s hs fresh_now,
          keep-concat (is_fresh later) old s fresh_later,
        )
        (get_last?-concat (keep (is_fresh later) old) s)
