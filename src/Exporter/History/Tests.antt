-- ===== src/Exporter/History/Tests.antt =====
-- Runs of the store at concrete inputs, and instances of its theorems.
use gitlab_procs_exporter.Prelude.{
  ◌≡◌, refl, false, none, some, [], int_eq, list_eq, nat_eq, Member, get_last?, keep, list_beq,
  if◌then◌else◌, arith, ◌↔◌,
}
use gitlab_procs_exporter.Prelude.Int.{ℤ, pos, negsuc}
use gitlab_procs_exporter.Prelude.Text.{Text, codes}
use gitlab_procs_exporter.Prelude.Map.{lookup, insert, delete}
use gitlab_procs_exporter.Exporter.Samples.{sample, first_sample, one_process}
use gitlab_procs_exporter.Exporter.History.{
  new_history_store, process_key, samples_of, add_sample, mark_inactive, get_active_processes,
  is_seen,
}
use gitlab_procs_exporter.Exporter.History.Prune.{pruned, deactivated, retired}
use gitlab_procs_exporter.Exporter.History.Invariant.{IsValid}
use gitlab_procs_exporter.Exporter.History.Mark.{mark_inactive_lem}
use gitlab_procs_exporter.Exporter.History.Active.{IsLatestOf, get_active_processes_lem}
use gitlab_procs_exporter.Exporter.History.Reuse.{replaced_process_stays_active}
use gitlab_procs_exporter.Exporter.History.Run.{Reach, start, next, add, Reach-IsValid}

one_process-Reach : Reach one_process
one_process-Reach = next start (add 1000000000000 first_sample new_history_store)

Reach-IsValid_example : IsValid one_process
Reach-IsValid_example = Reach-IsValid one_process-Reach

process_key_of_one : process_key (negsuc 0) (pos 7) ≡ codes "-1-7"
unfolding process_key
process_key_of_one = refl

mark_inactive_lem_example :
    ((j : Text)
      → lookup j (mark_inactive 1000000000000 [] one_process).processes
        ≡ pruned 1000000000000
            (deactivated (retired [] one_process.active_keys j) (lookup j one_process.processes))
            none)
    × ((pid : ℤ)
        → lookup pid (mark_inactive 1000000000000 [] one_process).active_keys
          ≡ (if is_seen [] pid then lookup pid one_process.active_keys else none))
mark_inactive_lem_example =
    mark_inactive_lem 1000000000000 [] {hs = one_process} (Reach-IsValid one_process-Reach)

get_active_processes_lem_example :
    Member first_sample (get_active_processes one_process)
    ↔ IsLatestOf one_process (pos 42) first_sample
get_active_processes_lem_example =
    get_active_processes_lem {hs = one_process} (Reach-IsValid one_process-Reach) first_sample

replaced_process_stays_active_example :
    get_last? (
      samples_of
        (process_key (pos 42) (pos 7))
        (mark_inactive 1120000000000 []
          (add_sample 1060000000000 (sample 1060000000000 (pos 42) (pos 9)) one_process)).processes)
    ≡ some first_sample
replaced_process_stays_active_example =
    replaced_process_stays_active 1000000000000 1060000000000 1120000000000 first_sample
      (sample 1060000000000 (pos 42) (pos 9)) {hs = new_history_store} (Reach-IsValid start) [] refl
      (ground arith) refl refl

-- A process that the scrape misses is marked, and goes after ten minutes.
missed_then_gone :
    (get_last? (
        samples_of
          (process_key (pos 42) (pos 7))
          (mark_inactive 1060000000000 [] one_process).processes)
      ≡ some (record first_sample { is_active = false }))
    × ((mark_inactive 1600000000000 [] one_process).processes ≡ [])
unfolding mark_inactive add_sample lookup insert delete keep list_beq process_key
missed_then_gone = (refl, refl)
