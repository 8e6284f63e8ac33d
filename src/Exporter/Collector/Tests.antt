-- ===== src/Exporter/Collector/Tests.antt =====
-- An instance of the theorem on a scrape.
use gitlab_procs_exporter.Prelude.{◌*◌, ◌≡◌, refl, none, list_beq, keep, All, length}
use gitlab_procs_exporter.Prelude.Map.{insert, lookup}
use gitlab_procs_exporter.Exporter.History.{add_sample, get_active_processes}
use gitlab_procs_exporter.Exporter.Samples.{ascii_only, whole_numbers, sum_hasher, one_process}
use gitlab_procs_exporter.Exporter.Collector.{
  ProcessCollector, new_process_collector_with_config, collect,
}
use gitlab_procs_exporter.Exporter.Collector.Emit.{IsEmittable, collect_lem}

abbrev collector : ProcessCollector
collector = new_process_collector_with_config ascii_only none

collect_lem_example :
    All IsEmittable (collect sum_hasher ascii_only whole_numbers one_process collector).0
    × (length (collect sum_hasher ascii_only whole_numbers one_process collector).0
        ≡ 12 * length (get_active_processes one_process))
collect_lem_example = collect_lem sum_hasher ascii_only whole_numbers one_process collector

-- One process is active, so there are twelve metrics.
one_active : length (get_active_processes one_process) ≡ 1
unfolding get_active_processes add_sample list_beq keep insert lookup
one_active = refl
