-- ===== src/Main/Scrape/Tests.antt =====
-- A scrape of a host with one process, and an instance of the theorem.
use gitlab_procs_exporter.Prelude.{◌≡◌, refl, true, false, none, some, [], ◌∷◌}
use gitlab_procs_exporter.Prelude.Int.{pos}
use gitlab_procs_exporter.Prelude.Text.{codes}
use gitlab_procs_exporter.Exporter.History.{new_history_store}
use gitlab_procs_exporter.Exporter.History.Invariant.{IsValid}
use gitlab_procs_exporter.Exporter.History.Run.{start, Reach-IsValid}
use gitlab_procs_exporter.Exporter.Samples.{whole_numbers}
use gitlab_procs_exporter.Main.Scrape.{Reading, Host, Scraper, environ_map, scrape}
use gitlab_procs_exporter.Main.Scrape.Listed.{IsListed, scrape_lem}

abbrev shell : Reading
shell = record {
  name = some (codes "bash");
  create_time = some (pos 7);
  cmdline = none;
  percent = none;
  times = some (2, 3);
  memory_info = none;
  io_counters = none;
  environ = some (codes "A=B=C" ∷ codes "no_value" ∷ []);
}

abbrev host : Host
host = record {
  pids = some (pos 42 ∷ []);
  is_running = λ p. true;
  new_process = λ pid. some 1;
  reading = λ p. shell;
  self_io = λ pid. none;
  process_pod_uid = λ pid. [];
  now = 1000000000000;
  now_unix_milli = pos 0;
  add_clock = λ pid. 1000000000000;
  mark_clock = 1000000000000;
}

-- A handle of a process that is gone is in the cache.
abbrev scraper : Scraper
scraper = record { store = new_history_store; proc_cache = (pos 9, 5) ∷ [] }

scrape_lem_example :
    IsValid (scrape whole_numbers host false scraper).store
    × IsListed (pos 42 ∷ []) (scrape whole_numbers host false scraper).store.active_keys
    × IsListed (pos 42 ∷ []) (scrape whole_numbers host false scraper).proc_cache
scrape_lem_example =
    scrape_lem whole_numbers host false (pos 42 ∷ []) scraper refl (Reach-IsValid start)

split_at_first :
    environ_map (codes "A=B=C" ∷ codes "no_value" ∷ []) [] ≡ (codes "A", codes "B=C") ∷ []
unfolding environ_map
split_at_first = refl

purged : (scrape whole_numbers host false scraper).proc_cache ≡ (pos 42, 1) ∷ []
unfolding scrape
purged = refl
