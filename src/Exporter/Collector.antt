-- ===== src/Exporter/Collector.antt =====
-- The collector of exporter/collector.go: the metrics of one scrape, with their labels bounded.
pub mod Emit
pub mod Tests
use gitlab_procs_exporter.Prelude.{
  ℕ, Bool, true, false, Option, none, some, List, [], ◌∷◌, ◌++◌, if◌then◌else◌, list_eq, nat_eq,
  map,
}
use gitlab_procs_exporter.Prelude.Int.{ℤ}
use gitlab_procs_exporter.Prelude.Text.{Text, codes, Unicode}
use gitlab_procs_exporter.Prelude.Decimal.{format_int}
use gitlab_procs_exporter.Prelude.Map.{Map, lookup, keys}
use gitlab_procs_exporter.Exporter.History.{
  ProcessSample, HistoryStore, get_active_processes, Float64,
}
use gitlab_procs_exporter.Exporter.Label.{
  Hasher, Limits, max_label_bytes, merged_max_label_bytes, Truncations, Observer, bound_label_with,
}
use gitlab_procs_exporter.Exporter.Config.{Config, normalize_substrings}
use gitlab_procs_exporter.Exporter.Redact.{Floats, sanitize_label_value}
use gitlab_procs_exporter.Exporter.Environ.{or_empty, scrub_environ}

-- The environment variable and the label that it is promoted to.
abbrev pub ci_job_label_keys : List (Text × Text)
ci_job_label_keys =
    (codes "CI_JOB_ID", codes "ci_job_id")
    ∷ (codes "CI_JOB_NAME", codes "ci_job_name")
    ∷ (codes "CI_PROJECT_PATH", codes "ci_project_path")
    ∷ (codes "CI_PIPELINE_ID", codes "ci_pipeline_id")
    ∷ []

abbrev pub ci_job_label_names : List Text
ci_job_label_names = map (λ k. k.1) ci_job_label_keys

pub ci_loop : Hasher → Limits → Map Text Text → List (Text × Text) → Observer → List Text × Observer
unfolding bound_label_with sanitize_label_value
ci_loop h limits environ [] obs = ([], obs)
ci_loop h limits environ ((env, label) ∷ ks) obs =
    let (v, counted) =
      bound_label_with h limits label (sanitize_label_value (or_empty (lookup env environ))) obs in
    let (vals, rest) = ci_loop h limits environ ks counted in (v ∷ vals, rest)

unfoldable pub ci_job_label_values_with :
    Hasher → Limits → Map Text Text → Observer → List Text × Observer
unfolding ci_loop
ci_job_label_values_with h limits environ obs = ci_loop h limits environ ci_job_label_keys obs

-- The descriptors, but for that of the counter of truncations.
pub data Desc : Type 0 where
  cpu rss vms io_read io_write io_read_self io_write_self : Desc
  io_read_syscalls io_write_syscalls io_read_syscalls_self io_write_syscalls_self info : Desc

abbrev pub info_label_names : List Text
info_label_names =
    (codes "pid"
      ∷ codes "name"
      ∷ codes "cmdline"
      ∷ codes "environ"
      ∷ codes "environ_truncated"
      ∷ [])
    ++ ci_job_label_names

abbrev pub common_labels : List Text
common_labels = (codes "pid" ∷ codes "name" ∷ []) ++ ci_job_label_names

abbrev pub label_names : Desc → List Text
label_names info = info_label_names
label_names _ = common_labels

-- What `MustNewConstMetric` is given.
pub record Metric : Type 0 where
  pub desc : Desc
  pub value : Float64
  pub labels : List Text

pub record ProcessCollector : Type 0 where
  pub extra_key_substrings : List Text
  pub max_label_bytes : Limits
  pub truncations : Truncations

unfoldable pub new_process_collector : Unicode → List Text → ProcessCollector
unfolding normalize_substrings merged_max_label_bytes
new_process_collector u extra = record {
  extra_key_substrings = normalize_substrings u extra;
  max_label_bytes = merged_max_label_bytes [];
  truncations = map (λ l. (l.0, 0)) max_label_bytes;
}

-- `none` is a nil configuration.
unfoldable pub new_process_collector_with_config : Unicode → Option Config → ProcessCollector
unfolding new_process_collector merged_max_label_bytes
new_process_collector_with_config u none = new_process_collector u []
new_process_collector_with_config u (some cfg) =
    record (new_process_collector u cfg.redact_key_substrings) {
      max_label_bytes = merged_max_label_bytes cfg.max_label_bytes;
    }

-- The eleven metrics that all have the same labels.
pub core_metrics : Floats → ProcessSample → List Text → List Metric
core_metrics fl p labels =
    record { desc = cpu; value = p.cpu_seconds; labels = labels }
    ∷ record { desc = rss; value = fl.of_nat p.memory_rss; labels = labels }
    ∷ record { desc = vms; value = fl.of_nat p.memory_vms; labels = labels }
    ∷ record { desc = io_read; value = fl.of_nat p.io_read; labels = labels }
    ∷ record { desc = io_write; value = fl.of_nat p.io_write; labels = labels }
    ∷ record { desc = io_read_self; value = fl.of_nat p.io_read_self; labels = labels }
    ∷ record { desc = io_write_self; value = fl.of_nat p.io_write_self; labels = labels }
    ∷ record { desc = io_read_syscalls; value = fl.of_nat p.io_read_syscalls; labels = labels }
    ∷ record { desc = io_write_syscalls; value = fl.of_nat p.io_write_syscalls; labels = labels }
    ∷ record {
      desc = io_read_syscalls_self;
      value = fl.of_nat p.io_read_syscalls_self;
      labels = labels;
    }
    ∷ record {
      desc = io_write_syscalls_self;
      value = fl.of_nat p.io_write_syscalls_self;
      labels = labels;
    }
    ∷ []

abbrev pub info_metric : Floats → List Text → Metric
info_metric fl info_labels = record { desc = info; value = fl.of_nat 1; labels = info_labels }

-- The body of the loop of `Collect`.
pub collect_process :
    Hasher → Unicode → Floats → ProcessCollector → ProcessSample → Observer → List Metric × Observer
unfolding bound_label_with sanitize_label_value ci_job_label_values_with core_metrics scrub_environ
    format_int
collect_process h u fl pc p obs =
    let pid_str = format_int p.pid in
    let (name, obs1) =
      bound_label_with h pc.max_label_bytes (codes "name") (sanitize_label_value p.name) obs in
    let (ci_vals, obs2) = ci_job_label_values_with h pc.max_label_bytes p.environ obs1 in
    let (environ, environ_truncated) = scrub_environ u fl pc.extra_key_substrings p.environ in
    let truncated_label = if environ_truncated then codes "1" else codes "0" in
    let (cmdline, obs3) =
      bound_label_with h pc.max_label_bytes (codes "cmdline") (sanitize_label_value p.cmd_line)
        obs2 in
    (
      core_metrics fl p (pid_str ∷ (name ∷ ci_vals))
          ++ info_metric fl (pid_str ∷ (name ∷ (cmdline ∷ (environ ∷ (truncated_label ∷ ci_vals)))))
            ∷ [],
      obs3,
    )

pub collect_loop :
    Hasher
    → Unicode
    → Floats
    → ProcessCollector
    → List ProcessSample
    → Observer
    → List Metric × Observer
unfolding collect_process
collect_loop h u fl pc [] obs = ([], obs)
collect_loop h u fl pc (p ∷ processes) obs =
    let (metrics, counted) = collect_process h u fl pc p obs in
    let (more, rest) = collect_loop h u fl pc processes counted in (metrics ++ more, rest)

abbrev or_same : Truncations → Observer → Truncations
or_same t none = t
or_same t (some t') = t'

-- The metrics, and the collector with the counters that it emits last.
unfoldable pub collect :
    Hasher → Unicode → Floats → HistoryStore → ProcessCollector → List Metric × ProcessCollector
unfolding collect_loop get_active_processes
collect h u fl hs pc =
    let (metrics, counted) =
      collect_loop h u fl pc (get_active_processes hs) (some pc.truncations) in
    (metrics, record pc { truncations = or_same pc.truncations counted })
