-- ===== src/Exporter/Collector/Emit.antt =====
-- No metric of a scrape makes `MustNewConstMetric` panic, and none is missing.
use gitlab_procs_exporter.Prelude.{
  ◌<◌, ◌+◌, ◌*◌, ◌≡◌, refl, Bool, true, false, some, List, [], ◌∷◌, arith, All, All-append, length,
  length-append, if◌then◌else◌, list_eq, nat_eq,
}
use gitlab_procs_exporter.Prelude.Int.{ℤ, pos, negsuc}
use gitlab_procs_exporter.Prelude.Text.{Text, codes, Unicode}
use gitlab_procs_exporter.Prelude.Decimal.{format_int, format_nat, format_nat-IsDigit, IsDigit}
use gitlab_procs_exporter.Prelude.Utf8.{valid_string, valid_string-ascii}
use gitlab_procs_exporter.Prelude.Map.{Map, lookup}
use gitlab_procs_exporter.Exporter.History.{ProcessSample, HistoryStore, get_active_processes}
use gitlab_procs_exporter.Exporter.Label.{Hasher, Limits, Observer, bound_label_with}
use gitlab_procs_exporter.Exporter.Label.Utf8.{bound_label_with-valid_string}
use gitlab_procs_exporter.Exporter.Redact.{Floats, sanitize_label_value}
use gitlab_procs_exporter.Exporter.Redact.Sanitize.{sanitize_label_value-valid_string}
use gitlab_procs_exporter.Exporter.Environ.{or_empty, scrub_environ}
use gitlab_procs_exporter.Exporter.Environ.Bound.{scrub_environ-valid_string}
use gitlab_procs_exporter.Exporter.Collector.{
  label_names, Metric, ProcessCollector, ci_job_label_keys, ci_loop, ci_job_label_values_with,
  core_metrics, info_metric, collect_process, collect_loop, collect,
}

abbrev IsValidText : Text → Type 0
IsValidText s = valid_string s ≡ true

-- What `MustNewConstMetric` demands: a value for each label, all of them valid UTF-8.
abbrev pub IsEmittable : Metric → Type 0
IsEmittable m =
    (length m.labels ≡ length (label_names m.desc)) × All (λ s. valid_string s ≡ true) m.labels

bounded-valid :
    (h : Hasher) (limits : Limits) (name raw : Text) (obs : Observer)
    → IsValidText (bound_label_with h limits name (sanitize_label_value raw) obs).0
bounded-valid h limits name raw obs =
    bound_label_with-valid_string h limits name (sanitize_label_value raw) obs
      (sanitize_label_value-valid_string raw)

abbrev IsRow : List (Text × Text) → List Text → Type 0
IsRow ks vals = (length vals ≡ length ks) × All IsValidText vals

ci_loop-IsRow :
    (h : Hasher) (limits : Limits) (environ : Map Text Text) (ks : List (Text × Text))
    (obs : Observer)
    → IsRow ks (ci_loop h limits environ ks obs).0
unfolding ci_loop
ci_loop-IsRow h limits environ [] obs = (refl, tt)
ci_loop-IsRow h limits environ ((env, label) ∷ ks) obs =
    let raw = or_empty (lookup env environ) in
    let (same, valid) =
      ci_loop-IsRow h limits environ ks
        (bound_label_with h limits label (sanitize_label_value raw) obs).1 in
    (omega arith, (bounded-valid h limits label raw obs, valid))

ci_vals-IsRow :
    (h : Hasher) (limits : Limits) (environ : Map Text Text) (obs : Observer)
    → IsRow ci_job_label_keys (ci_job_label_values_with h limits environ obs).0
unfolding ci_job_label_values_with
ci_vals-IsRow h limits environ obs = ci_loop-IsRow h limits environ ci_job_label_keys obs

digits-valid : (s : Text) → All IsDigit s → All (λ c. c < 128) s
digits-valid [] h = tt
digits-valid (c ∷ s) (hc, hs) = (omega arith, digits-valid s hs)

format_int-valid : (i : ℤ) → IsValidText (format_int i)
unfolding format_int
format_int-valid (pos n) =
    valid_string-ascii (format_nat n) (digits-valid (format_nat n) (format_nat-IsDigit n))
format_int-valid (negsuc n) =
    valid_string-ascii (b'-' ∷ format_nat (n + 1))
      (omega arith, digits-valid (format_nat (n + 1)) (format_nat-IsDigit (n + 1)))

core_metrics-IsEmittable :
    (fl : Floats) (p : ProcessSample) (labels : List Text)
    → length labels ≡ 6
    → All IsValidText labels
    → All IsEmittable (core_metrics fl p labels)
unfolding core_metrics
core_metrics-IsEmittable fl p labels n v =
    let e : (length labels ≡ 6) × All IsValidText labels = (n, v) in
    (e, (e, (e, (e, (e, (e, (e, (e, (e, (e, (e, tt)))))))))))

flag-valid : (b : Bool) → IsValidText (if b then codes "1" else codes "0")
flag-valid true = valid_string-ascii (codes "1") (omega arith)
flag-valid false = valid_string-ascii (codes "0") (omega arith)

collect_process-IsEmittable :
    (h : Hasher) (u : Unicode) (fl : Floats) (pc : ProcessCollector) (p : ProcessSample)
    (obs : Observer)
    → All IsEmittable (collect_process h u fl pc p obs).0
unfolding collect_process
collect_process-IsEmittable h u fl pc p obs =
    let limits = pc.max_label_bytes in
    let (name, obs1) = bound_label_with h limits (codes "name") (sanitize_label_value p.name) obs in
    let (ci_vals, obs2) = ci_job_label_values_with h limits p.environ obs1 in
    let (four, ci-valid) = ci_vals-IsRow h limits p.environ obs1 in
    let pid-valid = format_int-valid p.pid in
    let name-valid = bounded-valid h limits (codes "name") p.name obs in
    let labels = format_int p.pid ∷ (name ∷ ci_vals) in
    let (environ, truncated) = scrub_environ u fl pc.extra_key_substrings p.environ in
    let flag = if truncated then codes "1" else codes "0" in
    let cmdline =
      (bound_label_with h limits (codes "cmdline") (sanitize_label_value p.cmd_line) obs2).0 in
    let last = format_int p.pid ∷ (name ∷ (cmdline ∷ (environ ∷ (flag ∷ ci_vals)))) in
    All-append IsEmittable (core_metrics fl p labels) (info_metric fl last ∷ [])
      (core_metrics-IsEmittable fl p labels (omega arith) (pid-valid, (name-valid, ci-valid)))
      (
        (
          omega arith,
          (
            pid-valid,
            (
              name-valid,
              (
                bounded-valid h limits (codes "cmdline") p.cmd_line obs2,
                (
                  scrub_environ-valid_string u fl pc.extra_key_substrings p.environ,
                  (flag-valid truncated, ci-valid),
                ),
              ),
            ),
          ),
        ),
        tt,
      )

length-collect_process :
    (h : Hasher) (u : Unicode) (fl : Floats) (pc : ProcessCollector) (p : ProcessSample)
    (obs : Observer)
    → length (collect_process h u fl pc p obs).0 ≡ 12
unfolding collect_process core_metrics
length-collect_process h u fl pc p obs = refl

collect_loop-IsEmittable :
    (h : Hasher) (u : Unicode) (fl : Floats) (pc : ProcessCollector) (ps : List ProcessSample)
    (obs : Observer)
    → All IsEmittable (collect_loop h u fl pc ps obs).0
unfolding collect_loop
collect_loop-IsEmittable h u fl pc [] obs = tt
collect_loop-IsEmittable h u fl pc (p ∷ ps) obs =
    let (metrics, counted) = collect_process h u fl pc p obs in
    All-append IsEmittable metrics (collect_loop h u fl pc ps counted).0
      (collect_process-IsEmittable h u fl pc p obs) (collect_loop-IsEmittable h u fl pc ps counted)

length-collect_loop :
    (h : Hasher) (u : Unicode) (fl : Floats) (pc : ProcessCollector) (ps : List ProcessSample)
    (obs : Observer)
    → length (collect_loop h u fl pc ps obs).0 ≡ 12 * length ps
unfolding collect_loop
length-collect_loop h u fl pc [] obs = refl
length-collect_loop h u fl pc (p ∷ ps) obs =
    let (metrics, counted) = collect_process h u fl pc p obs in
    omega (
      arith,
      length-append metrics (collect_loop h u fl pc ps counted).0,
      length-collect_process h u fl pc p obs,
      length-collect_loop h u fl pc ps counted,
    )

-- Each metric that a scrape emits has one value for each label of its descriptor and only valid
-- UTF-8 in them, whatever bytes the processes have, and there are twelve for each active process.
pub collect_lem :
    (h : Hasher) (u : Unicode) (fl : Floats) (hs : HistoryStore) (pc : ProcessCollector)
    → All IsEmittable (collect h u fl hs pc).0
      × (length (collect h u fl hs pc).0 ≡ 12 * length (get_active_processes hs))
unfolding collect
collect_lem h u fl hs pc = (
  collect_loop-IsEmittable h u fl pc (get_active_processes hs) (some pc.truncations),
  length-collect_loop h u fl pc (get_active_processes hs) (some pc.truncations),
)
