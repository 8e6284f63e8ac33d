-- ===== src/JobReport/Report.antt =====
-- internal/jobreport/cli.go and url.go: `report`, `run`, and `runURL` without what is printed.
pub mod Node
use gitlab_procs_exporter.Prelude.{
  ℕ, Bool, true, false, not, ◌&&◌, ◌||◌, Option, none, some, List, [], ◌∷◌, ◌++◌, ◌==◌, list_eq,
  nat_eq, if◌then◌else◌,
}
use gitlab_procs_exporter.Prelude.Int.{ℤ, pos, int_sub, wrap_int64}
use gitlab_procs_exporter.Prelude.Text.{Text, codes, Unicode}
use gitlab_procs_exporter.Prelude.Decimal.{format_int}
use gitlab_procs_exporter.Prelude.Map.{Map}
use gitlab_procs_exporter.JobReport.Meta.{ProcMeta}
use gitlab_procs_exporter.JobReport.Prom.{
  PromResp, PromError, Exchange, no_request, no_reply, broken_body, reply, Transport, GetResult,
  found, failed, Answer, value, error, Series, new_prom_client, query_instant, selector, meta_map,
}
use gitlab_procs_exporter.JobReport.Prom.Rank.{TopRow, top_n}
use gitlab_procs_exporter.JobReport.Prom.Nodes.{resolve_node_by_job_id}
use gitlab_procs_exporter.JobReport.Cli.{CliConfig, CliEnv}
use gitlab_procs_exporter.JobReport.Cli.Window.{
  Window, WindowError, window, refused, parse_window, step_for,
}
use gitlab_procs_exporter.JobReport.LogParse.{JobInfo, Patterns, local_path}
use gitlab_procs_exporter.JobReport.LogParse.Lines.{parse_job_log}

-- An error of a query, no data in the scope, or the three tables.
pub data Report : Type 0 where
  report_error : Option PromError → Report
  no_data : Report
  tables : List TopRow → List TopRow → List TopRow → Report

unfoldable pub with_answer {ℓ} : {A : Type ℓ} → Answer A → (A → Report) → Report
with_answer (value a) rest = rest a
with_answer (error e) rest = report_error e

abbrev some_series : List Series → Report → Report
some_series [] rest = no_data
some_series (s ∷ result) rest = rest

unfoldable pub with_count : GetResult → Report → Report
with_count (failed e) rest = report_error e
with_count (found pr) rest = some_series pr.result rest

-- `<name><selector>[<window>s]` behind the name of a function
abbrev over_window : Text → Text → Text → ℤ → Text
over_window function name filter w =
    function ++ (name ++ (filter ++ (codes "[" ++ (format_int w ++ codes "s])"))))

abbrev cpu_expr : Text → ℤ → Text
cpu_expr = over_window (codes "increase(") (codes "gitlab_process_cpu_seconds_total")

abbrev mem_expr : Text → ℤ → Text
mem_expr = over_window (codes "max_over_time(") (codes "gitlab_process_resident_memory_bytes")

abbrev io_expr : Text → ℤ → Text
io_expr filter w =
    over_window (codes "increase(") (codes "gitlab_process_self_io_read_bytes_total") filter w
    ++ (codes " + "
        ++ over_window (codes "increase(") (codes "gitlab_process_self_io_write_bytes_total") filter
            w)

-- The three queries and the tables of their rows.
unfoldable pub report_tables : Transport → Text → Text → ℤ → ℤ → ℤ → Map Text ProcMeta → Report
unfolding with_answer top_n
report_tables t base filter w end n meta =
    with_answer (top_n t base (cpu_expr filter w) n end meta) (λ cpu.
      with_answer (top_n t base (mem_expr filter w) n end meta)
        (λ mem. with_answer (top_n t base (io_expr filter w) n end meta) (λ io. tables cpu mem io)))

unfoldable pub report : Transport → Text → Text → Text → ℤ → ℤ → ℤ → Report
unfolding with_count with_answer report_tables selector query_instant meta_map step_for wrap_int64
report t base proc node start end n =
    let filter = selector t proc node in
    with_count
      (query_instant t base
        (codes "count(gitlab_process_resident_memory_bytes" ++ (filter ++ codes ")")) end).result
      (with_answer (meta_map t base filter start end (step_for start end))
        (report_tables t base filter (wrap_int64 (int_sub end start)) end n))

-- How the node was found; the lines that are printed say so.
pub data NodeNote : Type 0 where
  pinned one_node unknown_job : NodeNote
  many_nodes : List Text → NodeNote

-- The `switch` on the nodes of a job.
abbrev pub choose_node : List Text → Text × NodeNote
choose_node [] = (codes "all", unknown_job)
choose_node (node ∷ []) = (node, one_node)
choose_node (node ∷ (next ∷ nodes)) = (codes "all", many_nodes (node ∷ (next ∷ nodes)))

pub data FetchError : Type 0 where
  no_file bad_fetch expired : FetchError
  bad_status : ℕ → FetchError

-- The outcome of a run: an error, a log without a window, or the report on a node.
pub data Outcome : Type 0 where
  fetch_failed : FetchError → Outcome
  window_refused : WindowError → Outcome
  lookup_failed : Option PromError → Outcome
  no_window : JobInfo → Outcome
  reported : Text → NodeNote → Report → Outcome

abbrev pub with_nodes : Answer (List Text) → (Text → Report) → Outcome
with_nodes (error e) rest = lookup_failed e
with_nodes (value nodes) rest =
    let (node, note) = choose_node nodes in reported node note (rest node)

unfoldable pub run_window : Transport → CliConfig → Window → Outcome
unfolding resolve_node_by_job_id report new_prom_client step_for
run_window t cfg (refused e) = window_refused e
run_window t cfg (window start end) =
    let base = new_prom_client cfg.prom_url in
    let rest : Text → Report = λ node. report t base cfg.proc node start end cfg.top_n in
    if not (cfg.job_id == []) && cfg.node == codes "all"
    then with_nodes (resolve_node_by_job_id t base cfg.job_id start end (step_for start end)).0 rest
    else reported cfg.node pinned (rest cfg.node)

-- The files and the HTTP server of job logs.
pub record LogSource : Type 0 where
  pub read_file : Text → Option Text
  pub fetch_url : Text → Exchange

pub data Fetched : Type 0 where
  raw : Text → Fetched
  not_fetched : FetchError → Fetched

abbrev from_file : Option Text → Fetched
from_file none = not_fetched no_file
from_file (some body) = raw body

abbrev from_http : Exchange → Fetched
from_http (reply code body) =
    if code == 403
    then not_fetched expired
    else if code == 200
    then raw body
    else not_fetched (bad_status code)
from_http no_request = not_fetched bad_fetch
from_http no_reply = not_fetched bad_fetch
from_http broken_body = not_fetched bad_fetch

unfoldable pub fetch_log : LogSource → Text → Fetched
unfolding local_path
fetch_log src job_url = elim (local_path job_url) [
  | some path ↦ from_file (src.read_file path)
  | none ↦ from_http (src.fetch_url job_url)
]

-- `runURL`, behind the log's parsing
unfoldable pub report_job : Transport → Text → ℤ → JobInfo → Outcome
unfolding resolve_node_by_job_id report new_prom_client step_for
report_job t prom_url n j =
    let base = new_prom_client prom_url in
    let start = pos j.start_epoch in
    let end = pos j.end_epoch in
    if j.start_epoch == 0 || j.end_epoch == 0
    then no_window j
    else with_nodes (resolve_node_by_job_id t base j.job_id start end (step_for start end)).0
        (λ node. report t base (codes "all") node start end n)

unfoldable pub with_log : Fetched → (Text → Outcome) → Outcome
with_log (not_fetched e) rest = fetch_failed e
with_log (raw body) rest = rest body

unfoldable pub run_url :
    Unicode → Patterns → (ℕ → Text) → LogSource → Transport → Text → Text → ℤ → Outcome
unfolding with_log fetch_log report_job parse_job_log
run_url u re date_of src t prom_url job_url n =
    with_log (fetch_log src job_url)
      (λ body. report_job t prom_url n (parse_job_log u re date_of body job_url))

unfoldable pub run :
    Unicode → Patterns → (ℕ → Text) → LogSource → Transport → ℤ → CliConfig → Outcome
unfolding run_url run_window parse_window
run u re date_of src t now cfg =
    if cfg.job_url == []
    then run_window t cfg (parse_window now cfg.window)
    else run_url u re date_of src t cfg.prom_url cfg.job_url cfg.top_n
