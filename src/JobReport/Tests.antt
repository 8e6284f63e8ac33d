-- ===== src/JobReport/Tests.antt =====
-- Runs of the job report at concrete inputs, and instances of its theorems.
use mathlib.Core.List.{Perm}
use gitlab_procs_exporter.Prelude.{
  ℕ, zero, suc, ◌+◌, ◌<◌, ◌≡◌, ◌≢◌, ◌⊎◌, inl, inr, refl, sym, Bool, ◌&&◌, some, List, [], ◌∷◌, ◌++◌,
  arith, ltb, list_eq, nat_eq, list_beq, if◌then◌else◌, ◌==◌, length,
}
use gitlab_procs_exporter.Prelude.Int.{pos}
use gitlab_procs_exporter.Prelude.Text.{Text, codes}
use gitlab_procs_exporter.Prelude.Decimal.{format_int}
use gitlab_procs_exporter.Prelude.Map.{Map, lookup}
use gitlab_procs_exporter.JobReport.Meta.{ProcMeta}
use gitlab_procs_exporter.JobReport.Prom.{
  PromResp, Series, string, Transport, answer, Exchange, reply, get, found, query_range,
  query_instant, get_loop, after_attempt, get_once, check_status, retryable_status, label, meta_map,
  new_prom_client, value,
}
use gitlab_procs_exporter.JobReport.Prom.Retry.{IsTransient, IsRun, attempts_of, get_lem}
use gitlab_procs_exporter.JobReport.Prom.Richest.{IsMetaOf, meta_map_lem}
use gitlab_procs_exporter.JobReport.Prom.Rank.{
  TopRow, top_n, rows_of, IsRanked, IsOrder, HasNumbers, top_n_lem,
}
use gitlab_procs_exporter.JobReport.Prom.Nodes.{
  job_expr, Names, IsNodes, resolve_node_by_job_id, resolve_node_lem,
}
use gitlab_procs_exporter.JobReport.Cli.{CliConfig}
use gitlab_procs_exporter.JobReport.Cli.Window.{window, step_for}
use gitlab_procs_exporter.JobReport.Report.{report, reported, one_node, run_window}
use gitlab_procs_exporter.JobReport.Report.Node.{run_finds_node}
use gitlab_procs_exporter.JobReport.Printing.{human_dur, indent}

-- A process of job 12 on one node.
abbrev shell : Series
shell = record {
  metric =
      (codes "node_ip", codes "10.0.0.7")
      ∷ ((codes "pid", codes "41")
          ∷ ((codes "name", codes "bash") ∷ ((codes "cmdline", codes "bash JOB_ID=12") ∷ [])));
  value = string (codes "0") ∷ (string (codes "3") ∷ []);
}

abbrev two_series : PromResp
two_series = record { status = codes "success"; result = shell ∷ (shell ∷ []) }

-- The gateway fails at the first attempt.
abbrev second_try : ℕ → Exchange
second_try n = if n == 1 then reply 503 [] else reply 200 []

abbrev gateway : Transport
gateway = record {
  network = λ u n. second_try n;
  decode = λ body. some two_series;
  encode = λ q. [];
  parse_float = λ s. some (length s);
  above = λ x y. ltb 0 y && ltb y x;
  quote = λ s. s;
}

abbrev local : Text
local = codes "http://localhost:9090"

get_lem_example :
    IsRun
      (attempts_of gateway local (codes "/api/v1/query") [])
      1
      3
      (get gateway local (codes "/api/v1/query") [])
get_lem_example = get_lem gateway local (codes "/api/v1/query") []

second_answers : attempts_of gateway local (codes "/api/v1/query") [] (1 + 1) ≡ answer two_series
unfolding get_once check_status list_beq
second_answers = refl

first-IsTransient :
    (i : ℕ) → i < 1 → IsTransient (attempts_of gateway local (codes "/api/v1/query") [] (1 + i))
unfolding get_once retryable_status
first-IsTransient zero h = refl
first-IsTransient (suc i) h = absurd (omega arith)

range_answered :
    (expr : Text)
    → (query_range gateway local expr (pos 0) (pos 60) (pos 15)).result ≡ found two_series
unfolding query_range get get_loop after_attempt get_once check_status retryable_status list_beq
range_answered expr = refl

meta_map_lem_example :
    (out : Map Text ProcMeta) × (meta_map gateway local (codes "{}") (pos 0) (pos 60) (pos 15)
      ≡ value out)
    × ((k : Text) → IsMetaOf k two_series.result (lookup k out))
meta_map_lem_example =
    meta_map_lem gateway local (codes "{}") (pos 0) (pos 60) (pos 15) two_series
      (range_answered (codes "gitlab_process_info" ++ codes "{}"))

top_answered : (expr : Text) → (query_instant gateway local expr (pos 60)).result ≡ found two_series
unfolding query_instant get get_loop after_attempt get_once check_status retryable_status list_beq
top_answered expr = refl

-- In the gateway, zero stands for NaN, above which and below which there is nothing.
abbrev is_nan : ℕ → Bool
is_nan x = x == 0

descending : IsOrder is_nan gateway.above
descending = record {
  asymmetric = λ x y nx ny h. ground arith;
  negatively_transitive = λ x y z nx ny nz h k. ground arith;
}

two_numbers : HasNumbers is_nan (rows_of gateway.parse_float [] two_series.result)
unfolding rows_of
two_numbers = (refl, (refl, tt))

top_n_lem_example :
    (rows : List TopRow) × (top_n gateway local (codes "up") (pos 5) (pos 60) [] ≡ value rows)
    × Perm rows (rows_of gateway.parse_float [] two_series.result)
    × IsRanked gateway.above rows
top_n_lem_example =
    top_n_lem gateway is_nan local (codes "up") (pos 5) (pos 60) [] two_series descending
      two_numbers
      (top_answered
        (codes "topk(" ++ (format_int (pos 5) ++ (codes ", " ++ (codes "up" ++ codes ")")))))

resolve_node_lem_example :
    let q = query_range gateway local (job_expr gateway (codes "12")) (pos 0) (pos 60) (pos 15) in
    let resolved = resolve_node_by_job_id gateway local (codes "12") (pos 0) (pos 60) (pos 15) in
    ((codes "12" ≡ []) × (resolved ≡ (value [], 0)))
    ⊎ ((codes "12" ≢ []) × (resolved.1 ≡ q.requests) × IsNodes q.result resolved.0)
resolve_node_lem_example = resolve_node_lem gateway local (codes "12") (pos 0) (pos 60) (pos 15)

abbrev ci_config : CliConfig
ci_config = record {
  prom_url = [];
  proc = codes "all";
  node = codes "all";
  window = codes "0..60";
  top_n = pos 5;
  job_url = [];
  job_id = codes "12";
}

ci_answered :
    (query_range gateway
      (new_prom_client [])
      (job_expr gateway (codes "12"))
      (pos 0)
      (pos 60)
      (step_for (pos 0) (pos 60))).result
    ≡ found two_series
unfolding query_range get get_loop after_attempt get_once check_status retryable_status list_beq
ci_answered = refl

abbrev one_ip : Text
one_ip = codes "10.0.0.7"

one_ip_is_named : Names one_ip two_series.result
unfolding label lookup list_beq
one_ip_is_named = inl refl

only_one_ip : (x : Text) → Names x two_series.result → (x ≡ one_ip) ⊎ (x ≡ [])
unfolding label lookup list_beq
only_one_ip x h = elim h [
  | inl e ↦ inl (sym e)
  | inr more ↦ elim more [ inl e ↦ inl (sym e) | inr k ↦ absurd k ]
]

run_finds_node_example :
    run_window gateway ci_config (window (pos 0) (pos 60))
    ≡ reported one_ip one_node
        (report gateway (new_prom_client []) (codes "all") one_ip (pos 0) (pos 60) (pos 5))
run_finds_node_example =
    run_finds_node gateway ci_config (pos 0) (pos 60) two_series one_ip (λ e. cc) refl ci_answered
      (λ e. cc) one_ip_is_named only_one_ip

two_minutes : human_dur (pos 125) ≡ codes "2m05s"
unfolding human_dur
two_minutes = refl

two_lines_indented :
    indent (b'a' ∷ (10 ∷ (b'b' ∷ (10 ∷ (10 ∷ []))))) (codes "  ")
    ≡ codes "  a" ++ (10 ∷ (codes "  b" ++ (10 ∷ [])))
unfolding indent
two_lines_indented = refl
