-- ===== src/JobReport/Report/Node.antt =====
-- Which node a report is about.
use gitlab_procs_exporter.Prelude.{
  ℕ, ◌≡◌, ◌≢◌, ◌⊎◌, refl, ap, subst, ◌∙◌, sym, Bool, true, not, ◌&&◌, List, [], ◌∷◌, ◌==◌, eq_iff,
  ne→false, list_eq, nat_eq, Member, if◌then◌else◌, inl, inr,
}
use gitlab_procs_exporter.Prelude.Int.{ℤ}
use gitlab_procs_exporter.Prelude.Text.{Text, codes}
use gitlab_procs_exporter.Prelude.Sort.{IsUnique}
use gitlab_procs_exporter.JobReport.Prom.{
  PromResp, Transport, GetRun, found, Answer, value, new_prom_client, query_range,
}
use gitlab_procs_exporter.JobReport.Prom.Nodes.{
  job_expr, Names, IsNodes, resolve_node_by_job_id, resolve_node_lem,
}
use gitlab_procs_exporter.JobReport.Cli.{CliConfig}
use gitlab_procs_exporter.JobReport.Cli.Window.{window, step_for}
use gitlab_procs_exporter.JobReport.Report.{
  Report, report, pinned, one_node, Outcome, reported, with_nodes, run_window,
}

-- A list without repetition whose only member is `x`
single_text :
    (x : Text) (xs : List Text)
    → IsUnique xs
    → Member x xs
    → ((y : Text) → Member y xs → y ≡ x)
    → xs ≡ x ∷ []
single_text x [] unique m only = absurd m
single_text x (y ∷ []) unique m only = ap (λ t. t ∷ []) (only y (inl refl))
single_text x (y ∷ (z ∷ xs)) unique m only =
    absurd (unique.0 (inl (only y (inl refl) ∙ sym (only z (inr (inl refl))))))

module _ (t : Transport) (cfg : CliConfig) (start end : ℤ) where
  abbrev base : Text
  base = new_prom_client cfg.prom_url

  abbrev on_node : Text → Report
  on_node node = report t base cfg.proc node start end cfg.top_n

  abbrev by_test : Bool → Outcome
  by_test b =
      if b
      then with_nodes (resolve_node_by_job_id t base cfg.job_id start end (step_for start end)).0
          on_node
      else reported cfg.node pinned (on_node cfg.node)

  abbrev job_query : GetRun
  job_query = query_range t base (job_expr t cfg.job_id) start end (step_for start end)

  abbrev resolved_nodes : Answer (List Text) × ℕ
  resolved_nodes = resolve_node_by_job_id t base cfg.job_id start end (step_for start end)

  job-IsNodes :
      (pr : PromResp)
      → cfg.job_id ≢ []
      → job_query.result ≡ found pr
      → IsNodes (found pr) resolved_nodes.0
  job-IsNodes pr job answered =
      elim (resolve_node_lem t base cfg.job_id start end (step_for start end)) [
        | inl h ↦ absurd (job h.0)
        | inr h ↦ subst (λ r. IsNodes r resolved_nodes.0) answered h.2
      ]

  -- With a job's id and no pinned node, where the query for the job's nodes gives a response: if its
  -- series name one node only, besides empty names, the report is about that node.
  pub run_finds_node :
      (pr : PromResp) (ip : Text)
      → cfg.job_id ≢ []
      → cfg.node ≡ codes "all"
      → (query_range t base (job_expr t cfg.job_id) start end (step_for start end)).result
        ≡ found pr
      → ip ≢ []
      → Names ip pr.result
      → ((x : Text) → Names x pr.result → (x ≡ ip) ⊎ (x ≡ []))
      → run_window t cfg (window start end) ≡ reported ip one_node (on_node ip)
  unfolding run_window
  run_finds_node pr ip job all answered named here only =
      let (nodes, resolved, sorted, unique, members) = job-IsNodes pr job answered in
      let single : nodes ≡ ip ∷ [] =
        single_text ip nodes unique ((members ip).1 (here, named)) (λ x m.
          elim (only x ((members x).0 m).0) [
            | inl e ↦ e
            | inr e ↦ absurd (((members x).0 m).1 e)
          ]) in
      let test : (not (cfg.job_id == []) && cfg.node == codes "all") ≡ true =
        ap (λ b. not b && cfg.node == codes "all") (ne→false cfg.job_id [] job)
        ∙ (eq_iff cfg.node (codes "all")).1 all in
      ap by_test test
      ∙ ap (λ a. with_nodes a on_node) resolved
      ∙ ap (λ l. with_nodes (value l) on_node) single
