-- ===== src/JobReport/Prom/Nodes.antt =====
-- internal/jobreport/prom.go: `resolveNodeByJobID`, the nodes on which a job's processes were seen.
use gitlab_procs_exporter.Prelude.{
  ℕ, ◌≡◌, ◌≢◌, ◌↔◌, refl, ap, ◌∙◌, sym, subst, Bool, true, false, ◌||◌, List, [], ◌∷◌, ◌++◌, ◌==◌,
  eq_iff, nat_eq, list_eq, if◌then◌else◌, Member, Bool-cases, inl, inr, ◌⊎◌,
}
use mathlib.Core.Bool.{false≢true}
use gitlab_procs_exporter.Prelude.Int.{ℤ}
use gitlab_procs_exporter.Prelude.Text.{Text, codes}
use gitlab_procs_exporter.Prelude.Sort.{
  sort_strings, IsSorted, sort_strings-IsSorted, sort_strings-Member, sort_strings-IsUnique,
  IsUnique, Member-concat, concat-IsUnique,
}
use gitlab_procs_exporter.JobReport.Prom.{
  PromResp, Series, label, Transport, query_range, GetResult, GetRun, found, failed, Answer, value,
  error, map_result,
}

abbrev pub is_member : Text → List Text → Bool
is_member x [] = false
is_member x (y ∷ ys) = y == x || is_member x ys

-- `seen` holds what `nodes` holds. The nodes are appended in the order of their first series.
unfoldable pub node_loop : List Series → List Text → List Text
unfolding label
node_loop [] nodes = nodes
node_loop (s ∷ result) nodes =
    let ip = label (codes "node_ip") s in
    node_loop result (if ip == [] || is_member ip nodes then nodes else nodes ++ (ip ∷ []))

abbrev pub nodes_of : PromResp → List Text
nodes_of pr = sort_strings (node_loop pr.result [])

abbrev pub job_expr : Transport → Text → Text
job_expr t job_id =
    let bound = job_id ++ codes "([^0-9].*)?" in
    codes "count by (node_ip)(gitlab_process_info{cmdline=~"
    ++ (t.quote (codes ".*JOB_ID=" ++ bound)
        ++ (codes "} or gitlab_process_info{environ=~"
            ++ (t.quote (codes ".*CI_JOB_ID=" ++ bound) ++ codes "})")))

-- The nodes of a response, with the number of the requests that were made.
abbrev pub nodes_answer : GetRun → Answer (List Text) × ℕ
unfolding node_loop sort_strings
nodes_answer q = (map_result nodes_of q.result, q.requests)

unfoldable pub resolve_node_by_job_id : Transport → Text → Text → ℤ → ℤ → ℤ → Answer (List Text) × ℕ
unfolding query_range nodes_answer
resolve_node_by_job_id t base job_id start end step =
    if job_id == []
    then (value [], 0)
    else nodes_answer (query_range t base (job_expr t job_id) start end step)

-- A series names the node.
abbrev pub Names : Text → List Series → Type 0
Names ip [] = ⊥
Names ip (s ∷ result) = (label (codes "node_ip") s ≡ ip) ⊎ Names ip result

is_member_iff : (x : Text) (ys : List Text) → (is_member x ys ≡ true) ↔ Member x ys
is_member_iff x [] = (λ h. absurd (false≢true h), λ m. absurd m)
is_member_iff x (y ∷ ys) = elim (Bool-cases (y == x)) [
  | inl same ↦ rw same (λ h. inl (sym ((eq_iff y x).0 same)), λ m. refl)
  | inr other ↦ rw other (
    λ h. inr ((is_member_iff x ys).0 h),
    λ m. elim m [
      | inl e ↦ absurd (false≢true (sym other ∙ (eq_iff y x).1 (sym e)))
      | inr k ↦ (is_member_iff x ys).1 k
    ],
  )
]

-- The node of a series is taken up, unless it is empty or known.
abbrev add_node : Text → List Text → List Text
add_node ip nodes = if ip == [] || is_member ip nodes then nodes else nodes ++ (ip ∷ [])

abbrev IsAdded : Text → List Text → List Text → Type 0
IsAdded ip nodes nodes' =
    (IsUnique nodes → IsUnique nodes')
    × ((x : Text) → Member x nodes' ↔ (Member x nodes ⊎ ((x ≡ ip) × (ip ≢ []))))

known-IsAdded :
    (ip : Text) (nodes : List Text) → (ip ≡ []) ⊎ Member ip nodes → IsAdded ip nodes nodes
known-IsAdded ip nodes h = (
  λ u. u,
  λ x. (
    λ m. inl m,
    λ k. elim k [
      | inl m ↦ m
      | inr p ↦ elim h [ inl e ↦ absurd (p.1 e) | inr m ↦ subst (λ y. Member y nodes) (sym p.0) m ]
    ],
  ),
)

add_node-IsAdded : (ip : Text) (nodes : List Text) → IsAdded ip nodes (add_node ip nodes)
add_node-IsAdded ip nodes = elim (Bool-cases (ip == [])) [
  | inl e ↦ rw e (known-IsAdded ip nodes (inl ((eq_iff ip []).0 e)))
  | inr ne ↦ elim (Bool-cases (is_member ip nodes)) [
    | inl m ↦ rw ne (rw m (known-IsAdded ip nodes (inr ((is_member_iff ip nodes).0 m))))
    | inr new ↦ rw ne (
        rw new (
          concat-IsUnique ip nodes (λ m. false≢true (sym new ∙ (is_member_iff ip nodes).1 m)),
          λ x. (
            λ m. elim ((Member-concat x ip nodes).0 m) [
              | inl k ↦ inl k
              | inr e ↦ inr (e, λ q. false≢true (sym ne ∙ (eq_iff ip []).1 q))
            ],
            λ k. (Member-concat x ip nodes).1 (elim k [ inl m ↦ inl m | inr p ↦ inr p.0 ]),
          ),
        ))
  ]
]

node_loop-IsUnique :
    (result : List Series) (nodes : List Text) → IsUnique nodes → IsUnique (node_loop result nodes)
unfolding node_loop
node_loop-IsUnique [] nodes h = h
node_loop-IsUnique (s ∷ result) nodes h =
    node_loop-IsUnique result _ ((add_node-IsAdded (label (codes "node_ip") s) nodes).0 h)

node_loop-Member :
    (x : Text) (result : List Series) (nodes : List Text)
    → Member x (node_loop result nodes) ↔ (Member x nodes ⊎ (Names x result × (x ≢ [])))
unfolding node_loop
node_loop-Member x [] nodes = (λ m. inl m, λ h. elim h [ inl m ↦ m | inr p ↦ absurd p.0 ])
node_loop-Member x (s ∷ result) nodes =
    let ip : Text = label (codes "node_ip") s in
    let added = (add_node-IsAdded ip nodes).1 x in
    let later = node_loop-Member x result (add_node ip nodes) in
    (
      λ m. elim (later.0 m) [
        | inl k ↦ elim (added.0 k) [
          | inl old ↦ inl old
          | inr p ↦ inr (inl (sym p.0), λ q. p.1 (sym p.0 ∙ q))
        ]
        | inr p ↦ inr (inr p.0, p.1)
      ],
      λ h. elim h [
        | inl old ↦ later.1 (inl (added.1 (inl old)))
        | inr p ↦ elim p.0 [
          | inl e ↦ later.1 (inl (added.1 (inr (sym e, λ q. p.1 (sym e ∙ q)))))
          | inr k ↦ later.1 (inr (k, p.1))
        ]
      ],
    )

-- The answer to a query: its error, or the non-empty nodes that its series name, each once and in the
-- order of their bytes.
abbrev pub IsNodes : GetResult → Answer (List Text) → Type 0
IsNodes (failed e) a = a ≡ error e
IsNodes (found pr) a =
    (nodes : List Text) × (a ≡ value nodes)
    × IsSorted nodes
    × IsUnique nodes
    × ((ip : Text) → Member ip nodes ↔ (Names ip pr.result × (ip ≢ [])))

nodes_of-IsNodes : (r : GetResult) → IsNodes r (map_result nodes_of r)
nodes_of-IsNodes (failed e) = refl
nodes_of-IsNodes (found pr) = (
  nodes_of pr,
  refl,
  sort_strings-IsSorted (node_loop pr.result []),
  sort_strings-IsUnique (node_loop pr.result []) (node_loop-IsUnique pr.result [] tt),
  found_nodes,
)
  where
    found_nodes : (ip : Text) → Member ip (nodes_of pr) ↔ (Names ip pr.result × (ip ≢ []))
    found_nodes ip =
        let sorted = sort_strings-Member ip (node_loop pr.result []) in
        let looped = node_loop-Member ip pr.result [] in
        (
          λ m. elim (looped.0 (sorted.0 m)) [ inl k ↦ absurd k | inr p ↦ p ],
          λ p. sorted.1 (looped.1 (inr p)),
        )

-- The nodes of a job: none for an empty id, without a request; else those of one query with its
-- requests, which are the non-empty nodes that the series of the response name, each once and in the
-- order of their bytes, or the query's error.
pub resolve_node_lem :
    (t : Transport) (base job_id : Text) (start end step : ℤ)
    → let q = query_range t base (job_expr t job_id) start end step in
      let resolved = resolve_node_by_job_id t base job_id start end step in
      ((job_id ≡ []) × (resolved ≡ (value [], 0)))
      ⊎ ((job_id ≢ []) × (resolved.1 ≡ q.requests) × IsNodes q.result resolved.0)
unfolding resolve_node_by_job_id
resolve_node_lem t base job_id start end step =
    let q : GetRun = query_range t base (job_expr t job_id) start end step in
    let by_test : Bool → Answer (List Text) × ℕ =
      λ b. if b then (value [], 0) else nodes_answer q in
    elim (Bool-cases (job_id == [])) [
      | inl e ↦ inl ((eq_iff job_id []).0 e, ap by_test e)
      | inr ne ↦ inr (
        (λ e. false≢true (sym ne ∙ (eq_iff job_id []).1 e)),
        ap (λ b. (by_test b).1) ne,
        subst (λ b. IsNodes q.result (by_test b).0) (sym ne) (nodes_of-IsNodes q.result),
      )
    ]
