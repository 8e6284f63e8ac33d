-- ===== src/Exporter/History/Query.antt =====
-- `QueryHistory` and `GetActiveProcesses`: which timelines and samples they return.
use gitlab_procs_exporter.Prelude.{
  ◌≡◌, ◌≢◌, refl, subst, ◌∙◌, Bool, Option, none, some, List, [], ◌∷◌, arith, All, ◌==◌, eq_iff,
  int_eq, list_eq, nat_eq, if◌then◌else◌, some_inj, get_last?, list_beq,
}
use gitlab_procs_exporter.Prelude.Int.{ℤ}
use gitlab_procs_exporter.Prelude.Text.{Text, codes, Unicode}
use gitlab_procs_exporter.Prelude.Decimal.{format_int}
use gitlab_procs_exporter.Prelude.Map.{Map, lookup, insert, lookup-insert, IsDistinct}
use gitlab_procs_exporter.Exporter.History.{
  ProcessSample, HistoryStore, process_key, query_match, query_loop, query_history,
}
use gitlab_procs_exporter.Exporter.History.Key.{process_key_inj, format_int_inj}
use gitlab_procs_exporter.Exporter.History.Invariant.{HasKey, IsValid}

-- The answer under one key: its whole timeline, if the latest sample matches.
abbrev answered_by :
    (ProcessSample → Bool)
    → List ProcessSample
    → Option ProcessSample
    → Option (List ProcessSample)
    → Option (List ProcessSample)
answered_by matches ss none other = other
answered_by matches ss (some latest) other = if matches latest then some ss else other

abbrev answered :
    (ProcessSample → Bool)
    → Option (List ProcessSample)
    → Option (List ProcessSample)
    → Option (List ProcessSample)
answered matches none other = other
answered matches (some ss) other = answered_by matches ss (get_last? ss) other

lookup-query_loop :
    (u : Unicode) (query_type value j : Text) (entries result : Map Text (List ProcessSample))
    → IsDistinct entries
    → lookup j (query_loop u query_type value entries result)
      ≡ answered (query_match u query_type value) (lookup j entries) (lookup j result)
unfolding query_loop lookup
lookup-query_loop u query_type value j [] result h = refl
lookup-query_loop u query_type value j ((key, ss) ∷ rest) result h = ground (
  arith,
  eq_iff key j,
  lookup-insert key j ss result,
  lookup-query_loop u query_type value j rest (insert key ss result) h.1,
  lookup-query_loop u query_type value j rest result h.1,
)

lookup-query_history :
    (u : Unicode) (query_type value j : Text) {hs : HistoryStore}
    → IsValid hs
    → lookup j (query_history u query_type value hs)
      ≡ answered (query_match u query_type value) (lookup j hs.processes) none
unfolding query_history lookup
lookup-query_history u query_type value j {hs} v =
    lookup-query_loop u query_type value j hs.processes [] v.processes_distinct

pub get_last?-All {ℓ κ} :
    {A : Type ℓ} (P : A → Type κ) (xs : List A) (x : A) → All P xs → get_last? xs ≡ some x → P x
get_last?-All P [] x h e = cc
get_last?-All P (y ∷ []) x h e = subst P (some_inj e) h.0
get_last?-All P (y ∷ (z ∷ zs)) x h e = get_last?-All P (z ∷ zs) x h.1 e

get_last?-ne-nil {ℓ} : {A : Type ℓ} (xs : List A) → xs ≢ [] → (x : A) × (get_last? xs ≡ some x)
get_last?-ne-nil [] h = absurd (h refl)
get_last?-ne-nil (x ∷ []) h = (x, refl)
get_last?-ne-nil (x ∷ (y ∷ ys)) h = get_last?-ne-nil (y ∷ ys) (cc)

-- A query for a pid prints the pid and compares texts; it matches the pid alone.
query_match_pid :
    (u : Unicode) (p : ℤ) (s : ProcessSample)
    → query_match u (codes "pid") (format_int p) s ≡ (s.pid == p)
unfolding query_match list_beq
query_match_pid u p s =
    ground (arith, eq_iff (format_int s.pid) (format_int p), format_int_inj s.pid p, eq_iff s.pid p)

-- A stored timeline has a latest sample, and its pid is the pid of the key.
latest_of_entry :
    {hs : HistoryStore}
    → IsValid hs
    → (q c : ℤ) (ss : List ProcessSample) → lookup (process_key q c) hs.processes ≡ some ss
    → (latest : ProcessSample) × (get_last? ss ≡ some latest) × (latest.pid ≡ q)
latest_of_entry v q c ss e =
    let (latest, last) = get_last?-ne-nil ss (v.nonempty (process_key q c) ss e) in
    let same =
      get_last?-All (HasKey (process_key q c)) ss latest (v.keyed (process_key q c) ss e) last in
    (latest, last, (process_key_inj latest.pid q latest.create_time c same).0)

-- In a well-formed store, a query for a pid answers with the whole timeline of each process that
-- had this pid, whatever its start time, and with no timeline of a process of another pid.
pub query_pid_lem :
    (u : Unicode) (p q c : ℤ) {hs : HistoryStore}
    → IsValid hs
    → lookup (process_key q c) (query_history u (codes "pid") (format_int p) hs)
      ≡ (if q == p then lookup (process_key q c) hs.processes else none)
query_pid_lem u p q c {hs} v =
    lookup-query_history u (codes "pid") (format_int p) (process_key q c) v
    ∙ answer (lookup (process_key q c) hs.processes) refl
  where
    answer :
        (o : Option (List ProcessSample))
        → lookup (process_key q c) hs.processes ≡ o
        → answered (query_match u (codes "pid") (format_int p)) o none
          ≡ (if q == p then o else none)
    answer none e = ground arith
    answer (some ss) e =
        let (latest, last, owner) = latest_of_entry v q c ss e in rw (last, query_match_pid, owner)
