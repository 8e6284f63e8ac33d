-- ===== src/Exporter/History/Active.antt =====
-- `GetActiveProcesses` returns the latest sample of each active pid.
use gitlab_procs_exporter.Prelude.{
  ℕ, ◌≡◌, refl, sym, ap, subst, ◌∙◌, ◌↔◌, ◌⊎◌, Bool, true, Option, none, some, List, [], ◌∷◌, ◌++◌,
  arith, Member, ◌==◌, eq_iff, eq_refl, int_eq, list_eq, nat_eq, inl, inr, Bool-cases, get_last?,
  keep, keep-append, some_inj, get_last?-concat,
}
use gitlab_procs_exporter.Prelude.Int.{ℤ}
use gitlab_procs_exporter.Prelude.Text.{Text}
use gitlab_procs_exporter.Prelude.Map.{Map, lookup, lookup-insert, IsDistinct}
use gitlab_procs_exporter.Exporter.History.{
  ProcessSample, HistoryStore, process_key, is_fresh, samples_of, or_nil, append_latest,
  active_loop, get_active_processes, add_sample, prune_expired_samples,
}
use gitlab_procs_exporter.Exporter.History.Key.{process_key_inj}
use gitlab_procs_exporter.Exporter.History.Prune.{live}
use gitlab_procs_exporter.Exporter.History.Invariant.{
  HasKey, IsValid, samples_of-HasKey, lookup-add_sample, add_sample-IsValid,
}
use gitlab_procs_exporter.Exporter.History.Query.{get_last?-All}

-- The latest sample of the timeline that is active for a pid.
abbrev pub IsLatestOf : HistoryStore → ℤ → ProcessSample → Type 0
IsLatestOf hs pid s =
    (key : Text) × (lookup pid hs.active_keys ≡ some key)
    × (get_last? (samples_of key hs.processes) ≡ some s)

Member-append_latest :
    (s : ProcessSample) (o : Option ProcessSample) (l : List ProcessSample)
    → Member s l
    → Member s (append_latest o l)
Member-append_latest s none l h = h
Member-append_latest s (some t) l h = inr h

-- An entry that the loop meets adds its latest sample.
Member-active_loop :
    (m : Map Text (List ProcessSample)) (entries : Map ℤ Text) (pid : ℤ) (key : Text)
    (s : ProcessSample)
    → lookup pid entries ≡ some key
    → get_last? (samples_of key m) ≡ some s
    → Member s (active_loop m entries)
unfolding active_loop lookup
Member-active_loop m [] pid key s h e = cc
Member-active_loop m ((p, k) ∷ rest) pid key s h e = elim (Bool-cases (p == pid)) [
  | inl same ↦
      let k_is_key = some_inj (rw same at h) in
      rw (ap (λ t. get_last? (samples_of t m)) k_is_key ∙ e) (inl refl)
  | inr other ↦
      Member-append_latest s (get_last? (samples_of k m)) (active_loop m rest)
        (Member-active_loop m rest pid key s (rw other at h) e)
]

append_latest-Member :
    (s : ProcessSample) (o : Option ProcessSample) (l : List ProcessSample)
    → Member s (append_latest o l)
    → (o ≡ some s) ⊎ Member s l
append_latest-Member s none l h = inr h
append_latest-Member s (some t) l (inl e) = inl (ap some (sym e))
append_latest-Member s (some t) l (inr h) = inr h

abbrev Source : Map Text (List ProcessSample) → Map ℤ Text → ProcessSample → Type 0
Source m entries s =
    (pid : ℤ) × (key : Text) × (lookup pid entries ≡ some key)
    × (get_last? (samples_of key m) ≡ some s)

active_loop-Member :
    (m : Map Text (List ProcessSample)) (entries : Map ℤ Text) (s : ProcessSample)
    → IsDistinct entries
    → Member s (active_loop m entries)
    → Source m entries s
unfolding active_loop lookup
active_loop-Member m [] s d h = absurd h
active_loop-Member m ((p, k) ∷ rest) s d h =
    elim (append_latest-Member s (get_last? (samples_of k m)) (active_loop m rest) h) [
      | inl e ↦ (p, k, rw (eq_refl p), e)
      | inr later ↦
          let (q, key, at_q, last) = active_loop-Member m rest s d.1 later in
          (q, key, ground (arith, eq_iff p q), last)
    ]

-- In a well-formed store, the latest sample of an active pid has that pid.
IsLatestOf-pid :
    {hs : HistoryStore}
    → IsValid hs
    → (pid : ℤ) (s : ProcessSample) → IsLatestOf hs pid s
    → s.pid ≡ pid
IsLatestOf-pid {hs} v pid s (key, active, last) =
    let (c, e) = v.owned pid key active in
    let same =
      get_last?-All (HasKey key) (samples_of key hs.processes) s (samples_of-HasKey key v) last in
    (process_key_inj s.pid pid s.create_time c (same ∙ e)).0

-- In a well-formed store, `GetActiveProcesses` returns a sample exactly if its pid is active and it
-- is the latest sample of the timeline that is active for that pid.
pub get_active_processes_lem :
    {hs : HistoryStore}
    → IsValid hs
    → (s : ProcessSample) → Member s (get_active_processes hs) ↔ IsLatestOf hs s.pid s
unfolding get_active_processes
get_active_processes_lem {hs} v s = (
  λ h.
      let (pid, key, active, last) =
        active_loop-Member hs.processes hs.active_keys s v.active_distinct h in
      subst (λ p. IsLatestOf hs p s) (sym (IsLatestOf-pid v pid s (key, active, last)))
        (key, active, last),
  λ (key, active, last). Member-active_loop hs.processes hs.active_keys s.pid key s active last,
)

pub or_nil-live : (ss : List ProcessSample) → or_nil (live ss) ≡ ss
or_nil-live [] = refl
or_nil-live (s ∷ ss) = refl

pub keep-concat :
    (p : ProcessSample → Bool) (ss : List ProcessSample) (s : ProcessSample)
    → p s ≡ true
    → keep p (ss ++ s ∷ []) ≡ keep p ss ++ s ∷ []
unfolding keep
keep-concat p ss s h = rw (keep-append p ss (s ∷ []), h)

-- The timeline of a process ends with the fresh sample that was added last.
pub samples_of-add_sample :
    (now : ℕ) (s : ProcessSample) (hs : HistoryStore)
    → is_fresh now s ≡ true
    → let key = process_key s.pid s.create_time in
      samples_of key (add_sample now s hs).processes
      ≡ keep (is_fresh now) (samples_of key hs.processes) ++ s ∷ []
samples_of-add_sample now s hs fresh =
    let key = process_key s.pid s.create_time in
    rw (lookup-add_sample now s key hs, eq_refl key, or_nil-live)
      (keep-concat (is_fresh now) (samples_of key hs.processes) s fresh)

-- Adding a fresh sample to a well-formed store makes it one of the active processes.
pub get_active_processes-add_sample :
    (now : ℕ) (s : ProcessSample) {hs : HistoryStore}
    → IsValid hs
    → is_fresh now s ≡ true
    → Member s (get_active_processes (add_sample now s hs))
unfolding add_sample prune_expired_samples
get_active_processes-add_sample now s {hs} v fresh =
    let key = process_key s.pid s.create_time in
    let old = keep (is_fresh now) (samples_of key hs.processes) in
    (get_active_processes_lem (add_sample-IsValid now s v) s).1 (
      key,
      rw (lookup-insert s.pid s.pid key hs.active_keys, eq_refl s.pid),
      ap get_last? (samples_of-add_sample now s hs fresh) ∙ get_last?-concat old s,
    )
