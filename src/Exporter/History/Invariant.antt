-- ===== src/Exporter/History/Invariant.antt =====
-- The well-formed stores, and that every operation keeps them.
use gitlab_procs_exporter.Prelude.{
  ℕ, ◌≡◌, ◌≢◌, refl, sym, ◌∙◌, Bool, none, some, List, [], ◌∷◌, ◌++◌, arith, All, All-append, ◌==◌,
  eq_iff, int_eq, list_eq, nat_eq, if◌then◌else◌, keep, inl, inr, eq_refl, Bool-cases, Option-cases,
}
use gitlab_procs_exporter.Prelude.Int.{ℤ}
use gitlab_procs_exporter.Prelude.Text.{Text}
use gitlab_procs_exporter.Prelude.Map.{lookup, insert, lookup-insert, IsDistinct, insert-IsDistinct}
use gitlab_procs_exporter.Exporter.History.{
  ProcessSample, HistoryStore, is_fresh, samples_of, process_key, prune_expired_samples, prune_all,
  add_sample, deactivate_last,
}
use gitlab_procs_exporter.Exporter.History.Prune.{
  live, live-eq-some, pruned, lookup-store_valid, lookup-prune_loop, store_valid-IsDistinct,
}

abbrev pub HasKey : Text → ProcessSample → Type 0
HasKey key s = process_key s.pid s.create_time ≡ key

-- A key that belongs to a pid.
abbrev pub IsKeyOf : ℤ → Text → Type 0
IsKeyOf pid key = (create_time : ℤ) × (key ≡ process_key pid create_time)

pub record IsValid (hs : HistoryStore) : Type 0 where
  pub processes_distinct : IsDistinct hs.processes
  pub active_distinct : IsDistinct hs.active_keys
  pub nonempty :
      (key : Text) (ss : List ProcessSample) → lookup key hs.processes ≡ some ss → ss ≢ []
  pub keyed :
      (key : Text) (ss : List ProcessSample)
      → lookup key hs.processes ≡ some ss
      → All (HasKey key) ss
  pub owned : (pid : ℤ) (key : Text) → lookup pid hs.active_keys ≡ some key → IsKeyOf pid key

pub All-keep {ℓ κ} :
    {A : Type ℓ} (P : A → Type κ) (p : A → Bool) (xs : List A) → All P xs → All P (keep p xs)
unfolding keep
All-keep P p [] h = tt
All-keep P p (x ∷ xs) h = elim (Bool-cases (p x)) [
  | inl e ↦ rw e (h.0, All-keep P p xs h.1)
  | inr e ↦ rw e (All-keep P p xs h.1)
]

pub All-deactivate_last :
    (key : Text) (ss : List ProcessSample)
    → All (HasKey key) ss
    → All (HasKey key) (deactivate_last ss)
unfolding deactivate_last
All-deactivate_last key [] h = tt
All-deactivate_last key (s ∷ []) h = (h.0, tt)
All-deactivate_last key (s ∷ (t ∷ ts)) h = (h.0, All-deactivate_last key (t ∷ ts) h.1)

pub deactivate_last-ne-nil : (ss : List ProcessSample) → ss ≢ [] → deactivate_last ss ≢ []
unfolding deactivate_last
deactivate_last-ne-nil [] h = h
deactivate_last-ne-nil (s ∷ []) h = cc
deactivate_last-ne-nil (s ∷ (t ∷ ts)) h = cc

-- The entry of a key after `AddSample`.
pub lookup-add_sample :
    (now : ℕ) (s : ProcessSample) (j : Text) (hs : HistoryStore)
    → let key = process_key s.pid s.create_time in
      lookup j (add_sample now s hs).processes ≡ (
        if key == j
        then live (keep (is_fresh now) (samples_of key hs.processes ++ s ∷ []))
        else lookup j hs.processes)
unfolding add_sample prune_expired_samples
lookup-add_sample now s j hs =
    let key = process_key s.pid s.create_time in
    let grown = samples_of key hs.processes ++ s ∷ [] in
    let valid = keep (is_fresh now) grown in
    let m = insert key grown hs.processes in
    ground (
      arith,
      eq_iff key j,
      eq_refl key,
      lookup-store_valid key j valid m,
      lookup-insert key j grown hs.processes,
      lookup-insert key key grown hs.processes,
    )

-- What the two steps of `MarkInactive` leave under one key.
pub lookup-prune_all :
    (now : ℕ) (j : Text) (hs : HistoryStore)
    → IsDistinct hs.processes
    → lookup j (prune_all now hs).processes ≡ pruned now (lookup j hs.processes) none
unfolding prune_all
lookup-prune_all now j hs h = ground (arith, lookup-prune_loop now j hs.processes hs.processes h)

pub samples_of-HasKey :
    (key : Text) {hs : HistoryStore} → IsValid hs → All (HasKey key) (samples_of key hs.processes)
samples_of-HasKey key {hs} v = elim (Option-cases (lookup key hs.processes)) [
  | inl e ↦ rw e tt
  | inr (ss, e) ↦ rw e (v.keyed key ss e)
]

module _ (now : ℕ) (s : ProcessSample) {hs : HistoryStore} (v : IsValid hs) where
  add_sample_entry :
      (j : Text) (ss : List ProcessSample)
      → lookup j (add_sample now s hs).processes ≡ some ss
      → (ss ≢ []) × All (HasKey j) ss
  add_sample_entry j ss h =
      let key = process_key s.pid s.create_time in
      let grown = samples_of key hs.processes ++ s ∷ [] in
      let at_j = sym (lookup-add_sample now s j hs) ∙ h in
      elim (Bool-cases (key == j)) [
        | inl same ↦
            let (e, full) = live-eq-some (keep (is_fresh now) grown) (rw same at at_j) in
            (
              full,
              rw (← e, ← (eq_iff key j).0 same)
                  (All-keep (HasKey key) (is_fresh now) grown (
                    All-append (HasKey key) (samples_of key hs.processes) (s ∷ [])
                      (samples_of-HasKey key v) (refl, tt))),
            )
        | inr other ↦ let old = rw other at at_j in (v.nonempty j ss old, v.keyed j ss old)
      ]

  pub add_sample-IsValid : IsValid (add_sample now s hs)
  unfolding add_sample prune_expired_samples
  add_sample-IsValid = record {
    processes_distinct =
        store_valid-IsDistinct _ _ _ (insert-IsDistinct _ _ _ v.processes_distinct);
    active_distinct = insert-IsDistinct _ _ _ v.active_distinct;
    nonempty = λ j ss h. (add_sample_entry j ss h).0;
    keyed = λ j ss h. (add_sample_entry j ss h).1;
    owned = λ pid key h.
        let at_pid =
          sym (lookup-insert s.pid pid (process_key s.pid s.create_time) hs.active_keys) ∙ h in
        elim (Bool-cases (s.pid == pid)) [
          | inl same ↦ (s.create_time, ground (arith, eq_iff s.pid pid))
          | inr other ↦ v.owned pid key (rw other at at_pid)
        ];
  }
