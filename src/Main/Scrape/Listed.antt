-- ===== src/Main/Scrape/Listed.antt =====
-- After a scrape only listed pids are active or cached, and the store is well formed.
use gitlab_procs_exporter.Prelude.{
  ◌≡◌, ◌≢◌, ◌⊎◌, inl, inr, refl, sym, ap, subst, ◌∙◌, Bool, true, false, not, Option, none, some,
  List, [], ◌∷◌, arith, Member, ◌==◌, eq_iff, int_eq, if◌then◌else◌, Bool-cases, Option-cases,
}
use mathlib.Core.Bool.{false≢true}
use gitlab_procs_exporter.Prelude.Int.{ℤ}
use gitlab_procs_exporter.Prelude.Text.{Text}
use gitlab_procs_exporter.Prelude.Map.{
  Map, lookup, insert, delete, keys, lookup-insert, lookup-delete, lookup-some-Member,
}
use gitlab_procs_exporter.Exporter.History.{HistoryStore, mark_inactive, is_seen}
use gitlab_procs_exporter.Exporter.History.Invariant.{IsValid, add_sample-IsValid}
use gitlab_procs_exporter.Exporter.History.Mark.{mark_inactive_lem, mark_inactive-IsValid}
use gitlab_procs_exporter.Exporter.Redact.{Floats}
use gitlab_procs_exporter.Main.Scrape.{
  Handle, Reading, Host, Cache, live_process, sample_of, store_named, store_process, Scraper,
  scrape_loop, purge_loop, finish_scrape, scrape_listed, scrape,
}

module _ (fl : Floats) (host : Host) (in_cluster : Bool) where
  store_named-IsValid :
      (pid : ℤ) (o : Option Text) (r : Reading) {hs : HistoryStore}
      → IsValid hs
      → IsValid (store_named fl host in_cluster pid o r hs)
  unfolding store_named
  store_named-IsValid pid none r v = v
  store_named-IsValid pid (some name) r v =
      add_sample-IsValid (host.add_clock pid) (sample_of fl host in_cluster pid name r) v

  store_process-IsValid :
      (pid : ℤ) (o : Option Handle) {hs : HistoryStore}
      → IsValid hs
      → IsValid (store_process fl host in_cluster pid o hs)
  unfolding store_process
  store_process-IsValid pid none v = v
  store_process-IsValid pid (some p) v =
      store_named-IsValid pid (host.reading p).name (host.reading p) v

  scrape_loop-IsValid :
      (pids : List ℤ) (active : Map ℤ Bool) (st : Scraper)
      → IsValid st.store
      → IsValid (scrape_loop fl host in_cluster pids active st).1.store
  unfolding scrape_loop
  scrape_loop-IsValid [] active st v = v
  scrape_loop-IsValid (pid ∷ pids) active st v =
      let (handle, cache) = live_process host pid st.proc_cache in
      scrape_loop-IsValid pids (insert pid true active)
        (record {
          store = store_process fl host in_cluster pid handle st.store;
          proc_cache = cache;
        })
        (store_process-IsValid pid handle v)

  -- What is marked as seen was so before, or is listed.
  seen_is_listed :
      (pids : List ℤ) (active : Map ℤ Bool) (st : Scraper) (j : ℤ)
      → is_seen (scrape_loop fl host in_cluster pids active st).0 j ≡ true
      → (is_seen active j ≡ true) ⊎ Member j pids
  unfolding scrape_loop
  seen_is_listed [] active st j h = inl h
  seen_is_listed (pid ∷ pids) active st j h =
      let (handle, cache) = live_process host pid st.proc_cache in
      elim (seen_is_listed pids (insert pid true active)
        (record {
          store = store_process fl host in_cluster pid handle st.store;
          proc_cache = cache;
        })
        j h) [
          | inl seen ↦ elim (Bool-cases (pid == j)) [
            | inl same ↦ inr (inl (sym ((eq_iff pid j).0 same)))
            | inr other ↦ inl (ground (arith, lookup-insert pid j true active))
          ]
          | inr m ↦ inr (inr m)
        ]

after_purge :
    (b : Bool) (pid j : ℤ) (cache : Cache)
    → lookup j (if not b then delete pid cache else cache) ≢ none
    → (lookup j cache ≢ none) × (j ≡ pid → b ≡ true)
after_purge true pid j cache h = (h, λ _. refl)
after_purge false pid j cache h = elim (Bool-cases (pid == j)) [
  | inl same ↦ absurd (h (rw same at (lookup-delete pid j cache)))
  | inr other ↦ (
    λ e. h (rw other at (lookup-delete pid j cache) ∙ e),
    λ e. absurd (false≢true (sym other ∙ (eq_iff pid j).1 (sym e))),
  )
]

lookup-purge_loop :
    (active : Map ℤ Bool) (j : ℤ) (entries cache : Cache)
    → lookup j (purge_loop active entries cache) ≢ none
    → (lookup j cache ≢ none) × (Member j (keys entries) → is_seen active j ≡ true)
unfolding purge_loop
lookup-purge_loop active j [] cache h = (h, λ m. absurd m)
lookup-purge_loop active j ((pid, p) ∷ rest) cache h =
    let (kept, later) =
      lookup-purge_loop active j rest (if not (is_seen active pid) then delete pid cache else cache)
        h in
    let (there, here) = after_purge (is_seen active pid) pid j cache kept in
    (there, λ m. elim m [ inl e ↦ ap (is_seen active) e ∙ here e | inr k ↦ later k ])

-- A pid is in the map only if it is one of the list.
abbrev pub IsListed {ℓ} : {V : Type ℓ} → List ℤ → Map ℤ V → Type ℓ
IsListed pids m = (pid : ℤ) → lookup pid m ≢ none → Member pid pids

module _ (fl : Floats) (host : Host) (in_cluster : Bool) (pids : List ℤ) (st : Scraper) where
  abbrev looped : Map ℤ Bool × Scraper
  looped = scrape_loop fl host in_cluster pids [] st

  seen_pid : (pid : ℤ) → is_seen looped.0 pid ≡ true → Member pid pids
  unfolding lookup
  seen_pid pid seen = elim (seen_is_listed fl host in_cluster pids [] st pid seen) [
    | inl none_before ↦ absurd (false≢true none_before)
    | inr m ↦ m
  ]

  cached-IsListed : IsListed pids (purge_loop looped.0 looped.1.proc_cache looped.1.proc_cache)
  cached-IsListed pid h =
      let (there, seen) =
        lookup-purge_loop looped.0 pid looped.1.proc_cache looped.1.proc_cache h in
      elim (Option-cases (lookup pid looped.1.proc_cache)) [
        | inl missing ↦ absurd (there missing)
        | inr (p, found) ↦ seen_pid pid (seen (lookup-some-Member pid looped.1.proc_cache found))
      ]

  active-IsListed :
      IsValid looped.1.store
      → IsListed pids (mark_inactive host.mark_clock looped.0 looped.1.store).active_keys
  active-IsListed v pid h = elim (Bool-cases (is_seen looped.0 pid)) [
    | inl seen ↦ seen_pid pid seen
    | inr other ↦ absurd (h (rw other at ((mark_inactive_lem host.mark_clock looped.0 v).1 pid)))
  ]

abbrev IsScraped : List ℤ → Scraper → Type 0
IsScraped pids st =
    IsValid st.store × IsListed pids st.store.active_keys × IsListed pids st.proc_cache

-- A scrape that gets the list of pids leaves a well-formed store well formed, and every pid that is
-- active or has a cached handle behind it is one of the list.
pub scrape_lem :
    (fl : Floats) (host : Host) (in_cluster : Bool) (pids : List ℤ) (st : Scraper)
    → host.pids ≡ some pids
    → IsValid st.store
    → let st' = scrape fl host in_cluster st in
      IsValid st'.store × IsListed pids st'.store.active_keys × IsListed pids st'.proc_cache
unfolding scrape scrape_listed finish_scrape
scrape_lem fl host in_cluster pids st listed v =
    let v' = scrape_loop-IsValid fl host in_cluster pids [] st v in
    subst (λ o. IsScraped pids (scrape_listed fl host in_cluster o st)) (sym listed)
      (
        mark_inactive-IsValid host.mark_clock (looped fl host in_cluster pids st).0 v',
        active-IsListed fl host in_cluster pids st v',
        cached-IsListed fl host in_cluster pids st,
      )
