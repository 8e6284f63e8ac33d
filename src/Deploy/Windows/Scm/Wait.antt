-- ===== src/Deploy/Windows/Scm/Wait.antt =====
-- The removal waits a bounded time, and gives back what it takes.
use gitlab_procs_exporter.Prelude.{
  ℕ, zero, suc, ◌+◌, ◌*◌, ◌≤◌, ◌<◌, ◌≡◌, ◌≢◌, refl, sym, subst, Bool, true, false, ◌||◌, Option,
  none, some, [], ◌∷◌, arith, leb, leb→gt, or-eq-false, get_last?, get_last?-concat, Bool-cases,
  if◌then◌else◌, inl, inr,
}
use gitlab_procs_exporter.Deploy.Windows.{SvcStatus}
use gitlab_procs_exporter.Deploy.Windows.Scm.{
  OpenResult, opened, missing, denied, Manager, connect, disconnect, finished, stuck, ScmRun, call,
  defer_call, fail, is_stopped, wait_loop, wait_fuel, sleeps, delete, behind_wait, stop_and_wait,
  by_status, uninstall_opened, uninstall_windows_service, not_deleted, no_manager,
  install_windows_service, install_opened, create_with, local_system, open_service,
}
use mathlib.Core.Option.{none-ne-some}
use gitlab_procs_exporter.Deploy.Install.{InstallHost, ServiceConfig, set_defaults}

-- Each round of the wait sleeps for 300 milliseconds, and the clock does not go back.
abbrev pub IsClock : Manager → Type 0
IsClock m = (m.clock 0 ≤ m.clock 1) × ((n : ℕ) → m.clock (n + 1) + 300 ≤ m.clock (n + 1 + 1))

module _ (m : Manager) (clock : IsClock m) where
  -- A round behind its query, and a round by its test.
  abbrev polled : ℕ → ℕ → ℕ → Option SvcStatus → Option ℕ
  polled fuel n timeout o = elim o [
    | none ↦ some (n + 1)
    | some next ↦ wait_loop m fuel (n + 1) next timeout
  ]

  abbrev round : ℕ → ℕ → ℕ → Bool → Option ℕ
  round fuel n timeout over = elim over [
    | true ↦ some n
    | false ↦ polled fuel n timeout (m.query (n + 1))
  ]

  abbrev Ends : ℕ → ℕ → Option ℕ → Type 0
  Ends fuel n o = (k : ℕ) × (o ≡ some k) × (k ≤ n + fuel)

  polled-Ends :
      (fuel n timeout : ℕ) (o : Option SvcStatus)
      → ((next : SvcStatus) → Ends fuel (n + 1) (wait_loop m (suc fuel) (n + 1) next timeout))
      → Ends (suc fuel) n (polled (suc fuel) n timeout o)
  polled-Ends fuel n timeout none later = (n + 1, refl, omega arith)
  polled-Ends fuel n timeout (some next) later = let (k, e, le) = later next in (k, e, omega arith)

  early :
      (fuel n : ℕ) (status : SvcStatus) (timeout : ℕ)
      → (is_stopped status || leb timeout (m.clock (n + 1))) ≡ false
      → m.clock (n + 1) < timeout
  early fuel n status timeout h =
      leb→gt timeout (m.clock (n + 1)) (or-eq-false (is_stopped status) _ h).1

  wait_loop-Ends :
      (fuel n : ℕ) (status : SvcStatus) (timeout : ℕ)
      → timeout ≤ m.clock (n + 1) + 300 * fuel
      → Ends fuel n (wait_loop m (suc fuel) n status timeout)
  unfolding wait_loop
  wait_loop-Ends zero n status timeout h =
      elim (Bool-cases (is_stopped status || leb timeout (m.clock (n + 1)))) [
        | inl over ↦
            subst (λ b. Ends zero n (round zero n timeout b)) (sym over) (n, refl, omega arith)
        | inr waits ↦ absurd (omega (arith, early zero n status timeout waits))
      ]
  wait_loop-Ends (suc fuel) n status timeout h =
      elim (Bool-cases (is_stopped status || leb timeout (m.clock (n + 1)))) [
        | inl over ↦
            subst (λ b. Ends (suc fuel) n (round (suc fuel) n timeout b)) (sym over)
              (n, refl, omega arith)
        | inr waits ↦
            subst (λ b. Ends (suc fuel) n (round (suc fuel) n timeout b)) (sym waits)
              (polled-Ends fuel n timeout (m.query (n + 1))
                (λ next. wait_loop-Ends fuel (n + 1) next timeout (omega (arith, clock.1 n))))
      ]

  abbrev IsOver : ScmRun → Type 0
  IsOver r = r.0 ≢ stuck

  if-IsOver : (b : Bool) (x y : ScmRun) → IsOver x → IsOver y → IsOver (if b then x else y)
  if-IsOver true x y hx hy = hx
  if-IsOver false x y hx hy = hy

  delete-IsOver : IsOver (delete m)
  delete-IsOver = if-IsOver m.deletes (finished, []) (fail not_deleted) (λ q. cc) (λ q. cc)

  sleeps-IsOver : (n : ℕ) (rest : ScmRun) → IsOver rest → IsOver (sleeps n rest)
  unfolding sleeps
  sleeps-IsOver zero rest h = h
  sleeps-IsOver (suc n) rest h = sleeps-IsOver n rest h

  behind_wait-IsOver : (o : Option ℕ) → Ends 34 0 o → IsOver (behind_wait m o)
  behind_wait-IsOver none (k, e, le) = absurd (none-ne-some k e)
  behind_wait-IsOver (some rounds) h = sleeps-IsOver rounds (delete m) delete-IsOver

  by_status-IsOver : (o : Option SvcStatus) → IsOver (by_status m o)
  by_status-IsOver none = delete-IsOver
  by_status-IsOver (some status) =
      if-IsOver (is_stopped status) (delete m) (stop_and_wait m status) delete-IsOver (
        if-IsOver m.stops (behind_wait m _) (delete m)
          (behind_wait-IsOver (wait_loop m wait_fuel 0 status (m.clock 0 + 10_000))
            (wait_loop-Ends 34 0 status (m.clock 0 + 10_000) (omega (arith, clock.0))))
          delete-IsOver)

  uninstall_opened-IsOver : (o : OpenResult) → IsOver (uninstall_opened m o)
  uninstall_opened-IsOver missing = λ q. cc
  uninstall_opened-IsOver denied = λ q. cc
  uninstall_opened-IsOver opened = by_status-IsOver (m.query 0)

  -- The removal of the Windows service comes to an end, with success or an error: within 34 rounds the
  -- wait for it to stop is over, if each round takes the 300 milliseconds that it sleeps.
  pub uninstall_windows_service_ends : (uninstall_windows_service m).0 ≢ stuck
  unfolding uninstall_windows_service
  uninstall_windows_service_ends =
      if-IsOver m.connects _ (fail no_manager) (uninstall_opened-IsOver m.opens) (λ q. cc)

-- Where the manager is reached, the last call of an installation and of a removal is to give it back,
-- whatever failed before.
pub windows_service-disconnect :
    (m : Manager) (h : InstallHost) (cfg : ServiceConfig)
    → m.connects ≡ true
    → (get_last? (uninstall_windows_service m).1 ≡ some disconnect)
      × (get_last? (install_windows_service m h cfg).1 ≡ some disconnect)
unfolding uninstall_windows_service install_windows_service
windows_service-disconnect m h cfg reached = (
  last_call (uninstall_opened m m.opens),
  last_call (install_opened m.opens (create_with m h (set_defaults local_system cfg))),
)
  where
    last_call :
        (r : ScmRun)
        → get_last?
            (call connect (
              if m.connects
              then defer_call disconnect (call open_service r)
              else fail no_manager)).1
          ≡ some disconnect
    last_call r = rw reached (get_last?-concat (connect ∷ (open_service ∷ r.1)) disconnect)
