-- ===== src/Deploy/Windows/Protocol.antt =====
-- The statuses of the service in their order, when it ends, and what it reports of its run.
use gitlab_procs_exporter.Prelude.{
  ℕ, ◌≡◌, ◌⊎◌, refl, ap, Bool, true, false, Option, none, some, List, [], ◌∷◌, ◌++◌, Bool-cases,
  if◌then◌else◌, inl, inr,
}
use gitlab_procs_exporter.Deploy.Windows.{
  interrogate, stop, shutdown, other_cmd, SvcStatus, start_pending, stop_pending, stopped,
  status_of, running_status, RunResult, SvcEvent, control, returned, is_failure, Execution, sent,
  stop_with, execute_loop, execute, run_error, run_windows_service,
}

-- An event that the service does not outlive.
abbrev pub Ends : SvcEvent → Type 0
Ends (control stop current) = Unit
Ends (control shutdown current) = Unit
Ends (control interrogate current) = ⊥
Ends (control (other_cmd n) current) = ⊥
Ends (returned err) = Unit

abbrev pub EndsAmong : List SvcEvent → Type 0
EndsAmong [] = ⊥
EndsAmong (e ∷ events) = Ends e ⊎ EndsAmong events

-- The statuses of the interrogations before the first event that ends the service.
unfoldable pub answers : List SvcEvent → List SvcStatus
answers [] = []
answers (control interrogate current ∷ events) = current ∷ answers events
answers (control stop current ∷ events) = []
answers (control shutdown current ∷ events) = []
answers (control (other_cmd n) current ∷ events) = answers events
answers (returned err ∷ events) = []

-- What the run comes to by the first event that ends the service: its own end, or else, behind a
-- request to stop, what it returns once it is canceled, if it does.
unfoldable pub run_result : Option RunResult → List SvcEvent → Option RunResult
run_result last [] = none
run_result last (control interrogate current ∷ events) = run_result last events
run_result last (control stop current ∷ events) = last
run_result last (control shutdown current ∷ events) = last
run_result last (control (other_cmd n) current ∷ events) = run_result last events
run_result last (returned err ∷ events) = some err

-- The run ended before a request to stop came.
unfoldable pub ends_alone : List SvcEvent → Bool
ends_alone [] = false
ends_alone (control interrogate current ∷ events) = ends_alone events
ends_alone (control stop current ∷ events) = false
ends_alone (control shutdown current ∷ events) = false
ends_alone (control (other_cmd n) current ∷ events) = ends_alone events
ends_alone (returned err ∷ events) = true

-- The exit code is 1 exactly for a failure of a run that was not asked to stop, and what the service
-- returns is the failure, if there is one.
abbrev pub IsReported : Bool → RunResult → Execution → Type 0
IsReported alone r x =
    ((err : RunResult) × (x.exit
        ≡ some (if alone then (if is_failure r then 1 else 0) else 0, err)))
    × (run_windows_service true x ≡ (if is_failure r then some (run_error r) else none))

-- How the service ends: it has stopped, or is still waiting for the run.
abbrev pub IsClosed : Bool → Option RunResult → List SvcStatus → Execution → Type 0
IsClosed alone none before x =
    (x.exit ≡ none) × (x.statuses ≡ before ++ (status_of stop_pending ∷ []))
IsClosed alone (some r) before x =
    IsReported alone r x
    × (x.statuses ≡ before ++ (status_of stop_pending ∷ (status_of stopped ∷ [])))

-- How the loop goes on or ends, behind the statuses before it.
abbrev pub IsRun : Option RunResult → List SvcEvent → List SvcStatus → Execution → Type 0
IsRun last events before x =
    (EndsAmong events × IsClosed (ends_alone events) (run_result last events) before x)
    ⊎ ((¬ EndsAmong events) × (x.exit ≡ none) × (x.statuses ≡ before))

sent-IsClosed :
    (s : SvcStatus) (alone : Bool) (o : Option RunResult) (before : List SvcStatus) (x : Execution)
    → IsClosed alone o before x
    → IsClosed alone o (s ∷ before) (sent s x)
unfolding run_windows_service
sent-IsClosed s alone none before x (going, e) = (going, ap (λ t. s ∷ t) e)
sent-IsClosed s alone (some r) before x (h, e) = (h, ap (λ t. s ∷ t) e)

sent-IsRun :
    (s : SvcStatus) (last : Option RunResult) (events : List SvcEvent) (before : List SvcStatus)
    (x : Execution)
    → IsRun last events before x
    → IsRun last events (s ∷ before) (sent s x)
sent-IsRun s last events before x (inl (among, h)) =
    inl (among, sent-IsClosed s (ends_alone events) (run_result last events) before x h)
sent-IsRun s last events before x (inr (quiet, going, e)) = inr (quiet, going, ap (λ t. s ∷ t) e)

stop_with-IsClosed : (last : Option RunResult) → IsClosed false last [] (stop_with last)
unfolding run_windows_service
stop_with-IsClosed none = (refl, refl)
stop_with-IsClosed (some r) = (((_, refl), kept), refl)
  where
    kept :
        run_windows_service true (stop_with (some r))
        ≡ (if is_failure r then some (run_error r) else none)
    kept = elim (Bool-cases (is_failure r)) [
      | inl bad ↦ rw bad (rw bad refl)
      | inr good ↦ rw good refl
    ]

skip-IsRun :
    (last : Option RunResult) (n : ℕ) (current : SvcStatus) (events : List SvcEvent) (x : Execution)
    → IsRun last events (answers events) x
    → IsRun last (control (other_cmd n) current ∷ events) (answers events) x
unfolding run_result ends_alone
skip-IsRun last n current events x (inl (among, h)) = inl (inr among, h)
skip-IsRun last n current events x (inr (quiet, going, e)) =
    inr ((λ h. elim h [ inl k ↦ k | inr k ↦ quiet k ]), going, e)

answer-IsRun :
    (last : Option RunResult) (s current : SvcStatus) (events : List SvcEvent) (x : Execution)
    → IsRun last events (s ∷ answers events) x
    → IsRun last (control interrogate current ∷ events) (s ∷ answers events) x
unfolding run_result ends_alone
answer-IsRun last s current events x (inl (among, h)) = inl (inr among, h)
answer-IsRun last s current events x (inr (quiet, going, e)) =
    inr ((λ h. elim h [ inl k ↦ k | inr k ↦ quiet k ]), going, e)

execute_loop-IsRun :
    (last : Option RunResult) (events : List SvcEvent)
    → IsRun last events (answers events) (execute_loop last events)
unfolding execute_loop answers run_result ends_alone run_windows_service
execute_loop-IsRun last [] = inr ((λ h. h), refl, refl)
execute_loop-IsRun last (control interrogate current ∷ events) =
    answer-IsRun last current current events _ (
      sent-IsRun current last events (answers events) (execute_loop last events)
        (execute_loop-IsRun last events))
execute_loop-IsRun last (control stop current ∷ events) = inl (inl tt, stop_with-IsClosed last)
execute_loop-IsRun last (control shutdown current ∷ events) = inl (inl tt, stop_with-IsClosed last)
execute_loop-IsRun last (control (other_cmd n) current ∷ events) =
    skip-IsRun last n current events _ (execute_loop-IsRun last events)
execute_loop-IsRun last (returned err ∷ events) = inl (inl tt, (((err, refl), refl), refl))

-- The service reports that it starts, and that it runs and takes stop and shutdown, answers the
-- interrogations in their order, and goes on until the first request to stop or shut down, or the end
-- of its run. Then it reports that it stops. If the run has ended, or ends once it is canceled, the
-- service reports that it has stopped, and returns: the exit code is 1 exactly where the run failed
-- before any request to stop, and the error is that of the run, unless it is a cancellation. If a
-- canceled run does not return, neither does the service.
pub execute_lem :
    (last : Option RunResult) (events : List SvcEvent)
    → IsRun last events
        (status_of start_pending ∷ (running_status ∷ answers events))
        (execute last events)
unfolding execute
execute_lem last events =
    sent-IsRun (status_of start_pending) last events (running_status ∷ answers events) _ (
      sent-IsRun running_status last events (answers events) (execute_loop last events)
        (execute_loop-IsRun last events))
