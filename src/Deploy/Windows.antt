-- ===== src/Deploy/Windows.antt =====
-- deploy/service_windows.go: the service under the control manager of Windows.
pub mod Protocol
pub mod Scm
use gitlab_procs_exporter.Prelude.{
  ℕ, Bool, true, false, not, ◌&&◌, Option, none, some, List, [], ◌∷◌, ◌++◌, if◌then◌else◌,
}

-- The control requests of the manager.
pub data Cmd : Type 0 where
  interrogate stop shutdown : Cmd
  other_cmd : ℕ → Cmd

-- The states that the manager knows of a service.
pub data SvcState : Type 0 where
  start_pending running stop_pending stopped continue_pending pause_pending paused : SvcState

-- A request that a status can say is accepted.
pub data Accepted : Type 0 where
  accept_stop accept_shutdown : Accepted
  accept_other : ℕ → Accepted

pub record SvcStatus : Type 0 where
  pub state : SvcState
  pub accepts : List Accepted

-- `svc.Status{State: state}`
abbrev pub status_of : SvcState → SvcStatus
status_of state = record { state = state; accepts = [] }

-- `svc.Status{State: svc.Running, Accepts: cmdsAccepted}`
abbrev pub running_status : SvcStatus
running_status = record { state = running; accepts = accept_stop ∷ (accept_shutdown ∷ []) }

-- What `runFn` returns: nil, an error that is context.Canceled, or another.
pub data RunResult : Type 0 where
  fine canceled : RunResult
  broken : ℕ → RunResult

-- What the `select` of the loop takes next: a control request with the status that the manager knows,
-- or the end of `runFn`.
pub data SvcEvent : Type 0 where
  control : Cmd → SvcStatus → SvcEvent
  returned : RunResult → SvcEvent

-- `err != nil && !errors.Is(err, context.Canceled)`
unfoldable pub is_failure : RunResult → Bool
is_failure fine = false
is_failure canceled = false
is_failure (broken e) = true

-- The statuses that were sent, and, where the handler has returned, the exit code and its `err`.
pub record Execution : Type 0 where
  pub statuses : List SvcStatus
  pub exit : Option (ℕ × RunResult)

abbrev pub sent : SvcStatus → Execution → Execution
sent s x = record x { statuses = s ∷ x.statuses }

-- The exit code and `err`, behind the status that the service has stopped.
abbrev pub ended : ℕ → RunResult → Execution
ended code err = record { statuses = status_of stopped ∷ []; exit = some (code, err) }

-- `err := <-errCh` blocks for good where `runFn` does not return; only a failure is kept.
abbrev pub await_run : Option RunResult → Execution
await_run none = record { statuses = []; exit = none }
await_run (some last) = ended 0 (if is_failure last then last else fine)

-- A stop cancels `runFn` and waits for it.
abbrev pub stop_with : Option RunResult → Execution
stop_with last = sent (status_of stop_pending) (await_run last)

-- The loop of `Execute`, over what it takes. `last` is what `runFn` returns once it is canceled, if it
-- does return.
unfoldable pub execute_loop : Option RunResult → List SvcEvent → Execution
unfolding is_failure
execute_loop last [] = record { statuses = []; exit = none }
execute_loop last (control interrogate current ∷ events) = sent current (execute_loop last events)
execute_loop last (control stop current ∷ events) = stop_with last
execute_loop last (control shutdown current ∷ events) = stop_with last
execute_loop last (control (other_cmd n) current ∷ events) = execute_loop last events
execute_loop last (returned err ∷ events) =
    sent (status_of stop_pending) (ended (if is_failure err then 1 else 0) err)

unfoldable pub execute : Option RunResult → List SvcEvent → Execution
unfolding execute_loop
execute last events =
    sent (status_of start_pending) (sent running_status (execute_loop last events))

abbrev handler_err : Option (ℕ × RunResult) → RunResult
handler_err none = fine
handler_err (some (code, err)) = err

-- `RunWindowsService`: the error that it returns, `none` for nil. `dispatched` is whether `svc.Run`
-- succeeds.
pub data ServiceError : Type 0 where
  not_dispatched : ServiceError
  run_error : RunResult → ServiceError

unfoldable pub run_windows_service : Bool → Execution → Option ServiceError
unfolding is_failure
run_windows_service dispatched x =
    if not dispatched
    then some not_dispatched
    else if is_failure (handler_err x.exit)
    then some (run_error (handler_err x.exit))
    else none
