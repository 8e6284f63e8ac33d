-- ===== src/Deploy/Windows/Scm.antt =====
-- deploy/service_windows.go: installation and removal of the service, as the calls that they make of
-- the service control manager.
pub mod Wait
use gitlab_procs_exporter.Prelude.{
  ℕ, zero, suc, ◌+◌, Bool, true, false, not, ◌&&◌, ◌||◌, Option, none, some, List, [], ◌∷◌, ◌++◌,
  ◌==◌, list_eq, nat_eq, leb, if◌then◌else◌,
}
use gitlab_procs_exporter.Prelude.Int.{ℤ}
use gitlab_procs_exporter.Prelude.Text.{Text, codes}
use gitlab_procs_exporter.Prelude.Decimal.{format_int}
use gitlab_procs_exporter.Deploy.{binary_name}
use gitlab_procs_exporter.Deploy.Install.{
  InstallHost, ServiceConfig, set_defaults, resolve_exec_path,
}
use gitlab_procs_exporter.Deploy.Windows.{
  SvcState, start_pending, running, stop_pending, stopped, continue_pending, pause_pending, paused,
  SvcStatus,
}

pub data OpenResult : Type 0 where
  opened missing denied : OpenResult

-- The answers of the manager. The n-th query of the status fails with `none`; the clock, in
-- milliseconds, is read once for the deadline and then before each round of the wait.
pub record Manager : Type 0 where
  pub connects : Bool
  pub opens : OpenResult
  pub creates : Bool
  pub recovers : Bool
  pub query : ℕ → Option SvcStatus
  pub stops : Bool
  pub deletes : Bool
  pub clock : ℕ → ℕ

-- What a service is created with: its name, its program with the arguments, and the account, where it
-- is not the default one.
pub data ScmCall : Type 0 where
  connect disconnect open_service close_service set_recovery query_status control_stop : ScmCall
  sleep_query delete_service : ScmCall
  create_service : Text → Text → List Text → Option Text → ScmCall

pub data ScmError : Type 0 where
  no_manager already_exists not_created not_opened not_deleted : ScmError

-- `stuck` is the outcome of a wait that runs out of fuel.
pub data ScmOutcome : Type 0 where
  finished stuck : ScmOutcome
  failed : ScmError → ScmOutcome

abbrev pub ScmRun : Type 0
ScmRun = ScmOutcome × List ScmCall

abbrev pub call : ScmCall → ScmRun → ScmRun
call c (o, calls) = (o, c ∷ calls)

-- `defer`
abbrev pub defer_call : ScmCall → ScmRun → ScmRun
defer_call c (o, calls) = (o, calls ++ (c ∷ []))

abbrev pub fail : ScmError → ScmRun
fail e = (failed e, [])

unfoldable pub windows_service_args : InstallHost → ServiceConfig → List Text
unfolding format_int
windows_service_args h c =
    (codes "--port=" ++ format_int c.port)
    ∷ ((codes "--interval=" ++ h.show_duration c.interval)
        ∷ (if c.config_path == [] then [] else (codes "--config=" ++ c.config_path) ∷ []))

abbrev pub local_system : Text
local_system = codes "LocalSystem"

abbrev account : Text → Option Text
account user = if not (user == []) && not (user == local_system) then some user else none

-- The end of the installation: that the recovery cannot be set is a warning.
abbrev pub created : ScmRun
created = defer_call close_service (call set_recovery (finished, []))

abbrev pub create_with : Manager → InstallHost → ServiceConfig → ScmRun
create_with m h c =
    call
      (create_service c.service_name (resolve_exec_path h (binary_name ++ codes ".exe") c.exec_path)
        (windows_service_args h c) (account c.service_user))
      (if m.creates then created else fail not_created)

abbrev pub install_opened : OpenResult → ScmRun → ScmRun
install_opened opened rest = call close_service (fail already_exists)
install_opened missing rest = rest
install_opened denied rest = rest

unfoldable pub install_windows_service : Manager → InstallHost → ServiceConfig → ScmRun
unfolding set_defaults resolve_exec_path windows_service_args
install_windows_service m h cfg =
    let c = set_defaults local_system cfg in
    call connect (
      if m.connects
      then defer_call disconnect (call open_service (install_opened m.opens (create_with m h c)))
      else fail no_manager)

abbrev is_stopped_state : SvcState → Bool
is_stopped_state stopped = true
is_stopped_state start_pending = false
is_stopped_state running = false
is_stopped_state stop_pending = false
is_stopped_state continue_pending = false
is_stopped_state pause_pending = false
is_stopped_state paused = false

-- `status.State == svc.Stopped`
abbrev pub is_stopped : SvcStatus → Bool
is_stopped status = is_stopped_state status.state

-- The loop of the wait: the number of its rounds, where the fuel is enough for them. `n` rounds are
-- over.
unfoldable pub wait_loop : Manager → ℕ → ℕ → SvcStatus → ℕ → Option ℕ
wait_loop m zero n status timeout = none
wait_loop m (suc fuel) n status timeout =
    elim (is_stopped status || leb timeout (m.clock (n + 1))) [
      | true ↦ some n
      | false ↦ elim (m.query (n + 1)) [
        | none ↦ some (n + 1)
        | some next ↦ wait_loop m fuel (n + 1) next timeout
      ]
    ]

abbrev pub wait_fuel : ℕ
wait_fuel = 35

unfoldable pub sleeps : ℕ → ScmRun → ScmRun
sleeps zero rest = rest
sleeps (suc n) rest = call sleep_query (sleeps n rest)

abbrev pub delete : Manager → ScmRun
delete m = call delete_service (if m.deletes then (finished, []) else fail not_deleted)

abbrev pub behind_wait : Manager → Option ℕ → ScmRun
behind_wait m none = (stuck, [])
behind_wait m (some rounds) = sleeps rounds (delete m)

-- The deadline is ten seconds away.
abbrev pub stop_and_wait : Manager → SvcStatus → ScmRun
stop_and_wait m status = call control_stop (
    if m.stops
    then behind_wait m (wait_loop m wait_fuel 0 status (m.clock 0 + 10_000))
    else delete m)

abbrev pub by_status : Manager → Option SvcStatus → ScmRun
by_status m none = delete m
by_status m (some status) = if is_stopped status then delete m else stop_and_wait m status

abbrev pub uninstall_opened : Manager → OpenResult → ScmRun
uninstall_opened m missing = (finished, [])
uninstall_opened m denied = fail not_opened
uninstall_opened m opened = defer_call close_service (call query_status (by_status m (m.query 0)))

unfoldable pub uninstall_windows_service : Manager → ScmRun
unfolding wait_loop sleeps
uninstall_windows_service m = call connect (
    if m.connects
    then defer_call disconnect (call open_service (uninstall_opened m m.opens))
    else fail no_manager)
