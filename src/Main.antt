-- ===== src/Main.antt =====
-- main.go: which action a command line selects, and the two JSON endpoints.
pub mod Action
pub mod Api
pub mod Scrape
pub mod Tests
use gitlab_procs_exporter.Prelude.{
  ℕ, Bool, true, false, not, ◌||◌, Option, none, some, List, [], ◌∷◌, ◌==◌, list_eq, nat_eq,
  list_beq, if◌then◌else◌, map,
}
use gitlab_procs_exporter.Prelude.Text.{Text, codes, Unicode}
use gitlab_procs_exporter.Prelude.Map.{Map}
use gitlab_procs_exporter.Exporter.History.{
  ProcessSample, HistoryStore, get_active_processes, query_history,
}
use gitlab_procs_exporter.Exporter.Redact.{Floats, redact_environ}

-- The options that select an action.
pub record CliOptions : Type 0 where
  pub show_version : Bool
  pub check_deps : Bool
  pub deploy_systemd : Bool
  pub deploy_windows : Bool
  pub deploy_service : Bool
  pub uninstall : Bool
  pub update : Bool

pub data ActionType : Type 0 where
  action_run action_version action_check_deps action_deploy_systemd : ActionType
  action_deploy_windows action_uninstall_systemd action_uninstall_windows action_update : ActionType

unfoldable pub default_service_user : Text → Text
unfolding list_beq
default_service_user goos = if goos == codes "windows" then codes "LocalSystem" else codes "root"

unfoldable pub resolve_action : Text → CliOptions → ActionType
unfolding list_beq
resolve_action goos opts =
    if opts.show_version
    then action_version
    else if opts.check_deps
    then action_check_deps
    else if opts.deploy_windows
    then action_deploy_windows
    else if opts.deploy_systemd
    then (if goos == codes "windows" then action_deploy_windows else action_deploy_systemd)
    else if opts.deploy_service
    then (if goos == codes "windows" then action_deploy_windows else action_deploy_systemd)
    else if opts.uninstall
    then (if goos == codes "windows" then action_uninstall_windows else action_uninstall_systemd)
    else if opts.update
    then action_update
    else action_run

-- The loop bodies of both handlers: `environ` is replaced in a copy of the sample.
unfoldable pub redact_sample : Unicode → Floats → List Text → ProcessSample → ProcessSample
unfolding redact_environ
redact_sample u fl extra s = record s { environ = redact_environ u fl s.environ extra }

pub redact_samples : Unicode → Floats → List Text → List ProcessSample → List ProcessSample
unfolding redact_sample
redact_samples u fl extra [] = []
redact_samples u fl extra (s ∷ samples) =
    redact_sample u fl extra s ∷ redact_samples u fl extra samples

pub redact_history :
    Unicode → Floats → List Text → Map Text (List ProcessSample) → Map Text (List ProcessSample)
unfolding redact_samples
redact_history u fl extra [] = []
redact_history u fl extra ((key, samples) ∷ history) =
    (key, redact_samples u fl extra samples) ∷ redact_history u fl extra history

-- What is encoded for `/api/processes`.
unfoldable pub serve_api_processes :
    Unicode → Floats → List Text → HistoryStore → List ProcessSample
unfolding redact_samples get_active_processes
serve_api_processes u fl extra hs = redact_samples u fl extra (get_active_processes hs)

pub data HistoryReply : Type 0 where
  history : Map Text (List ProcessSample) → HistoryReply
  bad_request : HistoryReply

-- The parameters `pid` and `name` of the query, empty where they are not given.
unfoldable pub serve_api_history :
    Unicode → Floats → List Text → HistoryStore → Text → Text → HistoryReply
unfolding redact_history query_history
serve_api_history u fl extra hs pid_str name_str =
    if not (pid_str == [])
    then history (redact_history u fl extra (query_history u (codes "pid") pid_str hs))
    else if not (name_str == [])
    then history (redact_history u fl extra (query_history u (codes "name") name_str hs))
    else bad_request
