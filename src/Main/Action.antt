-- ===== src/Main/Action.antt =====
-- Which action a command line selects.
use gitlab_procs_exporter.Prelude.{◌≢◌, ◌≡◌, ◌↔◌, false, ◌||◌, arith, list_eq, nat_eq}
use gitlab_procs_exporter.Prelude.Text.{Text, codes}
use gitlab_procs_exporter.Main.{
  CliOptions, action_run, action_deploy_systemd, action_uninstall_systemd, resolve_action,
}

-- The exporter runs as a server exactly if no option asks for anything else.
pub resolve_action-run :
    (goos : Text) (opts : CliOptions)
    → (resolve_action goos opts ≡ action_run) ↔ (
        (opts.show_version || opts.check_deps || opts.deploy_systemd || opts.deploy_windows
          || opts.deploy_service || opts.uninstall || opts.update)
        ≡ false)
unfolding resolve_action
resolve_action-run goos opts = ground arith

-- On Windows no options select an action on a systemd unit.
pub resolve_action-windows :
    (opts : CliOptions)
    → (resolve_action (codes "windows") opts ≢ action_deploy_systemd)
      × (resolve_action (codes "windows") opts ≢ action_uninstall_systemd)
unfolding resolve_action
resolve_action-windows opts = ground arith
