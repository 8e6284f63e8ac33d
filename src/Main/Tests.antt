-- ===== src/Main/Tests.antt =====
-- Instances of the theorems on the command line and the endpoints.
use gitlab_procs_exporter.Prelude.{true, false, All, []}
use gitlab_procs_exporter.Prelude.Text.{codes}
use gitlab_procs_exporter.Exporter.Samples.{ascii_only, whole_numbers, one_process}
use gitlab_procs_exporter.Main.{CliOptions, serve_api_processes, serve_api_history}
use gitlab_procs_exporter.Main.Api.{IsShowableSample, IsShowableReply, api_hides_secrets}

abbrev only_uninstall : CliOptions
only_uninstall = record {
  show_version = false;
  check_deps = false;
  deploy_systemd = false;
  deploy_windows = false;
  deploy_service = false;
  uninstall = true;
  update = false;
}

api_hides_secrets_example :
    All
      (IsShowableSample ascii_only whole_numbers [])
      (serve_api_processes ascii_only whole_numbers [] one_process)
    × IsShowableReply ascii_only whole_numbers []
        (serve_api_history ascii_only whole_numbers [] one_process (codes "42") [])
api_hides_secrets_example =
    api_hides_secrets ascii_only whole_numbers [] one_process (codes "42") []
