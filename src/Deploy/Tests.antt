-- ===== src/Deploy/Tests.antt =====
-- An update of a host, and instances of the theorems.
use gitlab_procs_exporter.Prelude.{
  ◌≡◌, refl, true, none, some, List, [], ◌∷◌, ◌++◌, ◌≢◌, ◌*◌, arith, int_eq, list_beq, list_eq,
  nat_eq,
}
use gitlab_procs_exporter.Prelude.Text.{codes}
use gitlab_procs_exporter.Deploy.{GhAsset, GhRelease, DeployHost, deb_arch, update_service}
use gitlab_procs_exporter.Deploy.Order.{IsClean, update_cleans_up}
use gitlab_procs_exporter.Prelude.Int.{pos}
use gitlab_procs_exporter.Deploy.Install.{
  InstallHost, ServiceConfig, set_defaults, exec_start, install_service,
}
use gitlab_procs_exporter.Deploy.Install.Sequence.{Follows, install_plan, install_service_lem}
use gitlab_procs_exporter.Deploy.Windows.{
  interrogate, stop, start_pending, status_of, running_status, canceled, SvcEvent, control, execute,
}
use gitlab_procs_exporter.Deploy.Windows.Protocol.{IsRun, answers, execute_lem}
use gitlab_procs_exporter.Deploy.Windows.Scm.{opened, Manager, stuck, uninstall_windows_service}
use gitlab_procs_exporter.Deploy.Windows.Scm.Wait.{IsClock, uninstall_windows_service_ends}

abbrev amd64_asset : GhAsset
amd64_asset = record {
  name = codes "gitlab-procs-exporter_0.1_linux_amd64.deb";
  download_url = codes "https://example.net/a.deb";
}

abbrev one_release : GhRelease
one_release = record { tag_name = codes "v0.1"; assets = amd64_asset ∷ [] }

abbrev debian : DeployHost
debian = record {
  goos = codes "linux";
  goarch = codes "amd64";
  euid = 0;
  look_path = λ tool. some tool;
  succeeds = λ cmd. true;
  exists = λ path. true;
  removes = λ path. true;
  dpkg_status = none;
  release = some one_release;
  temp_file = some (codes "/tmp/a.deb");
  join = λ dir file. dir ++ (codes "/" ++ file);
}

known_arch : deb_arch (codes "amd64") ≡ some (codes "amd64")
unfolding deb_arch list_beq
known_arch = refl

update_cleans_up_example : IsClean (codes "/tmp/a.deb") (update_service debian []).1
update_cleans_up_example = update_cleans_up debian [] (codes "/tmp/a.deb") refl

abbrev install_host : InstallHost
install_host = record {
  host = debian;
  executable = some (codes "/usr/bin/gitlab-procs-exporter");
  eval_symlinks = λ path. some path;
  show_duration = λ d. codes "1m0s";
  writes = λ path. true;
}

abbrev default_service : ServiceConfig
default_service = record {
  exec_path = [];
  service_name = [];
  service_user = codes "metrics";
  port = pos 0;
  interval = pos 0;
  config_path = codes "/etc/exporter.yml";
}

started_with :
    exec_start install_host (set_defaults (codes "root") default_service)
    ≡ codes "ExecStart=/usr/bin/gitlab-procs-exporter --port=8000 --interval=1m0s --config "
      ++ (b'"' ∷ (codes "/etc/exporter.yml" ++ (b'"' ∷ [])))
unfolding exec_start set_defaults list_beq
started_with = refl

install_service_lem_example :
    Follows
      (install_plan install_host (set_defaults (codes "root") default_service) (codes "systemctl"))
      (install_service install_host default_service)
install_service_lem_example =
    install_service_lem install_host default_service (codes "systemctl") refl refl refl

abbrev asked_to_stop : List SvcEvent
asked_to_stop = control interrogate running_status ∷ (control stop running_status ∷ [])

execute_lem_example :
    IsRun
      (some canceled)
      asked_to_stop
      (status_of start_pending ∷ (running_status ∷ answers asked_to_stop))
      (execute (some canceled) asked_to_stop)
execute_lem_example = execute_lem (some canceled) asked_to_stop

-- A service that never stops.
abbrev stubborn : Manager
stubborn = record {
  connects = true;
  opens = opened;
  creates = true;
  recovers = true;
  query = λ n. some running_status;
  stops = true;
  deletes = true;
  clock = λ n. 300 * n;
}

stubborn-IsClock : IsClock stubborn
stubborn-IsClock = (omega arith, λ n. omega arith)

uninstall_windows_service_ends_example : (uninstall_windows_service stubborn).0 ≢ stuck
uninstall_windows_service_ends_example = uninstall_windows_service_ends stubborn stubborn-IsClock
