-- ===== src/Deploy/Install.antt =====
-- deploy/systemd.go: the service's configuration, its unit file, and the installation.
pub mod Sequence
use gitlab_procs_exporter.Prelude.{
  ℕ, ◌*◌, Bool, true, false, not, Option, none, some, List, [], ◌∷◌, ◌++◌, ◌==◌, list_eq, nat_eq,
  int_eq, if◌then◌else◌,
}
use gitlab_procs_exporter.Prelude.Int.{ℤ, pos}
use gitlab_procs_exporter.Prelude.Text.{Text, codes}
use gitlab_procs_exporter.Prelude.Decimal.{format_int}
use gitlab_procs_exporter.Deploy.{
  Action, run, write_file, no_user, write_failed, DeployHost, Run, fail, finish, before, run_cmd,
  run_ignoring, with_tool, as_root, unit_of, unit_path, binary_name,
}

-- The interval is in nanoseconds.
pub record ServiceConfig : Type 0 where
  pub exec_path : Text
  pub service_name : Text
  pub service_user : Text
  pub port : ℤ
  pub interval : ℤ
  pub config_path : Text

-- What the installation asks the host besides: the running executable, its links, the text of a
-- duration, and whether the unit file can be written.
pub record InstallHost : Type 0 where
  pub host : DeployHost
  pub executable : Option Text
  pub eval_symlinks : Text → Option Text
  pub show_duration : ℤ → Text
  pub writes : Text → Bool

abbrev text_or : Text → Text → Text
text_or v default = if v == [] then default else v

abbrev int_or : ℤ → ℤ → ℤ
int_or v default = if v == pos 0 then default else v

abbrev pub minute : ℤ
minute = pos 60_000_000_000

-- `setDefaults` and `setWindowsDefaults`, which differ in the user.
unfoldable pub set_defaults : Text → ServiceConfig → ServiceConfig
set_defaults user c = record {
  exec_path = c.exec_path;
  service_name = text_or c.service_name binary_name;
  service_user = text_or c.service_user user;
  port = int_or c.port (pos 8000);
  interval = int_or c.interval minute;
  config_path = c.config_path;
}

abbrev resolved : InstallHost → Text → Option Text → Text
resolved h default none = default
resolved h default (some exe) = elim (h.eval_symlinks exe) [ none ↦ exe | some path ↦ path ]

-- `resolveExecPath` and `resolveWindowsExecPath`, which differ in the last resort.
unfoldable pub resolve_exec_path : InstallHost → Text → Text → Text
resolve_exec_path h default configured =
    if configured == [] then resolved h default h.executable else configured

abbrev line : Text → Text → Text
line l rest = l ++ (10 ∷ rest)

abbrev config_flag : Text → Text
config_flag path = if path == [] then [] else codes " --config " ++ (b'"' ∷ (path ++ (b'"' ∷ [])))

unfoldable pub exec_start : InstallHost → ServiceConfig → Text
unfolding resolve_exec_path format_int
exec_start h c =
    codes "ExecStart="
    ++ (resolve_exec_path h (codes "/usr/bin/" ++ binary_name) c.exec_path
        ++ (codes " --port="
            ++ (format_int c.port
                ++ (codes " --interval="
                    ++ (h.show_duration c.interval ++ config_flag c.config_path)))))

-- `unitTemplate`, filled in; the template escapes nothing.
unfoldable pub render_unit_file : InstallHost → ServiceConfig → Text
unfolding set_defaults exec_start
render_unit_file h cfg =
    let c = set_defaults (codes "root") cfg in
    line (codes "[Unit]") (
      line (codes "Description=GitLab Process History Exporter (Prometheus)") (
        line (codes "Documentation=https://github.com/rachlenko/gitlab-procs-exporter") (
          line (codes "After=network-online.target") (
            line (codes "Wants=network-online.target") (
              line [] (
                line (codes "[Service]") (
                  line (codes "Type=simple") (
                    line (exec_start h c) (
                      line (codes "User=" ++ c.service_user) (
                        line (codes "Restart=on-failure")
                          (line (codes "RestartSec=5") (line [] hardening))))))))))))
  where
    hardening : Text
    hardening = line (codes "# Hardening (kept compatible with reading /proc of all processes)") (
        line (codes "NoNewPrivileges=true") (
          line (codes "ProtectSystem=strict") (
            line (codes "ProtectHome=true") (
              line (codes "PrivateTmp=true") (
                line (codes "ProtectControlGroups=true") (
                  line (codes "ProtectKernelModules=true") (
                    line (codes "ProtectKernelTunables=true") (
                      line (codes "RestrictAddressFamilies=AF_INET AF_INET6") (
                        line (codes "RestrictNamespaces=true") (
                          line (codes "LockPersonality=true") (
                            line [] (
                              line (codes "[Install]")
                                (line (codes "WantedBy=multi-user.target") [])))))))))))))

-- The check of the user; `id` prints to nowhere.
abbrev pub check_user : InstallHost → Text → Run → Run
check_user h user rest =
    if user == codes "root"
    then rest
    else before (run (codes "id" ∷ (codes "--" ∷ (user ∷ [])))) (
        if h.host.succeeds (codes "id" ∷ (codes "--" ∷ (user ∷ [])))
        then rest
        else fail (no_user user))

abbrev pub write_unit : InstallHost → ServiceConfig → Run → Run
write_unit h c rest =
    let path = unit_path h.host c.service_name in
    before (write_file path (render_unit_file h c))
      (if h.writes path then rest else fail (write_failed path))

-- `systemctl` and what it is told.
abbrev pub reload_cmd : Text → List Text
reload_cmd systemctl = systemctl ∷ (codes "daemon-reload" ∷ [])

abbrev pub enable_cmd : Text → Text → List Text
enable_cmd systemctl unit = systemctl ∷ (codes "enable" ∷ (codes "--now" ∷ (unit ∷ [])))

abbrev pub status_cmd : Text → Text → List Text
status_cmd systemctl unit =
    systemctl ∷ (codes "--no-pager" ∷ (codes "--full" ∷ (codes "status" ∷ (unit ∷ []))))

unfoldable pub install_with : InstallHost → ServiceConfig → Text → Run
unfolding render_unit_file
install_with h c systemctl =
    let unit = unit_of c.service_name in
    check_user h c.service_user (
      write_unit h c (
        run_cmd h.host (reload_cmd systemctl) (
          run_cmd h.host (enable_cmd systemctl unit)
            (run_ignoring (status_cmd systemctl unit) finish))))

unfoldable pub install_service : InstallHost → ServiceConfig → Run
unfolding install_with set_defaults
install_service h cfg =
    let c = set_defaults (codes "root") cfg in
    as_root h.host
      (with_tool (codes "systemctl") (h.host.look_path (codes "systemctl")) (install_with h c))
