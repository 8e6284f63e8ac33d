-- ===== src/Deploy.antt =====
-- deploy/release.go, deploy/systemd.go and deploy/deps.go: update and removal of the service, as the
-- sequences of actions that they take on the host.
pub mod Pick
pub mod Order
pub mod Deps
pub mod Install
pub mod Windows
pub mod Tests
use gitlab_procs_exporter.Prelude.{
  ℕ, Bool, true, false, ◌&&◌, Option, none, some, List, [], ◌∷◌, ◌++◌, ◌==◌, list_eq, nat_eq,
  if◌then◌else◌,
}
use gitlab_procs_exporter.Prelude.Text.{Text, codes, has_prefix, has_suffix, contains}

abbrev pub binary_name : Text
binary_name = codes "gitlab-procs-exporter"

pub record GhAsset : Type 0 where
  pub name : Text
  pub download_url : Text

pub record GhRelease : Type 0 where
  pub tag_name : Text
  pub assets : List GhAsset

-- A command is the program with its arguments; a temporary file is made with a name of its own.
pub data Action : Type 0 where
  run : List Text → Action
  create_temp : Text → Action
  remove_file : Text → Action
  write_file : Text → Text → Action

pub data DeployError : Type 0 where
  wrong_system not_root no_release empty_tag no_temp_file no_downloader : DeployError
  no_tool no_arch no_asset remove_failed no_user write_failed : Text → DeployError
  command_failed : List Text → DeployError

pub data Outcome : Type 0 where
  finished : Outcome
  failed : DeployError → Outcome

-- What the host answers: the tools on the path, the exit status of a command, and the rest. The
-- release is what the API's JSON decodes to, and `join` is filepath.Join.
pub record DeployHost : Type 0 where
  pub goos : Text
  pub goarch : Text
  pub euid : ℕ
  pub look_path : Text → Option Text
  pub succeeds : List Text → Bool
  pub exists : Text → Bool
  pub removes : Text → Bool
  pub dpkg_status : Option Text
  pub release : Option GhRelease
  pub temp_file : Option Text
  pub join : Text → Text → Text

-- The outcome, and the actions in their order.
abbrev pub Run : Type 0
Run = Outcome × List Action

abbrev pub finish : Run
finish = (finished, [])

abbrev pub fail : DeployError → Run
fail e = (failed e, [])

abbrev pub before : Action → Run → Run
before a (o, acts) = (o, a ∷ acts)

-- `if err := runCmd(...); err != nil { return ... }`
abbrev pub run_cmd : DeployHost → List Text → Run → Run
run_cmd host cmd rest =
    before (run cmd) (if host.succeeds cmd then rest else fail (command_failed cmd))

-- `_ = runCmd(...)`
abbrev pub run_ignoring : List Text → Run → Run
run_ignoring cmd rest = before (run cmd) rest

abbrev pub with_tool : Text → Option Text → (Text → Run) → Run
with_tool tool none rest = fail (no_tool tool)
with_tool tool (some path) rest = rest path

-- The checks that each operation begins with.
abbrev pub as_root : DeployHost → Run → Run
as_root host rest =
    if host.goos == codes "linux"
    then (if host.euid == 0 then rest else fail not_root)
    else fail wrong_system

unfoldable pub deb_arch : Text → Option Text
deb_arch goarch =
    if goarch == codes "amd64"
    then some (codes "amd64")
    else if goarch == codes "arm64"
    then some (codes "arm64")
    else none

abbrev pub asset_prefix : Text
asset_prefix = binary_name ++ codes "_"

abbrev pub asset_suffix : Text → Text
asset_suffix arch = codes "_linux_" ++ (arch ++ codes ".deb")

pub pick_loop : Text → List GhAsset → Option GhAsset
unfolding has_prefix has_suffix
pick_loop arch [] = none
pick_loop arch (a ∷ assets) =
    let rest = pick_loop arch assets in
    if has_prefix a.name asset_prefix && has_suffix a.name (asset_suffix arch) then some a else rest

pub pick_for : Option Text → List GhAsset → Option GhAsset
unfolding pick_loop
pick_for none assets = none
pick_for (some arch) assets = pick_loop arch assets

unfoldable pub pick_deb_asset : GhRelease → Text → Option GhAsset
unfolding pick_for deb_arch
pick_deb_asset rel goarch = pick_for (deb_arch goarch) rel.assets

-- The file of the download goes when the rest is over, whatever came of it.
abbrev pub defer_remove : Text → Run → Run
defer_remove path (o, acts) = (o, acts ++ remove_file path ∷ [])

abbrev fetch : DeployHost → Text → List Text → (Text → Run) → Run
fetch host path cmd rest =
    before (run cmd) (
      if host.succeeds cmd then rest path else (failed (command_failed cmd), remove_file path ∷ []))

pub fetch_with : DeployHost → Text → Text → Option Text → Option Text → (Text → Run) → Run
fetch_with host path url (some curl) wget rest =
    fetch host path (codes "curl" ∷ (codes "-fsSL" ∷ (codes "-o" ∷ (path ∷ (url ∷ []))))) rest
fetch_with host path url none (some wget) rest =
    fetch host path (codes "wget" ∷ (codes "-q" ∷ (codes "-O" ∷ (path ∷ (url ∷ []))))) rest
fetch_with host path url none none rest = (failed no_downloader, remove_file path ∷ [])

pub download_to : DeployHost → Text → Option Text → (Text → Run) → Run
unfolding fetch_with
download_to host url none rest = fail no_temp_file
download_to host url (some path) rest =
    before (create_temp path) (
      fetch_with host path url (host.look_path (codes "curl")) (host.look_path (codes "wget")) rest)

unfoldable pub download_file : DeployHost → Text → (Text → Run) → Run
unfolding download_to
download_file host url rest = download_to host url host.temp_file rest

abbrev pub unit_of : Text → Text
unit_of service_name = service_name ++ codes ".service"

-- `setDefaults`, of the name
pub default_name : Text → Text
default_name name = if name == [] then binary_name else name

-- The end of `UpdateService`.
pub install_and_restart : DeployHost → Text → Text → Text → Text → Run
install_and_restart host dpkg systemctl service_name deb =
    run_cmd host (dpkg ∷ (codes "-i" ∷ (deb ∷ []))) (
      run_cmd host (systemctl ∷ (codes "restart" ∷ (unit_of service_name ∷ []))) (
        run_ignoring
          (systemctl
            ∷ (codes "--no-pager"
                ∷ (codes "--full" ∷ (codes "status" ∷ (unit_of service_name ∷ [])))))
          finish))

pub update_asset : DeployHost → Text → Text → Text → Option GhAsset → Run
unfolding download_file install_and_restart
update_asset host dpkg systemctl service_name none = fail (no_asset host.goarch)
update_asset host dpkg systemctl service_name (some asset) =
    download_file host asset.download_url
      (λ deb. defer_remove deb (install_and_restart host dpkg systemctl service_name deb))

pub update_release : DeployHost → Text → Text → Text → Option GhRelease → Run
unfolding update_asset pick_deb_asset
update_release host dpkg systemctl service_name none = fail no_release
update_release host dpkg systemctl service_name (some rel) =
    if rel.tag_name == []
    then fail empty_tag
    else update_asset host dpkg systemctl service_name (pick_deb_asset rel host.goarch)

-- The tools and the rest of `UpdateService`, behind the checks.
pub update_as_root : DeployHost → Text → Run
unfolding update_release
update_as_root host service_name = with_tool (codes "dpkg") (host.look_path (codes "dpkg")) (λ dpkg.
    with_tool (codes "systemctl") (host.look_path (codes "systemctl"))
      (λ systemctl. update_release host dpkg systemctl service_name host.release))

unfoldable pub update_service : DeployHost → Text → Run
unfolding update_as_root default_name
update_service host name = as_root host (update_as_root host (default_name name))

-- `dpkgInstalled`
pub dpkg_installed : Option Text → Bool
unfolding contains
dpkg_installed none = false
dpkg_installed (some out) = contains out (codes "Status: install ok installed")

pub remove_package : DeployHost → Option Text → Run
unfolding dpkg_installed
remove_package host none = finish
remove_package host (some dpkg) =
    if dpkg_installed host.dpkg_status
    then run_cmd host (dpkg ∷ (codes "-r" ∷ (binary_name ∷ []))) finish
    else finish

pub remove_if_present : DeployHost → Text → Run → Run
remove_if_present host path rest =
    if host.exists path
    then before (remove_file path) (if host.removes path then rest else fail (remove_failed path))
    else rest

-- `filepath.Join(systemdDir, c.ServiceName+".service")`
abbrev pub unit_path : DeployHost → Text → Text
unit_path host service_name = host.join (codes "/etc/systemd/system") (unit_of service_name)

pub uninstall_with : DeployHost → Text → Text → Run
unfolding remove_if_present remove_package
uninstall_with host service_name systemctl =
    run_ignoring (systemctl ∷ (codes "disable" ∷ (codes "--now" ∷ (unit_of service_name ∷ [])))) (
      remove_if_present host (unit_path host service_name) (
        run_ignoring (systemctl ∷ (codes "daemon-reload" ∷ [])) (
          run_ignoring (systemctl ∷ (codes "reset-failed" ∷ (unit_of service_name ∷ [])))
            (remove_package host (host.look_path (codes "dpkg"))))))

unfoldable pub uninstall_service : DeployHost → Text → Run
unfolding uninstall_with default_name
uninstall_service host name = as_root host (
    with_tool (codes "systemctl") (host.look_path (codes "systemctl"))
      (uninstall_with host (default_name name)))
