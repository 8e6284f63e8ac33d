-- ===== src/Deploy/Deps.antt =====
-- deploy/deps.go: the check of the prerequisites of an update.
use gitlab_procs_exporter.Prelude.{
  ◌≡◌, ◌≢◌, ◌↔◌, refl, sym, subst, if◌then◌else◌, Bool, true, false, Option, none, some, List, [],
  ◌∷◌,
}
use gitlab_procs_exporter.Prelude.Text.{Text, codes}
use gitlab_procs_exporter.Deploy.{
  DeployHost, Action, remove_file, failed, command_failed, no_downloader, finish, fetch_with,
  download_to, download_file,
}

pub data Status : Type 0 where
  status_ok status_warn status_fail : Status

pub record CheckResult : Type 0 where
  pub name : Text
  pub status : Status
  pub detail : Text

abbrev downloader : Status → Text → List CheckResult
downloader status detail =
    record { name = codes "downloader"; status = status; detail = detail } ∷ []

pub check_tools : Option Text → Option Text → List CheckResult
check_tools (some curl) wget = downloader status_ok (codes "curl found")
check_tools none (some wget) = downloader status_ok (codes "wget found")
check_tools none none =
    downloader status_fail
      (codes "need curl or wget for --update; install with: apt-get install -y curl")

unfoldable pub check_dependencies : DeployHost → List CheckResult
unfolding check_tools
check_dependencies host =
    check_tools (host.look_path (codes "curl")) (host.look_path (codes "wget"))

abbrev is_fail : Status → Bool
is_fail status_fail = true
is_fail _ = false

unfoldable pub all_passed : List CheckResult → Bool
all_passed [] = true
all_passed (r ∷ results) =
    let rest = all_passed results in elim (is_fail r.status) [ true ↦ false | false ↦ rest ]

run_outcome :
    (b : Bool) (cmd : List Text) (acts : List Action)
    → (if b then finish else (failed (command_failed cmd), acts)).0 ≢ failed no_downloader
run_outcome true cmd acts h = cc
run_outcome false cmd acts h = cc

check_tools_iff :
    (host : DeployHost) (path url : Text) (curl wget : Option Text)
    → (all_passed (check_tools curl wget) ≡ true)
      ↔ ((fetch_with host path url curl wget (λ deb. finish)).0 ≢ failed no_downloader)
unfolding check_tools all_passed fetch_with
check_tools_iff host path url (some curl) wget =
    (λ h. run_outcome (host.succeeds _) _ (remove_file path ∷ []), λ h. refl)
check_tools_iff host path url none (some wget) =
    (λ h. run_outcome (host.succeeds _) _ (remove_file path ∷ []), λ h. refl)
check_tools_iff host path url none none = (λ h. cc, λ h. absurd (h refl))

-- Where a temporary file can be made, the check passes exactly if a download does not fail for want
-- of a downloader.
pub check_dependencies_iff :
    (host : DeployHost) (path url : Text)
    → host.temp_file ≡ some path
    → (all_passed (check_dependencies host) ≡ true)
      ↔ ((download_file host url (λ deb. finish)).0 ≢ failed no_downloader)
unfolding check_dependencies download_file download_to
check_dependencies_iff host path url temp =
    subst
      (λ o.
        (all_passed (check_dependencies host) ≡ true)
        ↔ ((download_to host url o (λ deb. finish)).0 ≢ failed no_downloader))
      (sym temp)
      (check_tools_iff host path url (host.look_path (codes "curl"))
        (host.look_path (codes "wget")))
