-- ===== src/Deploy/Order.antt =====
-- What an operation does before it may, in which order, and what it leaves behind.
use gitlab_procs_exporter.Prelude.{
  ◌≡◌, ◌≢◌, ◌⊎◌, refl, sym, ap, subst, ◌∙◌, Bool, true, false, Option, none, some, List, [], ◌∷◌,
  ◌==◌, eq_iff, list_eq, nat_eq, get_last?, get_last?-concat, if◌then◌else◌, Bool-cases, inl, inr,
}
use mathlib.Core.Option.{none-ne-some}
use gitlab_procs_exporter.Prelude.Text.{Text, codes}
use gitlab_procs_exporter.Deploy.{
  GhAsset, GhRelease, Action, run, create_temp, remove_file, command_failed, DeployHost, failed,
  Run, fail, not_root, wrong_system, before, as_root, with_tool, fetch_with, download_to,
  download_file, defer_remove, install_and_restart, update_asset, update_release, update_as_root,
  update_service, uninstall_service, pick_deb_asset, default_name,
}

as_root_only :
    (host : DeployHost) (rest : Run)
    → (as_root host rest).1 ≢ []
    → (host.goos ≡ codes "linux") × (host.euid ≡ 0)
as_root_only host rest h = elim (Bool-cases (host.goos == codes "linux")) [
  | inl linux ↦ elim (Bool-cases (host.euid == 0)) [
    | inl root ↦ ((eq_iff host.goos (codes "linux")).0 linux, (eq_iff host.euid 0).0 root)
    | inr user ↦ absurd (
        h (
          ap
            (λ b.
              (if b then (if host.euid == 0 then rest else fail not_root) else fail wrong_system).1)
            linux
          ∙ ap (λ b. (if b then rest else fail not_root).1) user))
  ]
  | inr other ↦ absurd (
      h (
        ap
          (λ b.
            (if b then (if host.euid == 0 then rest else fail not_root) else fail wrong_system).1)
          other))
]

-- Neither update nor removal does anything to a host that is not Linux or without root's rights.
pub deploy_needs_root :
    (host : DeployHost) (name : Text)
    → ((update_service host name).1 ≢ [] → (host.goos ≡ codes "linux") × (host.euid ≡ 0))
      × ((uninstall_service host name).1 ≢ [] → (host.goos ≡ codes "linux") × (host.euid ≡ 0))
unfolding update_service uninstall_service
deploy_needs_root host name = (as_root_only host _, as_root_only host _)

-- Nothing was done, or the last thing was to remove the file.
abbrev pub IsClean : Text → List Action → Type 0
IsClean path acts = (acts ≡ []) ⊎ (get_last? acts ≡ some (remove_file path))

get_last?-cons :
    (a z : Action) (acts : List Action) → get_last? acts ≡ some z → get_last? (a ∷ acts) ≡ some z
get_last?-cons a z [] h = absurd (none-ne-some z h)
get_last?-cons a z (b ∷ acts) h = h

choose-IsClean :
    {path : Text} (b : Bool) (x y : Run)
    → IsClean path x.1
    → IsClean path y.1
    → IsClean path (if b then x else y).1
choose-IsClean true x y hx hy = hx
choose-IsClean false x y hx hy = hy

module _ (host : DeployHost) (path : Text) (inner : Text → Run) where
  abbrev inner_run : Run
  inner_run = inner path

  abbrev fetched : List Text → Bool → Run
  fetched cmd ok = before (run cmd) (
      if ok
      then defer_remove path inner_run
      else (failed (command_failed cmd), remove_file path ∷ []))

  fetched-last :
      (cmd : List Text) (ok : Bool) → get_last? (fetched cmd ok).1 ≡ some (remove_file path)
  fetched-last cmd true = get_last?-concat (run cmd ∷ inner_run.1) (remove_file path)
  fetched-last cmd false = refl

  fetch_with-last :
      (url : Text) (curl wget : Option Text)
      → get_last? (fetch_with host path url curl wget (λ deb. defer_remove deb (inner deb))).1
        ≡ some (remove_file path)
  unfolding fetch_with
  fetch_with-last url (some curl) wget = fetched-last _ (host.succeeds _)
  fetch_with-last url none (some wget) = fetched-last _ (host.succeeds _)
  fetch_with-last url none none = refl

abbrev with_deb : DeployHost → Text → Text → Text → Text → Run
with_deb host dpkg systemctl name deb =
    defer_remove deb (install_and_restart host dpkg systemctl name deb)

module _ (host : DeployHost) (path : Text) (temp : host.temp_file ≡ some path) where
  download-IsClean :
      (dpkg systemctl name url : Text)
      → IsClean path (download_file host url (with_deb host dpkg systemctl name)).1
  unfolding download_file download_to
  download-IsClean dpkg systemctl name url =
      subst (λ o. IsClean path (download_to host url o (with_deb host dpkg systemctl name)).1)
        (sym temp)
        (inr (
          get_last?-cons (create_temp path) (remove_file path)
            (fetch_with host path url (host.look_path (codes "curl"))
              (host.look_path (codes "wget")) (with_deb host dpkg systemctl name)).1
            (fetch_with-last host path (install_and_restart host dpkg systemctl name) url
              (host.look_path (codes "curl")) (host.look_path (codes "wget")))))

  update_asset-IsClean :
      (dpkg systemctl name : Text) (o : Option GhAsset)
      → IsClean path (update_asset host dpkg systemctl name o).1
  unfolding update_asset
  update_asset-IsClean dpkg systemctl name none = inl refl
  update_asset-IsClean dpkg systemctl name (some asset) =
      download-IsClean dpkg systemctl name asset.download_url

  update_release-IsClean :
      (dpkg systemctl name : Text) (o : Option GhRelease)
      → IsClean path (update_release host dpkg systemctl name o).1
  unfolding update_release
  update_release-IsClean dpkg systemctl name none = inl refl
  update_release-IsClean dpkg systemctl name (some rel) =
      choose-IsClean (rel.tag_name == []) _ _ (inl refl)
        (update_asset-IsClean dpkg systemctl name (pick_deb_asset rel host.goarch))

  with_tool-IsClean :
      (tool : Text) (o : Option Text) (rest : Text → Run)
      → ((found : Text) → IsClean path (rest found).1)
      → IsClean path (with_tool tool o rest).1
  with_tool-IsClean tool none rest h = inl refl
  with_tool-IsClean tool (some found) rest h = h found

  update_as_root-IsClean : (name : Text) → IsClean path (update_as_root host name).1
  unfolding update_as_root
  update_as_root-IsClean name =
      with_tool-IsClean (codes "dpkg") (host.look_path (codes "dpkg")) _ (λ dpkg.
        with_tool-IsClean (codes "systemctl") (host.look_path (codes "systemctl")) _
          (λ systemctl. update_release-IsClean dpkg systemctl name host.release))

-- Where a temporary file can be made, an update that does anything at all, the making of that file
-- included, ends by removing it, whichever command failed.
pub update_cleans_up :
    (host : DeployHost) (name path : Text)
    → host.temp_file ≡ some path
    → IsClean path (update_service host name).1
unfolding update_service
update_cleans_up host name path temp =
    choose-IsClean (host.goos == codes "linux") _ _
      (choose-IsClean (host.euid == 0) _ _
        (update_as_root-IsClean host path temp (default_name name)) (inl refl))
      (inl refl)
