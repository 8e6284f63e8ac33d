-- ===== src/Deploy/Install/Sequence.antt =====
-- In which order the installation acts, and when it succeeds.
use gitlab_procs_exporter.Prelude.{
  ◌≡◌, ◌≢◌, ◌⊎◌, refl, ap, ◌∙◌, sym, subst, Bool, true, false, Option, some, List, [], ◌∷◌, ◌++◌,
  ◌==◌, eq_iff, list_eq, nat_eq, All, Bool-cases, if◌then◌else◌, inl, inr,
}
use gitlab_procs_exporter.Prelude.Text.{Text, codes}
use gitlab_procs_exporter.Deploy.{
  Action, run, write_file, DeployError, finished, Run, fail, finish, before, run_cmd, with_tool,
  unit_of, unit_path, no_user, write_failed, command_failed, not_root, wrong_system,
}
use gitlab_procs_exporter.Deploy.Install.{
  InstallHost, ServiceConfig, set_defaults, render_unit_file, write_unit, reload_cmd, enable_cmd,
  status_cmd, install_with, install_service,
}

-- Actions in their order, each with whether the next may follow it.
abbrev pub Plan : Type 0
Plan = List (Action × Bool)

abbrev pub actions : Plan → List Action
actions [] = []
actions ((a, good) ∷ plan) = a ∷ actions plan

abbrev pub AllGood : Plan → Type 0
AllGood = All (λ p. p.1 ≡ true)

-- The action at which a plan breaks off: all before it went well.
abbrev pub BreaksAt : Plan → Plan → Action → Type 0
BreaksAt plan done a = AllGood done × ((rest : Plan) × (plan ≡ done ++ ((a, false) ∷ rest)))

-- All actions are taken with success, or exactly those up to the first one that fails, with an error.
abbrev pub Follows : Plan → Run → Type 0
Follows plan r =
    (AllGood plan × (r.0 ≡ finished) × (r.1 ≡ actions plan))
    ⊎ ((done : Plan) × (a : Action) × BreaksAt plan done a
        × (r.0 ≢ finished)
        × (r.1 ≡ actions done ++ (a ∷ [])))

before-Follows :
    (a : Action) (plan : Plan) (r : Run) → Follows plan r → Follows ((a, true) ∷ plan) (before a r)
before-Follows a plan (o, acts) (inl (good, e, k)) = inl ((refl, good), e, ap (λ t. a ∷ t) k)
before-Follows a plan (o, acts) (inr (done, b, (good, (rest, e)), ne, k)) =
    inr (
      (a, true) ∷ done,
      b,
      ((refl, good), (rest, ap (λ t. (a, true) ∷ t) e)),
      ne,
      ap (λ t. a ∷ t) k,
    )

step-Follows :
    (a : Action) (good : Bool) (e : DeployError) (plan : Plan) (r : Run)
    → Follows plan r
    → Follows ((a, good) ∷ plan) (before a (if good then r else fail e))
step-Follows a true e plan r h = before-Follows a plan r h
step-Follows a false e plan r h = inr ([], a, (tt, (plan, refl)), (λ q. cc), refl)

module _ (h : InstallHost) (c : ServiceConfig) (systemctl : Text) where
  abbrev unit : Text
  unit = unit_of c.service_name

  abbrev pub status_plan : Plan
  status_plan = (run (status_cmd systemctl unit), true) ∷ []

  abbrev pub enable_plan : Plan
  enable_plan =
      (run (enable_cmd systemctl unit), h.host.succeeds (enable_cmd systemctl unit)) ∷ status_plan

  abbrev pub reload_plan : Plan
  reload_plan = (run (reload_cmd systemctl), h.host.succeeds (reload_cmd systemctl)) ∷ enable_plan

  abbrev pub service_plan : Plan
  service_plan =
      (
        write_file (unit_path h.host c.service_name) (render_unit_file h c),
        h.writes (unit_path h.host c.service_name),
      )
      ∷ reload_plan

  abbrev id_cmd : List Text
  id_cmd = codes "id" ∷ (codes "--" ∷ (c.service_user ∷ []))

  -- Root needs no check.
  abbrev pub install_plan : Plan
  install_plan =
      if c.service_user == codes "root"
      then service_plan
      else (run id_cmd, h.host.succeeds id_cmd) ∷ service_plan

  service_plan-Follows : Follows service_plan (
      write_unit h c (
        run_cmd h.host (reload_cmd systemctl) (
          run_cmd h.host
            (enable_cmd systemctl unit)
            (before (run (status_cmd systemctl unit)) finish))))
  service_plan-Follows =
      step-Follows (write_file (unit_path h.host c.service_name) (render_unit_file h c))
        (h.writes (unit_path h.host c.service_name))
        (write_failed (unit_path h.host c.service_name)) reload_plan _
        (step-Follows (run (reload_cmd systemctl)) (h.host.succeeds (reload_cmd systemctl))
          (command_failed (reload_cmd systemctl)) enable_plan _
          (step-Follows (run (enable_cmd systemctl unit))
            (h.host.succeeds (enable_cmd systemctl unit))
            (command_failed (enable_cmd systemctl unit)) status_plan
            (before (run (status_cmd systemctl unit)) finish) (inl ((refl, tt), refl, refl))))

  install_with-Follows : Follows install_plan (install_with h c systemctl)
  unfolding install_with
  install_with-Follows = elim (Bool-cases (c.service_user == codes "root")) [
    | inl root ↦ rw root service_plan-Follows
    | inr user ↦ rw user (
        step-Follows (run id_cmd) (h.host.succeeds id_cmd) (no_user c.service_user) service_plan _
          service_plan-Follows)
  ]

-- On Linux, for root, and with systemctl at hand: the installation checks the service's user, unless it
-- is root, writes the unit file, reloads systemd, enables the service and shows its status, in this
-- order; either each of these but the last succeeds, all are done and so is the installation, or the
-- installation fails and has done exactly what comes up to the first of them that fails.
pub install_service_lem :
    (h : InstallHost) (cfg : ServiceConfig) (systemctl : Text)
    → h.host.goos ≡ codes "linux"
    → h.host.euid ≡ 0
    → h.host.look_path (codes "systemctl") ≡ some systemctl
    → Follows (install_plan h (set_defaults (codes "root") cfg) systemctl) (install_service h cfg)
unfolding install_service
install_service_lem h cfg systemctl linux root found =
    let c : ServiceConfig = set_defaults (codes "root") cfg in
    let done : install_service h cfg ≡ install_with h c systemctl =
      ap (λ b. if b then guarded else fail wrong_system)
        ((eq_iff h.host.goos (codes "linux")).1 linux)
      ∙ ap (λ b. if b then tooled (h.host.look_path (codes "systemctl")) else fail not_root)
          ((eq_iff h.host.euid 0).1 root)
      ∙ ap tooled found in
    subst (Follows (install_plan h c systemctl)) (sym done) (install_with-Follows h c systemctl)
  where
    tooled : Option Text → Run
    tooled o = with_tool (codes "systemctl") o (install_with h (set_defaults (codes "root") cfg))

    guarded : Run
    guarded =
        if h.host.euid == 0 then tooled (h.host.look_path (codes "systemctl")) else fail not_root
