-- ===== src/Deploy/Pick.antt =====
-- Which package of a release is installed.
use gitlab_procs_exporter.Prelude.{
  ◌≡◌, refl, sym, ap, subst, ◌∙◌, ◌&&◌, Bool, true, false, Option, none, some, List, [], ◌∷◌,
  Member, Bool-cases, inl, inr, if◌then◌else◌,
}
use gitlab_procs_exporter.Prelude.Text.{Text, has_prefix, has_suffix}
use gitlab_procs_exporter.Deploy.{
  GhAsset, GhRelease, deb_arch, asset_prefix, asset_suffix, pick_loop, pick_for, pick_deb_asset,
}

-- The package for an architecture, by its name.
abbrev pub is_for : Text → GhAsset → Bool
is_for arch a = has_prefix a.name asset_prefix && has_suffix a.name (asset_suffix arch)

-- A pick is one of the assets and for the architecture; without one, no asset is.
abbrev pub IsPick : Text → List GhAsset → Option GhAsset → Type 0
IsPick arch assets (some a) = Member a assets × (is_for arch a ≡ true)
IsPick arch assets none = (a : GhAsset) → Member a assets → is_for arch a ≡ false

abbrev or_later : Bool → GhAsset → Option GhAsset → Option GhAsset
or_later b a rest = if b then some a else rest

later-IsPick :
    (arch : Text) (a : GhAsset) (assets : List GhAsset) (o : Option GhAsset)
    → is_for arch a ≡ false
    → IsPick arch assets o
    → IsPick arch (a ∷ assets) o
later-IsPick arch a assets (some b) other (m, fits) = (inr m, fits)
later-IsPick arch a assets none other lacks =
    λ b m. elim m [ inl e ↦ ap (is_for arch) e ∙ other | inr k ↦ lacks b k ]

pick_loop-IsPick :
    (arch : Text) (assets : List GhAsset) → IsPick arch assets (pick_loop arch assets)
unfolding pick_loop
pick_loop-IsPick arch [] = λ a m. absurd m
pick_loop-IsPick arch (a ∷ assets) = elim (Bool-cases (is_for arch a)) [
  | inl fits ↦
      subst (λ b. IsPick arch (a ∷ assets) (or_later b a (pick_loop arch assets))) (sym fits)
        (inl refl, fits)
  | inr other ↦
      subst (λ b. IsPick arch (a ∷ assets) (or_later b a (pick_loop arch assets))) (sym other)
        (later-IsPick arch a assets (pick_loop arch assets) other (pick_loop-IsPick arch assets))
]

-- On an architecture with packages, the asset that is picked is one of the release whose name has the
-- prefix and the architecture's suffix, and none is picked only if the release has no such asset.
pub pick_deb_asset_lem :
    (rel : GhRelease) (goarch arch : Text)
    → deb_arch goarch ≡ some arch
    → IsPick arch rel.assets (pick_deb_asset rel goarch)
unfolding pick_deb_asset pick_for
pick_deb_asset_lem rel goarch arch known =
    subst (λ o. IsPick arch rel.assets (pick_for o rel.assets)) (sym known)
      (pick_loop-IsPick arch rel.assets)
