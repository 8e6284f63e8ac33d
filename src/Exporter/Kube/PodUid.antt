-- ===== src/Exporter/Kube/PodUid.antt =====
-- exporter/kube.go and exporter/cgroup_linux.go: the UID of a process's pod, and where the kubelet is.
use gitlab_procs_exporter.Prelude.{
  ℕ, ◌≡◌, ◌⊎◌, refl, ap, ◌∙◌, sym, subst, Bool, true, false, not, ◌&&◌, ◌||◌, Option, none, some,
  List, [], ◌∷◌, map, ◌==◌, list_eq, nat_eq, leb, Bool-cases, Option-cases, if◌then◌else◌, inl, inr,
  arith, some_inj,
}
use mathlib.Core.Option.{none-ne-some}
use gitlab_procs_exporter.Prelude.Text.{Text, codes, cut_prefix}

abbrev pub is_hex : ℕ → Bool
is_hex c = (leb b'0' c && leb c b'9') || (leb b'a' c && leb c b'f') || (leb b'A' c && leb c b'F')

abbrev pub is_sep : ℕ → Bool
is_sep c = c == b'-' || c == b'_'

abbrev hexes : List Bool → List Bool
hexes rest = true ∷ (true ∷ (true ∷ (true ∷ rest)))

-- The groups of `podUIDRe`: where a digit stands, and where a separator.
abbrev pub uid_shape : List Bool
uid_shape =
    hexes (hexes (false ∷ hexes (false ∷ hexes (false ∷ hexes (false ∷ hexes (hexes (hexes [])))))))

abbrev onto_match : ℕ → Option Text → Option Text
onto_match c none = none
onto_match c (some s) = some (c ∷ s)

-- The bytes that a shape takes from the front of a text.
unfoldable pub match_shape : List Bool → Text → Option Text
match_shape [] s = some []
match_shape (digit ∷ shape) [] = none
match_shape (digit ∷ shape) (c ∷ s) =
    let rest = match_shape shape s in
    if (if digit then is_hex c else is_sep c) then onto_match c rest else none

abbrev match_behind : Option Text → Option Text
match_behind none = none
match_behind (some rest) = match_shape uid_shape rest

abbrev first_match : Option Text → Option Text → Option Text
first_match none later = later
first_match (some uid) later = some uid

-- The group of the first match of `podUIDRe`
unfoldable pub find_uid : Text → Option Text
unfolding match_shape cut_prefix
find_uid [] = none
find_uid (c ∷ s) = first_match (match_behind (cut_prefix (c ∷ s) (codes "pod"))) (find_uid s)

-- `strings.ReplaceAll(m[1], "_", "-")`
abbrev pub to_dash : ℕ → ℕ
to_dash c = if c == b'_' then b'-' else c

abbrev dashed : Option Text → Text
dashed none = []
dashed (some uid) = map to_dash uid

unfoldable pub pod_uid_from_cgroup : Text → Text
unfolding find_uid
pod_uid_from_cgroup content = dashed (find_uid content)

-- `ProcessPodUID`, with what the cgroup file of the process holds, if it can be read
unfoldable pub process_pod_uid : Option Text → Text
unfolding pod_uid_from_cgroup
process_pod_uid none = []
process_pod_uid (some content) = pod_uid_from_cgroup content

-- `InCluster`: the environment, and whether the token file is there
unfoldable pub in_cluster : (Text → Text) → Bool → Bool
in_cluster getenv has_token =
    if getenv (codes "KUBERNETES_SERVICE_HOST") == [] then false else has_token

unfoldable pub kubelet_addr : (Text → Text) → Text
kubelet_addr getenv =
    if not (getenv (codes "HOST_IP") == [])
    then getenv (codes "HOST_IP")
    else if not (getenv (codes "NODE_NAME") == [])
    then getenv (codes "NODE_NAME")
    else codes "127.0.0.1"

-- A dash at each separator, a hexadecimal digit elsewhere.
abbrev pub IsCanonical : List Bool → Text → Type 0
IsCanonical [] [] = Unit
IsCanonical [] (c ∷ s) = ⊥
IsCanonical (digit ∷ shape) [] = ⊥
IsCanonical (true ∷ shape) (c ∷ s) = (is_hex c ≡ true) × IsCanonical shape s
IsCanonical (false ∷ shape) (c ∷ s) = (c ≡ b'-') × IsCanonical shape s

to_dash-hex : (c : ℕ) → is_hex c ≡ true → is_hex (to_dash c) ≡ true
to_dash-hex c h = ground arith

to_dash-sep : (c : ℕ) → is_sep c ≡ true → to_dash c ≡ b'-'
to_dash-sep c h = ground arith

onto_match-some :
    (c : ℕ) (o : Option Text) (uid : Text)
    → onto_match c o ≡ some uid
    → (s : Text) × (o ≡ some s) × (uid ≡ c ∷ s)
onto_match-some c none uid h = absurd (none-ne-some uid h)
onto_match-some c (some s) uid h = (s, refl, sym (some_inj h))

match_shape-IsCanonical :
    (shape : List Bool) (s uid : Text)
    → match_shape shape s ≡ some uid
    → IsCanonical shape (map to_dash uid)
unfolding match_shape
match_shape-IsCanonical [] s uid h = subst (λ t. IsCanonical [] (map to_dash t)) (some_inj h) tt
match_shape-IsCanonical (digit ∷ shape) [] uid h = absurd (none-ne-some uid h)
match_shape-IsCanonical (true ∷ shape) (c ∷ s) uid h = elim (Bool-cases (is_hex c)) [
  | inl hex ↦
      let (rest, found, e) =
        onto_match-some c (match_shape shape s) uid
          (sym (ap (λ b. if b then onto_match c (match_shape shape s) else none) hex) ∙ h) in
      subst (λ t. IsCanonical (true ∷ shape) (map to_dash t)) (sym e)
        (to_dash-hex c hex, match_shape-IsCanonical shape s rest found)
  | inr other ↦ absurd (
      none-ne-some uid
        (sym (ap (λ b. if b then onto_match c (match_shape shape s) else none) other) ∙ h))
]
match_shape-IsCanonical (false ∷ shape) (c ∷ s) uid h = elim (Bool-cases (is_sep c)) [
  | inl sep ↦
      let (rest, found, e) =
        onto_match-some c (match_shape shape s) uid
          (sym (ap (λ b. if b then onto_match c (match_shape shape s) else none) sep) ∙ h) in
      subst (λ t. IsCanonical (false ∷ shape) (map to_dash t)) (sym e)
        (to_dash-sep c sep, match_shape-IsCanonical shape s rest found)
  | inr other ↦ absurd (
      none-ne-some uid
        (sym (ap (λ b. if b then onto_match c (match_shape shape s) else none) other) ∙ h))
]

abbrev IsUid : Text → Type 0
IsUid uid = (uid ≡ []) ⊎ IsCanonical uid_shape uid

match_behind-IsUid :
    (o : Option Text) (uid : Text) → match_behind o ≡ some uid → IsUid (map to_dash uid)
match_behind-IsUid none uid h = absurd (none-ne-some uid h)
match_behind-IsUid (some rest) uid h = inr (match_shape-IsCanonical uid_shape rest uid h)

find_uid-IsUid : (content uid : Text) → find_uid content ≡ some uid → IsUid (map to_dash uid)
unfolding find_uid
find_uid-IsUid [] uid h = absurd (none-ne-some uid h)
find_uid-IsUid (c ∷ s) uid h =
    elim (Option-cases (match_behind (cut_prefix (c ∷ s) (codes "pod")))) [
      | inl missing ↦ find_uid-IsUid s uid (sym (ap (λ o. first_match o (find_uid s)) missing) ∙ h)
      | inr (found, has) ↦
          match_behind-IsUid (cut_prefix (c ∷ s) (codes "pod")) uid
            (has ∙ (sym (ap (λ o. first_match o (find_uid s)) has) ∙ h))
    ]

-- The UID of a process's pod is empty or canonical: 36 bytes, dashes between its groups and
-- hexadecimal digits elsewhere, whichever separators the cgroup path has.
pub process_pod_uid-IsCanonical :
    (content : Option Text)
    → (process_pod_uid content ≡ []) ⊎ IsCanonical uid_shape (process_pod_uid content)
unfolding process_pod_uid pod_uid_from_cgroup
process_pod_uid-IsCanonical none = inl refl
process_pod_uid-IsCanonical (some content) = elim (Option-cases (find_uid content)) [
  | inl missing ↦ rw missing (inl refl)
  | inr (uid, found) ↦ rw found (find_uid-IsUid content uid found)
]
