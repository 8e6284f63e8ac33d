-- ===== src/Prelude/Text.antt =====
-- Go strings as the bytes that they hold, and what the program uses of the package `strings`.
use Prim.Native.Nat.{ℕ, ◌+◌}
use Prim.Native.Char.{code}
use Prim.Native.String.{String}
use mathlib.Core.Path.{◌≡◌, refl}
use mathlib.Core.Bool.{Bool, true, false, ◌&&◌, ◌||◌}
use mathlib.Core.List.{List, [], ◌∷◌, ◌++◌, map, reverse}
use mathlib.Core.Option.{Option, none, some}
use native.Mathlib.Omega.{arith}
use gitlab_procs_exporter.Prelude.Tests.{ltb, leb, nat_beq, if◌then◌else◌}
use gitlab_procs_exporter.Prelude.Lists.{all}

abbrev pub Text : Type 0
Text = List ℕ

-- The bytes of an ASCII literal.
abbrev pub codes : String → Text
codes String.[] = []
codes (String.◌∷◌ c s) = code c ∷ codes s

-- strings.CutPrefix
unfoldable pub cut_prefix : Text → Text → Option Text
cut_prefix s [] = some s
cut_prefix [] (p ∷ ps) = none
cut_prefix (c ∷ s) (p ∷ ps) = let rest = cut_prefix s ps in if nat_beq c p then rest else none

abbrev is_some {ℓ} : {A : Type ℓ} → Option A → Bool
is_some none = false
is_some (some a) = true

-- strings.HasPrefix
unfoldable pub has_prefix : Text → Text → Bool
unfolding cut_prefix
has_prefix s p = is_some (cut_prefix s p)

-- strings.HasSuffix
unfoldable pub has_suffix : Text → Text → Bool
unfolding has_prefix
has_suffix s p = has_prefix (reverse s) (reverse p)

-- What is left of a text with the suffix, where it has it.
unfoldable pub cut_suffix : Text → Text → Option Text
unfolding cut_prefix
cut_suffix s p = elim (cut_prefix (reverse s) (reverse p)) [
  | none ↦ none
  | some rest ↦ some (reverse rest)
]

-- strings.Contains
unfoldable pub contains : Text → Text → Bool
unfolding has_prefix
contains [] p = has_prefix [] p
contains (c ∷ s) p = has_prefix (c ∷ s) p || contains s p

-- strings.Count of one byte
unfoldable pub count_byte : ℕ → Text → ℕ
count_byte b [] = 0
count_byte b (c ∷ s) = (if nat_beq c b then 1 else 0) + count_byte b s

unfoldable pub is_ascii : Text → Bool
unfolding all
is_ascii = all (λ c. ltb c 128)

abbrev pub lower_byte : ℕ → ℕ
lower_byte c = if leb b'A' c && leb c b'Z' then c + 32 else c

abbrev pub is_space : ℕ → Bool
is_space c = nat_beq c 32 || (leb 9 c && leb c 13)

unfoldable pub trim_left : Text → Text
trim_left [] = []
trim_left (c ∷ s) = let rest = trim_left s in if is_space c then rest else c ∷ s

-- What the Go library does to text with a byte of 128 or more, by its Unicode tables.
pub record Unicode : Type 0 where
  pub lower : Text → Text
  pub trim : Text → Text

-- strings.ToLower
unfoldable pub to_lower : Unicode → Text → Text
unfolding is_ascii
to_lower u s = if is_ascii s then map lower_byte s else u.lower s

-- strings.TrimSpace
unfoldable pub trim_space : Unicode → Text → Text
unfolding is_ascii trim_left
trim_space u s = if is_ascii s then reverse (trim_left (reverse (trim_left s))) else u.trim s

-- strings.Join
unfoldable pub join : List Text → Text → Text
join [] sep = []
join (p ∷ []) sep = p
join (p ∷ (q ∷ ps)) sep = p ++ sep ++ join (q ∷ ps) sep

abbrev before_cut : ℕ → Option (Text × Text) → Option (Text × Text)
before_cut c none = none
before_cut c (some (before, rest)) = some (c ∷ before, rest)

abbrev cut_here : Option Text → Option (Text × Text) → Option (Text × Text)
cut_here none later = later
cut_here (some rest) later = some ([], rest)

-- strings.Cut: the text before the first separator and the text behind it.
unfoldable pub cut : Text → Text → Option (Text × Text)
unfolding cut_prefix
cut [] sep = cut_here (cut_prefix [] sep) none
cut (c ∷ s) sep = cut_here (cut_prefix (c ∷ s) sep) (before_cut c (cut s sep))

pub cut_prefix-append : (p s : Text) → cut_prefix (p ++ s) p ≡ some s
unfolding cut_prefix
cut_prefix-append [] s = refl
cut_prefix-append (c ∷ p) s = ground (arith, cut_prefix-append p s)

-- A cut prefix and what is left spell the text.
pub cut_prefix_sound : (s p rest : Text) → cut_prefix s p ≡ some rest → s ≡ p ++ rest
unfolding cut_prefix
cut_prefix_sound s [] rest h = ground arith
cut_prefix_sound [] (p ∷ ps) rest h = ground arith
cut_prefix_sound (c ∷ s) (p ∷ ps) rest h = ground (arith, cut_prefix_sound s ps rest)

lower_abc : to_lower (record { lower = λ s. s; trim = λ s. s }) (codes "CI_Job") ≡ codes "ci_job"
unfolding to_lower
lower_abc = refl

trim_abc : trim_space (record { lower = λ s. s; trim = λ s. s }) (codes " a b\t") ≡ codes "a b"
unfolding trim_space
trim_abc = refl

contains_abc : contains (codes "abcabd") (codes "abd") ≡ true
unfolding contains
contains_abc = refl
