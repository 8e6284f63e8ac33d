-- ===== src/Exporter/Config.antt =====
-- exporter/config.go: the configuration file, and which overrides of the limits it may make.
pub mod Decode
pub mod Validate
pub mod Loaded
pub mod Tests
use gitlab_procs_exporter.Prelude.{
  ℕ, ◌-◌, ◌^◌, ◌≡◌, refl, Bool, true, false, ◌||◌, Option, none, some, List, [], ◌∷◌, ◌++◌, ltb,
  ◌==◌, list_eq, nat_eq, list_beq, if◌then◌else◌,
}
use gitlab_procs_exporter.Prelude.Int.{ℤ, pos, negsuc, int_leb, int_ltb}
use gitlab_procs_exporter.Prelude.Text.{Text, Unicode, to_lower, trim_space}
use gitlab_procs_exporter.Prelude.Map.{Map, lookup, insert, keys}
use gitlab_procs_exporter.Prelude.Sort.{sort_strings}
use gitlab_procs_exporter.Exporter.Label.{
  Limits, max_label_bytes, min_label_bytes, max_label_bytes_ceiling,
}

-- What `yaml.v2` makes of a scalar: an integer in the smallest of three types that holds it, or
-- anything else.
pub data YamlScalar : Type 0 where
  int : ℤ → YamlScalar
  int64 : ℤ → YamlScalar
  uint64 : ℕ → YamlScalar
  other : Text → YamlScalar

-- The file after the decoder of `yaml.v2`: the mapping of the limits is still untyped.
pub record RawConfig : Type 0 where
  pub redact_key_substrings : List Text
  pub max_label_bytes : Map Text YamlScalar

pub record Config : Type 0 where
  pub redact_key_substrings : List Text
  pub max_label_bytes : Map Text ℤ

-- The errors, by what their messages name.
pub data ConfigError : Type 0 where
  read_config : Text → ConfigError
  parse_config : Text → ConfigError
  not_integer : Text → ConfigError
  unknown_label : Text → ConfigError
  not_positive below_marker above_ceiling : Text → ℤ → ConfigError

pub data Result {ℓ} (A : Type ℓ) : Type ℓ where
  err : ConfigError → Result A
  ok : A → Result A

infixl 5 ◌>>=◌
abbrev pub ◌>>=◌ {ℓ κ} : {A : Type ℓ} {B : Type κ} → Result A → (A → Result B) → Result B
err why >>= next = err why
ok value >>= next = next value

-- The two halves of a chain that succeeds.
pub >>=-eq-ok {ℓ κ} :
    {A : Type ℓ} {B : Type κ} (first : Result A) (next : A → Result B) {out : B}
    → (first >>= next) ≡ ok out
    → (value : A) × (first ≡ ok value) × (next value ≡ ok out)
>>=-eq-ok (err why) next done = cc
>>=-eq-ok (ok value) next done = (value, refl, done)

-- math.MaxInt and math.MinInt on a machine of 64 bits
abbrev pub max_int : ℕ
max_int = 2 ^ 63 - 1

abbrev pub min_int : ℤ
min_int = negsuc max_int

unfoldable pub label_byte_limit : YamlScalar → Option ℤ
label_byte_limit (int n) = some n
label_byte_limit (int64 n) =
    if int_ltb (pos max_int) n
    then some (pos max_int)
    else if int_ltb n min_int
    then some min_int
    else some n
label_byte_limit (uint64 n) = if ltb max_int n then some (pos max_int) else some (pos n)
label_byte_limit (other s) = none

unfoldable pub sorted_keys {ℓ} : {V : Type ℓ} → Map Text V → List Text
unfolding sort_strings
sorted_keys m = sort_strings (keys m)

-- A key of the loop is a key of the map.
pub decode_limit : Text → Option YamlScalar → Option ℤ
unfolding label_byte_limit
decode_limit name none = none
decode_limit name (some v) = label_byte_limit v

pub decode_step : Text → Option ℤ → Limits → Result Limits
decode_step name none out = err (not_integer name)
decode_step name (some limit) out = ok (insert name limit out)

pub decode_loop : Map Text YamlScalar → List Text → Limits → Result Limits
unfolding decode_limit decode_step
decode_loop raw [] out = ok out
decode_loop raw (name ∷ names) out = do
  out' ← decode_step name (decode_limit name (lookup name raw)) out
  decode_loop raw names out'

-- `UnmarshalYAML` of `LabelByteLimits`
unfoldable pub unmarshal_yaml : Map Text YamlScalar → Result Limits
unfolding decode_loop sorted_keys
unmarshal_yaml raw = decode_loop raw (sorted_keys raw) []

-- The body of the loop of `validateMaxLabelBytes`: the error of one label, if it has one.
pub check_limit : Text → ℤ → Option ConfigError
check_limit name limit =
    if int_leb limit (pos 0)
    then some (not_positive name limit)
    else if int_ltb limit (pos min_label_bytes)
    then some (below_marker name limit)
    else if int_ltb (pos max_label_bytes_ceiling) limit
    then some (above_ceiling name limit)
    else none

pub check_override : Text → Option ℤ → Option ℤ → Option ConfigError
unfolding check_limit
check_override name none limit = some (unknown_label name)
check_override name (some default) none = none
check_override name (some default) (some limit) = check_limit name limit

abbrev pub first_error : Option ConfigError → Option ConfigError → Option ConfigError
first_error none rest = rest
first_error (some e) rest = some e

pub validate_loop : Map Text ℤ → List Text → Option ConfigError
unfolding check_override
validate_loop overrides [] = none
validate_loop overrides (name ∷ names) =
    first_error (check_override name (lookup name max_label_bytes) (lookup name overrides))
      (validate_loop overrides names)

-- `nil` is `none`.
unfoldable pub validate_max_label_bytes : Map Text ℤ → Option ConfigError
unfolding validate_loop sorted_keys
validate_max_label_bytes overrides = validate_loop overrides (sorted_keys overrides)

unfoldable pub normalize_substrings : Unicode → List Text → List Text
unfolding to_lower trim_space
normalize_substrings u [] = []
normalize_substrings u (s ∷ rest) =
    let s' = to_lower u (trim_space u s) in
    let out = normalize_substrings u rest in if s' == [] then out else s' ∷ out

-- `os.ReadFile` and the strict decoder of `yaml.v2`: `none` is an error.
pub record Files : Type 0 where
  pub read_file : Text → Option Text
  pub unmarshal_strict : Text → Option RawConfig

pub or_error {ℓ} : {A : Type ℓ} → ConfigError → Option A → Result A
or_error e none = err e
or_error e (some a) = ok a

pub reject : Option ConfigError → Config → Result Config
reject none cfg = ok cfg
reject (some e) cfg = err e

unfoldable pub load_config : Unicode → Files → Text → Result Config
unfolding or_error reject unmarshal_yaml normalize_substrings validate_max_label_bytes
load_config u files path = do
  text ← or_error (read_config path) (files.read_file path)
  raw ← or_error (parse_config path) (files.unmarshal_strict text)
  limits ← unmarshal_yaml raw.max_label_bytes
  let cfg : Config = record {
    redact_key_substrings = normalize_substrings u raw.redact_key_substrings;
    max_label_bytes = limits;
  }
  reject (validate_max_label_bytes limits) cfg
