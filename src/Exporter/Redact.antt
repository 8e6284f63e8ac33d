-- ===== src/Exporter/Redact.antt =====
-- exporter/collector.go: what counts as a secret, and the environment that the JSON API shows.
pub mod Sanitize
pub mod Hide
pub mod Tests
use gitlab_procs_exporter.Prelude.{
  ℕ, Bool, true, false, not, ◌&&◌, ◌||◌, Option, none, some, List, [], ◌∷◌, ◌==◌, list_eq, nat_eq,
  list_beq, if◌then◌else◌, leb, length, any, all,
}
use gitlab_procs_exporter.Prelude.Text.{
  Text, codes, Unicode, to_lower, contains, has_prefix, count_byte,
}
use gitlab_procs_exporter.Prelude.Map.{Map, lookup, insert}
use gitlab_procs_exporter.Prelude.Utf8.{valid_string, to_valid_utf8}

-- The arithmetic of `float64` and `math.Log2`, on the bits of the numbers, and the order in which a
-- `range` visits the counts of a map.
pub record Floats : Type 0 where
  pub of_nat : ℕ → ℕ
  pub plus : ℕ → ℕ → ℕ
  pub minus : ℕ → ℕ → ℕ
  pub times : ℕ → ℕ → ℕ
  pub over : ℕ → ℕ → ℕ
  pub log2 : ℕ → ℕ
  pub at_most : ℕ → ℕ → Bool
  pub visited : Map ℕ ℕ → Map ℕ ℕ

unfoldable pub sanitize_label_value : Text → Text
unfolding valid_string to_valid_utf8
sanitize_label_value v = if valid_string v then v else to_valid_utf8 v

unfoldable pub key_matches_any : Unicode → Text → List Text → Bool
unfolding to_lower contains any
key_matches_any u key substrings = let k = to_lower u key in any (λ s. contains k s) substrings

abbrev pub secrets : List Text
secrets =
    codes "key"
    ∷ codes "pass"
    ∷ codes "passwd"
    ∷ codes "token"
    ∷ codes "secret"
    ∷ codes "auth"
    ∷ codes "pwd"
    ∷ codes "db"
    ∷ codes "url"
    ∷ codes "private"
    ∷ codes "crypt"
    ∷ codes "credential"
    ∷ codes "signature"
    ∷ codes "api"
    ∷ codes "cert"
    ∷ codes "ssh"
    ∷ codes "gpg"
    ∷ codes "jwt"
    ∷ codes "bearer"
    ∷ codes "access"
    ∷ codes "cookie"
    ∷ codes "session"
    ∷ codes "salt"
    ∷ codes "otp"
    ∷ codes "webhook"
    ∷ codes "dsn"
    ∷ codes "connection"
    ∷ codes "client_secret"
    ∷ []

unfoldable pub is_secret_key : Unicode → Text → Bool
unfolding to_lower contains any
is_secret_key u key = let k = to_lower u key in any (λ s. contains k s) secrets

abbrev pub token_prefixes : List Text
token_prefixes =
    codes "glpat-"
    ∷ codes "gho_"
    ∷ codes "ghp_"
    ∷ codes "ghu_"
    ∷ codes "ghs_"
    ∷ codes "github_pat_"
    ∷ codes "AKIA"
    ∷ codes "xoxb-"
    ∷ codes "xoxp-"
    ∷ codes "xoxa-"
    ∷ []

abbrev pub in_range : ℕ → ℕ → ℕ → Bool
in_range lo hi c = leb lo c && leb c hi

-- A rune of the set is one byte, and no byte of another rune is in the set.
unfoldable pub is_token_byte : ℕ → Bool
is_token_byte c =
    (in_range b'a' b'z' c || in_range b'A' b'Z' c || in_range b'0' b'9' c)
    || (c == b'+' || c == b'/' || c == b'=' || c == b'-' || c == b'_')

unfoldable pub is_token_charset : Text → Bool
unfolding is_token_byte all
is_token_charset = all is_token_byte

abbrev count_or : ℕ → Option ℕ → ℕ
count_or zero_bits none = zero_bits
count_or zero_bits (some n) = n

-- `counts[r]++` for each rune, which is a byte in a text of the set of tokens.
pub entropy_counts : Floats → Text → Map ℕ ℕ → Map ℕ ℕ
unfolding lookup insert
entropy_counts fl [] counts = counts
entropy_counts fl (r ∷ v) counts =
    entropy_counts fl v
      (insert r (fl.plus (count_or (fl.of_nat 0) (lookup r counts)) (fl.of_nat 1)) counts)

pub entropy_sum : Floats → ℕ → Map ℕ ℕ → ℕ → ℕ
entropy_sum fl n [] h = h
entropy_sum fl n ((r, c) ∷ counts) h =
    let p = fl.over c n in entropy_sum fl n counts (fl.minus h (fl.times p (fl.log2 p)))

unfoldable pub shannon_entropy : Floats → Text → ℕ
unfolding entropy_counts entropy_sum
shannon_entropy fl v =
    entropy_sum fl (fl.of_nat (length v)) (fl.visited (entropy_counts fl v [])) (fl.of_nat 0)

-- 3.5
abbrev pub entropy_threshold : Floats → ℕ
entropy_threshold fl = fl.over (fl.of_nat 7) (fl.of_nat 2)

unfoldable pub is_secret_value : Floats → Text → Bool
unfolding has_prefix any count_byte is_token_charset shannon_entropy
is_secret_value fl v =
    if v == []
    then false
    else any (has_prefix v) token_prefixes
      || (has_prefix v (codes "eyJ") && count_byte b'.' v == 2)
      || (leb 32 (length v)
          && is_token_charset v
          && fl.at_most (entropy_threshold fl) (shannon_entropy fl v))

unfoldable pub is_sensitive_pair : Unicode → Floats → Text → Text → List Text → Bool
unfolding is_secret_key key_matches_any is_secret_value
is_sensitive_pair u fl key val extra =
    is_secret_key u key || key_matches_any u key extra || is_secret_value fl val

abbrev pub redacted : Text
redacted = codes "[REDACTED]"

-- The body of the loop of `RedactEnviron`: the value that is stored.
unfoldable pub shown_value : Unicode → Floats → List Text → Text → Text → Text
unfolding is_sensitive_pair
shown_value u fl extra k v = if is_sensitive_pair u fl k v extra then redacted else v

pub redact_loop : Unicode → Floats → List Text → Map Text Text → Map Text Text → Map Text Text
unfolding shown_value insert
redact_loop u fl extra [] out = out
redact_loop u fl extra ((k, v) ∷ environ) out =
    redact_loop u fl extra environ (insert k (shown_value u fl extra k v) out)

unfoldable pub redact_environ : Unicode → Floats → Map Text Text → List Text → Map Text Text
unfolding redact_loop
redact_environ u fl environ extra = redact_loop u fl extra environ []
