-- ===== src/JobReport/Prom.antt =====
-- internal/jobreport/prom.go: the client of Prometheus, with its retries and the folding of series.
pub mod Retry
pub mod Richest
pub mod Rank
pub mod Nodes
use gitlab_procs_exporter.Prelude.{
  ℕ, zero, suc, ◌+◌, ◌*◌, Bool, true, false, not, ◌&&◌, ◌||◌, Option, none, some, List, [], ◌∷◌,
  ◌++◌, ◌==◌, list_eq, nat_eq, leb, length, if◌then◌else◌,
}
use gitlab_procs_exporter.Prelude.Int.{ℤ}
use gitlab_procs_exporter.Prelude.Text.{Text, codes, contains}
use gitlab_procs_exporter.Prelude.Decimal.{format_int}
use gitlab_procs_exporter.Prelude.Map.{Map, lookup, insert}
use gitlab_procs_exporter.Prelude.Sort.{sort_strings}
use gitlab_procs_exporter.Exporter.History.{Float64}
use gitlab_procs_exporter.JobReport.Meta.{ProcMeta, extract_meta}

-- What encoding/json makes of a value whose type is not fixed.
pub data JsonValue : Type 0 where
  string : Text → JsonValue
  other : JsonValue

-- One series of a response. The samples of a range are never read.
pub record Series : Type 0 where
  pub metric : Map Text Text
  pub value : List JsonValue

pub record PromResp : Type 0 where
  pub status : Text
  pub result : List Series

pub data PromError : Type 0 where
  bad_request transport unreadable undecodable : PromError
  http_status : ℕ → Text → PromError
  prom_status : Text → PromError

-- What one request meets: it cannot be made, gets no reply, a reply whose body breaks off, or a
-- status with a body.
pub data Exchange : Type 0 where
  no_request no_reply broken_body : Exchange
  reply : ℕ → Text → Exchange

-- The three results of `getOnce`: a response, or whether to retry and the error.
pub data Attempt : Type 0 where
  answer : PromResp → Attempt
  failure : Bool → PromError → Attempt

-- net/http, encoding/json, net/url, strconv.ParseFloat, the order of float64 and `%q`. The network
-- tells what the n-th attempt at a URL meets.
pub record Transport : Type 0 where
  pub network : Text → ℕ → Exchange
  pub decode : Text → Option PromResp
  pub encode : Map Text Text → Text
  pub parse_float : Text → Option Float64
  pub above : Float64 → Float64 → Bool
  pub quote : Text → Text

-- strings.TrimRight of one byte
unfoldable pub trim_right_byte : ℕ → Text → Text
trim_right_byte b [] = []
trim_right_byte b (c ∷ s) =
    let rest = trim_right_byte b s in if rest == [] && c == b then [] else c ∷ rest

unfoldable pub new_prom_client : Text → Text
unfolding contains trim_right_byte
new_prom_client base =
    let base' = if base == [] then codes "http://localhost:9090" else base in
    trim_right_byte b'/' (if contains base' (codes "://") then base' else codes "https://" ++ base')

unfoldable pub retryable_status : ℕ → Bool
retryable_status code = code == 502 || code == 503 || code == 504

unfoldable pub check_status : Option PromResp → Attempt
check_status none = failure false undecodable
check_status (some pr) =
    if pr.status == codes "success" then answer pr else failure false (prom_status pr.status)

unfoldable pub get_once : (Text → Option PromResp) → Exchange → Attempt
unfolding retryable_status check_status
get_once decode no_request = failure false bad_request
get_once decode no_reply = failure true transport
get_once decode broken_body = failure true unreadable
get_once decode (reply code body) =
    if code == 200
    then check_status (decode body)
    else failure (retryable_status code) (http_status code body)

-- `nil, lastErr` is `failed lastErr`.
pub data GetResult : Type 0 where
  found : PromResp → GetResult
  failed : Option PromError → GetResult

-- The result, the number of requests, and the waits between them in milliseconds.
pub record GetRun : Type 0 where
  pub result : GetResult
  pub requests : ℕ
  pub sleeps : List ℕ

abbrev pub max_attempts : ℕ
max_attempts = 3

abbrev pub retry_backoff : ℕ
retry_backoff = 500

abbrev pub one_request : GetResult → GetRun
one_request r = record { result = r; requests = 1; sleeps = [] }

-- Of one round of the loop; `later` is the run of the rounds that follow.
unfoldable pub after_attempt : ℕ → Attempt → GetRun → GetRun
after_attempt attempt (answer pr) later = one_request (found pr)
after_attempt attempt (failure retry e) later =
    if not retry || attempt == max_attempts then one_request (failed (some e)) else record {
      result = later.result;
      requests = suc later.requests;
      sleeps = (retry_backoff * attempt) ∷ later.sleeps;
    }

-- `lastErr` behind an attempt
abbrev last_err : Attempt → Option PromError → Option PromError
last_err (answer pr) e = e
last_err (failure retry e') e = some e'

-- `left` rounds are left, and this is round `attempt`.
unfoldable pub get_loop : (ℕ → Attempt) → ℕ → ℕ → Option PromError → GetRun
unfolding after_attempt
get_loop attempts zero attempt last = record { result = failed last; requests = 0; sleeps = [] }
get_loop attempts (suc left) attempt last =
    after_attempt attempt (attempts attempt)
      (get_loop attempts left (attempt + 1) (last_err (attempts attempt) last))

unfoldable pub get : Transport → Text → Text → Map Text Text → GetRun
unfolding get_loop
get t base path q =
    let u = base ++ (path ++ (codes "?" ++ t.encode q)) in
    get_loop (λ n. get_once t.decode (t.network u n)) max_attempts 1 none

unfoldable pub query_instant : Transport → Text → Text → ℤ → GetRun
unfolding get
query_instant t base expr at =
    get t base (codes "/api/v1/query")
      ((codes "query", expr) ∷ ((codes "time", format_int at) ∷ []))

unfoldable pub query_range : Transport → Text → Text → ℤ → ℤ → ℤ → GetRun
unfolding get
query_range t base expr start end step = get t base (codes "/api/v1/query_range") (
    (codes "query", expr)
    ∷ ((codes "start", format_int start)
        ∷ ((codes "end", format_int end) ∷ ((codes "step", format_int step) ∷ []))))

unfoldable pub instant_float : (Text → Option Float64) → List JsonValue → Option Float64
instant_float parse_float (at ∷ (string s ∷ [])) = parse_float s
instant_float parse_float _ = none

unfoldable pub selector : Transport → Text → Text → Text
selector t proc node =
    let name = if proc == codes "all" then [] else codes "name=" ++ t.quote proc in
    let sep = if name == [] then [] else codes "," in
    let sel =
      if node == codes "all" then name else name ++ (sep ++ (codes "node_ip=" ++ t.quote node)) in
    codes "{" ++ (sel ++ codes "}")

abbrev text_or_empty : Option Text → Text
text_or_empty none = []
text_or_empty (some v) = v

-- `s.Metric[name]`
unfoldable pub label : Text → Series → Text
unfolding lookup
label name s = text_or_empty (lookup name s.metric)

unfoldable pub series_key : Series → Text
unfolding label
series_key s = label (codes "node_ip") s ++ (codes "|" ++ label (codes "pid") s)

-- `cur, ok := best[key]; ok && len(cmd) <= len(cur)`
abbrev pub is_poorer : Text → Option Text → Bool
is_poorer cmd none = false
is_poorer cmd (some cur) = leb (length cmd) (length cur)

unfoldable pub meta_of : Series → ProcMeta
unfolding label extract_meta
meta_of s = extract_meta (label (codes "cmdline") s) (label (codes "environ") s)

unfoldable pub meta_loop : List Series → Map Text Text → Map Text ProcMeta → Map Text ProcMeta
unfolding lookup insert series_key label meta_of
meta_loop [] best out = out
meta_loop (s ∷ result) best out =
    let poorer = is_poorer (label (codes "cmdline") s) (lookup (series_key s) best) in
    meta_loop result
      (if poorer then best else insert (series_key s) (label (codes "cmdline") s) best)
      (if poorer then out else insert (series_key s) (meta_of s) out)

-- What a reply is turned into, and the error where there is none.
pub data Answer {ℓ} (A : Type ℓ) : Type ℓ where
  value : A → Answer A
  error : Option PromError → Answer A

abbrev pub map_result {ℓ} : {A : Type ℓ} → (PromResp → A) → GetResult → Answer A
map_result f (found pr) = value (f pr)
map_result f (failed e) = error e

unfoldable pub meta_map : Transport → Text → Text → ℤ → ℤ → ℤ → Answer (Map Text ProcMeta)
unfolding query_range meta_loop
meta_map t base filter start end step =
    map_result (λ pr. meta_loop pr.result [] [])
      (query_range t base (codes "gitlab_process_info" ++ filter) start end step).result
