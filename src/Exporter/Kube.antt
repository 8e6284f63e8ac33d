-- ===== src/Exporter/Kube.antt =====
-- exporter/kube.go and exporter/kube_collector.go: the resource requests of the pods of CI jobs.
pub mod Store
pub mod Jobs
pub mod PodUid
pub mod Tests
use gitlab_procs_exporter.Prelude.{
  ℕ, ◌+◌, ◌^◌, Bool, true, false, Option, none, some, List, [], ◌∷◌, ◌++◌, ◌==◌, list_eq, nat_eq,
  list_beq, if◌then◌else◌,
}
use gitlab_procs_exporter.Prelude.Int.{ℤ}
use gitlab_procs_exporter.Prelude.Text.{Text, codes, Unicode, trim_space, cut_suffix}
use gitlab_procs_exporter.Prelude.Map.{Map, lookup, insert}
use gitlab_procs_exporter.Exporter.History.{
  ProcessSample, HistoryStore, get_active_processes, Float64,
}
use gitlab_procs_exporter.Exporter.Label.{Hasher, Limits, Observer, bound_label_with}
use gitlab_procs_exporter.Exporter.Redact.{Floats, sanitize_label_value}
use gitlab_procs_exporter.Exporter.Environ.{or_empty}

-- strconv.ParseFloat, on the bits of a float64: `none` is an error.
abbrev pub FloatParser : Type 0
FloatParser = Text → Option Float64

-- The quantity whose number stands before a suffix.
abbrev pub scaled : FloatParser → (Float64 → Float64) → Text → Option Float64
scaled parse_float scale number = elim (parse_float number) [
  | none ↦ none
  | some v ↦ some (scale v)
]

abbrev cpu_number : Floats → FloatParser → Text → Option Text → Option Float64
cpu_number fl parse_float s (some milli) =
    scaled parse_float (λ v. fl.over v (fl.of_nat 1000)) milli
cpu_number fl parse_float s none = parse_float s

unfoldable pub parse_cpu_quantity : Unicode → Floats → FloatParser → Text → Option Float64
unfolding trim_space cut_suffix
parse_cpu_quantity u fl parse_float raw =
    let s = trim_space u raw in
    if s == [] then some (fl.of_nat 0) else cpu_number fl parse_float s (cut_suffix s (codes "m"))

abbrev pub mem_suffixes : List (Text × ℕ)
mem_suffixes =
    (codes "Ei", 2 ^ 60)
    ∷ (codes "Pi", 2 ^ 50)
    ∷ (codes "Ti", 2 ^ 40)
    ∷ (codes "Gi", 2 ^ 30)
    ∷ (codes "Mi", 2 ^ 20)
    ∷ (codes "Ki", 2 ^ 10)
    ∷ (codes "E", 10 ^ 18)
    ∷ (codes "P", 10 ^ 15)
    ∷ (codes "T", 10 ^ 12)
    ∷ (codes "G", 10 ^ 9)
    ∷ (codes "M", 10 ^ 6)
    ∷ (codes "k", 10 ^ 3)
    ∷ []

abbrev mem_choice : Floats → FloatParser → ℕ → Option Text → Option Float64 → Option Float64
mem_choice fl parse_float mult (some number) later =
    scaled parse_float (λ v. fl.times v (fl.of_nat mult)) number
mem_choice fl parse_float mult none later = later

pub mem_loop : Floats → FloatParser → Text → List (Text × ℕ) → Option Float64
unfolding cut_suffix
mem_loop fl parse_float s [] = parse_float s
mem_loop fl parse_float s ((suffix, mult) ∷ rest) =
    mem_choice fl parse_float mult (cut_suffix s suffix) (mem_loop fl parse_float s rest)

unfoldable pub parse_memory_quantity : Unicode → Floats → FloatParser → Text → Option Float64
unfolding trim_space mem_loop
parse_memory_quantity u fl parse_float raw =
    let s = trim_space u raw in
    if s == [] then some (fl.of_nat 0) else mem_loop fl parse_float s mem_suffixes

pub record KubePodInfo : Type 0 where
  pub uid : Text
  pub cpu_request : Float64
  pub mem_request : Float64

-- What `encoding/json` makes of the list of pods: the requests of each container, processor first.
pub record PodItem : Type 0 where
  pub uid : Text
  pub containers : List (Text × Text)

abbrev add_request : Floats → Option Float64 → Option Float64 → KubePodInfo → Option KubePodInfo
add_request fl none mem info = none
add_request fl (some cpu) none info = none
add_request fl (some cpu) (some mem) info = some (record info {
  cpu_request = fl.plus info.cpu_request cpu;
  mem_request = fl.plus info.mem_request mem;
})

infixl 5 ◌>>=◌
abbrev ◌>>=◌ {ℓ κ} : {A : Type ℓ} {B : Type κ} → Option A → (A → Option B) → Option B
none >>= f = none
some a >>= f = f a

pub sum_containers :
    Unicode → Floats → FloatParser → List (Text × Text) → KubePodInfo → Option KubePodInfo
unfolding parse_cpu_quantity parse_memory_quantity
sum_containers u fl parse_float [] info = some info
sum_containers u fl parse_float ((cpu, memory) ∷ rest) info = do
  next ←
      add_request fl (parse_cpu_quantity u fl parse_float cpu)
        (parse_memory_quantity u fl parse_float memory) info
  sum_containers u fl parse_float rest next

-- The decoded list of pods, or an error; the quantities of one container that cannot be read make
-- the whole list an error.
pub parse_pod_list : Unicode → Floats → FloatParser → List PodItem → Option (List KubePodInfo)
unfolding sum_containers
parse_pod_list u fl parse_float [] = some []
parse_pod_list u fl parse_float (item ∷ items) = do
  info ←
      sum_containers u fl parse_float item.containers
        (record { uid = item.uid; cpu_request = fl.of_nat 0; mem_request = fl.of_nat 0 })
  rest ← parse_pod_list u fl parse_float items
  some (info ∷ rest)

pub record KubeStore : Type 0 where
  pub pods : Map Text KubePodInfo

abbrev pub new_kube_store : KubeStore
new_kube_store = record { pods = [] }

pub replace_loop : List KubePodInfo → Map Text KubePodInfo → Map Text KubePodInfo
unfolding insert
replace_loop [] next = next
replace_loop (p ∷ pods) next = replace_loop pods (insert p.uid p next)

-- `Replace`
unfoldable pub replace : List KubePodInfo → KubeStore → KubeStore
unfolding replace_loop
replace pods ks = record { pods = replace_loop pods [] }

-- `Get`
unfoldable pub get : Text → KubeStore → Option KubePodInfo
unfolding lookup
get uid ks = lookup uid ks.pods

-- The table of jobs, and the observer of cuts.
abbrev pub Jobs : Type 0
Jobs = Map Text KubePodInfo × Observer

pub put_job : Text → Option KubePodInfo → Map Text KubePodInfo → Map Text KubePodInfo
unfolding insert
put_job job none by_job = by_job
put_job job (some info) by_job = insert job info by_job

-- What the job of a process with a pod is put under.
pub with_job : KubeStore → Text → Text × Observer → Map Text KubePodInfo → Jobs
unfolding put_job get
with_job kube pod_uid (job, obs) by_job =
    (if job == [] then by_job else put_job job (get pod_uid kube) by_job, obs)

pub job_step : Hasher → Limits → KubeStore → ProcessSample → Jobs → Jobs
unfolding with_job bound_label_with sanitize_label_value
job_step h limits kube p (by_job, obs) =
    if p.pod_uid == []
    then (by_job, obs)
    else with_job kube p.pod_uid
        (bound_label_with h limits (codes "ci_job_name")
          (sanitize_label_value (or_empty (lookup (codes "CI_JOB_NAME") p.environ))) obs)
        by_job

pub job_loop : Hasher → Limits → KubeStore → List ProcessSample → Jobs → Jobs
unfolding job_step
job_loop h limits kube [] jobs = jobs
job_loop h limits kube (p ∷ ps) jobs = job_loop h limits kube ps (job_step h limits kube p jobs)

pub data KubeDesc : Type 0 where
  cpu_desc mem_desc : KubeDesc

pub record KubeMetric : Type 0 where
  pub desc : KubeDesc
  pub value : Float64
  pub job_name : Text

pub emit_jobs : Map Text KubePodInfo → List KubeMetric
emit_jobs [] = []
emit_jobs ((job, info) ∷ rest) =
    record { desc = cpu_desc; value = info.cpu_request; job_name = job }
    ∷ record { desc = mem_desc; value = info.mem_request; job_name = job }
    ∷ emit_jobs rest

-- `Collect` of the `KubeCollector`: the metrics, and the observer.
unfoldable pub kube_collect :
    Hasher → Limits → KubeStore → HistoryStore → Observer → List KubeMetric × Observer
unfolding job_loop emit_jobs get_active_processes
kube_collect h limits kube hs obs =
    let (by_job, counted) = job_loop h limits kube (get_active_processes hs) ([], obs) in
    (emit_jobs by_job, counted)
