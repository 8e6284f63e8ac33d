-- ===== src/Exporter/Kube/Tests.antt =====
-- Runs on pods at concrete inputs, and instances of the theorems.
use gitlab_procs_exporter.Prelude.{◌≡◌, ◌⊎◌, refl, none, some, list_beq, keep, List, [], ◌∷◌}
use gitlab_procs_exporter.Prelude.Text.{Text, codes}
use gitlab_procs_exporter.Prelude.Map.{Map}
use gitlab_procs_exporter.Exporter.History.{add_sample, get_active_processes}
use gitlab_procs_exporter.Exporter.Label.{max_label_bytes}
use gitlab_procs_exporter.Exporter.Samples.{ascii_only, whole_numbers, sum_hasher, one_process}
use gitlab_procs_exporter.Exporter.Kube.{
  KubePodInfo, new_kube_store, replace, emit_jobs, kube_collect, parse_memory_quantity, FloatParser,
}
use gitlab_procs_exporter.Exporter.Kube.PodUid.{
  process_pod_uid, uid_shape, IsCanonical, process_pod_uid-IsCanonical,
}
use gitlab_procs_exporter.Exporter.Kube.Jobs.{IsJobTable, kube_collect_lem}

abbrev pod : Text → KubePodInfo
pod uid = record { uid = uid; cpu_request = 2; mem_request = 512 }

abbrev pods : List KubePodInfo
pods = pod (codes "uid-1") ∷ pod (codes "uid-2") ∷ []

abbrev always_three : FloatParser
always_three s = some 3

kibibytes : parse_memory_quantity ascii_only whole_numbers always_three (codes "3Ki") ≡ some 3072
unfolding parse_memory_quantity list_beq
kibibytes = refl

kube_collect_lem_example :
    (by_job : Map Text KubePodInfo) × ((kube_collect sum_hasher max_label_bytes
        (replace pods new_kube_store)
        one_process
        none).0
      ≡ emit_jobs by_job)
    × IsJobTable sum_hasher max_label_bytes
        (replace pods new_kube_store)
        (get_active_processes one_process)
        by_job
kube_collect_lem_example =
    kube_collect_lem sum_hasher max_label_bytes (replace pods new_kube_store) one_process none

one_job :
    (kube_collect sum_hasher max_label_bytes (replace pods new_kube_store) one_process none).0
    ≡ emit_jobs ((codes "build", pod (codes "uid-1")) ∷ [])
unfolding kube_collect replace emit_jobs add_sample list_beq keep
one_job = refl

-- The cgroup of a pod under systemd, with underscores.
abbrev slice : Text
slice = codes "0::/kubepods-pod0f1e2d3c_4b5a_6978_8796_a5b4c3d2e1f0.slice"

dashed_uid : process_pod_uid (some slice) ≡ codes "0f1e2d3c-4b5a-6978-8796-a5b4c3d2e1f0"
unfolding process_pod_uid
dashed_uid = refl

process_pod_uid-IsCanonical_example :
    (process_pod_uid (some slice) ≡ []) ⊎ IsCanonical uid_shape (process_pod_uid (some slice))
process_pod_uid-IsCanonical_example = process_pod_uid-IsCanonical (some slice)
