-- ===== src/Exporter/Kube/Jobs.antt =====
-- The jobs of one scrape: no two series with the same label, and none without its pod.
use gitlab_procs_exporter.Prelude.{
  ◌≡◌, ◌≢◌, refl, sym, subst, ◌∙◌, Bool, true, Option, none, some, some_inj, List, [], ◌∷◌, Member,
  ◌==◌, eq_iff, list_eq, nat_eq, if◌then◌else◌, Bool-cases, inl, inr,
}
use mathlib.Core.Bool.{false≢true}
use gitlab_procs_exporter.Prelude.Text.{Text, codes}
use gitlab_procs_exporter.Prelude.Map.{
  Map, lookup, insert, lookup-insert, IsDistinct, insert-IsDistinct,
}
use gitlab_procs_exporter.Prelude.Utf8.{valid_string}
use gitlab_procs_exporter.Exporter.History.{ProcessSample, HistoryStore, get_active_processes}
use gitlab_procs_exporter.Exporter.Label.{Hasher, Limits, Observer, bound_label_with}
use gitlab_procs_exporter.Exporter.Label.Limits.{bound_label_with_value}
use gitlab_procs_exporter.Exporter.Label.Utf8.{bound_label_with-valid_string}
use gitlab_procs_exporter.Exporter.Redact.{sanitize_label_value}
use gitlab_procs_exporter.Exporter.Redact.Sanitize.{sanitize_label_value-valid_string}
use gitlab_procs_exporter.Exporter.Environ.{or_empty}
use gitlab_procs_exporter.Exporter.Kube.{
  KubePodInfo, KubeStore, get, Jobs, put_job, with_job, job_step, job_loop, emit_jobs, kube_collect,
}

abbrev choose : Bool → Jobs → Jobs → Jobs
choose b x y = if b then x else y

module _ (h : Hasher) (limits : Limits) (kube : KubeStore) where
  -- The label of the job that a process belongs to.
  abbrev pub job_of : ProcessSample → Text
  job_of p =
      (bound_label_with h limits (codes "ci_job_name")
        (sanitize_label_value (or_empty (lookup (codes "CI_JOB_NAME") p.environ))) none).0

  job_of-valid : (p : ProcessSample) → valid_string (job_of p) ≡ true
  job_of-valid p =
      bound_label_with-valid_string h limits (codes "ci_job_name") _ none
        (sanitize_label_value-valid_string (or_empty (lookup (codes "CI_JOB_NAME") p.environ)))

  -- A job and its requests come from one of the processes.
  abbrev pub IsFrom : List ProcessSample → Text → KubePodInfo → Type 0
  IsFrom ps job info =
      (p : ProcessSample) × Member p ps
      × (p.pod_uid ≢ [])
      × (job_of p ≡ job)
      × (get p.pod_uid kube ≡ some info)

  abbrev pub IsJob : List ProcessSample → Text → KubePodInfo → Type 0
  IsJob ps job info = (job ≢ []) × (valid_string job ≡ true) × IsFrom ps job info

  abbrev pub IsJobTable : List ProcessSample → Map Text KubePodInfo → Type 0
  IsJobTable ps by_job =
      IsDistinct by_job
      × ((job : Text) (info : KubePodInfo) → lookup job by_job ≡ some info → IsJob ps job info)

  insert-IsJobTable :
      (ps : List ProcessSample) (by_job : Map Text KubePodInfo) (p : ProcessSample) (job : Text)
      (info : KubePodInfo)
      → IsJobTable ps by_job
      → Member p ps
      → p.pod_uid ≢ []
      → job_of p ≡ job
      → job ≢ []
      → get p.pod_uid kube ≡ some info
      → IsJobTable ps (insert job info by_job)
  insert-IsJobTable ps by_job p job info (d, good) m has_pod named named_so found = (
    insert-IsDistinct job info by_job d,
    λ j i at_j. elim (Bool-cases (job == j)) [
      | inl same ↦
          let here = (eq_iff job j).0 same in
          let its = rw same at (sym (lookup-insert job j info by_job) ∙ at_j) in
          subst (λ x. IsJob ps x i) here
            (subst (IsJob ps job) (some_inj its) (
              named_so,
              subst (λ x. valid_string x ≡ true) named (job_of-valid p),
              (p, m, has_pod, named, found),
            ))
      | inr other ↦ good j i (rw other at (sym (lookup-insert job j info by_job) ∙ at_j))
    ],
  )

  put_job-IsJobTable :
      (ps : List ProcessSample) (by_job : Map Text KubePodInfo) (p : ProcessSample) (job : Text)
      (o : Option KubePodInfo)
      → IsJobTable ps by_job
      → Member p ps
      → p.pod_uid ≢ []
      → job_of p ≡ job
      → job ≢ []
      → get p.pod_uid kube ≡ o
      → IsJobTable ps (put_job job o by_job)
  unfolding put_job
  put_job-IsJobTable ps by_job p job none table m has_pod named named_so found = table
  put_job-IsJobTable ps by_job p job (some info) table m has_pod named named_so found =
      insert-IsJobTable ps by_job p job info table m has_pod named named_so found

  with_job-IsJobTable :
      (ps : List ProcessSample) (by_job : Map Text KubePodInfo) (p : ProcessSample)
      (jo : Text × Observer)
      → IsJobTable ps by_job
      → Member p ps
      → p.pod_uid ≢ []
      → job_of p ≡ jo.0
      → IsJobTable ps (with_job kube p.pod_uid jo by_job).0
  unfolding with_job
  with_job-IsJobTable ps by_job p (job, obs) table m has_pod named = elim (Bool-cases (job == [])) [
    | inl empty ↦
        subst (λ b. IsJobTable ps (if b then by_job else put_job job (get p.pod_uid kube) by_job))
          (sym empty) table
    | inr some_name ↦
        subst (λ b. IsJobTable ps (if b then by_job else put_job job (get p.pod_uid kube) by_job))
          (sym some_name)
          (put_job-IsJobTable ps by_job p job (get p.pod_uid kube) table m has_pod named
            (λ e. false≢true (sym some_name ∙ (eq_iff job []).1 e)) refl)
  ]

  job_step-IsJobTable :
      (ps : List ProcessSample) (p : ProcessSample) (jobs : Jobs)
      → IsJobTable ps jobs.0
      → Member p ps
      → IsJobTable ps (job_step h limits kube p jobs).0
  unfolding job_step
  job_step-IsJobTable ps p (by_job, obs) table m =
      let label =
        bound_label_with h limits (codes "ci_job_name")
          (sanitize_label_value (or_empty (lookup (codes "CI_JOB_NAME") p.environ))) obs in
      let next = with_job kube p.pod_uid label by_job in
      elim (Bool-cases (p.pod_uid == [])) [
        | inl empty ↦ subst (λ b. IsJobTable ps (choose b (by_job, obs) next).0) (sym empty) table
        | inr has_pod ↦
            subst (λ b. IsJobTable ps (choose b (by_job, obs) next).0) (sym has_pod)
              (with_job-IsJobTable ps by_job p label table m
                (λ e. false≢true (sym has_pod ∙ (eq_iff p.pod_uid []).1 e))
                (sym (bound_label_with_value h limits (codes "ci_job_name") _ obs)))
      ]

  job_loop-IsJobTable :
      (all ps : List ProcessSample) (jobs : Jobs)
      → IsJobTable all jobs.0
      → ((p : ProcessSample) → Member p ps → Member p all)
      → IsJobTable all (job_loop h limits kube ps jobs).0
  unfolding job_loop
  job_loop-IsJobTable all [] jobs table inside = table
  job_loop-IsJobTable all (p ∷ ps) jobs table inside =
      job_loop-IsJobTable all ps (job_step h limits kube p jobs)
        (job_step-IsJobTable all p jobs table (inside p (inl refl))) (λ q m. inside q (inr m))

-- The series of a scrape are those of a table in which each job stands once, so that no two have the
-- same label; each job has a valid name that is not empty, and the requests are those of the pod of
-- an active process of that job.
pub kube_collect_lem :
    (h : Hasher) (limits : Limits) (kube : KubeStore) (hs : HistoryStore) (obs : Observer)
    → (by_job : Map Text KubePodInfo) × ((kube_collect h limits kube hs obs).0 ≡ emit_jobs by_job)
      × IsJobTable h limits kube (get_active_processes hs) by_job
unfolding kube_collect lookup
kube_collect_lem h limits kube hs obs =
    let ps = get_active_processes hs in
    (
      (job_loop h limits kube ps ([], obs)).0,
      refl,
      job_loop-IsJobTable h limits kube ps ps ([], obs) (tt, λ job info found. cc) (λ p m. m),
    )
