-- ===== src/JobReport/Meta/Tests.antt =====
-- Runs of the metadata's patterns at concrete inputs, and instances of their theorems.
use gitlab_procs_exporter.Prelude.{◌≡◌, refl, list_beq}
use gitlab_procs_exporter.Prelude.Text.{Text, codes}
use gitlab_procs_exporter.JobReport.Meta.{extract_meta, is_digit, first_tok, job_col}
use gitlab_procs_exporter.JobReport.Meta.Capture.{IsFallback, IsGroup, extract_meta_lem}

abbrev cmdline : Text
cmdline = codes "/usr/bin/env /builds/glrtr-jv/3/x JOB_ID=127 -c"

abbrev environ : Text
environ = codes "CI_JOB_ID=9,WORKER_ID=4,CI_JOB_NAME_SLUG=unit"

extract_meta_lem_example :
    let m = extract_meta cmdline environ in
    IsFallback (codes "JOB_ID=") is_digit cmdline (codes "CI_JOB_ID=") environ m.job_id
    × IsFallback (codes "WORKER_ID=") is_digit cmdline (codes "WORKER_ID=") environ m.worker_id
    × IsGroup (codes "CI_PIPELINE_ID=") is_digit environ m.pipeline
extract_meta_lem_example = extract_meta_lem cmdline environ

job_column :
    job_col (extract_meta cmdline environ) ≡ codes "glrtr-jv/3, JOB_ID=127, WORKER_ID=4, unit"
unfolding job_col extract_meta list_beq
job_column = refl

first_token : first_tok cmdline ≡ codes "env"
unfolding first_tok
first_token = refl
