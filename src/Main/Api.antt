-- ===== src/Main/Api.antt =====
-- No sensitive value leaves through the JSON endpoints.
use gitlab_procs_exporter.Prelude.{
  Bool, true, false, not, List, [], ◌∷◌, All, ◌==◌, list_eq, nat_eq, if◌then◌else◌,
}
use gitlab_procs_exporter.Prelude.Text.{Text, codes, Unicode}
use gitlab_procs_exporter.Prelude.Map.{Map}
use gitlab_procs_exporter.Exporter.History.{
  ProcessSample, HistoryStore, get_active_processes, query_history,
}
use gitlab_procs_exporter.Exporter.Redact.{Floats}
use gitlab_procs_exporter.Exporter.Redact.Hide.{IsShowable, redact_environ-IsShowable}
use gitlab_procs_exporter.Main.{
  redact_sample, redact_samples, redact_history, serve_api_processes, HistoryReply, history,
  bad_request, serve_api_history,
}

module _ (u : Unicode) (fl : Floats) (extra : List Text) where
  abbrev pub IsShowableSample : ProcessSample → Type 0
  IsShowableSample s = IsShowable u fl extra s.environ

  redact_samples-showable :
      (samples : List ProcessSample) → All IsShowableSample (redact_samples u fl extra samples)
  unfolding redact_samples redact_sample
  redact_samples-showable [] = tt
  redact_samples-showable (s ∷ samples) =
      (redact_environ-IsShowable u fl s.environ extra, redact_samples-showable samples)

  abbrev pub IsShowableHistory : Map Text (List ProcessSample) → Type 0
  IsShowableHistory h = All (λ entry. All IsShowableSample entry.1) h

  redact_history-showable :
      (h : Map Text (List ProcessSample)) → IsShowableHistory (redact_history u fl extra h)
  unfolding redact_history
  redact_history-showable [] = tt
  redact_history-showable ((key, samples) ∷ h) =
      (redact_samples-showable samples, redact_history-showable h)

  abbrev pub IsShowableReply : HistoryReply → Type 0
  IsShowableReply (history h) = IsShowableHistory h
  IsShowableReply bad_request = Unit

-- In every sample that either endpoint sends, a value that counts as sensitive under its name is the
-- text `[REDACTED]`, whatever is asked for.
pub api_hides_secrets :
    (u : Unicode) (fl : Floats) (extra : List Text) (hs : HistoryStore) (pid_str name_str : Text)
    → All (IsShowableSample u fl extra) (serve_api_processes u fl extra hs)
      × IsShowableReply u fl extra (serve_api_history u fl extra hs pid_str name_str)
unfolding serve_api_processes serve_api_history
api_hides_secrets u fl extra hs pid_str name_str = (
  redact_samples-showable u fl extra (get_active_processes hs),
  reply (not (pid_str == [])) (not (name_str == [])),
)
  where
    reply :
        (b c : Bool)
        → IsShowableReply u fl extra (
            if b
            then history (redact_history u fl extra (query_history u (codes "pid") pid_str hs))
            else if c
            then history (redact_history u fl extra (query_history u (codes "name") name_str hs))
            else bad_request)
    reply true c = redact_history-showable u fl extra (query_history u (codes "pid") pid_str hs)
    reply false true =
        redact_history-showable u fl extra (query_history u (codes "name") name_str hs)
    reply false false = tt
