-- ===== src/JobReport/Printing.antt =====
-- internal/jobreport/url.go and cli.go: the text of `printJobSection` and of the tables of a report.
use gitlab_procs_exporter.Prelude.{
  ℕ, ◌+◌, ◌-◌, ◌/◌, ◌%◌, not, ◌||◌, List, [], ◌∷◌, ◌++◌, ◌==◌, list_eq, nat_eq, ltb, map, length,
  if◌then◌else◌,
}
use mathlib.Core.List.{reverse}
use gitlab_procs_exporter.Prelude.Int.{ℤ, pos, negsuc, sub_ℕ}
use gitlab_procs_exporter.Prelude.Text.{Text, codes, Unicode, trim_space, join}
use gitlab_procs_exporter.Prelude.Decimal.{format_nat}
use gitlab_procs_exporter.Prelude.Map.{Map}
use gitlab_procs_exporter.JobReport.Meta.{job_col, first_tok}
use gitlab_procs_exporter.JobReport.Prom.Rank.{TopRow}
use gitlab_procs_exporter.JobReport.Render.{Runes, repeat, render_table}
use gitlab_procs_exporter.JobReport.LogParse.{JobInfo, Phase, duration}
use gitlab_procs_exporter.JobReport.LogParse.Lines.{split_lines}

-- The calendar of package time, the runes of package unicode/utf8, and the order in which a map is
-- visited.
pub record Printer : Type 0 where
  pub fdate : ℕ → Text
  pub decode : Text → Runes
  pub encode : Runes → Text
  pub visited : Map Text Text → List (Text × Text)

unfoldable pub first_non_empty : Text → Text → Text
first_non_empty a b = if a == [] then b else a

-- `%02d`
abbrev two_digits : ℕ → Text
two_digits s = if ltb s 10 then codes "0" ++ format_nat s else format_nat s

unfoldable pub human_dur : ℤ → Text
unfolding format_nat
human_dur (negsuc n) = codes "0s"
human_dur (pos sec) =
    let m = sec / 60 in
    let s = sec % 60 in
    if m == 0
    then format_nat s ++ codes "s"
    else format_nat m ++ (codes "m" ++ (two_digits s ++ codes "s"))

unfoldable drop_newlines : Text → Text
drop_newlines [] = []
drop_newlines (c ∷ s) = let rest = drop_newlines s in if c == 10 then rest else c ∷ s

unfoldable pub indent : Text → Text → Text
unfolding drop_newlines split_lines join
indent s pad =
    let lines = split_lines (reverse (drop_newlines (reverse s))) in
    join (map (λ l. pad ++ l) lines) (10 ∷ []) ++ (10 ∷ [])

-- `renderTable` on strings
unfoldable pub table_text : Printer → List (List Text) → ℕ → Text
unfolding render_table
table_text pr rows maxw = pr.encode (render_table (map (map pr.decode) rows) maxw)

-- `%-*s`: padded behind, by the number of runes
unfoldable pub padded : Printer → ℕ → Text → Text
unfolding repeat
padded pr w s = s ++ repeat (w - length (pr.decode s)) 32

-- fmt.Println
abbrev line : Text → Text
line s = s ++ (10 ∷ [])

-- `  %-12s ` and the rest of the line
abbrev field : Printer → Text → Text → Text
field pr k v = line (codes "  " ++ (padded pr 12 (k ++ codes ":") ++ (codes " " ++ v)))

unfoldable pub kv : Printer → Text → Text → Text
unfolding padded
kv pr k v = if v == [] then [] else field pr k v

-- The 80 signs of `sep`.
abbrev rule_line : Text
rule_line = line (repeat 80 b'=')

unfoldable pub window_line : Printer → JobInfo → Text
unfolding padded human_dur duration
window_line pr j =
    let dates = pr.fdate j.start_epoch ++ (codes " -> " ++ pr.fdate j.end_epoch) in
    if ltb 0 j.start_epoch
    then field pr (codes "window")
        (dates ++ (codes " UTC  (" ++ (human_dur (pos (duration j)) ++ codes ")")))
    else []

unfoldable pub result_line : Printer → JobInfo → Text
unfolding kv padded
result_line pr j =
    if j.failed
    then field pr (codes "result") (codes "FAILED  (" ++ (j.fail_msg ++ codes ")"))
    else (if ltb 0 j.end_epoch then kv pr (codes "result") (codes "ok / no failure marker") else [])

abbrev phase_row : Printer → Phase → List Text
phase_row pr p = p.name ∷ (human_dur (sub_ℕ p.end p.start) ∷ (pr.fdate p.start ∷ []))

unfoldable pub phase_table : Printer → List Phase → Text
unfolding human_dur table_text indent
phase_table pr [] = []
phase_table pr (p ∷ phases) =
    let header = codes "phase" ∷ (codes "duration" ∷ (codes "start UTC" ∷ [])) in
    (10 ∷ line (codes "  Phase timings:"))
    ++ indent (table_text pr (header ∷ map (phase_row pr) (p ∷ phases)) 40) (codes "  ")

-- The bullet in UTF-8, behind four spaces.
abbrev bullet : Text → Text
bullet s = line (codes "    " ++ (226 ∷ (128 ∷ (162 ∷ (32 ∷ s)))))

-- `strings.Join(names, ", ")`, where there are names
abbrev listed : Text → List Text → Text
listed label [] = []
listed label (x ∷ xs) = bullet (label ++ join (x ∷ xs) (codes ", "))

-- The arrow in UTF-8 stands between the two parts.
abbrev kill_line : Text
kill_line =
    bullet
      (codes "backend unreachable " ++ (226 ∷ (134 ∷ (146 ∷ codes " force-killed DS processes"))))

unfoldable frame_lines : List Text → Text
frame_lines [] = []
frame_lines (f ∷ frames) = line (codes "        " ++ f) ++ frame_lines frames

unfoldable pub crash_section : JobInfo → Text
unfolding join frame_lines
crash_section j =
    if j.crash_kill || (not (j.core_cmdline == []) || not (j.killed_names == []))
    then (10 ∷ line (codes "  Crash / kill analysis:"))
      ++ ((if j.crash_kill then kill_line else [])
          ++ (listed (codes "killed: ") j.killed_names
              ++ (listed (codes "kill pids: ") j.kill_pids
                  ++ ((if j.core_cmdline == []
                        then []
                        else bullet (codes "core dump from: " ++ j.core_cmdline))
                      ++ frame_lines j.crash_frames))))
    else []

unfoldable artifact_lines : Printer → List (Text × Text) → Text
unfolding padded
artifact_lines pr [] = []
artifact_lines pr ((label, url) ∷ rest) =
    line (codes "    " ++ (padded pr 18 label ++ (codes " " ++ url))) ++ artifact_lines pr rest

unfoldable pub artifact_section : Printer → Map Text Text → Text
unfolding artifact_lines
artifact_section pr [] = []
artifact_section pr (a ∷ m) =
    (10 ∷ line (codes "  Artifacts:")) ++ artifact_lines pr (pr.visited (a ∷ m))

unfoldable concat : List Text → Text
concat [] = []
concat (s ∷ rest) = s ++ concat rest

unfoldable pub print_job_section : Unicode → Printer → JobInfo → Text
unfolding kv first_non_empty trim_space window_line result_line phase_table crash_section
    artifact_section repeat concat
print_job_section u pr j = concat (
    rule_line
    ∷ (line (codes " Parsed from job.log")
        ∷ (rule_line
            ∷ (kv pr (codes "JOB_ID") j.job_id
                ∷ (kv pr (codes "name") (first_non_empty j.job_slug j.job_name)
                    ∷ (kv pr (codes "pipeline") j.pipeline
                        ∷ (kv pr (codes "project") j.project
                            ∷ (kv pr (codes "runner")
                                  (trim_space u (j.runner ++ (codes " " ++ j.shard)))
                                ∷ (kv pr (codes "system ID") j.system_id
                                    ∷ (kv pr (codes "executor") j.executor
                                        ∷ ((if j.pod == []
                                              then []
                                              else kv pr (codes "pod")
                                                  (j.namespace ++ (codes "/" ++ j.pod)))
                                            ∷ (window_line pr j
                                                ∷ (result_line pr j
                                                    ∷ (phase_table pr j.phases
                                                        ∷ (crash_section j
                                                            ∷ (artifact_section pr j.artifacts
                                                            ∷ []))))))))))))))))

abbrev info_text : Text → Text → Text
unfolding first_tok
info_text info cmdline = if info == [] then first_tok cmdline else info

-- The rows from the number `i` on. `val_str` prints the value of a row.
unfoldable pub numbered : (TopRow → Text) → ℕ → List TopRow → List (List Text)
unfolding format_nat job_col info_text
numbered val_str i [] = []
numbered val_str i (r ∷ rows) =
    (format_nat i
      ∷ (r.name ∷ (r.pid ∷ (val_str r ∷ (info_text (job_col r.meta) r.meta.cmdline ∷ [])))))
    ∷ numbered val_str (i + 1) rows

-- `renderRows`
unfoldable pub render_rows : Printer → List TopRow → Text → (TopRow → Text) → Text → ℕ → Text
unfolding numbered table_text
render_rows pr rows info_header val_str metric_header maxw =
    let header =
      codes "#" ∷ (codes "proc" ∷ (codes "pid" ∷ (metric_header ∷ (info_header ∷ [])))) in
    table_text pr (header ∷ numbered val_str 1 rows) maxw
