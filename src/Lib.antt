-- ===== src/Lib.antt =====
-- The GitLab process exporter: what it keeps of the processes of a host, and what it lets out.
--
-- A scrape (main.go) reads every process and its I/O (exporter/procio_linux.go) and puts a sample
-- into the history store (exporter/history.go). Two collectors turn the active processes into
-- Prometheus metrics: exporter/collector.go one set per process, exporter/kube_collector.go the
-- resource requests of the pods of CI jobs, which exporter/kube.go fetches and keeps. Every label
-- value is made valid UTF-8, bounded by exporter/labelbound.go and, for the environment, redacted.
-- The JSON endpoints of main.go send samples with their environment redacted. exporter/config.go
-- reads the operator's limits and redaction rules. The job report (internal/jobreport) queries
-- Prometheus for the processes of a CI job: over a window that is given, or the one that a job's log
-- tells. Its web front end (cmd/jobreport-web) keeps a list of Prometheus URLs in a file, turns a
-- form into arguments of the report, and executes it. deploy installs, updates and removes the
-- service.
--
-- The files, below verification/:
--   Exporter/History    exporter/history.go: `ProcessSample`, `HistoryStore` and each method as a
--                       function on the store; History/Run has them as steps of a relation
--   Exporter/Label      exporter/labelbound.go: the table of limits, `truncate_with_fingerprint`,
--                       `bound_label_with`
--   Exporter/Config     exporter/config.go: `unmarshal_yaml`, `validate_max_label_bytes`,
--                       `load_config`
--   Exporter/Redact     exporter/collector.go: `is_sensitive_pair`, `redact_environ`,
--                       `sanitize_label_value`
--   Exporter/Environ    exporter/collector.go: `scrub_environ`
--   Exporter/Collector  exporter/collector.go: the collector's construction and `collect`
--   Exporter/ProcIo     exporter/procio.go, exporter/procio_linux.go: `parse_proc_io`, `self_io`
--   Exporter/Kube       exporter/kube.go, exporter/kube_collector.go: quantities, the store of pods,
--                       `kube_collect`; Kube/PodUid has exporter/cgroup_linux.go
--   Main                main.go: `resolve_action`, the two JSON handlers and `scrape`
--   JobReport/Prom      internal/jobreport/prom.go: `get` with its retries, `meta_map`; Prom/Rank has
--                       `top_n`, Prom/Nodes `resolve_node_by_job_id`
--   JobReport/Cli       internal/jobreport/cli.go: `parse_flags`; Cli/Window has `parse_window` and
--                       `step_for`
--   JobReport/LogParse  internal/jobreport/logparse.go: the sections; LogParse/Lines has
--                       `parse_job_log`
--   JobReport/Meta      internal/jobreport/meta.go: `extract_meta`, `job_col`, `first_tok`
--   JobReport/Render    internal/jobreport/render.go: the lines of a table
--   JobReport/Report    internal/jobreport/cli.go, internal/jobreport/url.go: `report`, `run`
--   JobReport/Printing  internal/jobreport/url.go: `print_job_section`, `human_dur`, `indent`;
--                       internal/jobreport/cli.go: `render_rows`
--   Web/Store           cmd/jobreport-web/store.go: the file of Prometheus URLs
--   Web/Window          cmd/jobreport-web/window.go: `build_window`
--   Web/Runner          cmd/jobreport-web/runner.go: the command of a report
--   Web/Server          cmd/jobreport-web/server.go: the routes and the handlers
--   Deploy              deploy/release.go, deploy/systemd.go, deploy/deps.go: `update_service`,
--                       `uninstall_service`, `check_dependencies`
--   Deploy/Install      deploy/systemd.go: `install_service` and the unit file
--   Deploy/Windows      deploy/service_windows.go: `execute`; Windows/Scm has the installation and the
--                       removal
--   Exporter/Samples    concrete data for the runs, which stand in the modules named Tests
--   Prelude             numbers, lists, maps, text, UTF-8, decimals and sorting
-- A function has the name of the Go function in snake case; a loop is a function of its own, with
-- `_loop` at the end of its name.
--
-- Representation. A string is the list of its bytes. A map is an association list, whose order is
-- the order of one iteration; the theorems hold for every order. An `int` is an integer, a `uint64`
-- a natural number with the wrap-around of sums written out, a `float64` its bits. Instants are
-- nanoseconds, and `time.Now()` is an argument, read once per operation. Each method that holds the
-- mutex is one step. Recursion is structural, so that no fuel is needed but for the digits of a
-- number, where the number itself bounds them. The retries of `get` are a recursion on the attempts
-- that are left. The wait for a Windows service to stop has 35 units of fuel: its deadline is ten
-- seconds away, and a round takes at least 300 milliseconds. Tables are drawn of runes, all other
-- text is bytes. Lengths of text that a marker prints are below 10^20, which exceeds every `int`.
-- What `runFn` of the Windows service returns once it is canceled is optional: it may never return.
--
-- Parameters. SHA-256 and the salt (`Hasher`: 32 bytes, each below 256), the Unicode tables behind
-- `strings.ToLower` and `strings.TrimSpace` beyond ASCII (`Unicode`), the arithmetic of `float64`
-- with the order in which the runes are visited whose counts give the entropy (`Floats`, one order
-- for the same counts), `strconv.ParseFloat`, and the file system with the YAML decoder (`Files`).
-- What `/proc`, gopsutil and the JSON decoder of the kubelet give is data; the codec of the URL file is a
-- parameter (`Codec`): it gives back what it encoded, but for invalid UTF-8, which the encoder
-- replaces. The clean path to which the mux of net/http redirects is a field of `Backend`,
-- filepath.Join one of `DeployHost`, and unicode/utf8 with the visits of a map are in `Printer`.
-- HTTP, the JSON decoder and the order of float64 in the job report are a `Transport`, the regular expressions of a log are `Patterns` (what their groups
-- capture), and the dates of package time a `Calendar`, whose days lie in the years 0 to 9999.
--
-- Not modelled: the HTTP servers and clients, the flag parsing of the exporter, the tickers that start
-- a scrape, and the help texts of metrics (main.go, exporter/collector.go, exporter/kube.go), the start
-- of the web server with its templates and files (cmd/jobreport-web/main.go,
-- cmd/jobreport-web/assets.go), the rounding of numbers in a table (internal/jobreport/render.go), and
-- the headings around the tables of a report, and what is printed during an installation.
pub mod Prelude
pub mod Exporter
pub mod Main
pub mod Web
pub mod JobReport
pub mod Deploy
