-- ===== src/Web/Server.antt =====
-- cmd/jobreport-web/server.go: the handlers, as functions of the request and the file of URLs.
pub mod Effects
use gitlab_procs_exporter.Prelude.{
  Bool, true, false, not, ◌&&◌, Option, none, some, List, [], ◌∷◌, ◌++◌, ◌==◌, list_eq, nat_eq,
  if◌then◌else◌,
}
use gitlab_procs_exporter.Prelude.Text.{Text, codes, Unicode, trim_space, has_prefix}
use gitlab_procs_exporter.Web.Store.{
  Codec, Writes, StoreFile, StoreError, StoreResult, failed, done, load, add, remove,
}
use gitlab_procs_exporter.Web.Window.{
  Calendar, FormError, FormResult, ok, rejected, WindowForm, build_window,
}
use gitlab_procs_exporter.Web.Runner.{RunError, Command, refused, execute, run_report}

-- The form is missing where `ParseForm` fails; a field that is not there is empty.
pub record Request : Type 0 where
  pub method : Text
  pub path : Text
  pub form : Option (Text → Text)

pub data WebError : Type 0 where
  unreadable_form no_url_selected run_failed : WebError
  store_error : StoreError → WebError
  window_error : FormError → WebError
  run_error : RunError → WebError

-- What the templates are rendered from.
pub data Page : Type 0 where
  not_found not_allowed : Page
  static_file redirect : Text → Page
  error_page : WebError → Page
  index_page urls_page : List Text → Page
  report_page : Text → Page

-- The page, the file behind the request, and the commands that were executed.
pub record Reply : Type 0 where
  pub page : Page
  pub file : StoreFile
  pub executed : List (List Text)

-- What the handlers use: the libraries, which writes succeed, what a command prints and whether it
-- succeeds, and the path without `.`, `..` and repeated slashes to which net/http's mux redirects.
pub record Backend : Type 0 where
  pub unicode : Unicode
  pub codec : Codec
  pub writes : Writes
  pub calendar : Calendar
  pub exec : List Text → Text × Bool
  pub clean_path : Text → Text

abbrev pub show : Page → StoreFile → Reply
show page file = record { page = page; file = file; executed = [] }

abbrev urls_or_empty : StoreResult (List Text) → List Text
urls_or_empty (failed e) = []
urls_or_empty (done urls) = urls

unfoldable pub handle_index : Backend → Request → StoreFile → Reply
unfolding load
handle_index b r file =
    if not (r.path == codes "/")
    then show not_found file
    else show (index_page (urls_or_empty (load b.codec file))) file

abbrev pub show_urls : StoreResult (List Text) × StoreFile → Reply
show_urls (failed e, file) = show (error_page (store_error e)) file
show_urls (done urls, file) = show (urls_page urls) file

abbrev pub with_form : Option (Text → Text) → StoreFile → ((Text → Text) → Reply) → Reply
with_form none file rest = show (error_page unreadable_form) file
with_form (some form) file rest = rest form

-- The guards at the start of three handlers.
abbrev pub posted : Request → StoreFile → ((Text → Text) → Reply) → Reply
posted r file rest =
    if not (r.method == codes "POST") then show not_allowed file else with_form r.form file rest

unfoldable pub handle_prometheus : Backend → Request → StoreFile → Reply
unfolding add
handle_prometheus b r file =
    posted r file (λ form. show_urls (add b.unicode b.codec b.writes (form (codes "url")) file))

unfoldable pub handle_prometheus_delete : Backend → Request → StoreFile → Reply
unfolding remove
handle_prometheus_delete b r file =
    posted r file (λ form. show_urls (remove b.unicode b.codec b.writes (form (codes "prom")) file))

-- A run that fails shows its output, where there is any.
abbrev pub run_page : Text × Bool → Page
run_page (output, succeeded) =
    if not succeeded && output == [] then error_page run_failed else report_page output

abbrev pub show_run : Backend → StoreFile → Command → Reply
show_run b file (refused e) = show (error_page (run_error e)) file
show_run b file (execute args) = record {
  page = run_page (b.exec args);
  file = file;
  executed = args ∷ [];
}

abbrev pub window_form : (Text → Text) → WindowForm
window_form form = record {
  start_date = form (codes "start_date");
  start_hour = form (codes "start_hour");
  start_min = form (codes "start_min");
  end_date = form (codes "end_date");
  end_hour = form (codes "end_hour");
  end_min = form (codes "end_min");
}

pub report_window : Backend → StoreFile → (Text → Text) → FormResult Text → Reply
unfolding trim_space run_report
report_window b file form (rejected e) = show (error_page (window_error e)) file
report_window b file form (ok window) =
    let prom = trim_space b.unicode (form (codes "prom")) in
    if prom == []
    then show (error_page no_url_selected) file
    else show_run b file (run_report b.unicode b.codec prom (form (codes "job_id")) window)

unfoldable pub handle_report : Backend → Request → StoreFile → Reply
unfolding report_window build_window
handle_report b r file =
    posted r file (λ form. report_window b file form (build_window b.calendar (window_form form)))

-- `routes`: the longest pattern that fits the path.
unfoldable pub dispatch : Backend → Request → StoreFile → Reply
unfolding has_prefix handle_prometheus handle_prometheus_delete handle_report handle_index
dispatch b r file =
    if r.path == codes "/prometheus"
    then handle_prometheus b r file
    else if r.path == codes "/prometheus/delete"
    then handle_prometheus_delete b r file
    else if r.path == codes "/report"
    then handle_report b r file
    else if has_prefix r.path (codes "/static/")
    then show (static_file r.path) file
    else handle_index b r file

-- The path that the mux looks up.
abbrev pub mux_path : Backend → Request → Text
mux_path b r = if r.method == codes "CONNECT" then r.path else b.clean_path r.path

-- A path that is not clean is redirected, and so is the directory of a pattern that ends in a slash.
unfoldable pub serve : Backend → Request → StoreFile → Reply
unfolding dispatch
serve b r file =
    if mux_path b r == codes "/static"
    then show (redirect (codes "/static/")) file
    else if not (mux_path b r == r.path)
    then show (redirect (mux_path b r)) file
    else dispatch b r file
