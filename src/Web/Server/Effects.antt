-- ===== src/Web/Server/Effects.antt =====
-- What a request changes and what it executes.
use gitlab_procs_exporter.Prelude.{
  ◌≡◌, ◌≢◌, ◌⊎◌, refl, ap, ◌∙◌, sym, subst, Bool, true, false, not, Option, none, some, List, [],
  ◌∷◌, ◌==◌, eq_iff, ne→false, list_eq, nat_eq, if◌then◌else◌, Bool-cases, inl, inr, All,
}
use mathlib.Core.Bool.{false≢true}
use gitlab_procs_exporter.Prelude.Text.{Text, codes, trim_space, has_prefix}
use gitlab_procs_exporter.JobReport.Cli.{CliEnv, CliConfig, ok, parse_flags, default_config}
use gitlab_procs_exporter.Web.Store.{
  StoreFile, StoreResult, normalize_url, failed, done, add, remove,
}
use gitlab_procs_exporter.Web.Window
use gitlab_procs_exporter.Web.Window.{
  FormResult, IsRead, all_empty, build_window, IsFormed-IsRead, build_window-parse_window,
}
use gitlab_procs_exporter.Web.Runner.{Command, refused, execute, run_report}
use gitlab_procs_exporter.Web.Runner.Arguments.{formed, given, run_report-parse_flags}
use gitlab_procs_exporter.Web.Server.{
  Backend, Request, Reply, not_allowed, show_urls, show, with_form, posted, handle_index,
  handle_prometheus, handle_prometheus_delete, handle_report, report_window, show_run, window_form,
  dispatch, mux_path, serve,
}

-- Nothing changes and nothing is executed.
abbrev pub IsIdle : StoreFile → Reply → Type 0
IsIdle file r = (r.file ≡ file) × (r.executed ≡ [])

choose {ℓ} : {A : Type 0} (P : A → Type ℓ) (b : Bool) (x y : A) → P x → P y → P (if b then x else y)
choose P true x y px py = px
choose P false x y px py = py

module _ (b : Backend) (r : Request) (file : StoreFile) where
  posted-IsIdle :
      (rest : (Text → Text) → Reply) → r.method ≢ codes "POST" → IsIdle file (posted r file rest)
  posted-IsIdle rest ne =
      subst (λ t. IsIdle file (if not t then show not_allowed file else with_form r.form file rest))
        (sym (ne→false r.method (codes "POST") ne)) (refl, refl)

  dispatch-IsIdle : r.method ≢ codes "POST" → IsIdle file (dispatch b r file)
  unfolding dispatch handle_prometheus handle_prometheus_delete handle_report handle_index
  dispatch-IsIdle ne =
      choose (IsIdle file) (r.path == codes "/prometheus") _ _ (posted-IsIdle _ ne) (
        choose (IsIdle file) (r.path == codes "/prometheus/delete") _ _ (posted-IsIdle _ ne) (
          choose (IsIdle file) (r.path == codes "/report") _ _ (posted-IsIdle _ ne) (
            choose (IsIdle file) (has_prefix r.path (codes "/static/")) _ _ (refl, refl)
              (choose (IsIdle file) (not (r.path == codes "/")) _ _ (refl, refl) (refl, refl)))))

  -- A request that is no POST changes nothing in the file and executes nothing, whatever its path.
  pub serve-IsIdle : r.method ≢ codes "POST" → IsIdle file (serve b r file)
  unfolding serve
  serve-IsIdle ne =
      choose (IsIdle file) (mux_path b r == codes "/static") _ _ (refl, refl)
        (choose (IsIdle file) (not (mux_path b r == r.path)) _ _ (refl, refl) (dispatch-IsIdle ne))

-- The report's command line reads the arguments, as a URL in its normal form and a window that is
-- the environment's or ends after it starts.
abbrev pub IsReport : Backend → CliEnv → List Text → Type 0
IsReport b env args =
    (argv : List Text) × (cfg : CliConfig) × (prom : Text) × (args ≡ codes "report" ∷ argv)
    × (parse_flags env argv ≡ ok cfg)
    × (normalize_url b.unicode b.codec prom ≡ done cfg.prom_url)
    × ((cfg.window ≡ (default_config env).window) ⊎ IsRead cfg.window)

module _ (b : Backend) (env : CliEnv) (no_file : env.is_file [] ≡ false) (file : StoreFile) where
  given-IsRead :
      (w default : Text)
      → (w ≡ []) ⊎ IsRead w
      → (given w default ≡ default) ⊎ IsRead (given w default)
  given-IsRead w default h = elim (Bool-cases (w == [])) [
    | inl e ↦ inl (ap (λ t. if t then default else w) e)
    | inr ne ↦ elim h [
      | inl e ↦ absurd (false≢true (sym ne ∙ (eq_iff w []).1 e))
      | inr k ↦ rw ne (inr k)
    ]
  ]

  show_run-IsReport :
      (prom job_id w : Text) (cmd : Command)
      → run_report b.unicode b.codec prom job_id w ≡ cmd
      → (w ≡ []) ⊎ IsRead w
      → All (IsReport b env) (show_run b file cmd).executed
  show_run-IsReport prom job_id w (refused e) h read = tt
  show_run-IsReport prom job_id w (execute args) h read =
      let (url, argv, normal, e, digits, parsed) =
        run_report-parse_flags b.unicode b.codec env prom job_id w args no_file h in
      (
        (
          argv,
          formed env url job_id w,
          prom,
          e,
          parsed,
          normal,
          given-IsRead w (default_config env).window read,
        ),
        tt,
      )

  report_window-IsReport :
      (form : Text → Text) (o : FormResult Text)
      → ((w : Text) → o ≡ Window.ok w → (w ≡ []) ⊎ IsRead w)
      → All (IsReport b env) (report_window b file form o).executed
  unfolding report_window
  report_window-IsReport form (Window.rejected e) read = tt
  report_window-IsReport form (Window.ok w) read =
      choose (λ (r : Reply). All (IsReport b env) r.executed)
        (trim_space b.unicode (form (codes "prom")) == []) _ _ tt
        (show_run-IsReport (trim_space b.unicode (form (codes "prom"))) (form (codes "job_id")) w _
          refl (read w refl))

  form_window-IsRead :
      (form : Text → Text) (w : Text)
      → build_window b.calendar (window_form form) ≡ Window.ok w
      → (w ≡ []) ⊎ IsRead w
  form_window-IsRead form w h = elim (build_window-parse_window b.calendar (window_form form) w h) [
    | inl p ↦ inl p.1
    | inr p ↦ inr (IsFormed-IsRead b.calendar (window_form form) w p.1)
  ]

  abbrev Runs : Reply → Type 0
  Runs reply = All (IsReport b env) reply.executed

  with_form-Runs :
      (o : Option (Text → Text)) (rest : (Text → Text) → Reply)
      → ((form : Text → Text) → Runs (rest form))
      → Runs (with_form o file rest)
  with_form-Runs none rest h = tt
  with_form-Runs (some form) rest h = h form

  posted-Runs :
      (r : Request) (rest : (Text → Text) → Reply)
      → ((form : Text → Text) → Runs (rest form))
      → Runs (posted r file rest)
  posted-Runs r rest h =
      choose Runs (not (r.method == codes "POST")) _ _ tt (with_form-Runs r.form rest h)

  show_urls-Runs : (p : StoreResult (List Text) × StoreFile) → Runs (show_urls p)
  show_urls-Runs (failed e, after) = tt
  show_urls-Runs (done urls, after) = tt

  dispatch-Runs : (r : Request) → Runs (dispatch b r file)
  unfolding dispatch handle_prometheus handle_prometheus_delete handle_report handle_index
  dispatch-Runs r =
      choose Runs (r.path == codes "/prometheus") _ _
        (posted-Runs r _
          (λ form. show_urls-Runs (add b.unicode b.codec b.writes (form (codes "url")) file)))
        (choose Runs (r.path == codes "/prometheus/delete") _ _
          (posted-Runs r _
            (λ form. show_urls-Runs (remove b.unicode b.codec b.writes (form (codes "prom")) file)))
          (choose Runs (r.path == codes "/report") _ _
            (posted-Runs r _ (λ form.
              report_window-IsReport form (build_window b.calendar (window_form form))
                (form_window-IsRead form)))
            (choose Runs (has_prefix r.path (codes "/static/")) _ _ tt
              (choose Runs (not (r.path == codes "/")) _ _ tt tt))))

  -- Whatever is asked, each command that the server executes is a report whose arguments the command
  -- line reads without an error: the URL is in the store's normal form, and the window is that of the
  -- environment or one that ends after it starts.
  pub serve-executes : (r : Request) → All (IsReport b env) (serve b r file).executed
  unfolding serve
  serve-executes r =
      choose Runs (mux_path b r == codes "/static") _ _ tt
        (choose Runs (not (mux_path b r == r.path)) _ _ tt (dispatch-Runs r))
