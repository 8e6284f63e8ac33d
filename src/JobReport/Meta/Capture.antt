-- ===== src/JobReport/Meta/Capture.antt =====
-- What a pattern captures, and what the name in a table's column is.
use gitlab_procs_exporter.Prelude.{
  ℕ, ◌≡◌, ◌≢◌, refl, ap, ◌∙◌, sym, Bool, true, false, Option, none, some, [], ◌∷◌, ◌++◌, All,
  Bool-cases, inl, inr, ◌⊎◌, some_inj, Option-cases, subst, eq_iff, ne→false, list_eq, nat_eq,
}
use gitlab_procs_exporter.Prelude.Text.{
  Text, codes, cut_prefix, cut_prefix_sound, cut_prefix-append,
}
use mathlib.Core.Option.{none-ne-some}
use gitlab_procs_exporter.JobReport.Meta.{
  is_digit, span, some_run, run_here, or_later, find_run, cap1, extract_meta, or_if_empty,
}

-- Behind the run the text ends, or goes on with a byte of another class.
abbrev pub IsStop : (ℕ → Bool) → Text → Type 0
IsStop p [] = Unit
IsStop p (c ∷ s) = p c ≡ false

abbrev pub IsRun : (ℕ → Bool) → Text → Text × Text → Type 0
IsRun p s (run, rest) = (s ≡ run ++ rest) × All (λ c. p c ≡ true) run × IsStop p rest

pub span-IsRun : (p : ℕ → Bool) (s : Text) → IsRun p s (span p s)
unfolding span
span-IsRun p [] = (refl, tt, tt)
span-IsRun p (c ∷ s) = elim (Bool-cases (p c)) [
  | inl fits ↦
      rw fits (ap (λ t. c ∷ t) (span-IsRun p s).0, (fits, (span-IsRun p s).1), (span-IsRun p s).2)
  | inr other ↦ rw other (refl, tt, other)
]

-- The label stands in the text, a run of the class behind it, at full length.
abbrev pub IsCapture : Text → (ℕ → Bool) → Text → Text → Type 0
IsCapture lit p s run =
    (before : Text) × (rest : Text) × (s ≡ before ++ (lit ++ (run ++ rest)))
    × (run ≢ [])
    × All (λ c. p c ≡ true) run
    × IsStop p rest

some_run-IsCapture :
    (lit : Text) (p : ℕ → Bool) (s rest found : Text) (r : Text × Text)
    → s ≡ lit ++ rest
    → IsRun p rest r
    → some_run r ≡ some found
    → IsCapture lit p s found
some_run-IsCapture lit p s rest found ([], more) e run h = cc
some_run-IsCapture lit p s rest found (c ∷ cs, more) e run h =
    subst (IsCapture lit p s) (some_inj h)
      ([], more, e ∙ ap (λ t. lit ++ t) run.0, (λ q. cc), run.1, run.2)

run_here-IsCapture :
    (lit : Text) (p : ℕ → Bool) (s found : Text)
    → run_here p (cut_prefix s lit) ≡ some found
    → IsCapture lit p s found
run_here-IsCapture lit p s found h = elim (Option-cases (cut_prefix s lit)) [
  | inl lacks ↦ absurd (none-ne-some found (ap (run_here p) (sym lacks) ∙ h))
  | inr (rest, has) ↦
      some_run-IsCapture lit p s rest found (span p rest) (cut_prefix_sound s lit rest has)
        (span-IsRun p rest) (ap (run_here p) (sym has) ∙ h)
]

later-IsCapture :
    (lit : Text) (p : ℕ → Bool) (c : ℕ) (s found : Text)
    → IsCapture lit p s found
    → IsCapture lit p (c ∷ s) found
later-IsCapture lit p c s found (before, rest, e, ne, fits, stop) =
    (c ∷ before, rest, ap (λ t. c ∷ t) e, ne, fits, stop)

or_later-cases :
    (a b : Option Text) {found : Text}
    → or_later a b ≡ some found
    → (a ≡ some found) ⊎ ((a ≡ none) × (b ≡ some found))
or_later-cases none b h = inr (refl, h)
or_later-cases (some x) b h = inl h

pub find_run-IsCapture :
    (lit : Text) (p : ℕ → Bool) (s found : Text)
    → find_run lit p s ≡ some found
    → IsCapture lit p s found
unfolding find_run
find_run-IsCapture lit p [] found h = run_here-IsCapture lit p [] found h
find_run-IsCapture lit p (c ∷ s) found h =
    elim (or_later-cases (run_here p (cut_prefix (c ∷ s) lit)) (find_run lit p s) h) [
      | inl now ↦ run_here-IsCapture lit p (c ∷ s) found now
      | inr later ↦ later-IsCapture lit p c s found (find_run-IsCapture lit p s found later.1)
    ]

-- Nowhere in the text does a byte of the class stand behind the label.
abbrev pub Lacks : Text → (ℕ → Bool) → Text → Type 0
Lacks lit p s =
    (before : Text) (c : ℕ) (rest : Text) → p c ≡ true → s ≢ before ++ (lit ++ (c ∷ rest))

some_run-span : (p : ℕ → Bool) (c : ℕ) (s : Text) → p c ≡ true → some_run (span p (c ∷ s)) ≢ none
unfolding span
some_run-span p c s fits = rw fits (λ h. cc)

run_here_finds :
    (lit : Text) (p : ℕ → Bool) (c : ℕ) (rest : Text)
    → p c ≡ true
    → run_here p (cut_prefix (lit ++ (c ∷ rest)) lit) ≢ none
run_here_finds lit p c rest fits =
    rw (cut_prefix-append lit (c ∷ rest)) (some_run-span p c rest fits)

or_later-ne-none : (a b : Option Text) → (a ≢ none) ⊎ (b ≢ none) → or_later a b ≢ none
or_later-ne-none none b h = elim h [ inl n ↦ absurd (n refl) | inr m ↦ m ]
or_later-ne-none (some a) b h = λ q. cc

find_run_here :
    (lit : Text) (p : ℕ → Bool) (s : Text)
    → run_here p (cut_prefix s lit) ≢ none
    → find_run lit p s ≢ none
unfolding find_run
find_run_here lit p [] h = h
find_run_here lit p (c ∷ s) h = or_later-ne-none _ _ (inl h)

find_run_finds :
    (lit : Text) (p : ℕ → Bool) (before : Text) (c : ℕ) (rest : Text)
    → p c ≡ true
    → find_run lit p (before ++ (lit ++ (c ∷ rest))) ≢ none
unfolding find_run
find_run_finds lit p [] c rest fits =
    find_run_here lit p (lit ++ (c ∷ rest)) (run_here_finds lit p c rest fits)
find_run_finds lit p (b ∷ before) c rest fits =
    or_later-ne-none _ _ (inr (find_run_finds lit p before c rest fits))

-- What the pattern gives: what it captures, or nothing where it does not match.
abbrev pub IsGroup : Text → (ℕ → Bool) → Text → Text → Type 0
IsGroup lit p s v = IsCapture lit p s v ⊎ (Lacks lit p s × (v ≡ []))

cap1-IsGroup : (lit : Text) (p : ℕ → Bool) (s : Text) → IsGroup lit p s (cap1 lit p s)
unfolding cap1
cap1-IsGroup lit p s = elim (Option-cases (find_run lit p s)) [
  | inl missing ↦ rw missing (
      inr (
        λ before c rest fits e.
            find_run_finds lit p before c rest fits (ap (find_run lit p) (sym e) ∙ missing),
        refl,
      ))
  | inr (found, has) ↦ rw has (inl (find_run-IsCapture lit p s found has))
]

-- The first value if it is captured, else the second.
abbrev pub IsFallback : Text → (ℕ → Bool) → Text → Text → Text → Text → Type 0
IsFallback lit p s lit' s' v = IsCapture lit p s v ⊎ (Lacks lit p s × IsGroup lit' p s' v)

or_if_empty-IsFallback :
    (lit : Text) (p : ℕ → Bool) (s lit' s' : Text) (a b : Text)
    → IsGroup lit p s a
    → IsGroup lit' p s' b
    → IsFallback lit p s lit' s' (or_if_empty a b)
or_if_empty-IsFallback lit p s lit' s' a b (inl (before, rest, e, ne, fits, stop)) hb =
    rw (ne→false a [] ne) (inl (before, rest, e, ne, fits, stop))
or_if_empty-IsFallback lit p s lit' s' a b (inr (lacks, e)) hb =
    rw ((eq_iff a []).1 e) (inr (lacks, hb))

cap1-IsFallback :
    (lit : Text) (p : ℕ → Bool) (s lit' s' : Text)
    → IsFallback lit p s lit' s' (or_if_empty (cap1 lit p s) (cap1 lit' p s'))
cap1-IsFallback lit p s lit' s' =
    or_if_empty-IsFallback lit p s lit' s' (cap1 lit p s) (cap1 lit' p s') (cap1-IsGroup lit p s)
      (cap1-IsGroup lit' p s')

-- The job's id is a run of digits behind JOB_ID= in the command line, at full length, and
-- only where the command line has none, the run behind CI_JOB_ID= in the environment, or empty
-- where that has none either; and so the worker's id, behind WORKER_ID= in both. The pipeline is
-- the run behind CI_PIPELINE_ID= in the environment, or empty.
pub extract_meta_lem :
    (cmdline environ : Text)
    → let m = extract_meta cmdline environ in
      IsFallback (codes "JOB_ID=") is_digit cmdline (codes "CI_JOB_ID=") environ m.job_id
      × IsFallback (codes "WORKER_ID=") is_digit cmdline (codes "WORKER_ID=") environ m.worker_id
      × IsGroup (codes "CI_PIPELINE_ID=") is_digit environ m.pipeline
unfolding extract_meta
extract_meta_lem cmdline environ = (
  cap1-IsFallback (codes "JOB_ID=") is_digit cmdline (codes "CI_JOB_ID=") environ,
  cap1-IsFallback (codes "WORKER_ID=") is_digit cmdline (codes "WORKER_ID=") environ,
  cap1-IsGroup (codes "CI_PIPELINE_ID=") is_digit environ,
)
