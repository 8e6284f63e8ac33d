-- ===== src/JobReport/Prom/Retry.antt =====
-- How often a request is made, when it is made again, and what it gives in the end.
use gitlab_procs_exporter.Prelude.{
  ℕ, zero, suc, ◌+◌, ◌*◌, ◌<◌, ◌≡◌, refl, ap, ◌∙◌, sym, subst, true, false, Option, none, some,
  List, [], ◌∷◌, ◌++◌, eq_iff, nat_eq, arith, ne→false,
}
use gitlab_procs_exporter.Prelude.Text.{Text, codes}
use gitlab_procs_exporter.Prelude.Map.{Map}
use gitlab_procs_exporter.JobReport.Prom.{
  PromError, Transport, Attempt, answer, failure, GetResult, found, failed, GetRun, retry_backoff,
  after_attempt, last_err, get_loop, get_once, get,
}

-- A failure that is worth another attempt.
abbrev pub IsTransient : Attempt → Type 0
IsTransient (answer pr) = ⊥
IsTransient (failure retry e) = retry ≡ true

abbrev pub result_of : Attempt → GetResult
result_of (answer pr) = found pr
result_of (failure retry e) = failed (some e)

-- The waits behind `k` attempts from number `a` on.
abbrev pub waits : ℕ → ℕ → List ℕ
waits a zero = []
waits a (suc k) = (500 * a) ∷ waits (a + 1) k

-- `k` attempts from number `a` on were transient failures, the next one was the last.
abbrev pub IsRun : (ℕ → Attempt) → ℕ → ℕ → GetRun → Type 0
IsRun attempts a left run =
    (k : ℕ) × (k < left)
    × (run.requests ≡ suc k)
    × (run.result ≡ result_of (attempts (a + k)))
    × (run.sleeps ≡ waits a k)
    × ((i : ℕ) → i < k → IsTransient (attempts (a + i)))
    × (suc k < left → ¬ IsTransient (attempts (a + k)))

module _ (attempts : ℕ → Attempt) where
  stop-IsRun :
      (left a : ℕ) (x : Attempt)
      → attempts a ≡ x
      → (0 < left → ¬ IsTransient x)
      → IsRun attempts a (suc left) (record { result = result_of x; requests = 1; sleeps = [] })
  stop-IsRun left a x e stops =
      let e' : attempts (a + 0) ≡ x = ap attempts (omega arith) ∙ e in
      (
        0,
        omega arith,
        refl,
        ap result_of (sym e'),
        refl,
        (λ i h. absurd (omega arith)),
        (λ h t. stops (omega arith) (subst IsTransient e' t)),
      )

  next-IsRun :
      (left a : ℕ) (e : PromError) (later : GetRun)
      → attempts a ≡ failure true e
      → IsRun attempts (a + 1) (suc left) later
      → IsRun attempts a (suc (suc left)) (record {
        result = later.result;
        requests = suc later.requests;
        sleeps = (retry_backoff * a) ∷ later.sleeps;
      })
  next-IsRun left a e later now (k, lt, requests, result, sleeps, before, stops) =
      let shift : attempts (a + 1 + k) ≡ attempts (a + suc k) = ap attempts (omega arith) in
      (
        suc k,
        omega arith,
        ap suc requests,
        result ∙ ap result_of shift,
        ap (λ t. (500 * a) ∷ t) sleeps,
        before',
        (λ h t. stops (omega arith) (subst IsTransient (sym shift) t)),
      )
    where
      before' : (i : ℕ) → i < suc k → IsTransient (attempts (a + i))
      before' zero h = subst IsTransient (sym now ∙ ap attempts (omega arith)) refl
      before' (suc i) h = subst IsTransient (ap attempts (omega arith)) (before i (omega arith))

  after_attempt-IsRun :
      (left a : ℕ) (x : Attempt) (later : GetRun)
      → attempts a ≡ x
      → a + left ≡ 3
      → ((l : ℕ) → left ≡ suc l → IsRun attempts (a + 1) (suc l) later)
      → IsRun attempts a (suc left) (after_attempt a x later)
  unfolding after_attempt
  after_attempt-IsRun left a (answer pr) later e sum h = stop-IsRun left a (answer pr) e (λ _ t. t)
  after_attempt-IsRun left a (failure false err) later e sum h =
      stop-IsRun left a (failure false err) e (λ _ t. cc)
  after_attempt-IsRun zero a (failure true err) later e sum h =
      rw ((eq_iff a 3).1 (omega arith))
        (stop-IsRun zero a (failure true err) e (λ lt t. absurd (omega arith)))
  after_attempt-IsRun (suc left) a (failure true err) later e sum h =
      rw (ne→false a 3 (λ q. absurd (omega arith))) (next-IsRun left a err later e (h left refl))

  get_loop-IsRun :
      (left a : ℕ) (last : Option PromError)
      → a + left ≡ 3
      → IsRun attempts a (suc left) (get_loop attempts (suc left) a last)
  unfolding get_loop
  get_loop-IsRun zero a last sum =
      after_attempt-IsRun zero a (attempts a) _ refl sum (λ l q. absurd (omega arith))
  get_loop-IsRun (suc left) a last sum =
      after_attempt-IsRun (suc left) a (attempts a) _ refl sum (λ l q.
        subst
          (λ m.
            IsRun attempts (a + 1) m
              (get_loop attempts (suc left) (a + 1) (last_err (attempts a) last)))
          q (get_loop-IsRun left (a + 1) (last_err (attempts a) last) (omega arith)))

-- What the n-th request of a query meets.
abbrev pub attempts_of : Transport → Text → Text → Map Text Text → ℕ → Attempt
attempts_of t base path q n =
    get_once t.decode (t.network (base ++ (path ++ (codes "?" ++ t.encode q))) n)

-- A query ends after k + 1 requests for a k below 3: the first k failed in a way worth another try,
-- with waits of 500 ms, then 1000 ms between them; the result is that of the last one, and where
-- that was not the third, it was a response or a failure not worth another try.
pub get_lem :
    (t : Transport) (base path : Text) (q : Map Text Text)
    → IsRun (attempts_of t base path q) 1 3 (get t base path q)
unfolding get
get_lem t base path q = get_loop-IsRun (attempts_of t base path q) 2 1 none refl
