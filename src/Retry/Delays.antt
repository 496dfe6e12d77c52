-- ===== src/Retry/Delays.antt =====
-- The jittered delays stay under the budget that the worker publishes.
use llmbus.Shared.{ℕ, suc, ◌-◌, ◌≡◌, sym, true, List, [], ◌∷◌, arith, length}
use llmbus.Shared.Int.{pos}
use llmbus.Python.Exc.{returned}
use llmbus.Python.Platform.{Platform, FloatLaws, Le, Pointwise, fmin, nought}
use llmbus.Python.Floats.{fmin-le, le-fmin}
use llmbus.Retry.{
  RetryPolicy, WorkerPolicy, exponential, full_delays, backoff_delay, retry_budget_seconds,
}

module _ (P : Platform) where
  -- a draw of `random.random()`
  abbrev pub IsDraw : P.Float → Type 0
  IsDraw r = Le P (nought P) r × Le P r (P.of_int (pos 1))

  -- The waits of the retries from number `i` on, one draw each.
  abbrev pub Waits : RetryPolicy P → ℕ → List P.Float → Type 0
  Waits policy i [] = Unit
  Waits policy i (d ∷ ds) =
      ((r : P.Float) × (backoff_delay P i policy r ≡ returned d) × IsDraw r)
      × Waits policy (suc i) ds

  backoff_delay-value :
      (i : ℕ) (policy : RetryPolicy P) (r d : P.Float)
      → backoff_delay P i policy r ≡ returned d
      → d ≡ P.mul (fmin P policy.max_delay_s (exponential P policy i)) r
  unfolding backoff_delay
  backoff_delay-value i policy r d e = ground arith

module _ (P : Platform) (laws : FloatLaws P) (policy : RetryPolicy P) where
  module _ (positive : P.lt (nought P) policy.base_delay_s ≡ true)
      (ordered : Le P policy.base_delay_s policy.max_delay_s) where
    exponential_nonneg : (i : ℕ) → Le P (nought P) (exponential P policy i)
    exponential_nonneg i =
        laws.mul_nonneg policy.base_delay_s _
          (laws.lt_asymm (nought P) policy.base_delay_s positive) (laws.of_int_nonneg _)

    ceiling_nonneg : (i : ℕ) → Le P (nought P) (fmin P policy.max_delay_s (exponential P policy i))
    ceiling_nonneg i =
        le-fmin P laws (nought P) policy.max_delay_s (exponential P policy i)
          (laws.le_trans (nought P) policy.base_delay_s policy.max_delay_s
            (laws.lt_asymm (nought P) policy.base_delay_s positive) ordered)
          (exponential_nonneg i)

    -- With a positive base delay that is at most the cap, and a draw between 0 and 1, a wait is
    -- never negative, and never longer than the exponential delay or the cap.
    pub backoff_delay_bounds :
        (i : ℕ) (r d : P.Float)
        → IsDraw P r
        → backoff_delay P i policy r ≡ returned d
        → Le P (nought P) d × Le P d (exponential P policy i) × Le P d policy.max_delay_s
    backoff_delay_bounds i r d draw e =
        let ceiling : P.Float = fmin P policy.max_delay_s (exponential P policy i) in
        let below : Le P (P.mul ceiling r) ceiling =
          laws.mul-le_left ceiling r (ceiling_nonneg i) draw.1 in
        let caps = fmin-le P laws policy.max_delay_s (exponential P policy i) in
        rw (backoff_delay-value P i policy r d e) (
          laws.mul_nonneg ceiling r (ceiling_nonneg i) draw.0,
          laws.le_trans _ ceiling _ below caps.1,
          laws.le_trans _ ceiling _ below caps.0,
        )

    Waits-Pointwise :
        (i : ℕ) (ds : List P.Float)
        → Waits P policy i ds
        → Pointwise P ds (full_delays P policy i (length ds))
    Waits-Pointwise i [] h = tt
    Waits-Pointwise i (d ∷ ds) ((r, e, draw), rest) =
        let bounds = backoff_delay_bounds i r d draw e in
        (
          le-fmin P laws d (exponential P policy i) policy.max_delay_s bounds.1 bounds.2,
          Waits-Pointwise (suc i) ds rest,
        )

retry_budget_seconds-value :
    (P : Platform) (policy : WorkerPolicy P) (budget : P.Float)
    → retry_budget_seconds P policy ≡ returned budget
    → budget
      ≡ P.add
          (P.mul (P.of_int (pos policy.retry.max_attempts)) policy.job_timeout_s)
          (P.fsum (full_delays P policy.retry 0 (policy.retry.max_attempts - 1)))
unfolding retry_budget_seconds
retry_budget_seconds-value P policy budget e = ground arith

-- With a positive base delay that is at most the cap, and a budget that can be computed, a job that
-- uses up its attempts spends at most that budget: a full timeout for each attempt, and the waits
-- before its retries, whatever draws between 0 and 1 they were made of.
pub retry_budget_holds :
    (P : Platform) (laws : FloatLaws P) (policy : WorkerPolicy P) (waits : List P.Float)
    (budget : P.Float)
    → P.lt (nought P) policy.retry.base_delay_s ≡ true
    → Le P policy.retry.base_delay_s policy.retry.max_delay_s
    → Waits P policy.retry 0 waits
    → length waits ≡ policy.retry.max_attempts - 1
    → retry_budget_seconds P policy ≡ returned budget
    → Le P
        (P.add
          (P.mul (P.of_int (pos policy.retry.max_attempts)) policy.job_timeout_s)
          (P.fsum waits))
        budget
retry_budget_holds P laws policy waits budget positive ordered h e total =
    rw (retry_budget_seconds-value P policy budget total) (
      laws.add_mono _ _ _ _ (laws.le_refl _) (
        laws.fsum_mono waits _
          (rw (sym e) (Waits-Pointwise P laws policy.retry positive ordered 0 waits h))))
