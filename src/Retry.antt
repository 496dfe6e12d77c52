-- ===== src/Retry.antt =====
-- The retry policy, the error classification and the backoff of src/llmbus/retry.py.
pub mod Delays
pub mod Checks
use Prim.Native.Nat.{min}
use llmbus.Shared.{
  ℕ, zero, suc, ◌+◌, ◌-◌, ◌^◌, String, Bool, true, false, ◌||◌, Option, none, some, List, [], ◌∷◌,
  ◌++◌, leb, ltb, contains, if◌then◌else◌,
}
use llmbus.Shared.Int.{ℤ, pos, eqb_ℤ, leb_ℤ, ltb_ℤ}
use llmbus.Python.Exc.{Exc, raising, Fallible, returned, raised, raise_if, ◌>>◌}
use llmbus.Python.Platform.{Platform, fmin, nought}
use llmbus.Schema.Checks.{value_error}

-- `_RETRYABLE_STATUS`
unfoldable pub retryable_status : ℤ → Bool
retryable_status n = eqb_ℤ n (pos 408) || eqb_ℤ n (pos 409) || eqb_ℤ n (pos 429)

-- `_RETRYABLE_EXC_NAMES`
abbrev pub retryable_exc_names : List String
retryable_exc_names = "APIConnectionError" ∷ "APITimeoutError" ∷ []

unfoldable pub is_retryable : Exc → Bool
unfolding retryable_status
is_retryable exc = if exc.is_transport then true else elim exc.status_code [
  | some status ↦ retryable_status status || leb_ℤ (pos 500) status
  | none ↦ contains exc.type_name retryable_exc_names
]

abbrev pub overflow_error : Exc
overflow_error = raising "OverflowError" "(34, 'Numerical result out of range')"

module _ (P : Platform) where
  pub record RetryPolicy : Type 0 where
    pub max_attempts : ℕ
    pub base_delay_s : P.Float
    pub max_delay_s : P.Float

  pub record WorkerPolicy : Type 0 where
    pub retry : RetryPolicy
    pub job_timeout_s : P.Float
    pub default_output_tokens : ℤ

  unfoldable pub validate_retry_policy : ℕ → P.Float → P.Float → Fallible (Unit {0})
  validate_retry_policy max_attempts base_delay_s max_delay_s = do
    raise_if (ltb max_attempts 1) (value_error "max_attempts must be at least 1")
    raise_if (P.le base_delay_s (nought P)) (value_error "base_delay_s must be positive")
    raise_if (P.lt max_delay_s base_delay_s)
        (value_error "max_delay_s must be at least base_delay_s")

  -- `RetryPolicy(...)`, with its `__post_init__`
  unfoldable pub make_retry_policy : ℕ → P.Float → P.Float → Fallible RetryPolicy
  unfolding validate_retry_policy
  make_retry_policy max_attempts base_delay_s max_delay_s =
      validate_retry_policy max_attempts base_delay_s max_delay_s
      >> returned (record {
        max_attempts = max_attempts;
        base_delay_s = base_delay_s;
        max_delay_s = max_delay_s;
      })

  unfoldable pub validate_worker_policy : P.Float → ℤ → Fallible (Unit {0})
  validate_worker_policy job_timeout_s default_output_tokens = do
    raise_if (P.le job_timeout_s (nought P)) (value_error "job_timeout_s must be positive")
    raise_if (ltb_ℤ default_output_tokens (pos 0))
        (value_error "default_output_tokens must be non-negative")

  -- `base_delay_s * 2 ** i`
  abbrev pub exponential : RetryPolicy → ℕ → P.Float
  exponential policy i = P.mul policy.base_delay_s (P.of_int (pos (2 ^ i)))

  -- the delays of `range(rounds)` from `i` on, not jittered
  abbrev pub full_delays : RetryPolicy → ℕ → ℕ → List P.Float
  full_delays policy i zero = []
  full_delays policy i (suc rounds) =
      fmin P (exponential policy i) policy.max_delay_s ∷ full_delays policy (suc i) rounds

  -- `2 ** i` is out of the range of a float from 1024 on, and the last `i` is `max_attempts - 2`.
  unfoldable pub retry_budget_seconds : WorkerPolicy → Fallible P.Float
  retry_budget_seconds policy =
      if leb 1026 policy.retry.max_attempts
      then raised (raising "OverflowError" "int too large to convert to float")
      else returned (
          P.add (P.mul (P.of_int (pos policy.retry.max_attempts)) policy.job_timeout_s)
            (P.fsum (full_delays policy.retry 0 (policy.retry.max_attempts - 1))))

  -- `2.0 ** i` is out of range from 1024 on.
  unfoldable pub backoff_delay : ℕ → RetryPolicy → P.Float → Fallible P.Float
  backoff_delay retry_index policy rand =
      if leb 1024 retry_index
      then raised overflow_error
      else returned (P.mul (fmin P policy.max_delay_s (exponential policy retry_index)) rand)
