-- ===== src/Retry/Checks.antt =====
-- What the checks on a retry policy leave through.
use llmbus.Shared.{ℕ, ◌<◌, ◌≡◌, true, arith}
use llmbus.Python.Exc.{returned}
use llmbus.Python.Platform.{Platform, FloatLaws, Le, nought}
use llmbus.Retry.{RetryPolicy, validate_retry_policy, make_retry_policy}

-- A retry policy that can be built allows an attempt, and its delays are positive and in order: what
-- the bounds on the waits ask for. It has the three values that it was built from.
make_retry_policy_sound :
    (P : Platform) (laws : FloatLaws P) (max_attempts : ℕ) (base_delay_s max_delay_s : P.Float)
    {policy : RetryPolicy P}
    → make_retry_policy P max_attempts base_delay_s max_delay_s ≡ returned policy
    → (0 < policy.max_attempts)
      × (P.lt (nought P) policy.base_delay_s ≡ true)
      × Le P policy.base_delay_s policy.max_delay_s
      × (policy ≡ record {
        max_attempts = max_attempts;
        base_delay_s = base_delay_s;
        max_delay_s = max_delay_s;
      })
unfolding make_retry_policy validate_retry_policy
make_retry_policy_sound P laws max_attempts base_delay_s max_delay_s {policy} h =
    ground (arith, laws.le-not-lt base_delay_s (nought P))
