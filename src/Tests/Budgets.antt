-- ===== src/Tests/Budgets.antt =====
-- The policy of a worker at concrete settings, as a producer reads it.
use llmbus.Shared.{◌≡◌, refl}
use llmbus.Shared.Int.{pos}
use llmbus.Python.Exc.{returned}
use llmbus.Retry.{
  WorkerPolicy, retry_budget_seconds, backoff_delay, make_retry_policy, validate_worker_policy,
}
use llmbus.Config.{parse_worker_policy, positive_int, positive_float, required}
use llmbus.Tests.Host.{host}
use llmbus.Tests.Library.{library}
use llmbus.Tests.Pages.{settings}

abbrev workable : WorkerPolicy host
workable = record {
  retry = record { max_attempts = 3; base_delay_s = 2; max_delay_s = 5 };
  job_timeout_s = 60;
  default_output_tokens = pos 60;
}

parsed_policy : parse_worker_policy host library settings ≡ returned workable
unfolding parse_worker_policy positive_int positive_float required make_retry_policy
    validate_worker_policy
parsed_policy = refl

small_draw : backoff_delay host 0 workable.retry 0 ≡ returned 0
unfolding backoff_delay
small_draw = refl

large_draw : backoff_delay host 1 workable.retry 1 ≡ returned 4
unfolding backoff_delay
large_draw = refl

budget_of_settings : retry_budget_seconds host workable ≡ returned 186
unfolding retry_budget_seconds
budget_of_settings = refl
