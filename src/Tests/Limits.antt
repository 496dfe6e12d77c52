-- ===== src/Tests/Limits.antt =====
-- The theorems on retries, rate limits and prices at concrete inputs.
use llmbus.Shared.{
  ℕ, String, ◌+◌, ◌*◌, some, ap, ◌≡◌, ◌≢◌, refl, true, false, List, [], ◌∷◌, lookup, ◌==◌,
}
use llmbus.Shared.Int.{pos}
use llmbus.Python.Exc.{Exc, returned, raised}
use llmbus.Python.Platform.{Le}
use llmbus.Retry.{
  make_retry_policy, validate_retry_policy, RetryPolicy, WorkerPolicy, backoff_delay,
  retry_budget_seconds,
}
use llmbus.Retry.Delays.{backoff_delay_bounds, retry_budget_holds}
use llmbus.Ratelimit.{
  TokenBucket, make_bucket, reserve_units, ProviderLimiter, reserve_job, RateLimiter,
}
use llmbus.Ratelimit.Bucket.{
  IsWell, Charged, make_bucket-IsWell, reserve_units-IsWell, reserve_job_atomic,
}
use llmbus.Cost.{
  latest, ModelPricing, PricePoint, on_day, cents, pricing_table, applicable, price_for, date_leb,
  epoch,
}
use llmbus.Cost.Prices.{
  In, InForce, NoneLater, price_for-latest, routed_is_priced, price_for_before_epoch,
}
use llmbus.Python.Json.{Fields, field, end, text, boolean, get}
use llmbus.Schema.Checks.{ensure_strict_object_schema}
use llmbus.Schema.Checks.Strict.{ensure_strict_object_schema_sound}
use llmbus.Providers.{provider_for, providers}
use llmbus.Tests.Host.{host, host_floats}

abbrev patience : RetryPolicy host
patience = record { max_attempts = 3; base_delay_s = 2; max_delay_s = 5 }

abbrev worker_policy : WorkerPolicy host
worker_policy = record { retry = patience; job_timeout_s = 60; default_output_tokens = pos 1000 }

second_wait : backoff_delay host 1 patience 1 ≡ returned 4
unfolding backoff_delay
second_wait = refl

capped_wait : backoff_delay host 2 patience 1 ≡ returned 5
unfolding backoff_delay
capped_wait = refl

backoff_delay_bounds_example : Le host 0 5 × Le host 5 8 × Le host 5 5
backoff_delay_bounds_example =
    backoff_delay_bounds host host_floats patience refl refl 2 1 5 (refl, refl) capped_wait

first_wait : backoff_delay host 0 patience 0 ≡ returned 0
unfolding backoff_delay
first_wait = refl

whole_budget : retry_budget_seconds host worker_policy ≡ returned 186
unfolding retry_budget_seconds
whole_budget = refl

retry_budget_holds_example : Le host (3 * 60 + (0 + (4 + 0))) 186
retry_budget_holds_example =
    retry_budget_holds host host_floats worker_policy (0 ∷ 4 ∷ []) 186 refl refl
      ((0, first_wait, (refl, refl)), ((1, second_wait, (refl, refl)), tt)) refl whole_budget

abbrev small : TokenBucket host
small = record { rate = 1; capacity = 60; tokens = 10; updated = 7 }

small-IsWell : IsWell host small
small-IsWell = record { rate_pos = refl; capacity_pos = refl; within = refl }

abbrev fresh : TokenBucket host
fresh = record { rate = 1; capacity = 60; tokens = 60; updated = 7 }

new_bucket : make_bucket host 1 60 7 ≡ returned fresh
unfolding make_bucket
new_bucket = refl

make_bucket-IsWell_example :
    IsWell host fresh × (fresh.tokens ≡ fresh.capacity) × (fresh.updated ≡ 7)
make_bucket-IsWell_example = make_bucket-IsWell host host_floats 1 60 7 {b = fresh} new_bucket

reserve_units-IsWell_example :
    let b = (reserve_units host 12 4 small).1 in
    IsWell host b × (b.rate ≡ 1) × (b.capacity ≡ 60) × Le host 7 b.updated
unfolding reserve_units
reserve_units-IsWell_example = reserve_units-IsWell host host_floats 12 4 small small-IsWell

abbrev openai_limiter : ProviderLimiter host
openai_limiter = record { requests = small; tokens = record small { tokens = 50 } }

reserve_job_atomic_example :
    Charged host 12 20 openai_limiter (reserve_job host 12 20 openai_limiter)
reserve_job_atomic_example = reserve_job_atomic host host_floats 12 20 openai_limiter

abbrev limiters : RateLimiter host
limiters = ("openai", openai_limiter) ∷ ("anthropic", openai_limiter) ∷ []

abbrev openai : String
openai = "openai"

abbrev anthropic : String
anthropic = "anthropic"

anthropic≢openai : anthropic ≢ openai
anthropic≢openai e = cc (ap (λ text. text == "openai") e)

abbrev sonnet_point : ℕ → ℕ → ModelPricing
sonnet_point input output = record { input_per_mtok = cents input; output_per_mtok = cents output }

abbrev sonnet : List PricePoint
sonnet =
    record { effective = epoch; pricing = sonnet_point 200 1000 }
    ∷ record { effective = on_day 2026 9 1; pricing = sonnet_point 300 1500 }
    ∷ []

sonnet_known : lookup "claude-sonnet-5" pricing_table ≡ some sonnet
unfolding pricing_table
sonnet_known = refl

autumn_price : price_for host "claude-sonnet-5" (on_day 2026 9 1) ≡ returned (sonnet_point 300 1500)
unfolding price_for pricing_table applicable date_leb latest
autumn_price = refl

price_for-latest_example :
    (point : PricePoint) × In point sonnet
    × InForce (on_day 2026 9 1) point
    × (point.pricing ≡ sonnet_point 300 1500)
    × NoneLater (on_day 2026 9 1) point.effective sonnet
price_for-latest_example =
    price_for-latest host "claude-sonnet-5" (on_day 2026 9 1) sonnet
      {pricing = sonnet_point 300 1500} sonnet_known autumn_price

sonnet_routed : provider_for host "claude-sonnet-5" ≡ returned "anthropic"
unfolding provider_for providers
sonnet_routed = refl

after_epoch : date_leb epoch (on_day 2026 3 1) ≡ true
unfolding date_leb
after_epoch = refl

routed_is_priced_example :
    (pricing : ModelPricing) × (price_for host "claude-sonnet-5" (on_day 2026 3 1)
      ≡ returned pricing)
routed_is_priced_example =
    routed_is_priced host "claude-sonnet-5" (on_day 2026 3 1) {provider = "anthropic"} sonnet_routed
      after_epoch

before_epoch : date_leb epoch (on_day 2024 12 31) ≡ false
unfolding date_leb
before_epoch = refl

price_for_before_epoch_example :
    (e : Exc) × (price_for host "claude-sonnet-5" (on_day 2024 12 31) ≡ raised e)
    × (e.is_exception ≡ true)
price_for_before_epoch_example =
    price_for_before_epoch host "claude-sonnet-5" (on_day 2024 12 31) before_epoch

patient : make_retry_policy host 3 2 5 ≡ returned patience
unfolding make_retry_policy validate_retry_policy
patient = refl

abbrev strict : Fields ℕ
strict = field "type" (text "object") (field "additionalProperties" (boolean false) end)

strict_accepted : ensure_strict_object_schema host strict ≡ returned strict
unfolding ensure_strict_object_schema
strict_accepted = refl

ensure_strict_object_schema_sound_example :
    (strict ≡ strict)
    × (get "type" strict ≡ some (text "object"))
    × (get "additionalProperties" strict ≡ some (boolean false))
ensure_strict_object_schema_sound_example =
    ensure_strict_object_schema_sound host strict {accepted = strict} strict_accepted
