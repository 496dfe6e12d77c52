-- ===== src/Tests/Windows.antt =====
-- A provider's limiter over three jobs and a refusal, in whole numbers.
use llmbus.Shared.{◌≡◌, refl}
use llmbus.Shared.Int.{ℤ, pos, negsuc, ◌+ℤ◌, ◌-ℤ◌, ◌*ℤ◌}
use llmbus.Python.Exc.{returned, raised}
use llmbus.Python.Platform.{Le}
use llmbus.Schema.Checks.{value_error}
use llmbus.Ratelimit.{ProviderLimiter, reserve_job, reserve_units}
use llmbus.Ratelimit.Bucket.{IsWell}
use llmbus.Ratelimit.Exact.{allowed}
use llmbus.Ratelimit.Conformance.{Jobs, one, another, refused, Jobs-allowed}
use llmbus.Tests.Whole.{whole, whole_laws}

-- one request a second, and two tokens
abbrev limiter_at : ℤ → ℤ → ℤ → ProviderLimiter whole
limiter_at requests tokens updated = record {
  requests = record { rate = pos 1; capacity = pos 2; tokens = requests; updated = updated };
  tokens = record { rate = pos 2; capacity = pos 10; tokens = tokens; updated = updated };
}

abbrev full : ProviderLimiter whole
full = limiter_at (pos 2) (pos 10) (pos 0)

first_granted :
    reserve_job whole (pos 5) (pos 8) full ≡ (returned (pos 0), limiter_at (pos 1) (pos 2) (pos 5))
unfolding reserve_job reserve_units ◌+ℤ◌ ◌-ℤ◌ ◌*ℤ◌
first_granted = refl

then_refused :
    reserve_job whole (pos 6) (negsuc 0) (limiter_at (pos 1) (pos 2) (pos 5))
    ≡ (raised (value_error "amount must be non-negative"), limiter_at (pos 1) (pos 2) (pos 5))
unfolding reserve_job reserve_units ◌+ℤ◌ ◌-ℤ◌ ◌*ℤ◌
then_refused = refl

second_waits :
    reserve_job whole (pos 6) (pos 9) (limiter_at (pos 1) (pos 2) (pos 5))
    ≡ (returned (pos 3), limiter_at (pos 1) (negsuc 4) (pos 6))
unfolding reserve_job reserve_units ◌+ℤ◌ ◌-ℤ◌ ◌*ℤ◌
second_waits = refl

jobs :
    Jobs whole full
      (pos 5)
      2
      (pos 8 +ℤ pos 9)
      (pos 6)
      (pos 3)
      (limiter_at (pos 1) (negsuc 4) (pos 6))
jobs =
    another (pos 6) (pos 9) (pos 3)
      (refused (pos 6) (negsuc 0) (value_error "amount must be non-negative")
        (one (pos 5) (pos 8) (pos 0) refl refl first_granted) then_refused)
      refl second_waits

requests-IsWell : IsWell whole full.requests
requests-IsWell = record { rate_pos = refl; capacity_pos = refl; within = refl }

tokens-IsWell : IsWell whole full.tokens
tokens-IsWell = record { rate_pos = refl; capacity_pos = refl; within = refl }

Jobs-allowed_example :
    Le whole (pos 2) (allowed whole full.requests (pos 6 -ℤ pos 5 +ℤ pos 3))
    × Le whole (pos 8 +ℤ pos 9) (allowed whole full.tokens (pos 6 -ℤ pos 5 +ℤ pos 3))
Jobs-allowed_example = Jobs-allowed whole whole_laws requests-IsWell tokens-IsWell jobs
