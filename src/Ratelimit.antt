-- ===== src/Ratelimit.antt =====
-- The per-provider limiter of src/llmbus/ratelimit.py: token buckets, the pair of buckets of one
-- provider, and the registry. A method that changes a bucket is an action on it.
pub mod Bucket
pub mod Known
pub mod Exact
pub mod Conformance
use llmbus.Shared.{
  String, Bool, true, false, ◌||◌, Option, none, some, List, [], ◌∷◌, lookup, ◌==◌, if◌then◌else◌,
}
use llmbus.Shared.Int.{ℤ, pos, ltb_ℤ}
use llmbus.Python.Exc.{
  Exc, raising, Fallible, returned, raised, out_of_fuel, raise_if, ◌>>=◌ as bind,
}
use llmbus.Python.Action.{Action, lift, pure, ◌>>=◌, ◌>>◌}
use llmbus.Python.Platform.{Platform, fmax, fmin, nought}
use llmbus.Schema.Checks.{value_error}

module _ (P : Platform) where
  pub record ProviderLimits : Type 0 where
    pub requests_per_min : P.Float
    pub tokens_per_min : P.Float

  -- `ProviderLimits(...)`, with its `__post_init__`
  unfoldable pub make_provider_limits : P.Float → P.Float → Fallible ProviderLimits
  make_provider_limits requests_per_min tokens_per_min =
      if P.le requests_per_min (nought P) || P.le tokens_per_min (nought P)
      then raised (value_error "per-minute limits must be positive")
      else returned
          (record { requests_per_min = requests_per_min; tokens_per_min = tokens_per_min })

  abbrev pub require_non_negative : P.Float → Fallible (Unit {0})
  require_non_negative amount =
      raise_if (P.lt amount (nought P)) (value_error "amount must be non-negative")

  pub record TokenBucket : Type 0 where
    pub rate : P.Float
    pub capacity : P.Float
    pub tokens : P.Float
    pub updated : P.Float

  unfoldable pub make_bucket : P.Float → P.Float → P.Float → Fallible TokenBucket
  make_bucket rate capacity now =
      if P.le rate (nought P) || P.le capacity (nought P)
      then raised (value_error "rate and capacity must be positive")
      else returned (record { rate = rate; capacity = capacity; tokens = capacity; updated = now })

  -- the refill and the move of the clock
  abbrev pub refill : P.Float → TokenBucket → TokenBucket
  refill now b = record b {
    tokens =
        fmin P b.capacity (P.add b.tokens (P.mul (fmax P (nought P) (P.sub now b.updated)) b.rate));
    updated = fmax P b.updated now;
  }

  -- and then the spending
  abbrev pub charge : P.Float → P.Float → TokenBucket → TokenBucket
  charge now amount b =
      let filled = refill now b in record filled { tokens = P.sub filled.tokens amount }

  -- `TokenBucket.reserve`; a bucket with a rate of zero is not built, so the division does not raise
  unfoldable pub reserve_units : P.Float → P.Float → Action TokenBucket P.Float
  reserve_units now amount b = elim (require_non_negative amount) [
    | returned _ ↦
        let b' = charge now amount b in
        (returned (P.div (fmax P (nought P) (P.neg b'.tokens)) b.rate), b')
    | raised e ↦ (raised e, b)
    | out_of_fuel ↦ (out_of_fuel, b)
  ]

  pub record ProviderLimiter : Type 0 where
    pub requests : TokenBucket
    pub tokens : TokenBucket

  unfoldable pub make_limiter : ProviderLimits → P.Float → Fallible ProviderLimiter
  unfolding make_bucket
  make_limiter limits now =
      bind
        (make_bucket (P.div limits.requests_per_min (P.of_int (pos 60))) limits.requests_per_min
          now)
        λ requests.
          bind
            (make_bucket (P.div limits.tokens_per_min (P.of_int (pos 60))) limits.tokens_per_min
              now)
            λ tokens. returned (record { requests = requests; tokens = tokens })

  on_requests : Action TokenBucket P.Float → Action ProviderLimiter P.Float
  on_requests m l = let (r, b) = m l.requests in (r, record l { requests = b })

  on_tokens : Action TokenBucket P.Float → Action ProviderLimiter P.Float
  on_tokens m l = let (r, b) = m l.tokens in (r, record l { tokens = b })

  -- `ProviderLimiter.reserve`, for one request
  unfoldable pub reserve_job : P.Float → P.Float → Action ProviderLimiter P.Float
  unfolding on_requests on_tokens
  reserve_job now tokens = do
    lift (require_non_negative tokens)
    wait_requests ← on_requests (reserve_units now (P.of_int (pos 1)))
    wait_tokens ← on_tokens (reserve_units now tokens)
    pure (fmax P wait_requests wait_tokens)

  abbrev pub too_large_error : Exc
  too_large_error = raising "OverflowError" "int too large to convert to float"

  -- the same for an `int` that is no float: the subtraction raises, with the request charged and the
  -- tokens refilled
  reserve_too_large : P.Float → ℤ → Action ProviderLimiter P.Float
  unfolding on_requests on_tokens
  reserve_too_large now tokens = do
    lift (raise_if (ltb_ℤ tokens (pos 0)) (value_error "amount must be non-negative"))
    on_requests (reserve_units now (P.of_int (pos 1)))
    on_tokens (λ b. (raised too_large_error, refill now b))

  abbrev pub RateLimiter : Type 0
  RateLimiter = List (String × ProviderLimiter)

  abbrev pub unknown_provider_error : String → Exc
  unknown_provider_error provider = raising "UnknownProviderError" (P.repr provider)

  -- the entry of `provider`, changed in place
  abbrev pub replace_limiter : String → ProviderLimiter → RateLimiter → RateLimiter
  replace_limiter k new [] = []
  replace_limiter k new ((j, l) ∷ d) =
      if j == k then (j, new) ∷ d else (j, l) ∷ replace_limiter k new d

  -- `RateLimiter.reserve`, with the reading of the clock as an argument
  unfoldable pub reserve : String → P.Float → P.Float → Action RateLimiter P.Float
  reserve provider now tokens limiters = elim (lookup provider limiters) [
    | none ↦ (raised (unknown_provider_error provider), limiters)
    | some limiter ↦
        let (r, limiter') = reserve_job now tokens limiter in
        (r, replace_limiter provider limiter' limiters)
  ]

  -- `RateLimiter.reserve` of an `int`
  unfoldable pub reserve_int : String → P.Float → ℤ → Action RateLimiter P.Float
  unfolding reserve_too_large
  reserve_int provider now tokens limiters =
      if P.fits_float tokens
      then reserve provider now (P.of_int tokens) limiters
      else elim (lookup provider limiters) [
        | none ↦ (raised (unknown_provider_error provider), limiters)
        | some limiter ↦
            let (r, limiter') = reserve_too_large now tokens limiter in
            (r, replace_limiter provider limiter' limiters)
      ]

  -- `RateLimiter.__init__`
  unfoldable pub make_rate_limiter : List (String × ProviderLimits) → P.Float → Fallible RateLimiter
  make_rate_limiter [] start = returned []
  make_rate_limiter ((provider, limits) ∷ rest) start = bind (make_limiter limits start) λ limiter.
      bind (make_rate_limiter rest start) λ others. returned ((provider, limiter) ∷ others)
