-- ===== src/Config/Checks.antt =====
-- What the reading of the settings lets through, and how it fails.
use Prim.Native.String.{◌++◌}
use llmbus.Shared.{
  ℕ, ◌<◌, String, ◌≡◌, refl, true, false, Option, none, some, ◌==◌, arith, All, map, [], ◌∷◌,
}
use llmbus.Shared.Int.{ℤ, pos, ◌≤ℤ◌}
use llmbus.Python.Exc.{Exc, Fallible, ◌>>=◌}
use llmbus.Python.Outcome.{EndsIn, EndsIn-if, EndsIn-bind}
use llmbus.Python.Texts.{Texts}
use llmbus.Python.Platform.{Platform, FloatLaws, Le, nought}
use llmbus.Retry.{
  RetryPolicy, WorkerPolicy, make_retry_policy, validate_retry_policy, validate_worker_policy,
}
use llmbus.Ratelimit.{ProviderLimits, make_provider_limits}
use llmbus.Config.{
  Env, setting, required, positive_float, finite_positive, positive_int, integer_positive,
  provider_limits, parse_retry_policy, as_config_error, make_worker_policy, parse_worker_policy,
  Config, parse_config,
}

abbrev pub IsConfigError : Exc → Type 0
IsConfigError e = e.type_name ≡ "ConfigError"

-- A text that is there.
abbrev pub IsFilled : String → Type 0
IsFilled text = (text == "") ≡ false

abbrev pub IsCount : ℕ → Type 0
IsCount n = 0 < n

module _ (P : Platform) where
  abbrev pub IsPositive : P.Float → Type 0
  IsPositive x = P.lt (nought P) x ≡ true

  -- What the bounds on the retries ask of a policy.
  abbrev pub IsUsable : RetryPolicy P → Type 0
  IsUsable policy =
      (0 < policy.max_attempts)
      × IsPositive policy.base_delay_s
      × Le P policy.base_delay_s policy.max_delay_s

  abbrev pub IsWorkable : WorkerPolicy P → Type 0
  IsWorkable policy =
      IsUsable policy.retry
      × IsPositive policy.job_timeout_s
      × (pos 1 ≤ℤ policy.default_output_tokens)

  -- What a bucket can be made of.
  abbrev pub IsLimit : ProviderLimits P → Type 0
  IsLimit limits = IsPositive limits.requests_per_min × IsPositive limits.tokens_per_min

  -- Every required setting is there, and limits for the two providers that a limiter accepts.
  abbrev pub IsComplete : {T : Texts P.Float} → Config P T → Type 0
  IsComplete config =
      IsFilled config.openai_api_key
      × IsFilled config.anthropic_api_key
      × All (λ (name, limits). IsLimit limits) config.rate_limits
      × (map (λ (name, limits). name) config.rate_limits ≡ "openai" ∷ "anthropic" ∷ [])
      × IsFilled config.iggy_address
      × IsFilled config.iggy_username
      × IsFilled config.iggy_password
      × IsFilled config.db_path

module _ (P : Platform) (T : Texts P.Float) where
  pub required_ends :
      (env : Env) (key : String) → EndsIn IsFilled IsConfigError (required P T env key)
  unfolding required
  required_ends env key =
      EndsIn-if IsFilled IsConfigError (setting P T env key == "") _ _ (λ h. refl) λ h. h

  integer_positive_ends :
      (key raw : String) (o : Option ℤ)
      → EndsIn IsCount IsConfigError (integer_positive P T key raw o)
  unfolding integer_positive
  integer_positive_ends key raw none = refl
  integer_positive_ends key raw (some value) = ground arith

  positive_int_ends :
      (env : Env) (key : String) → EndsIn IsCount IsConfigError (positive_int P T env key)
  unfolding positive_int
  positive_int_ends env key =
      EndsIn-bind IsFilled IsCount IsConfigError (required P T env key) _ (required_ends env key)
        λ raw h. integer_positive_ends key raw (T.int_of raw)

  module _ (laws : FloatLaws P) where
    finite_positive_ends :
        (key raw : String) (o : Option P.Float)
        → EndsIn (IsPositive P) IsConfigError (finite_positive P T key raw o)
    unfolding finite_positive
    finite_positive_ends key raw none = refl
    finite_positive_ends key raw (some value) = ground (arith, laws.le-not-lt value (nought P))

    positive_float_ends :
        (env : Env) (key : String)
        → EndsIn (IsPositive P) IsConfigError (positive_float P T env key)
    unfolding positive_float
    positive_float_ends env key =
        EndsIn-bind IsFilled (IsPositive P) IsConfigError (required P T env key) _
          (required_ends env key) λ raw h. finite_positive_ends key raw (T.float_of raw)

    made_ends :
        (n : ℕ) (base cap : P.Float)
        → IsCount n
        → EndsIn (IsUsable P) IsConfigError (as_config_error (make_retry_policy P n base cap))
    unfolding make_retry_policy validate_retry_policy
    made_ends n base cap h = ground (arith, laws.le-not-lt base (nought P))

    pub parse_retry_policy_ends :
        (env : Env) (a b c : String)
        → EndsIn (IsUsable P) IsConfigError (parse_retry_policy P T env a b c)
    parse_retry_policy_ends env a b c =
        EndsIn-bind IsCount (IsUsable P) IsConfigError (positive_int P T env a) _
          (positive_int_ends env a)
          λ n hn.
            EndsIn-bind (IsPositive P) (IsUsable P) IsConfigError (positive_float P T env b) _
              (positive_float_ends env b)
              λ base hb.
                EndsIn-bind (IsPositive P) (IsUsable P) IsConfigError (positive_float P T env c) _
                  (positive_float_ends env c) λ cap hc. made_ends n base cap hn

    worker_made_ends :
        (retry : RetryPolicy P) (timeout : P.Float) (tokens : ℕ)
        → IsUsable P retry
        → IsPositive P timeout
        → IsCount tokens
        → EndsIn (IsWorkable P) IsConfigError (make_worker_policy P T retry timeout tokens)
    unfolding validate_worker_policy
    worker_made_ends retry timeout tokens hr ht hn =
        ground (arith, laws.le-not-lt timeout (nought P))

    -- Reading the worker policy returns one with an attempt at least, a positive base delay that is at
    -- most the cap, a positive timeout and a positive token estimate, or it raises a `ConfigError`;
    -- under the laws of floats.
    pub parse_worker_policy_ends :
        (env : Env) → EndsIn (IsWorkable P) IsConfigError (parse_worker_policy P T env)
    unfolding parse_worker_policy
    parse_worker_policy_ends env =
        EndsIn-bind (IsUsable P) (IsWorkable P) IsConfigError
          (parse_retry_policy P T env "WORKER_MAX_ATTEMPTS" "WORKER_BACKOFF_BASE_S"
            "WORKER_BACKOFF_MAX_S")
          _
          (parse_retry_policy_ends env "WORKER_MAX_ATTEMPTS" "WORKER_BACKOFF_BASE_S"
            "WORKER_BACKOFF_MAX_S")
          λ retry hr.
            EndsIn-bind (IsPositive P) (IsWorkable P) IsConfigError
              (positive_float P T env "WORKER_JOB_TIMEOUT_S") _
              (positive_float_ends env "WORKER_JOB_TIMEOUT_S")
              λ timeout ht.
                EndsIn-bind IsCount (IsWorkable P) IsConfigError
                  (positive_int P T env "WORKER_DEFAULT_OUTPUT_TOKENS") _
                  (positive_int_ends env "WORKER_DEFAULT_OUTPUT_TOKENS")
                  λ tokens hn. worker_made_ends retry timeout tokens hr ht hn

    limits_made_ends :
        (requests tokens : P.Float)
        → IsPositive P requests
        → IsPositive P tokens
        → EndsIn (IsLimit P) IsConfigError (make_provider_limits P requests tokens)
    unfolding make_provider_limits
    limits_made_ends requests tokens hr ht =
        ground (arith, laws.le-not-lt requests (nought P), laws.le-not-lt tokens (nought P))

    provider_limits_ends :
        (env : Env) (name : String)
        → EndsIn (IsLimit P) IsConfigError (provider_limits P T env name)
    unfolding provider_limits
    provider_limits_ends env name =
        EndsIn-bind (IsPositive P) (IsLimit P) IsConfigError
          (positive_float P T env (name ++ "_RPM")) _ (positive_float_ends env (name ++ "_RPM"))
          λ requests hr.
            EndsIn-bind (IsPositive P) (IsLimit P) IsConfigError
              (positive_float P T env (name ++ "_TPM")) _ (positive_float_ends env (name ++ "_TPM"))
              λ tokens ht. limits_made_ends requests tokens hr ht

    -- A text that is required, in a computation of a configuration.
    with_required :
        (env : Env) (key : String) (f : String → Fallible (Config P T))
        → ((text : String)
            → IsFilled text
            → EndsIn (λ c. IsComplete P {T = T} c) IsConfigError (f text))
        → EndsIn (λ c. IsComplete P {T = T} c) IsConfigError (required P T env key >>= f)
    with_required env key f h =
        EndsIn-bind IsFilled (λ c. IsComplete P {T = T} c) IsConfigError (required P T env key) f
          (required_ends env key) h

    with_limits :
        (env : Env) (name : String) (f : ProviderLimits P → Fallible (Config P T))
        → ((limits : ProviderLimits P)
            → IsLimit P limits
            → EndsIn (λ c. IsComplete P {T = T} c) IsConfigError (f limits))
        → EndsIn (λ c. IsComplete P {T = T} c) IsConfigError (provider_limits P T env name >>= f)
    with_limits env name f h =
        EndsIn-bind (IsLimit P) (λ c. IsComplete P {T = T} c) IsConfigError
          (provider_limits P T env name) f (provider_limits_ends env name) h

    -- Reading the configuration returns one whose API keys, broker address, username and password, and
    -- store path are not blank and whose limits, one for each of the two providers, are positive, or it
    -- raises a `ConfigError`; under the laws of floats.
    pub parse_config_ends :
        (env : Env) → EndsIn (λ c. IsComplete P {T = T} c) IsConfigError (parse_config P T env)
    unfolding parse_config
    parse_config_ends env = with_required env "OPENAI_API_KEY" _ λ k1 h1.
        with_required env "ANTHROPIC_API_KEY" _ λ k2 h2. with_limits env "OPENAI" _ λ l1 g1.
          with_limits env "ANTHROPIC" _ λ l2 g2. with_required env "IGGY_ADDRESS" _ λ k3 h3.
            with_required env "IGGY_USERNAME" _ λ k4 h4.
              with_required env "IGGY_PASSWORD" _ λ k5 h5.
                with_required env "STORE_PATH" _
                  λ k6 h6. (h1, h2, (g1, (g2, tt)), refl, h3, h4, h5, h6)
