-- ===== src/Worker/Wiring/Boot.antt =====
-- What a worker needs of its settings and of the checks before it consumes.
use llmbus.Shared.{◌<◌, String, Option, List, [], ◌∷◌, arith}
use llmbus.Python.Exc.{Exc, Fallible, returned, raised, out_of_fuel, IsFinal, IsFinal-bind}
use llmbus.Python.Hoare.{Ends}
use llmbus.Python.Outcome.{EndsIn, EndsIn-bind}
use llmbus.Python.Platform.{Platform, FloatLaws}
use llmbus.Python.Texts.{Texts}
use llmbus.Retry.{WorkerPolicy, retry_budget_seconds}
use llmbus.Ratelimit.{ProviderLimits, make_bucket, make_limiter, make_rate_limiter}
use llmbus.Store.{Store, publish_worker_policy}
use llmbus.Config.{Env, given_or, parse_config, parse_worker_policy, parse_connect_policy}
use llmbus.Config.Checks.{
  IsConfigError, IsUsable, IsWorkable, IsComplete, parse_retry_policy_ends,
  parse_worker_policy_ends, parse_config_ends,
}
use llmbus.Worker.Wiring.{Settings, load_settings}

module _ (P : Platform) where
  make_bucket-IsFinal : (rate capacity now : P.Float) → IsFinal (make_bucket P rate capacity now)
  unfolding make_bucket
  make_bucket-IsFinal rate capacity now = ground arith

  make_limiter-IsFinal :
      (limits : ProviderLimits P) (now : P.Float) → IsFinal (make_limiter P limits now)
  unfolding make_limiter
  make_limiter-IsFinal limits now =
      IsFinal-bind _ _ (make_bucket-IsFinal _ _ now)
        λ requests. IsFinal-bind _ _ (make_bucket-IsFinal _ _ now) λ tokens. tt

  pub make_rate_limiter-IsFinal :
      (limits : List (String × ProviderLimits P)) (start : P.Float)
      → IsFinal (make_rate_limiter P limits start)
  unfolding make_rate_limiter
  make_rate_limiter-IsFinal [] start = tt
  make_rate_limiter-IsFinal ((provider, limits) ∷ rest) start =
      IsFinal-bind _ _ (make_limiter-IsFinal limits start)
        λ limiter. IsFinal-bind _ _ (make_rate_limiter-IsFinal rest start) λ others. tt

  pub publish-IsFinal :
      (policy : WorkerPolicy P) (stamped : P.Datetime) (s : Store P)
      → IsFinal (publish_worker_policy P policy stamped s).0
  unfolding publish_worker_policy retry_budget_seconds
  publish-IsFinal policy stamped s = ground arith

  module _ (T : Texts P.Float) (laws : FloatLaws P) where
    -- What is needed of the settings: they allow an attempt.
    abbrev pub Attempted : Settings P T → Type 0
    Attempted settings =
        (0 < settings.policy.retry.max_attempts) × (0 < settings.connect_policy.max_attempts)

    pub load_settings_ends :
        (env : Option Env) (process : Env)
        → EndsIn Attempted IsConfigError (load_settings P T env process)
    unfolding load_settings parse_connect_policy
    load_settings_ends env process =
        EndsIn-bind (λ c. IsComplete P {T = T} c) Attempted IsConfigError
          (parse_config P T (given_or env process)) _
          (parse_config_ends P T laws (given_or env process))
          λ config hc.
            EndsIn-bind (IsWorkable P) Attempted IsConfigError
              (parse_worker_policy P T (given_or env process)) _
              (parse_worker_policy_ends P T laws (given_or env process))
              λ policy hp.
                EndsIn-bind (IsUsable P) Attempted IsConfigError
                  (parse_connect_policy P T (given_or env process)) _
                  (parse_retry_policy_ends P T laws (given_or env process) _ _ _)
                  λ connect_policy hr. (hp.0.0, hr.0)

module _ {S A : Type 0} where
  pub Ends-IsFinal :
      (post : A → S → Type 0) (fail : Exc → S → Type 0) (r : Fallible A) (s : S)
      → Ends post fail (r, s)
      → IsFinal r
  Ends-IsFinal post fail (returned a) s h = tt
  Ends-IsFinal post fail (raised e) s h = tt
  Ends-IsFinal post fail out_of_fuel s h = absurd h

  pub Ends-final :
      (post : S → Type 0) (r : Fallible A) (s : S)
      → IsFinal r
      → post s
      → (less : S → Type 0) → (post s → less s)
      → Ends (λ _ t. post t) (λ _ t. less t) (r, s)
  Ends-final post (returned a) s h k less f = k
  Ends-final post (raised e) s h k less f = f k
  Ends-final post out_of_fuel s h k less f = absurd h
