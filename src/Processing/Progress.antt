-- ===== src/Processing/Progress.antt =====
-- When a run cannot raise: the loop and the delivery under an environment that behaves.
use llmbus.Shared.{
  ℕ, zero, suc, ◌+◌, ◌≤◌, ◌<◌, String, ◌≡◌, refl, true, false, not, ◌&&◌, some, List, ltb, leb,
  arith, Bool-cases, Option-cases, inl, inr,
}
use native.Mathlib.Numerals.{add-one}
use llmbus.Shared.Int.{ℤ, pos, ltb_ℤ}
use llmbus.Python.Exc.{Exc, Fallible, returned, raised, out_of_fuel, Ended, answered, failed}
use llmbus.Python.Action.{Action, pure, lift}
use llmbus.Python.Hoare.{
  Ends, Ends-returned, Hoare, Hoare-pure, Hoare-if, Hoare-fact, Hoare-bind, Hoare-lift,
}
use llmbus.Python.Platform.{Platform, Date, Decimal, nought}
use llmbus.Schema.{Job, Result, Message, JobParams}
use llmbus.Retry.{is_retryable, backoff_delay, RetryPolicy}
use llmbus.Providers.{provider_for}
use llmbus.Cost.{date_leb, epoch, cost_usd, price_for, ModelPricing}
use llmbus.Cost.Prices.{routed_is_priced}
use llmbus.Ratelimit.{RateLimiter, reserve_int}
use llmbus.Ratelimit.Known.{Knows, reserve_int-Knows}
use llmbus.Processing.Effects.{Provider, ProviderResult, Deps, World, acquired, slept, ask, emit}
use llmbus.Processing.Trace.{is_expired-IsFinal}
use llmbus.Processing.{
  is_expired, model_of, look, acquire, on_limiter, call_model, call_provider, after_call, price,
  dropped, try_call, admitted, round, call_loop, call_with_retry,
}

module _ (P : Platform) where
  -- An outcome of a call that the worker can deal with: counts that can be priced, or a failure that
  -- is an `Exception`.
  abbrev pub IsOrderly : Ended (ProviderResult P) → Type 0
  IsOrderly (answered call) =
      (ltb_ℤ call.usage.input_tokens (pos 0) ≡ false)
      × (ltb_ℤ call.usage.output_tokens (pos 0) ≡ false)
  IsOrderly (failed e) = e.is_exception ≡ true

  abbrev pub IsCaught : Ended (Unit {0}) → Type 0
  IsCaught (answered _) = Unit
  IsCaught (failed e) = e.is_exception ≡ true

  -- A deadline, if there is one, is a `datetime`.
  abbrev pub HasDeadline : Job P → Type 0
  HasDeadline job = (ttl : P.Float) → job.ttl_s ≡ some ttl → P.in_range job.submitted_at ttl ≡ true

  never_raised :
      (job : Job P)
      → HasDeadline job
      → (now : P.Datetime) (e : Exc) → is_expired P job now ≡ raised e
      → ⊥
  unfolding is_expired
  never_raised job dateable now e h = elim (Option-cases job.ttl_s) [
    | inl timeless ↦ cc (rw (timeless, is_expired) at h)
    | inr (ttl, until) ↦ cc (rw (until, is_expired, dateable ttl until) at h)
  ]

  -- No exception leaves an action.
  abbrev pub Never : Exc → World P → Type 0
  Never e w = ⊥

  backoff_delay-returned :
      (k : ℕ) (policy : RetryPolicy P) (draw : P.Float)
      → k < 1024
      → (delay : P.Float) × (backoff_delay P k policy draw ≡ returned delay)
  unfolding backoff_delay
  backoff_delay-returned k policy draw h = elim (Bool-cases (leb 1024 k)) [
    | inl out ↦ absurd (ground (arith, out))
    | inr fine ↦ rw fine (_, refl)
  ]

  -- What can be priced: a job with a model that is served, submitted on a day that has prices.
  abbrev pub IsPriceable : Job P → Type 0
  IsPriceable job =
      (model : String) × (name : String) × (job.model ≡ some model)
      × (provider_for P model ≡ returned name)
      × (date_leb epoch (P.date job.submitted_at) ≡ true)

  cost_usd-returned :
      (model : String) (i o : ℤ) (on : Date) {pricing : ModelPricing}
      → ltb_ℤ i (pos 0) ≡ false
      → ltb_ℤ o (pos 0) ≡ false
      → price_for P model on ≡ returned pricing
      → (cost : Decimal) × (cost_usd P model i o on ≡ returned cost)
  unfolding cost_usd
  cost_usd-returned model i o on hi ho e = rw (hi, ho, e) (_, refl)

  price-returned :
      (job : Job P) (call : ProviderResult P)
      → IsPriceable job
      → IsOrderly (answered call)
      → (cost : P.Float) × (price P job call ≡ returned cost)
  unfolding price model_of
  price-returned job call (model, name, e, served, day) (hi, ho) =
      let (pricing, known) =
        routed_is_priced P model (P.date job.submitted_at) {provider = name} served day in
      let (cost, c) =
        cost_usd-returned model call.usage.input_tokens call.usage.output_tokens
          (P.date job.submitted_at) hi ho known in
      rw (e, model_of) (rw c (_, refl))

  module _ (deps : Deps P) (job : Job P) (can : IsPriceable job)
      (few : deps.policy.retry.max_attempts ≤ 1024) (provider : Provider P)
      (orderly : (moment : ℕ) (timeout : P.Float) (model : String) (messages : List Message)
          (params : JobParams P)
        → IsOrderly (provider.call moment timeout model messages params))
      (estimate : ℤ) (fits : P.fits_float estimate ≡ true) (dateable : HasDeadline job)
      (fine : P.lt (P.of_int estimate) (nought P) ≡ false)
      (one : P.lt (P.of_int (pos 1)) (nought P) ≡ false) where
    abbrev Known : World P → Type 0
    Known w = Knows P provider.name w.limiter

    abbrev limit : ℕ
    limit = deps.policy.retry.max_attempts

    limiter-Ends :
        (w : World P) (r : Fallible P.Float) (l : RateLimiter P)
        → Ends (λ _ l. Knows P provider.name l) (λ _ _. ⊥) (r, l)
        → Ends (λ _ w. Known w) Never (r, record w { limiter = l })
    limiter-Ends w (returned a) l h = h
    limiter-Ends w (raised e) l h = h
    limiter-Ends w out_of_fuel l h = h

    Hoare-acquire : Hoare Known (acquire P deps provider.name estimate) (λ _ w. Known w) Never
    unfolding acquire
    Hoare-acquire =
        Hoare-bind (λ _ w. Known w) (ask P deps.env.monotonic) _ (record { at = λ w h. h })
          λ now.
            Hoare-bind (λ _ w. Known w) (on_limiter P (reserve_int P provider.name now estimate)) _
              (record {
                at = λ w h.
                    let (r, l) = reserve_int P provider.name now estimate w.limiter in
                    limiter-Ends w r l
                      (reserve_int-Knows P provider.name now estimate w.limiter fits fine one h);
              })
              λ wait.
                Hoare-bind (λ _ w. Known w) (emit P (acquired provider.name)) _
                  (record { at = λ w h. h })
                  λ _.
                    Hoare-if (P.lt (nought P) wait) (emit P (slept wait)) (pure tt)
                      (λ _. record { at = λ w h. h }) (λ _. Hoare-pure tt (λ w h. h))

    Hoare-call_model :
        (model : String)
        → Hoare Known
            (call_model P deps job provider (returned model))
            (λ outcome w. IsOrderly outcome × Known w)
            Never
    unfolding call_model
    Hoare-call_model model = record {
      at = λ w h. (orderly w.moment deps.policy.job_timeout_s model job.messages job.params, h);
    }

    model_of-returned :
        (model : Fallible String) (m : String)
        → model ≡ returned m
        → Hoare Known
            (call_model P deps job provider model)
            (λ outcome w. IsOrderly outcome × Known w)
            Never
    model_of-returned model m e = rw e (Hoare-call_model m)

    Hoare-call :
        Hoare Known
          (call_provider P deps job provider)
          (λ outcome w. IsOrderly outcome × Known w)
          Never
    unfolding call_provider model_of
    Hoare-call =
        let (model, name, e, served, day) = can in
        model_of-returned (model_of P job) model (rw (e, model_of) refl)

    lift-returned :
        {A : Type 0} (r : Fallible A) (a : A)
        → r ≡ returned a
        → Hoare Known (lift r) (λ _ w. Known w) Never
    lift-returned r a e = record { at = λ w h. Ends-returned (λ _ w. Known w) Never r a w e h }

    Hoare-after_call :
        (k : ℕ)
        → k < limit
        → (again : Action (World P) (Result P))
        → (suc k < limit → Hoare Known again (λ _ w. Known w) Never)
        → (outcome : Ended (ProviderResult P)) → IsOrderly outcome
        → Hoare Known (after_call P deps job provider k again outcome) (λ _ w. Known w) Never
    unfolding after_call
    Hoare-after_call k below again rest (answered call) good =
        let (cost, e) = price-returned job call can good in
        Hoare-bind (λ _ w. Known w) (lift (price P job call)) _
          (lift-returned (price P job call) cost e) λ cost. Hoare-pure _ (λ w h. h)
    Hoare-after_call k below again rest (failed e) good =
        Hoare-if (not e.is_exception) _ _ (λ bad. absurd (ground (arith, bad, good)))
          λ _.
            Hoare-if (is_retryable e && ltb (k + 1) limit) _ _
              (λ more.
                Hoare-bind (λ _ w. Known w) (ask P deps.env.rand) _ (record { at = λ w h. h })
                  λ draw.
                    let (delay, d) =
                      backoff_delay-returned k deps.policy.retry draw (omega arith) in
                    Hoare-bind (λ _ w. Known w) (lift (backoff_delay P k deps.policy.retry draw)) _
                      (lift-returned (backoff_delay P k deps.policy.retry draw) delay d)
                      λ delay.
                        Hoare-bind (λ _ w. Known w) (emit P (slept delay)) _
                          (record { at = λ w h. h }) λ _. rest (ground (arith, more)))
              (λ _. Hoare-pure _ (λ w h. h))

    module _ (k : ℕ) (below : k < limit) (again : Action (World P) (Result P))
        (rest : suc k < limit → Hoare Known again (λ _ w. Known w) Never) where
      Hoare-try_call :
          Hoare Known (try_call P deps job provider estimate k again) (λ _ w. Known w) Never
      unfolding try_call
      Hoare-try_call =
          Hoare-bind (λ outcome w. IsOrderly outcome × Known w) (call_provider P deps job provider)
            _ Hoare-call λ outcome. Hoare-fact (Hoare-after_call k below again rest outcome)

      Hoare-dropped :
          Hoare Known (dropped P deps job provider estimate k again) (λ _ w. Known w) Never
      unfolding dropped
      Hoare-dropped = Hoare-pure _ (λ w h. h)

      Hoare-look : Hoare Known (look P deps) (λ _ w. Known w) Never
      Hoare-look = record { at = λ w h. h }

      Hoare-admitted :
          Hoare Known (admitted P deps job provider estimate k again) (λ _ w. Known w) Never
      unfolding admitted
      Hoare-admitted =
          Hoare-bind (λ _ w. Known w) (acquire P deps provider.name estimate) _ Hoare-acquire
            λ _.
              Hoare-bind (λ _ w. Known w) (look P deps) _ Hoare-look
                λ late.
                  Hoare-lift (is_expired P job late) _ (is_expired-IsFinal P job late)
                    (λ e w raises _. never_raised job dateable late e raises)
                    λ expired _. Hoare-if expired _ _ (λ _. Hoare-dropped) (λ _. Hoare-try_call)

      Hoare-round : Hoare Known (round P deps job provider estimate k again) (λ _ w. Known w) Never
      unfolding round
      Hoare-round =
          Hoare-bind (λ _ w. Known w) (look P deps) _ Hoare-look
            λ early.
              Hoare-lift (is_expired P job early) _ (is_expired-IsFinal P job early)
                (λ e w raises _. never_raised job dateable early e raises)
                λ expired _. Hoare-if expired _ _ (λ _. Hoare-dropped) (λ _. Hoare-admitted)

    Hoare-call_loop :
        (fuel k : ℕ)
        → k < limit
        → limit ≤ k + fuel
        → Hoare Known (call_loop P fuel deps job provider estimate k) (λ _ w. Known w) Never
    unfolding call_loop
    Hoare-call_loop zero k below enough = absurd (omega arith)
    Hoare-call_loop (suc fuel) k below enough =
        Hoare-round k below _ λ more. rw add-one (Hoare-call_loop fuel (suc k) more (omega arith))

    pub Hoare-call_with_retry :
        0 < limit
        → Hoare Known (call_with_retry P deps job provider estimate) (λ _ w. Known w) Never
    unfolding call_with_retry
    Hoare-call_with_retry below = Hoare-call_loop (suc limit) 0 below (omega arith)
