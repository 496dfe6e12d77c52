-- ===== src/Processing/Run.antt =====
-- The retry loop up to a job's terminal result: what it leaves alone, and when it may call a model.
use llmbus.Shared.{
  ◌∙◌, ap, ℕ, zero, suc, ◌+◌, ◌≤◌, ◌<◌, String, ◌≡◌, refl, Bool, true, false, not, ◌&&◌, Option,
  none, some, List, ltb, arith,
}
use native.Mathlib.Numerals.{add-one}
use llmbus.Shared.Int.{ℤ}
use llmbus.Python.Exc.{
  IsFinal, Exc, Fallible, returned, raised, out_of_fuel, Ended, answered, failed,
}
use llmbus.Python.Action.{Action, pure, raise, lift}
use llmbus.Python.Hoare.{
  Hoare-lift, Ends, Hoare, Hoare-pure, Hoare-raise, Hoare-if, Hoare-weaken, Hoare-bind,
}
use llmbus.Python.Platform.{Platform, nought}
use llmbus.Schema.{Job, Result}
use llmbus.Retry.{is_retryable, backoff_delay}
use llmbus.Providers.{provider_for, provider_for-IsFinal}
use llmbus.Ratelimit.{RateLimiter, reserve_int}
use llmbus.Ratelimit.Bucket.{IsEnded, reserve_int-IsEnded}
use llmbus.Store.{Store}
use llmbus.Processing.Effects.{Provider, ProviderResult, Deps, World, acquired, slept, ask, emit}
use llmbus.Processing.Results.{result_ok, result_error, expired_result, describe}
use llmbus.Processing.{
  is_expired, model_of, look, acquire, on_limiter, call_model, call_provider, after_call, price,
  dropped, try_call, admitted, round, call_loop, call_with_retry, run_provider, run_routed,
  run_model, run_job,
}
use llmbus.Processing.Trace.{
  posts, calls, JustAcquired, Reserved, acquired-Reserved, Cleared, CallsCleared,
  is_expired-IsFinal, model_of-IsFinal, price-IsFinal, backoff_delay-IsFinal,
}

module _ (P : Platform) where
  module _ (deps : Deps P) (job : Job P) (s : Store P) (sent : List (String × Result P))
      (n : ℕ) where
    -- So far `k` calls were made from `n` on; the store and the callbacks are untouched.
    abbrev pub Quiet : ℕ → World P → Type 0
    Quiet k w =
        (w.store ≡ s)
        × (posts P w.trace ≡ sent)
        × CallsCleared P job w.trace
        × (calls P w.trace ≤ n + k)

    abbrev pub limit : ℕ
    limit = deps.policy.retry.max_attempts

    abbrev pub Stopped : Exc → World P → Type 0
    Stopped e w =
        (w.store ≡ s)
        × (posts P w.trace ≡ sent)
        × CallsCleared P job w.trace
        × (calls P w.trace ≤ n + limit)

    abbrev pub Finished : Result P → World P → Type 0
    Finished r w =
        (r.job_id ≡ job.job_id)
        × (r.meta ≡ job.meta)
        × (w.store ≡ s)
        × (posts P w.trace ≡ sent)
        × CallsCleared P job w.trace
        × (calls P w.trace ≤ n + limit)

    retry_below : (b : Bool) {k : ℕ} → (b && ltb (k + 1) limit) ≡ true → suc k < limit
    retry_below b h = ground arith

    abbrev Same : Result P → Type 0
    Same r = (r.job_id ≡ job.job_id) × (r.meta ≡ job.meta)

    Same-ok :
        (name : String) (call : ProviderResult P) (cost : P.Float)
        → Same (result_ok P job name call cost)
    unfolding result_ok
    Same-ok name call cost = (refl, refl)

    Same-error : (name : Option String) (error : String) → Same (result_error P job name error)
    unfolding result_error
    Same-error name error = (refl, refl)

    Same-expired : (name : String) (attempt : ℕ) → Same (expired_result P job name attempt)
    unfolding expired_result
    Same-expired name attempt = (refl, refl)

    module _ (k : ℕ) (below : k < limit) where
      Quiet-stops : (e : Exc) (w : World P) → Quiet k w → Stopped e w
      Quiet-stops e w h = (h.0, h.1, h.2, omega arith)

      Hoare-look : Hoare (Quiet k) (look P deps) (λ now w. Quiet k w) Stopped
      Hoare-look = record { at = λ w h. h }

      Hoare-look-Reserved :
          (name : String)
          → Hoare
              (λ w. Quiet k w × Reserved P name w.trace)
              (look P deps)
              (λ now w.
                Quiet k w × (is_expired P job now ≡ returned false → Cleared P job name w.trace))
              Stopped
      Hoare-look-Reserved name = record { at = λ w h. (h.0, λ e. (e, h.1)) }

      limiter-Ends :
          {A : Type 0} (w : World P) (r : Fallible A) (l : RateLimiter P)
          → Quiet k w
          → IsEnded P (r, l)
          → Ends (λ _ w. Quiet k w) Stopped (r, record w { limiter = l })
      limiter-Ends w (returned a) l h e = h
      limiter-Ends w (raised e) l h _ = Quiet-stops e w h
      limiter-Ends w out_of_fuel l h e = e

      Hoare-acquire :
          (name : String) (tokens : ℤ)
          → Hoare
              (Quiet k)
              (acquire P deps name tokens)
              (λ _ w. Quiet k w × Reserved P name w.trace)
              Stopped
      unfolding acquire
      Hoare-acquire name tokens =
          Hoare-bind (λ _ w. Quiet k w) (ask P deps.env.monotonic) _ (record { at = λ w h. h })
            λ now.
              Hoare-bind (λ _ w. Quiet k w) (on_limiter P (reserve_int P name now tokens)) _
                (record {
                  at = λ w h.
                      let (r, l) = reserve_int P name now tokens w.limiter in
                      limiter-Ends w r l h (reserve_int-IsEnded P name now tokens w.limiter);
                })
                λ wait.
                  Hoare-bind (λ _ w. Quiet k w × JustAcquired P name w.trace)
                    (emit P (acquired name)) _ (record { at = λ w h. (h, refl) })
                    λ _.
                      Hoare-if (P.lt (nought P) wait) (emit P (slept wait)) (pure tt)
                        (λ _. record { at = λ w h. (h.0, h.1) })
                        (λ _. Hoare-pure tt (λ w h. (h.0, acquired-Reserved P name w.trace h.1)))

      lift_keeps :
          {A : Type 0} (r : Fallible A)
          → IsFinal r
          → Hoare (Quiet (suc k)) (lift r) (λ a w. Quiet (suc k) w) Stopped
      lift_keeps (returned a) e = record { at = λ w h. h }
      lift_keeps (raised e) _ = record { at = λ w h. (h.0, h.1, h.2, omega arith) }
      lift_keeps out_of_fuel e = absurd e

      Hoare-call_model :
          (provider : Provider P) (model : Fallible String)
          → IsFinal model
          → Hoare
              (λ w. Quiet k w × Cleared P job provider.name w.trace)
              (call_model P deps job provider model)
              (λ outcome w. Quiet (suc k) w)
              Stopped
      unfolding call_model
      Hoare-call_model provider (returned model) e = record {
        at = λ w h. (h.0.0, h.0.1, (h.1, h.0.2), omega arith);
      }
      Hoare-call_model provider (raised e) _ = record {
        at = λ w h. (h.0.0, h.0.1, h.0.2, omega arith);
      }
      Hoare-call_model provider out_of_fuel e = absurd e

      -- A model call needs to be cleared, and counts once.
      Hoare-call :
          (provider : Provider P)
          → Hoare
              (λ w. Quiet k w × Cleared P job provider.name w.trace)
              (call_provider P deps job provider)
              (λ outcome w. Quiet (suc k) w)
              Stopped
      unfolding call_provider
      Hoare-call provider = Hoare-call_model provider (model_of P job) (model_of-IsFinal P job)

      finish : (r : Result P) (w : World P) → Same r → Quiet (suc k) w → Finished r w
      finish r w same h = (same.0, same.1, h.0, h.1, h.2, omega arith)

      -- After the call: `again` is only run with one attempt fewer left.
      Hoare-after_call :
          (provider : Provider P) (again : Action (World P) (Result P))
          → (suc k < limit → Hoare (Quiet (suc k)) again Finished Stopped)
          → (outcome : Ended (ProviderResult P))
          → Hoare (Quiet (suc k)) (after_call P deps job provider k again outcome) Finished Stopped
      unfolding after_call
      Hoare-after_call provider again rest (answered call) =
          Hoare-bind (λ cost w. Quiet (suc k) w) (lift (price P job call)) _
            (lift_keeps (price P job call) (price-IsFinal P job call))
            λ cost. Hoare-pure _ (λ w h.
              finish (result_ok P job provider.name call cost) w (Same-ok provider.name call cost)
                h)
      Hoare-after_call provider again rest (failed e) =
          Hoare-if (not e.is_exception) (raise e) _
            (λ _. Hoare-raise e (λ w h. (h.0, h.1, h.2, omega arith)))
            λ _.
              Hoare-if (is_retryable e && ltb (k + 1) limit) _ _
                (λ more.
                  Hoare-bind (λ draw w. Quiet (suc k) w) (ask P deps.env.rand) _
                    (record { at = λ w h. h })
                    λ draw.
                      Hoare-bind (λ delay w. Quiet (suc k) w)
                        (lift (backoff_delay P k deps.policy.retry draw)) _
                        (lift_keeps _ (backoff_delay-IsFinal P k deps.policy.retry draw))
                        λ delay.
                          Hoare-bind (λ _ w. Quiet (suc k) w) (emit P (slept delay)) _
                            (record { at = λ w h. h })
                            λ _. rest (retry_below (is_retryable e) more))
                λ _. Hoare-pure _ (λ w h.
                  finish (result_error P job (some provider.name) (describe e)) w (Same-error _ _)
                    h)

      finish_expired :
          (name : String) (w : World P) → Quiet k w → Finished (expired_result P job name k) w
      finish_expired name w h =
          let same = Same-expired name k in (same.0, same.1, h.0, h.1, h.2, omega arith)

      module _ (provider : Provider P) (estimate : ℤ) (again : Action (World P) (Result P))
          (rest : suc k < limit → Hoare (Quiet (suc k)) again Finished Stopped) where
        Hoare-dropped :
            Hoare (Quiet k) (dropped P deps job provider estimate k again) Finished Stopped
        unfolding dropped
        Hoare-dropped =
            Hoare-pure (expired_result P job provider.name k) (finish_expired provider.name)

        Hoare-try_call :
            Hoare
              (λ w. Quiet k w × Cleared P job provider.name w.trace)
              (try_call P deps job provider estimate k again)
              Finished
              Stopped
        unfolding try_call
        Hoare-try_call =
            Hoare-bind (λ outcome w. Quiet (suc k) w) (call_provider P deps job provider) _
              (Hoare-call provider) (Hoare-after_call provider again rest)

        Hoare-admitted :
            Hoare (Quiet k) (admitted P deps job provider estimate k again) Finished Stopped
        unfolding admitted
        Hoare-admitted =
            Hoare-bind (λ _ w. Quiet k w × Reserved P provider.name w.trace)
              (acquire P deps provider.name estimate) _ (Hoare-acquire provider.name estimate)
              λ _.
                Hoare-bind
                  (λ late w.
                    Quiet k w
                    × (is_expired P job late ≡ returned false
                        → Cleared P job provider.name w.trace))
                  (look P deps) _ (Hoare-look-Reserved provider.name)
                  λ late.
                    Hoare-lift (is_expired P job late) _ (is_expired-IsFinal P job late)
                      (λ e w _ h. Quiet-stops e w h.0)
                      λ expired looked.
                        Hoare-if expired (dropped P deps job provider estimate k again)
                          (try_call P deps job provider estimate k again)
                          (λ _. Hoare-weaken (λ w h. h.0) Hoare-dropped)
                          (λ live.
                            Hoare-weaken (λ w h. (h.0, h.1 (looked ∙ ap returned live)))
                              Hoare-try_call)

        Hoare-round : Hoare (Quiet k) (round P deps job provider estimate k again) Finished Stopped
        unfolding round
        Hoare-round =
            Hoare-bind (λ now w. Quiet k w) (look P deps) _ Hoare-look
              λ early.
                Hoare-lift (is_expired P job early) _ (is_expired-IsFinal P job early)
                  (λ e w _ h. Quiet-stops e w h)
                  λ expired _.
                    Hoare-if expired (dropped P deps job provider estimate k again)
                      (admitted P deps job provider estimate k again) (λ _. Hoare-dropped)
                      (λ _. Hoare-admitted)

    Hoare-call_loop :
        (fuel k : ℕ) (provider : Provider P) (estimate : ℤ)
        → k < limit
        → limit ≤ k + fuel
        → Hoare (Quiet k) (call_loop P fuel deps job provider estimate k) Finished Stopped
    unfolding call_loop
    Hoare-call_loop zero k provider estimate below enough = absurd (omega arith)
    Hoare-call_loop (suc fuel) k provider estimate below enough =
        Hoare-round k below provider estimate _
          λ more. rw add-one (Hoare-call_loop fuel (suc k) provider estimate more (omega arith))

    -- With one attempt allowed at least, the retry loop ends by itself, with a result of the job or
    -- an exception. It calls models as often as attempts are allowed at most, each time right after
    -- a reservation and a passed deadline check, and it touches neither the store nor the callbacks.
    pub Hoare-call_with_retry :
        (provider : Provider P) (estimate : ℤ)
        → 0 < limit
        → Hoare (Quiet 0) (call_with_retry P deps job provider estimate) Finished Stopped
    unfolding call_with_retry
    Hoare-call_with_retry provider estimate below =
        Hoare-call_loop (suc limit) 0 provider estimate below (omega arith)

    no_call : (r : Result P) → Same r → Hoare (Quiet 0) (pure r) Finished Stopped
    no_call r same = Hoare-pure r (λ w h. (same.0, same.1, h.0, h.1, h.2, omega arith))

    Hoare-run_provider :
        (name : String) (provider : Option (Provider P))
        → 0 < limit
        → Hoare (Quiet 0) (run_provider P deps job name provider) Finished Stopped
    unfolding run_provider
    Hoare-run_provider name none below = no_call _ (Same-error _ _)
    Hoare-run_provider name (some provider) below = Hoare-call_with_retry provider _ below

    Hoare-run_routed :
        (model : String) (route : Fallible String)
        → IsFinal route
        → 0 < limit
        → Hoare (Quiet 0) (run_routed P deps job model route) Finished Stopped
    unfolding run_routed
    Hoare-run_routed model (returned name) e below = Hoare-run_provider name _ below
    Hoare-run_routed model (raised x) e below = no_call _ (Same-error _ _)
    Hoare-run_routed model out_of_fuel e below = absurd e

    Hoare-run_model :
        (model : Option String)
        → 0 < limit
        → Hoare (Quiet 0) (run_model P deps job model) Finished Stopped
    unfolding run_model
    Hoare-run_model none below = no_call _ (Same-error _ _)
    Hoare-run_model (some model) below =
        Hoare-run_routed model (provider_for P model) (provider_for-IsFinal P model) below

    -- The same of the whole routing: an unrouted job ends without a call.
    pub Hoare-run_job : 0 < limit → Hoare (Quiet 0) (run_job P deps job) Finished Stopped
    unfolding run_job
    Hoare-run_job below = Hoare-run_model job.model below
