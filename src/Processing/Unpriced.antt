-- ===== src/Processing/Unpriced.antt =====
-- A job that is dated before the price table: the price is looked up after the call was paid for, and
-- what it raises is caught by nothing.
use llmbus.Shared.{
  ap, ◌≡◌, refl, sym, ◌∙◌, String, false, none, some, lookup, ◌||◌, if◌then◌else◌, Bool-cases, inl,
  inr, ℕ,
}
use llmbus.Shared.Int.{ℤ, pos, ltb_ℤ}
use llmbus.Python.Exc.{Exc, Fallible, returned, raised, out_of_fuel, Ended, answered, failed}
use llmbus.Python.Action.{◌>>=◌, Action, pure, lift}
use llmbus.Python.Hoare.{Hoare-lift, Ends, Hoare, Hoare-pure, Hoare-if, Hoare-bind, Hoare-fact}
use llmbus.Python.Platform.{Platform, Date, nought}
use llmbus.Schema.{Job, Result}
use llmbus.Providers.{provider_for}
use llmbus.Ratelimit.{RateLimiter, reserve_int}
use llmbus.Ratelimit.Bucket.{IsEnded, reserve_int-IsEnded}
use llmbus.Cost.{cost_usd, date_leb, epoch}
use llmbus.Cost.Prices.{price_for_before_epoch}
use llmbus.Store.{Store}
use llmbus.Processing.Effects.{ProviderResult, Provider, Deps, World, acquired, slept, ask, emit}
use llmbus.Processing.Trace.{is_expired-IsFinal}
use llmbus.Processing.{
  is_expired, model_of, price, look, acquire, on_limiter, call_model, call_provider, after_call,
  try_call, admitted, round, call_loop, call_with_retry, dropped, run_provider, run_routed,
  run_model, run_job, process_job, finalize_and_notify, estimate_tokens,
}

module _ (P : Platform) where
  cost_usd-raised :
      (model : String) (i o : ℤ) (on : Date)
      → date_leb epoch on ≡ false
      → (e : Exc) × (cost_usd P model i o on ≡ raised e)
  unfolding cost_usd
  cost_usd-raised model i o on early = elim (Bool-cases (ltb_ℤ i (pos 0) || ltb_ℤ o (pos 0))) [
    | inl negative ↦ rw (negative, cost_usd) (_, refl)
    | inr fine ↦
        let (e, unpriced, _) = price_for_before_epoch P model on early in
        rw (fine, cost_usd, unpriced) (e, refl)
  ]

  price-raised :
      (job : Job P) (model : String) (call : ProviderResult P)
      → job.model ≡ some model
      → date_leb epoch (P.date job.submitted_at) ≡ false
      → (e : Exc) × (price P job call ≡ raised e)
  unfolding price model_of
  price-raised job model call known early =
      let (e, h) =
        cost_usd-raised model call.usage.input_tokens call.usage.output_tokens
          (P.date job.submitted_at) early in
      rw (known, model_of, price) (rw h (e, refl))

  module _ (deps : Deps P) (job : Job P) (s : Store P) (model : String) (provider : Provider P)
      (known : job.model ≡ some model) (timeless : job.ttl_s ≡ none)
      (early : date_leb epoch (P.date job.submitted_at) ≡ false)
      (answers : (moment : ℕ)
        → (call : ProviderResult P) × (provider.call moment deps.policy.job_timeout_s model
              job.messages job.params
            ≡ answered call)) where
    abbrev pub Untouched : World P → Type 0
    Untouched w = w.store ≡ s

    abbrev pub Never : {A : Type 0} → A → World P → Type 0
    Never a w = ⊥

    abbrev pub Lost : Exc → World P → Type 0
    Lost e w = Untouched w

    never_expired : (now : P.Datetime) → is_expired P job now ≡ returned false
    unfolding is_expired
    never_expired now = rw (timeless, is_expired)

    limiter-Lost :
        {A : Type 0} (w : World P) (r : Fallible A) (l : RateLimiter P)
        → Untouched w
        → IsEnded P (r, l)
        → Ends (λ _ v. Untouched v) Lost (r, record w { limiter = l })
    limiter-Lost w (returned a) l h e = h
    limiter-Lost w (raised x) l h _ = h
    limiter-Lost w out_of_fuel l h e = e

    Hoare-Untouched-acquire :
        (name : String) (tokens : ℤ)
        → Hoare Untouched (acquire P deps name tokens) (λ _ w. Untouched w) Lost
    unfolding acquire
    Hoare-Untouched-acquire name tokens =
        Hoare-bind (λ _ w. Untouched w) (ask P deps.env.monotonic) _ (record { at = λ w h. h })
          λ now.
            Hoare-bind (λ _ w. Untouched w) (on_limiter P (reserve_int P name now tokens)) _
              (record {
                at = λ w h.
                    let (r, l) = reserve_int P name now tokens w.limiter in
                    limiter-Lost w r l h (reserve_int-IsEnded P name now tokens w.limiter);
              })
              λ wait.
                Hoare-bind (λ _ w. Untouched w) (emit P (acquired name)) _
                  (record { at = λ w h. h })
                  λ _.
                    Hoare-if (P.lt (nought P) wait) (emit P (slept wait)) (pure tt)
                      (λ _. record { at = λ w h. h }) (λ _. Hoare-pure tt (λ w h. h))

    Hoare-raising :
        (r : Fallible P.Float) (e : Exc)
        → r ≡ raised e
        → Hoare Untouched (lift r) (λ a w. Never a w) Lost
    Hoare-raising (returned a) e h = cc
    Hoare-raising (raised x) e h = record { at = λ w k. k }
    Hoare-raising out_of_fuel e h = cc

    Hoare-unpriced :
        (k : ℕ) (again : Action (World P) (Result P)) (outcome : Ended (ProviderResult P))
        (call : ProviderResult P)
        → outcome ≡ answered call
        → Hoare Untouched (after_call P deps job provider k again outcome) Never Lost
    unfolding after_call
    Hoare-unpriced k again (answered call) c e =
        let (x, h) = price-raised job model call known early in
        Hoare-bind (λ a w. Never a w) (lift (price P job call)) _
          (Hoare-raising (price P job call) x h) (λ cost. record { at = λ w k. absurd k })
    Hoare-unpriced k again (failed x) c e = cc

    Hoare-answered :
        Hoare Untouched
          (call_provider P deps job provider)
          (λ outcome w. ((call : ProviderResult P) × (outcome ≡ answered call)) × Untouched w)
          Lost
    unfolding call_provider call_model model_of
    Hoare-answered = rw (known, model_of) (record { at = λ w h. (answers w.moment, h) })

    module _ (estimate : ℤ) (k : ℕ) (again : Action (World P) (Result P)) where
      Hoare-Lost_try : Hoare Untouched (try_call P deps job provider estimate k again) Never Lost
      unfolding try_call
      Hoare-Lost_try =
          Hoare-bind
            (λ outcome w. ((call : ProviderResult P) × (outcome ≡ answered call)) × Untouched w)
            (call_provider P deps job provider)
            (λ outcome. after_call P deps job provider k again outcome) Hoare-answered
            λ outcome. Hoare-fact λ h. Hoare-unpriced k again outcome h.0 h.1

      Hoare-Lost_look :
          (m : Action (World P) (Result P))
          → Hoare Untouched m Never Lost
          → (now : P.Datetime)
          → Hoare Untouched
              (lift (is_expired P job now) >>= λ expired.
                if expired then dropped P deps job provider estimate k again else m)
              Never
              Lost
      Hoare-Lost_look m h now =
          Hoare-lift (is_expired P job now) _ (is_expired-IsFinal P job now) (λ e w _ k. k)
            λ expired looked.
              Hoare-if expired (dropped P deps job provider estimate k again) m
                (λ late. cc (ap returned (sym late) ∙ sym looked ∙ never_expired now)) (λ _. h)

      Hoare-Lost-round : Hoare Untouched (round P deps job provider estimate k again) Never Lost
      unfolding round admitted
      Hoare-Lost-round =
          Hoare-bind (λ now w. Untouched w) (look P deps) _ (record { at = λ w h. h })
            (Hoare-Lost_look (admitted P deps job provider estimate k again) (
              Hoare-bind (λ _ w. Untouched w) (acquire P deps provider.name estimate) _
                (Hoare-Untouched-acquire provider.name estimate)
                λ _.
                  Hoare-bind (λ late w. Untouched w) (look P deps) _ (record { at = λ w h. h })
                    (Hoare-Lost_look (try_call P deps job provider estimate k again)
                      Hoare-Lost_try)))

    Hoare-Lost_call :
        (estimate : ℤ) → Hoare Untouched (call_with_retry P deps job provider estimate) Never Lost
    unfolding call_with_retry call_loop
    Hoare-Lost_call estimate =
        Hoare-Lost-round estimate 0
          (call_loop P deps.policy.retry.max_attempts deps job provider estimate 1)

    Hoare-Lost_run :
        (name : String)
        → provider_for P model ≡ returned name
        → lookup name deps.providers ≡ some provider
        → Hoare Untouched (run_job P deps job) Never Lost
    unfolding run_job run_model run_routed run_provider
    Hoare-Lost_run name routed adapted =
        rw (known, run_model)
          (rw (routed, run_routed)
            (rw (adapted, run_provider)
              (Hoare-Lost_call (estimate_tokens P job deps.policy.default_output_tokens))))

-- A job without a deadline, dated before the price table begins, whose model is routed to an adapter
-- that answers every call: `process_job` always raises, and the store is unchanged,
-- so the job's row, if it waits, goes on waiting.
pub process_job_unpriced :
    (P : Platform) (deps : Deps P) (job : Job P) (w : World P) (model name : String)
    (provider : Provider P)
    → job.model ≡ some model
    → job.ttl_s ≡ none
    → date_leb epoch (P.date job.submitted_at) ≡ false
    → provider_for P model ≡ returned name
    → lookup name deps.providers ≡ some provider
    → ((moment : ℕ)
        → (call : ProviderResult P) × (provider.call moment deps.policy.job_timeout_s model
              job.messages job.params
            ≡ answered call))
    → Ends (λ _ _. ⊥) (λ e v. v.store ≡ w.store) (process_job P deps job w)
unfolding process_job
process_job_unpriced P deps job w model name provider known timeless early routed adapted answers =
    (Hoare-bind {post = λ a v. ⊥} (λ a v. ⊥) (run_job P deps job)
        (λ result. finalize_and_notify P deps job result)
        (Hoare-Lost_run P deps job w.store model provider known timeless early answers name routed
          adapted)
        (λ result. record { at = λ v k. absurd k })).at
      w refl
