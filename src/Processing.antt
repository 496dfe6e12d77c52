-- ===== src/Processing.antt =====
-- The job-processing core of src/llmbus/processing.py. The effects that `WorkerDeps` injects are an
-- environment of answers, one for each moment; a run reads them in order and leaves a trace.
pub mod Effects
pub mod Results
pub mod Trace
pub mod Run
pub mod Delivery
pub mod Unpriced
pub mod Once
pub mod Progress
pub mod Finishes
use Prim.Native.String.{◌++◌}
use llmbus.Shared.{
  ℕ, zero, suc, ◌+◌, ◌/◌, String, count, Bool, true, false, not, ◌&&◌, Option, none, some, List, [],
  ◌∷◌, lookup, ltb, if◌then◌else◌,
}
use llmbus.Shared.Int.{ℤ, pos, ◌+ℤ◌, leb_ℤ}
use llmbus.Python.Exc.{
  Exc, raising, Fallible, returned, raised, out_of_fuel, Ended, answered, failed,
}
use llmbus.Python.Exc
use llmbus.Python.Action.{Action, pure, raise, lift, ◌>>=◌, ◌>>◌}
use llmbus.Python.Platform.{Platform, nought}
use llmbus.Schema.{Job, Result, Message}
use llmbus.Schema.Checks.{model_policy_error}
use llmbus.Providers.{provider_for}
use llmbus.Cost.{cost_usd}
use llmbus.Retry.{is_retryable, backoff_delay}
use llmbus.Ratelimit.{RateLimiter, reserve_int}
use llmbus.Store.{Store, finalize}
use llmbus.Processing.Effects.{
  Provider, ProviderResult, Deps, World, looked, acquired, slept, called, posted, ask, emit,
}
use llmbus.Processing.Results.{result_ok, result_error, expired_result, describe}

module _ (P : Platform) where
  abbrev pub date_overflow : Exc
  date_overflow = raising "OverflowError" "date value out of range"

  -- a deadline that is no `datetime` raises
  unfoldable pub is_expired : Job P → P.Datetime → Fallible Bool
  is_expired job now = elim job.ttl_s [
    | none ↦ returned false
    | some ttl ↦
        if P.in_range job.submitted_at ttl
        then returned (leb_ℤ (P.instant job.submitted_at +ℤ P.microseconds ttl) (P.instant now))
        else raised date_overflow
  ]

  -- characters over all messages
  abbrev pub input_chars : List Message → ℕ
  input_chars [] = 0
  input_chars (m ∷ messages) = count m.content + input_chars messages

  unfoldable pub estimate_tokens : Job P → ℤ → ℤ
  estimate_tokens job default_output_tokens =
      let output_tokens : ℤ = elim job.params.max_tokens [
        | none ↦ default_output_tokens
        | some n ↦ n
      ] in
      pos (input_chars job.messages / 4) +ℤ output_tokens

  unfoldable pub model_of : Job P → Fallible String
  model_of job = elim job.model [
    | none ↦
        raised (model_policy_error ("job " ++ (job.job_id ++ " reached the worker with no model")))
    | some model ↦ returned model
  ]

  unfoldable pub price : Job P → ProviderResult P → Fallible P.Float
  unfolding model_of
  price job call =
      Exc.◌>>=◌
        (Exc.◌>>=◌ (model_of job) λ model.
          cost_usd P model call.usage.input_tokens call.usage.output_tokens
            (P.date job.submitted_at))
        λ cost. returned (P.of_decimal cost)

  -- A method of the limiter and one of the store, on the world.
  abbrev pub on_limiter : {A : Type 0} → Action (RateLimiter P) A → Action (World P) A
  on_limiter m w = let (r, l) = m w.limiter in (r, record w { limiter = l })

  abbrev pub on_store : {A : Type 0} → Action (Store P) A → Action (World P) A
  on_store m w = let (r, s) = m w.store in (r, record w { store = s })

  -- `deps.now()`
  abbrev pub look : Deps P → Action (World P) P.Datetime
  look deps = do now ← ask P deps.env.now; emit P (looked now); pure now

  -- `RateLimiter.acquire`
  unfoldable pub acquire : Deps P → String → ℤ → Action (World P) (Unit {0})
  acquire deps provider tokens = do
    now ← ask P deps.env.monotonic
    wait ← on_limiter (reserve_int P provider now tokens)
    emit P (acquired provider)
    if P.lt (nought P) wait then emit P (slept wait) else pure tt

  -- the body of the `try`: the call under its timeout, as it ends
  call_model :
      Deps P → Job P → Provider P → Fallible String → Action (World P) (Ended (ProviderResult P))
  call_model deps job provider (returned model) = do
    emit P (called provider.name)
    ask P λ moment. provider.call moment deps.policy.job_timeout_s model job.messages job.params
  call_model deps job provider (raised e) = pure (failed e)
  call_model deps job provider out_of_fuel = lift out_of_fuel

  call_provider : Deps P → Job P → Provider P → Action (World P) (Ended (ProviderResult P))
  unfolding call_model
  call_provider deps job provider = call_model deps job provider (model_of job)

  -- the `except` clause and what follows it; `again` is the next round of the loop
  after_call :
      Deps P
      → Job P
      → Provider P
      → ℕ
      → Action (World P) (Result P)
      → Ended (ProviderResult P)
      → Action (World P) (Result P)
  after_call deps job provider attempt again (answered call) = do
    cost ← lift (price job call)
    pure (result_ok P job provider.name call cost)
  after_call deps job provider attempt again (failed e) =
      if not e.is_exception
      then raise e
      else if is_retryable e && ltb (attempt + 1) deps.policy.retry.max_attempts
      then (do
        draw ← ask P deps.env.rand
        delay ← lift (backoff_delay P attempt deps.policy.retry draw)
        emit P (slept delay)
        again)
      else pure (result_error P job (some provider.name) (describe e))

  -- One round of the loop, from its last step back to the first deadline check.
  module _ (deps : Deps P) (job : Job P) (provider : Provider P) (estimate : ℤ) (attempt : ℕ)
      (again : Action (World P) (Result P)) where
    try_call : Action (World P) (Result P)
    unfolding call_provider after_call
    try_call = do
      outcome ← call_provider deps job provider
      after_call deps job provider attempt again outcome

    dropped : Action (World P) (Result P)
    dropped = pure (expired_result P job provider.name attempt)

    admitted : Action (World P) (Result P)
    unfolding acquire dropped try_call
    admitted = do
      acquire deps provider.name estimate
      late ← look deps
      expired ← lift (is_expired job late)
      if expired then dropped else try_call

    round : Action (World P) (Result P)
    unfolding admitted
    round = do
      early ← look deps
      expired ← lift (is_expired job early)
      if expired then dropped else admitted

  -- `while True` on fuel
  call_loop : ℕ → Deps P → Job P → Provider P → ℤ → ℕ → Action (World P) (Result P)
  call_loop zero deps job provider estimate attempt = lift out_of_fuel
  call_loop (suc fuel) deps job provider estimate attempt =
      round deps job provider estimate attempt
        (call_loop fuel deps job provider estimate (attempt + 1))

  -- `_call_with_retry`: every round but the last raises `attempt`, which stays under `max_attempts`
  unfoldable pub call_with_retry : Deps P → Job P → Provider P → ℤ → Action (World P) (Result P)
  unfolding call_loop round
  call_with_retry deps job provider estimate =
      call_loop (suc deps.policy.retry.max_attempts) deps job provider estimate 0

  -- the `except` clause of `_deliver`
  end_delivery : Ended (Unit {0}) → Action (World P) (Unit {0})
  end_delivery (answered _) = pure tt
  end_delivery (failed e) = if e.is_exception then pure tt else raise e

  -- `_deliver`
  unfoldable pub deliver : Deps P → String → Result P → Action (World P) (Unit {0})
  unfolding end_delivery
  deliver deps url result = do
    emit P (posted url result)
    outcome ← ask P λ moment. deps.env.deliver moment url result
    end_delivery outcome

  -- `if finalized and job.callback_url is not None`
  notify : Deps P → Result P → Bool → Option String → Action (World P) (Unit {0})
  unfolding deliver
  notify deps result true (some url) = deliver deps url result
  notify deps result true none = pure tt
  notify deps result false url = pure tt

  -- `_finalize_and_notify`
  unfoldable pub finalize_and_notify : Deps P → Job P → Result P → Action (World P) (Result P)
  unfolding notify
  finalize_and_notify deps job result = do
    when ← ask P deps.env.stamp
    finalized ← on_store (finalize P result when)
    notify deps result finalized job.callback_url
    pure result

  -- the routing of `process_job`, up to the terminal result: the adapter, then the provider, then
  -- the model
  run_provider : Deps P → Job P → String → Option (Provider P) → Action (World P) (Result P)
  run_provider deps job provider_name none = pure (
      result_error P job (some provider_name)
        ("no adapter configured for provider " ++ P.repr provider_name))
  run_provider deps job provider_name (some provider) =
      call_with_retry deps job provider (estimate_tokens job deps.policy.default_output_tokens)

  run_routed : Deps P → Job P → String → Fallible String → Action (World P) (Result P)
  run_routed deps job model (returned provider_name) =
      run_provider deps job provider_name (lookup provider_name deps.providers)
  run_routed deps job model (raised e) =
      pure (result_error P job none ("no provider serves model " ++ P.repr model))
  run_routed deps job model out_of_fuel = lift out_of_fuel

  run_model : Deps P → Job P → Option String → Action (World P) (Result P)
  run_model deps job none =
      pure (result_error P job none "job has no model and none was resolved at submit")
  run_model deps job (some model) = run_routed deps job model (provider_for P model)

  unfoldable pub run_job : Deps P → Job P → Action (World P) (Result P)
  unfolding run_provider run_routed run_model
  run_job deps job = run_model deps job job.model

  unfoldable pub process_job : Deps P → Job P → Action (World P) (Result P)
  process_job deps job = do result ← run_job deps job; finalize_and_notify deps job result
