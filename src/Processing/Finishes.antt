-- ===== src/Processing/Finishes.antt =====
-- A job that is handed to a worker in an orderly environment is finished.
use llmbus.Shared.{
  ℕ, suc, ◌+◌, ◌≤◌, ◌<◌, String, ◌≡◌, refl, sym, Bool, true, false, Option, none, some, List,
  lookup, arith,
}
use mathlib.Core.Path.{subst}
use llmbus.Shared.Int.{pos}
use llmbus.Python.Exc.{
  IsFinal, Exc, Fallible, returned, raised, out_of_fuel, Ended, answered, failed,
}
use llmbus.Python.Action.{pure, raise}
use llmbus.Python.Hoare.{Ends, Ends-map, Hoare, Hoare-pure, Hoare-if, Hoare-bind, Hoare-fact}
use llmbus.Python.Platform.{Platform, TextLaws, nought}
use llmbus.Schema.{Job, Result, Message, JobParams}
use llmbus.Providers.{provider_for, provider_for-IsFinal}
use llmbus.Cost.{date_leb, epoch}
use llmbus.Ratelimit.Known.{Knows}
use llmbus.Store.{finalize, get}
use llmbus.Store.Rows.{StoredJob, is_terminal}
use llmbus.Store.Jobs.{IsValid}
use llmbus.Processing.Effects.{Provider, Deps, World, posted, ask, emit}
use llmbus.Processing.Trace.{posts, calls, CallsCleared}
use llmbus.Processing.Delivery.{Aborted}
use llmbus.Processing.Progress.{IsOrderly, IsCaught, HasDeadline, Never, Hoare-call_with_retry}
use llmbus.Processing.{
  estimate_tokens, end_delivery, deliver, notify, on_store, finalize_and_notify, run_provider,
  run_routed, run_model, run_job, process_job,
}
use llmbus.Client.{poll_loop}
use llmbus.Client.Answer.{poll-process_job}

module _ (P : Platform) (deps : Deps P) (job : Job P) (w : World P) where
  -- An environment that lets a run come to its end: adapters that answer or fail with an
  -- `Exception` and that the limiter knows, callbacks that fail with an `Exception` at worst, a job
  -- with an estimate that is a float and can be reserved, with a deadline in the range of dates if
  -- it has one, submitted on a day that has prices, and no more attempts than the backoff can be
  -- computed for.
  pub record IsOrderlyFor : Type 0 where
    pub calls_end :
        (name : String) (provider : Provider P)
        → lookup name deps.providers ≡ some provider
        → (moment : ℕ) (timeout : P.Float) (model : String) (messages : List Message)
          (params : JobParams P)
        → IsOrderly P (provider.call moment timeout model messages params)
    pub limited :
        (name : String) (provider : Provider P)
        → lookup name deps.providers ≡ some provider
        → Knows P provider.name w.limiter
    pub posts_end :
        (moment : ℕ) (url : String) (result : Result P)
        → IsCaught P (deps.env.deliver moment url result)
    pub fits : P.fits_float (estimate_tokens P job deps.policy.default_output_tokens) ≡ true
    pub dateable : HasDeadline P job
    pub estimated :
        P.lt (P.of_int (estimate_tokens P job deps.policy.default_output_tokens)) (nought P) ≡ false
    pub counted : P.lt (P.of_int (pos 1)) (nought P) ≡ false
    pub dated : date_leb epoch (P.date job.submitted_at) ≡ true
    pub some_attempt : 0 < deps.policy.retry.max_attempts
    pub few_attempts : deps.policy.retry.max_attempts ≤ 1024

  module _ (orderly : IsOrderlyFor) where
    abbrev Start : World P → Type 0
    Start v = v.limiter ≡ w.limiter

    abbrev Done : Result P → World P → Type 0
    Done r v = Unit

    Hoare-run_provider :
        (model name : String) (o : Option (Provider P))
        → job.model ≡ some model
        → provider_for P model ≡ returned name
        → lookup name deps.providers ≡ o
        → Hoare Start (run_provider P deps job name o) Done (Never P)
    unfolding run_provider
    Hoare-run_provider model name none e served found = Hoare-pure _ (λ v h. tt)
    Hoare-run_provider model name (some provider) e served found = record {
      at = λ v h.
          Ends-map (λ _ v. Knows P provider.name v.limiter) Done (Never P) _ (λ _ _ _. tt)
            ((Hoare-call_with_retry P deps job (model, name, e, served, orderly.dated)
                orderly.few_attempts provider (orderly.calls_end name provider found)
                (estimate_tokens P job deps.policy.default_output_tokens) orderly.fits
                orderly.dateable orderly.estimated orderly.counted orderly.some_attempt).at
              v (subst (Knows P provider.name) (sym h) (orderly.limited name provider found)));
    }

    Hoare-run_routed :
        (model : String) (route : Fallible String)
        → job.model ≡ some model
        → provider_for P model ≡ route
        → IsFinal route
        → Hoare Start (run_routed P deps job model route) Done (Never P)
    unfolding run_routed
    Hoare-run_routed model (returned name) e served final =
        Hoare-run_provider model name (lookup name deps.providers) e served refl
    Hoare-run_routed model (raised x) e served final = Hoare-pure _ (λ v h. tt)
    Hoare-run_routed model out_of_fuel e served final = absurd final

    Hoare-run_model :
        (model : Option String)
        → job.model ≡ model
        → Hoare Start (run_model P deps job model) Done (Never P)
    unfolding run_model
    Hoare-run_model none e = Hoare-pure _ (λ v h. tt)
    Hoare-run_model (some model) e =
        Hoare-run_routed model (provider_for P model) e refl (provider_for-IsFinal P model)

    Hoare-run_job : Hoare Start (run_job P deps job) Done (Never P)
    unfolding run_job
    Hoare-run_job = Hoare-run_model job.model refl

    abbrev Any : World P → Type 0
    Any v = Unit

    abbrev EndedWell : {A : Type 0} → A → World P → Type 0
    EndedWell a v = Unit

    Hoare-end_delivery :
        (outcome : Ended (Unit {0}))
        → IsCaught P outcome
        → Hoare Any (end_delivery P outcome) EndedWell (Never P)
    unfolding end_delivery
    Hoare-end_delivery (answered _) h = Hoare-pure tt (λ v h. tt)
    Hoare-end_delivery (failed e) h =
        Hoare-if e.is_exception (pure tt) (raise e) (λ _. Hoare-pure tt (λ v h. tt))
          λ bad. absurd (ground (arith, bad, h))

    Hoare-deliver :
        (url : String) (result : Result P)
        → Hoare Any (deliver P deps url result) EndedWell (Never P)
    unfolding deliver
    Hoare-deliver url result =
        Hoare-bind EndedWell (emit P (posted url result)) _ (record { at = λ v h. tt })
          λ _.
            Hoare-bind (λ outcome v. IsCaught P outcome × Any v)
              (ask P λ moment. deps.env.deliver moment url result) _
              (record { at = λ v h. (orderly.posts_end v.moment url result, tt) })
              λ outcome. Hoare-fact (Hoare-end_delivery outcome)

    Hoare-notify :
        (result : Result P) (won : Bool) (url : Option String)
        → Hoare Any (notify P deps result won url) EndedWell (Never P)
    unfolding notify
    Hoare-notify result true (some url) = Hoare-deliver url result
    Hoare-notify result true none = Hoare-pure tt (λ v h. tt)
    Hoare-notify result false url = Hoare-pure tt (λ v h. tt)

    Hoare-finalize_and_notify :
        (result : Result P) → Hoare Any (finalize_and_notify P deps job result) Done (Never P)
    unfolding finalize_and_notify finalize
    Hoare-finalize_and_notify result =
        Hoare-bind EndedWell (ask P deps.env.stamp) _ (record { at = λ v h. tt })
          λ when.
            Hoare-bind EndedWell (on_store P (finalize P result when)) _ (record { at = λ v h. tt })
              λ won.
                Hoare-bind EndedWell (notify P deps result won job.callback_url) _
                  (Hoare-notify result won job.callback_url) λ _. Hoare-pure result (λ v h. tt)

    Hoare-process_job : Hoare Start (process_job P deps job) Done (Never P)
    unfolding process_job
    Hoare-process_job =
        Hoare-bind Done (run_job P deps job) _ Hoare-run_job
          λ result. Hoare-finalize_and_notify result

Ends-Never :
    {S A : Type 0} (post : A → S → Type 0) (fail : Exc → S → Type 0) (end : Fallible A × S)
    → Ends (λ _ _. Unit) (λ _ _. ⊥) end
    → Ends post fail end
    → Ends post (λ _ _. ⊥) end
Ends-Never post fail (returned a, s) h k = k
Ends-Never post fail (raised e, s) h k = h
Ends-Never post fail (out_of_fuel, s) h k = h

-- A waiting job that is handed to a worker in an orderly environment is finished: `process_job`
-- returns, and a poll after it returns that very result at its first reading. The job's id is a
-- UUID in its standard form, its row holds its meta, the store's primary key holds, and the trace so
-- far has only cleared calls.
pub process_job_finishes :
    (P : Platform) (laws : TextLaws P) (deps : Deps P) (job : Job P) (w : World P)
    → IsOrderlyFor P deps job w
    → IsValid P w.store
    → CallsCleared P job w.trace
    → (stored : StoredJob P) → get P job.job_id w.store ≡ some stored
    → is_terminal P stored ≡ false
    → P.uuid stored.job_id ≡ some job.job_id
    → stored.meta ≡ job.meta
    → (fuel : ℕ) (clock : ℕ → P.Float) (deadline : P.Float)
    → Ends
        (λ result v.
          poll_loop P (suc fuel) (λ _. v.store) clock job.job_id deadline 0 ≡ returned result)
        (Never P)
        (process_job P deps job w)
process_job_finishes P laws deps job w orderly valid cleared stored found waits id meta fuel clock
      deadline =
    Ends-Never _
      (Aborted P deps job w.store (posts P w.trace)
        (calls P w.trace + deps.policy.retry.max_attempts))
      (process_job P deps job w) ((Hoare-process_job P deps job w orderly).at w refl)
      (poll-process_job P laws deps job w orderly.some_attempt valid cleared stored found waits id
        meta fuel clock deadline)
