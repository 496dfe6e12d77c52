-- ===== src/Processing/Delivery.antt =====
-- `process_job` as a whole: one result per job id in the store, one callback for it, and every
-- model call cleared.
use llmbus.Shared.{
  ℕ, ◌+◌, ◌≤◌, ◌<◌, String, ◌≡◌, refl, ap, ◌∙◌, Bool, true, false, Option, none, some, List, ◌∷◌,
  arith, ◌⊎◌, inl, inr,
}
use llmbus.Python.Exc.{Exc, returned, Ended, answered, failed}
use llmbus.Python.Action.{pure, raise, ◌>>◌}
use llmbus.Python.Hoare.{
  Ends, Ends-returned, Hoare, Hoare-pure, Hoare-raise, Hoare-if, Hoare-weaken, Hoare-fact,
  Hoare-fail, Hoare-bind,
}
use llmbus.Python.Platform.{Platform, TextLaws}
use llmbus.Schema.{Job, Result}
use llmbus.Store.{Store, finalize, get}
use llmbus.Store.Jobs.{IsValid, get-finalize, is_waiting}
use llmbus.Processing.Effects.{Deps, World, posted, ask, emit}
use llmbus.Processing.Trace.{posts, calls, CallsCleared}
use llmbus.Processing.Run.{Quiet, Stopped, Finished, Hoare-run_job}
use llmbus.Processing.{
  on_store, deliver, notify, end_delivery, finalize_and_notify, run_job, process_job,
}

module _ (P : Platform) (deps : Deps P) (job : Job P) where
  -- the callbacks after a result, by whether this delivery won and whether the job asked for one
  abbrev pub announced :
      Bool → Option String → Result P → List (String × Result P) → List (String × Result P)
  announced true (some url) result sent = (url, result) ∷ sent
  announced true none result sent = sent
  announced false url result sent = sent

  module _ (s : Store P) (sent : List (String × Result P)) (bound : ℕ) where
    abbrev Kept : Store P → List (String × Result P) → World P → Type 0
    Kept t out w =
        (w.store ≡ t)
        × (posts P w.trace ≡ out)
        × CallsCleared P job w.trace
        × (calls P w.trace ≤ bound)

    module _ (result : Result P) (t : Store P) where
      -- Once the store is written, an exception can only come from outside `Exception`.
      abbrev Cut : List (String × Result P) → Exc → World P → Type 0
      Cut out e w =
          (e.is_exception ≡ false)
          × (w.store ≡ t)
          × (posts P w.trace ≡ out)
          × CallsCleared P job w.trace
          × (calls P w.trace ≤ bound)

      Hoare-end_delivery :
          (out : List (String × Result P)) (outcome : Ended (Unit {0}))
          → Hoare (Kept t out) (end_delivery P outcome) (λ _ w. Kept t out w) (Cut out)
      unfolding end_delivery
      Hoare-end_delivery out (answered _) = Hoare-pure tt (λ w h. h)
      Hoare-end_delivery out (failed e) =
          Hoare-if e.is_exception (pure tt) (raise e) (λ _. Hoare-pure tt (λ w h. h))
            (λ cut. Hoare-raise e (λ w h. (cut, h.0, h.1, h.2, h.3)))

      Hoare-deliver :
          (url : String)
          → Hoare
              (Kept t sent)
              (deliver P deps url result)
              (λ _ w. Kept t ((url, result) ∷ sent) w)
              (Cut ((url, result) ∷ sent))
      unfolding deliver
      Hoare-deliver url =
          Hoare-bind (λ _ w. Kept t ((url, result) ∷ sent) w) (emit P (posted url result)) _
            (record { at = λ w h. (h.0, ap (λ out. (url, result) ∷ out) h.1, h.2, h.3) })
            λ _.
              Hoare-bind (λ _ w. Kept t ((url, result) ∷ sent) w)
                (ask P λ moment. deps.env.deliver moment url result) _ (record { at = λ w h. h })
                λ outcome. Hoare-end_delivery ((url, result) ∷ sent) outcome

      Hoare-notify :
          (won : Bool) (url : Option String)
          → Hoare
              (Kept t sent)
              (notify P deps result won url)
              (λ _ w. Kept t (announced won url result sent) w)
              (Cut (announced won url result sent))
      unfolding notify
      Hoare-notify true (some url) = Hoare-deliver url
      Hoare-notify true none = Hoare-pure tt (λ w h. h)
      Hoare-notify false url = Hoare-pure tt (λ w h. h)

    -- The job's one result is in the store, and announced if this delivery put it there.
    abbrev pub Completed : Result P → World P → Type 0
    Completed result w =
        (result.job_id ≡ job.job_id)
        × (result.meta ≡ job.meta)
        × ((when : P.Datetime) × (w.store ≡ (finalize P result when s).1))
        × (posts P w.trace
            ≡ announced (is_waiting P (get P job.job_id s)) job.callback_url result sent)
        × CallsCleared P job w.trace
        × (calls P w.trace ≤ bound)

    -- An exception left the store and the callbacks alone, or it cut off the callback of a result
    -- that the store took.
    abbrev pub Aborted : Exc → World P → Type 0
    Aborted e w =
        (((w.store ≡ s) × (posts P w.trace ≡ sent))
          ⊎ ((e.is_exception ≡ false)
              × ((result : Result P) × (result.job_id ≡ job.job_id)
                  × ((when : P.Datetime) × (w.store ≡ (finalize P result when s).1))
                  × (posts P w.trace
                      ≡ announced (is_waiting P (get P job.job_id s)) job.callback_url result
                          sent))))
        × CallsCleared P job w.trace
        × (calls P w.trace ≤ bound)

    finalize_won :
        (result : Result P) (when : P.Datetime) (t : Store P)
        → IsValid P s
        → TextLaws P
        → result.job_id ≡ job.job_id
        → t ≡ s
        → (finalize P result when t).0 ≡ returned (is_waiting P (get P job.job_id s))
    finalize_won result when t valid laws same e =
        ap (λ (x : Store P). (finalize P result when x).0) e
        ∙ (get-finalize P laws result when job.job_id s valid).0
        ∙ ap (λ (j : String). returned (is_waiting P (get P j s))) same

    module _ (laws : TextLaws P) (valid : IsValid P s) (result : Result P)
        (same : (result.job_id ≡ job.job_id) × (result.meta ≡ job.meta)) where
      abbrev waits : Bool
      waits = is_waiting P (get P job.job_id s)

      Hoare-finalize :
          (when : P.Datetime)
          → Hoare
              (Kept s sent)
              (on_store P (finalize P result when))
              (λ won w. (won ≡ waits) × Kept (finalize P result when s).1 sent w)
              Aborted
      Hoare-finalize when = record {
        at = λ w h.
            Ends-returned _ Aborted (finalize P result when w.store).0 waits _
              (finalize_won result when w.store valid laws same.0 h.0)
              (refl, (ap (λ (x : Store P). (finalize P result when x).1) h.0, h.1, h.2, h.3));
      }

      Hoare-announce :
          (when : P.Datetime) (won : Bool)
          → Hoare
              (λ w. (won ≡ waits) × Kept (finalize P result when s).1 sent w)
              (do notify P deps result won job.callback_url; pure result)
              Completed
              Aborted
      Hoare-announce when won = Hoare-fact λ e.
          Hoare-bind
            (λ _ w.
              Kept (finalize P result when s).1 (announced waits job.callback_url result sent) w)
            (notify P deps result won job.callback_url) _
            (Hoare-fail
              {fail = Cut result (finalize P result when s).1
                (announced waits job.callback_url result sent)}
              Aborted (notify P deps result won job.callback_url)
              (λ x w cut. (inr (cut.0, (result, same.0, (when, cut.1), cut.2)), cut.3, cut.4))
              (rw (← e) (Hoare-notify result (finalize P result when s).1 won job.callback_url)))
            λ _. Hoare-pure result (λ w h. (same.0, same.1, (when, h.0), h.1, h.2, h.3))

      Hoare-finalize_and_notify :
          Hoare (Kept s sent) (finalize_and_notify P deps job result) Completed Aborted
      unfolding finalize_and_notify
      Hoare-finalize_and_notify =
          Hoare-bind (λ when w. Kept s sent w) (ask P deps.env.stamp) _ (record { at = λ w h. h })
            λ when.
              Hoare-bind (λ won w. (won ≡ waits) × Kept (finalize P result when s).1 sent w)
                (on_store P (finalize P result when)) _ (Hoare-finalize when) (Hoare-announce when)

module _ (P : Platform) (deps : Deps P) (job : Job P) (s : Store P)
    (sent : List (String × Result P)) (n : ℕ) where
  abbrev bound : ℕ
  bound = n + deps.policy.retry.max_attempts

  Hoare-process_job :
      TextLaws P
      → IsValid P s
      → 0 < deps.policy.retry.max_attempts
      → Hoare
          (Quiet P deps job s sent n 0)
          (process_job P deps job)
          (Completed P deps job s sent bound)
          (Aborted P deps job s sent bound)
  unfolding process_job
  Hoare-process_job laws valid below =
      Hoare-bind (Finished P deps job s sent n) (run_job P deps job) _
        (Hoare-fail {fail = Stopped P deps job s sent n} (Aborted P deps job s sent bound)
          (run_job P deps job) (λ e w h. (inl (h.0, h.1), h.2, h.3))
          (Hoare-run_job P deps job s sent n below))
        λ result.
          Hoare-weaken (λ w h. ((h.0, h.1), (h.2, h.3, h.4, h.5)))
            (Hoare-fact
              λ same. Hoare-finalize_and_notify P deps job s sent bound laws valid result same)

-- A delivery of a job, first or repeated, to a worker whose policy allows an attempt, over a store
-- whose primary key holds. It ends, whatever the outside does. If it returns, its result is the
-- job's, the store is what writing that result once makes of it, and the callback is posted exactly
-- if the job asked for one and its row was waiting. If it raises, the store and the callbacks are as
-- before, or what is no `Exception` cut off the callback of a result that the store took, so it is
-- written and announced as for a return. Either way models were called as often as attempts are
-- allowed at most, each time right after a reservation and a passed deadline check.
pub process_job_once :
    (P : Platform) (laws : TextLaws P) (deps : Deps P) (job : Job P) (w : World P)
    → 0 < deps.policy.retry.max_attempts
    → IsValid P w.store
    → CallsCleared P job w.trace
    → Ends
        (Completed P deps job w.store
          (posts P w.trace)
          (calls P w.trace + deps.policy.retry.max_attempts))
        (Aborted P deps job w.store
          (posts P w.trace)
          (calls P w.trace + deps.policy.retry.max_attempts))
        (process_job P deps job w)
unfolding process_job
process_job_once P laws deps job w below valid cleared =
    let s : Store P = w.store in
    let sent : List (String × Result P) = posts P w.trace in
    let n : ℕ = calls P w.trace in
    (Hoare-process_job P deps job s sent n laws valid below).at w (refl, refl, cleared, omega arith)
