-- ===== src/Client/Answer.antt =====
-- The way back: a producer that polls after the worker is done reads the worker's own result.
use llmbus.Shared.{ℕ, suc, ◌+◌, ◌<◌, String, ◌≡◌, sym, ap, ◌∙◌, false, some, eq_refl}
use llmbus.Python.Exc.{returned}
use llmbus.Python.Hoare.{Ends, Ends-map}
use llmbus.Python.Platform.{Platform, TextLaws}
use llmbus.Schema.{Job, Result}
use llmbus.Store.{Store, finalize, get}
use llmbus.Store.Rows.{StoredJob, is_terminal}
use llmbus.Store.Jobs.{IsValid, get-finalize, completed, completed_once, completed-is_terminal}
use llmbus.Processing.{process_job}
use llmbus.Processing.Effects.{Deps, World}
use llmbus.Processing.Trace.{posts, calls, CallsCleared}
use llmbus.Processing.Delivery.{Completed, Aborted, process_job_once}
use llmbus.Client.{poll_loop}
use llmbus.Client.Poll.{poll_done, result_from_stored-completed}

module _ (P : Platform) where
  completed_once-waiting :
      (result : Result P) (when : P.Datetime) (stored : StoredJob P)
      → is_terminal P stored ≡ false
      → completed_once P result when (some stored) ≡ some (completed P result when stored)
  completed_once-waiting result when stored waits = rw waits

  module _ (laws : TextLaws P) (s : Store P) (job_id : String) (stored : StoredJob P)
      (found : get P job_id s ≡ some stored) (waits : is_terminal P stored ≡ false)
      (result : Result P) (when : P.Datetime) where
    get-finalized :
        IsValid P s
        → result.job_id ≡ job_id
        → get P job_id (finalize P result when s).1 ≡ some (completed P result when stored)
    get-finalized valid same =
        (get-finalize P laws result when job_id s valid).1
        ∙ rw (same, eq_refl job_id, found, completed_once-waiting result when stored waits)

    poll-finalized :
        IsValid P s
        → result.job_id ≡ job_id
        → P.uuid stored.job_id ≡ some result.job_id
        → stored.meta ≡ result.meta
        → (fuel : ℕ) (clock : ℕ → P.Float) (deadline : P.Float) (t : Store P)
        → t ≡ (finalize P result when s).1
        → poll_loop P (suc fuel) (λ _. t) clock job_id deadline 0 ≡ returned result
    poll-finalized valid same id meta fuel clock deadline t e =
        poll_done P (λ _. t) clock job_id deadline fuel 0 (completed P result when stored)
          (ap (get P job_id) e ∙ get-finalized valid same)
          (completed-is_terminal P result when stored)
        ∙ result_from_stored-completed P result when stored id meta

-- If a worker's run of a waiting job returns, then polling for the job returns that very result at
-- the first reading, whatever the deadline. The job's id is a UUID in its standard form, and its row
-- holds its meta, as `submit` writes it.
pub poll-process_job :
    (P : Platform) (laws : TextLaws P) (deps : Deps P) (job : Job P) (w : World P)
    → 0 < deps.policy.retry.max_attempts
    → IsValid P w.store
    → CallsCleared P job w.trace
    → (stored : StoredJob P) → get P job.job_id w.store ≡ some stored
    → is_terminal P stored ≡ false
    → P.uuid stored.job_id ≡ some job.job_id
    → stored.meta ≡ job.meta
    → (fuel : ℕ) (clock : ℕ → P.Float) (deadline : P.Float)
    → Ends
        (λ result v.
          poll_loop P (suc fuel) (λ _. v.store) clock job.job_id deadline 0 ≡ returned result)
        (Aborted P deps job w.store
          (posts P w.trace)
          (calls P w.trace + deps.policy.retry.max_attempts))
        (process_job P deps job w)
poll-process_job P laws deps job w below valid cleared stored found waits id meta fuel clock
      deadline =
    Ends-map
      (Completed P deps job w.store (posts P w.trace)
        (calls P w.trace + deps.policy.retry.max_attempts))
      _ _ (process_job P deps job w)
      (λ result v h.
        poll-finalized P laws w.store job.job_id stored found waits result h.2.0 valid h.0
          (id ∙ ap some (sym h.0)) (meta ∙ sym h.1) fuel clock deadline v.store h.2.1)
      (process_job_once P laws deps job w below valid cleared)
