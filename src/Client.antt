-- ===== src/Client.antt =====
-- The producer's side of the bus, src/llmbus/client.py: submitting a job and polling for its result.
pub mod Resolve
pub mod Submit
pub mod Session
pub mod Poll
pub mod Answer
pub mod Budget
pub mod Journey
use Prim.Native.String.{◌++◌}
use llmbus.Shared.{
  ℕ, zero, suc, String, Bool, true, false, Option, none, some, List, ◌∷◌, ◌==◌, if◌then◌else◌,
}
use llmbus.Python.Exc.{
  Exc, raising, Fallible, returned, raised, out_of_fuel, Ended, answered, failed,
}
use llmbus.Python.Action.{Action, pure, raise, lift, gets, ◌>>=◌, ◌>>◌}
use llmbus.Python.Platform.{Platform}
use llmbus.Schema.{Job, Result, ResultStatus, status_ok, status_error, resolve_model}
use llmbus.Providers.{provider_for}
use llmbus.Store.{Store, insert_pending, get, model_policy}
use llmbus.Store.Rows.{StoredJob, ModelPolicy, is_terminal}

abbrev pub timeout_error : String → Exc
timeout_error message = record {
  type_name = "TimeoutError";
  is_exception = true;
  is_transport = true;
  status_code = none;
  message = message;
}

abbrev pub validation_error : Exc
validation_error = raising "ValidationError" "1 validation error for Result"

module _ (P : Platform) where
  -- The store that producers and the worker share, and the jobs on the topic, the latest first.
  pub record Bus : Type 0 where
    pub store : Store P
    pub topic : List (Job P)

  abbrev pub on_store : {A : Type 0} → Action (Store P) A → Action Bus A
  on_store m b = let (r, s) = m b.store in (r, record b { store = s })

  abbrev pub copies : ℕ → Job P → List (Job P) → List (Job P)
  copies zero job topic = topic
  copies (suc n) job topic = job ∷ copies n job topic

  -- `send_job`, by how the call of the broker's client ends and how often the message is then on the
  -- topic: a call that raises may have left it there, and one that is made again may leave it twice
  put_on_topic : Job P → Ended (Unit {0}) × ℕ → Action Bus (Unit {0})
  put_on_topic job (answered _, n) b = (returned tt, record b { topic = copies n job b.topic })
  put_on_topic job (failed e, n) b = (raised e, record b { topic = copies n job b.topic })

  abbrev pub policy_name : Option (ModelPolicy P) → Option String
  policy_name none = none
  policy_name (some policy) = some policy.model

  resolve_with : Job P → Option String → Action Bus String
  resolve_with job (some model) b = (returned model, b)
  resolve_with job none b =
      (resolve_model P job (policy_name (model_policy P job.project job.kind b.store)), b)

  -- `_resolve_model_name`
  unfoldable pub resolve_model_name : Job P → Action Bus String
  unfolding resolve_with
  resolve_model_name job = resolve_with job job.model

  recorded : Job P → Option (StoredJob P) → Job P
  recorded job none = job
  recorded job (some stored) = record job { model = some stored.model }

  -- `_model_already_on_record`: with an equal model the copy is the job itself
  unfoldable pub model_already_on_record : Job P → Store P → Job P
  unfolding recorded
  model_already_on_record job s = recorded job (get P job.job_id s)

  aligned : Job P → Bool → Action Bus (Job P)
  unfolding model_already_on_record
  aligned job true = pure job
  aligned job false = gets (λ b. model_already_on_record job b.store)

  unfoldable pub submit : (Job P → Ended (Unit {0}) × ℕ) → Job P → Action Bus String
  unfolding resolve_model_name aligned put_on_topic
  submit send job = do
    model ← resolve_model_name job
    lift (provider_for P model)
    inserted ← on_store (insert_pending P (record job { model = some model }))
    resolved ← aligned (record job { model = some model }) inserted
    put_on_topic resolved (send resolved)
    pure resolved.job_id

  parse_status : String → Option ResultStatus
  parse_status text =
      if text == "ok" then some status_ok else if text == "error" then some status_error else none

  validated : StoredJob P → Option String → Option ResultStatus → Fallible (Result P)
  validated stored (some job_id) (some status) = returned (record {
    job_id = job_id;
    status = status;
    completion = stored.completion;
    usage = stored.usage;
    provider = stored.provider;
    error = stored.error;
    meta = stored.meta;
  })
  validated stored (some job_id) none = raised validation_error
  validated stored none status = raised validation_error

  -- `Result.model_validate` of the fields: a UUID and one of the two statuses are asked for
  unfoldable pub result_from_stored : StoredJob P → Fallible (Result P)
  unfolding validated parse_status
  result_from_stored stored = validated stored (P.uuid stored.job_id) (parse_status stored.status)

  -- a row that a poll returns
  abbrev pub terminal : Option (StoredJob P) → Option (StoredJob P)
  terminal none = none
  terminal (some stored) = if is_terminal P stored then some stored else none

  -- `poll_result`, on fuel: at each round the store and the clock are read anew. `deadline` is the
  -- first clock reading plus the timeout.
  unfoldable pub poll_loop :
      ℕ → (ℕ → Store P) → (ℕ → P.Float) → String → P.Float → ℕ → Fallible (Result P)
  poll_loop zero read clock job_id deadline moment = out_of_fuel
  poll_loop (suc fuel) read clock job_id deadline moment =
      let later = poll_loop fuel read clock job_id deadline (suc moment) in
      elim (terminal (get P job_id (read moment))) [
        | some stored ↦ result_from_stored stored
        | none ↦
            if P.le deadline (clock moment)
            then raised (timeout_error ("no terminal result for job " ++ job_id))
            else later
      ]
