-- ===== src/Client/Submit.antt =====
-- What `submit` leaves behind: one row, one message, and that both name the same model.
use llmbus.Shared.{
  ℕ, String, ◌≡◌, refl, sym, ap, ◌∙◌, Bool, true, false, Option, none, some, eq_refl, ◌⊎◌, inl, inr,
}
use llmbus.Python.Exc.{
  Exc, Fallible, returned, raised, out_of_fuel, Ended, answered, failed, IsFinal,
}
use llmbus.Python.Action.{lift}
use llmbus.Python.Hoare.{Ends, Ends-returned, Hoare, Hoare-pure, Hoare-bind}
use llmbus.Python.Platform.{Platform, TextLaws}
use llmbus.Schema.{Job, resolve_model}
use llmbus.Schema.Checks.{model_policy_error, no_policy_message}
use llmbus.Providers.{provider_for, provider_for-IsFinal}
use llmbus.Store.{Store, insert_pending, get, model_policy}
use llmbus.Store.Rows.{StoredJob}
use llmbus.Store.Jobs.{submitted, is_none, first_of, get-insert_pending}
use llmbus.Client.{
  Bus, copies, on_store, put_on_topic, resolve_with, resolve_model_name, recorded,
  model_already_on_record, aligned, submit, policy_name,
}

module _ (P : Platform) (send : Job P → Ended (Unit {0}) × ℕ) (job : Job P) (b : Bus P) where
  abbrev pub with_model : String → Job P
  with_model model = record job { model = some model }

  -- The model is the job's own or, for a job without one, the policy's.
  abbrev pub ChosenFrom : Store P → String → Type 0
  ChosenFrom s model =
      (job.model ≡ some model)
      ⊎ ((job.model ≡ none) × (policy_name P (model_policy P job.project job.kind s) ≡ some model))

  -- And a provider serves it.
  abbrev pub Routed : String → Type 0
  Routed model =
      ChosenFrom b.store model × ((name : String) × (provider_for P model ≡ returned name))

  abbrev pub Written : String → Bus P → Type 0
  Written model c = Routed model × (c.store ≡ (insert_pending P (with_model model) b.store).1)

  -- The job's row is in the store, and the message is the job with the row's model and with
  -- nothing else changed.
  abbrev pub Agrees : Job P → Bus P → Type 0
  Agrees sent c =
      (stored : StoredJob P) × (get P job.job_id c.store ≡ some stored)
      × (sent ≡ with_model stored.model)

  -- What is new on the topic are the copies of a message that the broker's client left there.
  abbrev pub Sends : Job P → Bus P → Type 0
  Sends sent c = (c.topic ≡ copies P (send sent).1 sent b.topic) × Agrees sent c

  abbrev pub Placed : String → Bus P → Type 0
  Placed id c =
      (id ≡ job.job_id) × ((model : String) × Written model c) × ((sent : Job P) × Sends sent c)

  -- Nothing is new on the topic, and the store is as before or has the row of a job that is routed.
  -- Or the sending raised.
  abbrev pub Unplaced : Exc → Bus P → Type 0
  Unplaced e c =
      ((c.topic ≡ b.topic) × ((c.store ≡ b.store) ⊎ ((model : String) × Written model c)))
      ⊎ (((model : String) × Written model c)
          × ((sent : Job P) × ((send sent).0 ≡ failed e) × Sends sent c))

  abbrev Before : Bus P → Type 0
  Before c = (c.store ≡ b.store) × (c.topic ≡ b.topic)

  abbrev Chosen : String → Bus P → Type 0
  Chosen model c = ChosenFrom b.store model × Before c

  resolve_model-some :
      (model : String) → job.model ≡ none → resolve_model P job (some model) ≡ returned model
  unfolding resolve_model
  resolve_model-some model unset = rw unset

  resolve_model-none :
      job.model ≡ none
      → resolve_model P job none
        ≡ raised (model_policy_error (no_policy_message P job.project job.kind))
  unfolding resolve_model
  resolve_model-none unset = rw unset

  resolve_model-Ends :
      (policy : Option String) (c : Bus P)
      → job.model ≡ none
      → policy_name P (model_policy P job.project job.kind b.store) ≡ policy
      → Before c
      → Ends Chosen Unplaced (resolve_model P job policy, c)
  resolve_model-Ends (some model) c unset e h =
      rw (resolve_model-some model unset) (inr (unset, e), h)
  resolve_model-Ends none c unset e h = rw (resolve_model-none unset) (inl (h.1, inl h.0))

  Hoare-resolve_with :
      (m : Option String) → job.model ≡ m → Hoare Before (resolve_with P job m) Chosen Unplaced
  unfolding resolve_with
  Hoare-resolve_with (some model) e = record { at = λ c h. (inl e, h) }
  Hoare-resolve_with none e = record {
    at = λ c h.
        resolve_model-Ends (policy_name P (model_policy P job.project job.kind c.store)) c e
          (ap (λ (x : Store P). policy_name P (model_policy P job.project job.kind x)) (sym h.0)) h;
  }

  Hoare-provider_for :
      (model : String) (r : Fallible String)
      → provider_for P model ≡ r
      → IsFinal r
      → Hoare (Chosen model) (lift r) (λ _ c. Routed model × Before c) Unplaced
  Hoare-provider_for model (returned name) e final = record { at = λ c h. ((h.0, (name, e)), h.1) }
  Hoare-provider_for model (raised x) e final = record { at = λ c h. inl (h.1.1, inl h.1.0) }
  Hoare-provider_for model out_of_fuel e final = absurd final

  -- the row of a job after its insert
  inserted_row :
      (laws : TextLaws P) (model : String)
      → get P job.job_id (insert_pending P (with_model model) b.store).1
        ≡ some (first_of P (get P job.job_id b.store) (submitted P (with_model model) model))
  inserted_row laws model =
      (get-insert_pending P laws (with_model model) model job.job_id b.store refl).1
      ∙ rw (eq_refl job.job_id) refl

  Hoare-insert :
      (laws : TextLaws P) (model : String)
      → Hoare
          (λ c. Routed model × Before c)
          (on_store P (insert_pending P (with_model model)))
          (λ fresh c.
            (fresh ≡ is_none P (get P job.job_id b.store)) × Written model c × (c.topic ≡ b.topic))
          Unplaced
  Hoare-insert laws model = record {
    at = λ c h.
        Ends-returned _ Unplaced (insert_pending P (with_model model) c.store).0
          (is_none P (get P job.job_id b.store)) _
          (ap (λ (x : Store P). (insert_pending P (with_model model) x).0) h.1.0
            ∙ (get-insert_pending P laws (with_model model) model job.job_id b.store refl).0)
          (
            refl,
            (h.0, ap (λ (x : Store P). (insert_pending P (with_model model) x).1) h.1.0),
            h.1.1,
          );
  }

  first_of-fresh :
      (o : Option (StoredJob P)) (stored : StoredJob P)
      → true ≡ is_none P o
      → first_of P o stored ≡ stored
  first_of-fresh none stored h = refl
  first_of-fresh (some old) stored h = cc

  abbrev Ready : String → Job P → Bus P → Type 0
  Ready model sent c = Agrees sent c × Written model c × (c.topic ≡ b.topic)

  Agrees-recorded :
      (model : String) (o : Option (StoredJob P)) (stored : StoredJob P) (c : Bus P)
      → o ≡ some stored
      → get P job.job_id c.store ≡ o
      → Agrees (recorded P (with_model model) o) c
  unfolding recorded
  Agrees-recorded model none stored c e found = cc
  Agrees-recorded model (some old) stored c e found = (old, found, refl)

  Hoare-aligned :
      (laws : TextLaws P) (model : String) (fresh : Bool)
      → Hoare
          (λ c.
            (fresh ≡ is_none P (get P job.job_id b.store)) × Written model c × (c.topic ≡ b.topic))
          (aligned P (with_model model) fresh)
          (Ready model)
          Unplaced
  unfolding aligned model_already_on_record
  Hoare-aligned laws model true = record {
    at = λ c h. (
      (
        submitted P (with_model model) model,
        ap (get P job.job_id) h.1.1
            ∙ inserted_row laws model
            ∙ ap some (first_of-fresh (get P job.job_id b.store) _ h.0),
        refl,
      ),
      h.1,
      h.2,
    );
  }
  Hoare-aligned laws model false = record {
    at = λ c h. (
      Agrees-recorded model (get P job.job_id c.store) _ c
          (ap (get P job.job_id) h.1.1 ∙ inserted_row laws model) refl,
      h.1,
      h.2,
    );
  }

  sent_id : (sent : Job P) (c : Bus P) → Agrees sent c → sent.job_id ≡ job.job_id
  sent_id sent c h = ap (λ (j : Job P). j.job_id) h.2

  left_there :
      (sent : Job P) (c : Bus P) (n : ℕ)
      → (send sent).1 ≡ n
      → c.topic ≡ b.topic
      → copies P n sent c.topic ≡ copies P (send sent).1 sent b.topic
  left_there sent c n e h = ap (copies P n sent) h ∙ ap (λ k. copies P k sent b.topic) (sym e)

  Hoare-put_on_topic :
      (model : String) (sent : Job P) (outcome : Ended (Unit {0}) × ℕ)
      → send sent ≡ outcome
      → Hoare
          (Ready model sent)
          (put_on_topic P sent outcome)
          (λ _ c. (sent.job_id ≡ job.job_id) × Placed job.job_id c)
          Unplaced
  unfolding put_on_topic
  Hoare-put_on_topic model sent (answered _, n) e = record {
    at = λ c h. (
      sent_id sent c h.0,
      (refl, (model, h.1), (sent, (left_there sent c n (ap (λ o. o.1) e) h.2, h.0))),
    );
  }
  Hoare-put_on_topic model sent (failed x, n) e = record {
    at = λ c h.
        inr
          ((model, h.1), (sent, ap (λ o. o.0) e, (left_there sent c n (ap (λ o. o.1) e) h.2, h.0)));
  }

  Hoare-submit : (laws : TextLaws P) → Hoare Before (submit P send job) Placed Unplaced
  unfolding submit resolve_model_name
  Hoare-submit laws =
      Hoare-bind Chosen (resolve_with P job job.model) _ (Hoare-resolve_with job.model refl)
        λ model.
          Hoare-bind (λ _ c. Routed model × Before c) (lift (provider_for P model)) _
            (Hoare-provider_for model (provider_for P model) refl (provider_for-IsFinal P model))
            λ _.
              Hoare-bind
                (λ fresh c.
                  (fresh ≡ is_none P (get P job.job_id b.store))
                  × Written model c
                  × (c.topic ≡ b.topic))
                (on_store P (insert_pending P (with_model model))) _ (Hoare-insert laws model)
                λ fresh.
                  Hoare-bind (Ready model) (aligned P (with_model model) fresh) _
                    (Hoare-aligned laws model fresh)
                    λ sent.
                      Hoare-bind (λ _ c. (sent.job_id ≡ job.job_id) × Placed job.job_id c)
                        (put_on_topic P sent (send sent)) _
                        (Hoare-put_on_topic model sent (send sent) refl)
                        λ _. Hoare-pure _ (λ c h. (h.0, h.1.1, h.1.2))

-- `submit` ends. If it returns, the id is the job's; the store is what inserting the job with a
-- model makes of it, which a provider serves and which is the job's own or else the policy's; and
-- what is new on the topic are the copies that the broker's client left there of one message: the job
-- with the model of its row, be that row new or older, and with nothing else changed. If it raises,
-- either the message was not sent, and the store is as before or as after that insert, so for a
-- model that no provider serves it is as before; or the sending raised that exception, and the store
-- and the topic are as after a return, with the copies that the client left.
pub submit_agrees :
    (P : Platform) (laws : TextLaws P) (send : Job P → Ended (Unit {0}) × ℕ) (job : Job P)
    (b : Bus P)
    → Ends (Placed P send job b) (Unplaced P send job b) (submit P send job b)
submit_agrees P laws send job b = (Hoare-submit P send job b laws).at b (refl, refl)
