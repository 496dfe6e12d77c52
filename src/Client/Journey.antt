-- ===== src/Client/Journey.antt =====
-- The way of a job through the whole bus: submitted, handed to a worker, and polled for.
use mathlib.Core.Path.{subst}
use llmbus.Shared.{
  ℕ, suc, String, ◌≡◌, refl, sym, ap, ◌∙◌, true, Option, some, List, [], ◌∷◌, ◌⊎◌, inl, inr, All,
}
use llmbus.Python.Exc.{Exc, returned, Ended, answered}
use llmbus.Python.Hoare.{Ends, Ends-weaken}
use llmbus.Python.Platform.{Platform, TextLaws, FloatLaws}
use llmbus.Python.Texts.{Texts}
use llmbus.Schema.{Job}
use llmbus.Store.{Store, get}
use llmbus.Store.Rows.{StoredJob, is_terminal}
use llmbus.Store.Jobs.{IsValid}
use llmbus.Store.History.{Write, Write-IsValid, Writes, Writes-IsValid, Grows, Writes-Grows}
use llmbus.Config.{Env}
use llmbus.Client.{Bus, submit, poll_loop, result_from_stored}
use llmbus.Client.Submit.{with_model, Sends, Placed, Unplaced, submit_agrees}
use llmbus.Worker.Ensured.{BrokerLaws}
use llmbus.Worker.Wiring.{Topology, Broker, Outside, Shell, Process, idle, run_worker}
use llmbus.Worker.Wiring.Consuming.{Settles, Handled, Steps-Writes, Grows-some}
use llmbus.Worker.Wiring.Life.{Served, Released, run_worker-Ends}

module _ (P : Platform) where
  -- One of the messages is this job.
  abbrev pub Delivers :
      {Payload : Type 0} → (Payload → Ended (Job P)) → Job P → List Payload → Type 0
  Delivers decode sent [] = ⊥
  Delivers decode sent (payload ∷ payloads) =
      (decode payload ≡ answered sent) ⊎ Delivers decode sent payloads

  -- The job has a terminal row with the model that was sent, which a poll reads at once.
  abbrev pub Answered : Job P → Job P → Store P → Type 0
  Answered job sent t =
      (final : StoredJob P) × (get P job.job_id t ≡ some final)
      × (is_terminal P final ≡ true)
      × (sent.model ≡ some final.model)
      × ((fuel : ℕ) (clock : ℕ → P.Float) (deadline : P.Float)
          → poll_loop P (suc fuel) (λ _. t) clock job.job_id deadline 0
            ≡ result_from_stored P final)

  poll_loop-terminal :
      (t : Store P) (j : String) (final : StoredJob P)
      → get P j t ≡ some final
      → is_terminal P final ≡ true
      → (fuel : ℕ) (clock : ℕ → P.Float) (deadline : P.Float)
      → poll_loop P (suc fuel) (λ _. t) clock j deadline 0 ≡ result_from_stored P final
  unfolding poll_loop
  poll_loop-terminal t j final found done fuel clock deadline =
      rw (found, poll_loop) (rw (done, poll_loop) refl)

  -- A row keeps its model over any writes.
  same_model :
      (laws : TextLaws P) (s t : Store P) (j : String) (a : StoredJob P)
      → IsValid P s
      → Writes P s t
      → get P j s ≡ some a
      → (b : StoredJob P) → get P j t ≡ some b
      → b.model ≡ a.model
  same_model laws s t j a valid writes found b later =
      (subst (λ o. Grows P (some a) o) later
        (subst (λ o. Grows P o (get P j t)) found (Writes-Grows P laws j writes valid))).2

  -- A row is still there after any writes.
  still_there :
      (laws : TextLaws P) (s t : Store P) (j : String) (a : StoredJob P)
      → IsValid P s
      → Writes P s t
      → get P j s ≡ some a
      → (b : StoredJob P) × (get P j t ≡ some b)
  still_there laws s t j a valid writes found =
      let (b, e, _) =
        Grows-some P a (get P j t)
          (subst (λ o. Grows P o (get P j t)) found (Writes-Grows P laws j writes valid)) in
      (b, e)

  Placed-IsValid :
      (send : Job P → Ended (Unit {0}) × ℕ) (job : Job P) (b c : Bus P) (id : String)
      → Placed P send job b id c
      → IsValid P b.store
      → IsValid P c.store
  Placed-IsValid send job b c id placed valid =
      let (model, (routed, written)) = placed.1 in
      subst (IsValid P) (sym written)
        (Write-IsValid P (Write.insert (with_model P send job b model) model refl) valid)

  Handled-Delivers :
      (T : Texts P.Float) (B : Broker) {Payload : Type 0} (outside : Outside P T Payload)
      (s t : Store P) (sent : Job P) (payloads : List Payload)
      → Delivers outside.decode sent payloads
      → All (Handled P T B outside s t) payloads
      → Settles P sent.job_id s t
  Handled-Delivers T B outside s t sent (payload ∷ payloads) (inl e) (h, hs) = h sent e
  Handled-Delivers T B outside s t sent (payload ∷ payloads) (inr later) (h, hs) =
      Handled-Delivers T B outside s t sent payloads later hs
  Handled-Delivers T B outside s t sent [] d h = absurd d

  module _ (T : Texts P.Float) (B : Broker) (broker : BrokerLaws B) (texts : TextLaws P)
      (floats : FloatLaws P) {Payload : Type 0} (outside : Outside P T Payload)
      (propagates : (e : Exc) → outside.propagates e ≡ true) where
    Served-Answered :
        (env : Option Env) (process : Env) (job sent : Job P) (m : Store P) (s : Shell P T B)
        (t : Process P T B) (stored : StoredJob P)
        → IsValid P m
        → Writes P m s.world.store
        → sent.job_id ≡ job.job_id
        → get P job.job_id m ≡ some stored
        → sent.model ≡ some stored.model
        → Delivers outside.decode sent outside.messages
        → Served P T outside B env process s tt t
        → Answered job sent t.shell.world.store
    Served-Answered env process job sent m s t stored valid writes same found model arrives served =
        let valid_s = Writes-IsValid P writes valid in
        let (seen, e) = still_there texts m s.world.store job.job_id stored valid writes found in
        let settled : Settles P job.job_id s.world.store t.shell.world.store =
          subst (λ (j : String). Settles P j s.world.store t.shell.world.store) same
            (Handled-Delivers T B outside s.world.store t.shell.world.store sent outside.messages
              arrives served.3) in
        let (final, f, done) = settled seen e in
        let run = Steps-Writes P texts served.1 valid_s in
        let kept : final.model ≡ stored.model =
          same_model texts s.world.store t.shell.world.store job.job_id seen valid_s run e final f
          ∙ same_model texts m s.world.store job.job_id stored valid writes found seen e in
        (
          final,
          f,
          done,
          model ∙ ap some (sym kept),
          poll_loop-terminal t.shell.world.store job.job_id final f done,
        )

    -- Under the same hypotheses as for the life of a worker: a job that a producer submitted,
    -- with the message that it left on the topic among those that a worker is handed later,
    -- whatever was written to the store in between. The worker ends, and if it returns, the row
    -- of the job is terminal and names the model that was sent, and a poll for the job answers
    -- at its first reading with what the row holds. If it raises, the store moved by writes and
    -- runs, and what is still open has its reason.
    pub poll-run_worker-submit :
        (send : Job P → Ended (Unit {0}) × ℕ) (job : Job P) (b c : Bus P) (id : String)
        (env : Option Env) (process : Env) (topology : Topology) (s : Shell P T B)
        → submit P send job b ≡ (returned id, c)
        → IsValid P b.store
        → Writes P c.store s.world.store
        → s.attempts.clients ≡ 0
        → ((sent : Job P)
            → Sends P send job b sent c
            → Delivers outside.decode sent outside.messages)
        → Ends
            (λ _ t.
              (sent : Job P) × Sends P send job b sent c × Answered job sent t.shell.world.store)
            (Released P T outside B s)
            (run_worker P T B outside env process topology (idle P T B s))
    poll-run_worker-submit send job b c id env process topology s done valid writes none_yet
          arrives =
        let placed : Placed P send job b id c =
          subst (Ends (Placed P send job b) (Unplaced P send job b)) done
            (submit_agrees P texts send job b) in
        let (sent, sends) = placed.2 in
        let (stored, found, whole) = sends.1 in
        let same : sent.job_id ≡ job.job_id = ap (λ (j : Job P). j.job_id) whole in
        let model : sent.model ≡ some stored.model = ap (λ (j : Job P). j.model) whole in
        let valid_c = Placed-IsValid send job b c id placed valid in
        Ends-weaken (run_worker P T B outside env process topology (idle P T B s))
          (λ _ t served. (
            sent,
            sends,
            Served-Answered env process job sent c.store s t stored valid_c writes same found model
                (arrives sent sends) served,
          ))
          (λ e t h. h)
          (run_worker-Ends P T B broker texts floats outside propagates env process topology s
            (Writes-IsValid P writes valid_c) none_yet)
