-- ===== src/Worker/Wiring/Consuming.antt =====
-- What a worker that consumes messages does to the store, whatever the messages are.
use mathlib.Core.Path.{subst}
use llmbus.Shared.{
  ℕ, ◌+◌, ◌<◌, String, ◌≡◌, refl, sym, ap, ◌∙◌, true, Option, none, some, List, [], ◌∷◌, ◌++◌, ◌==◌,
  eq_refl, if◌then◌else◌, Bool-cases, inl, inr, All,
}
use llmbus.Python.Exc.{Exc, Fallible, returned, raised, out_of_fuel, Ended, answered, failed}
use llmbus.Python.Action.{Action, pure, continue}
use llmbus.Python.Hoare.{Ends, Ends-weaken, Hoare-bind}
use llmbus.Python.Platform.{Platform, TextLaws}
use llmbus.Python.Texts.{Texts}
use llmbus.Schema.{Job, Result}
use llmbus.Store.{Store, get, finalize}
use llmbus.Store.Rows.{StoredJob, is_terminal}
use llmbus.Store.Jobs.{IsValid, get-finalize, completed_once, completed-is_terminal}
use llmbus.Store.History.{Writes, Grows, Writes-Grows, Write}
use llmbus.Store.History
use llmbus.Processing.Effects.{Deps, World, Event}
use llmbus.Processing.{process_job}
use llmbus.Processing.Trace.{posts}
use llmbus.Processing.Delivery.{Completed, Aborted, process_job_once}
use llmbus.Processing.Once.{System, Step, Steps, left_by, worker_at}
use llmbus.Worker.{consume, consume_one}
use llmbus.Worker.Wiring.{Broker, Outside, Shell, in_run, after_message, on_message, consume_all}

module _ (P : Platform) where
  -- The callbacks of the runs, the latest first.
  abbrev pub sent_by : List (List (Event P)) → List (String × Result P)
  sent_by [] = []
  sent_by (trace ∷ runs) = posts P trace ++ sent_by runs

  pub Steps-trans : {x y z : System P} → Steps P x y → Steps P y z → Steps P x z
  Steps-trans before Steps.here = before
  Steps-trans before (Steps.next after last) = Steps.next (Steps-trans before after) last

  Writes-trans : {s t u : Store P} → Writes P s t → Writes P t u → Writes P s u
  Writes-trans before Writes.here = before
  Writes-trans before (Writes.next after last) = Writes.next (Writes-trans before after) last

  -- A row that was there is terminal.
  abbrev pub Settles : String → Store P → Store P → Type 0
  Settles j s t =
      (stored : StoredJob P)
      → get P j s ≡ some stored
      → (final : StoredJob P) × (get P j t ≡ some final) × (is_terminal P final ≡ true)

  completed_once-Settles :
      (result : Result P) (when : P.Datetime) (stored : StoredJob P)
      → (final : StoredJob P) × (completed_once P result when (some stored) ≡ some final)
        × (is_terminal P final ≡ true)
  completed_once-Settles result when stored = elim (Bool-cases (is_terminal P stored)) [
    | inl done ↦ (stored, rw done, done)
    | inr waits ↦ rw waits (_, refl, completed-is_terminal P result when stored)
  ]

  finalize-Settles :
      (laws : TextLaws P) (s t : Store P) (j : String) (result : Result P) (when : P.Datetime)
      → IsValid P s
      → result.job_id ≡ j
      → t ≡ (finalize P result when s).1
      → Settles j s t
  finalize-Settles laws s t j result when valid same written stored found =
      let (final, e, done) = completed_once-Settles result when stored in
      let read : get P j (finalize P result when s).1 ≡ completed_once P result when (get P j s) =
        (get-finalize P laws result when j s valid).1
        ∙ ap (λ c. if c then completed_once P result when (get P j s) else get P j s)
            (ap (λ k. j == k) same ∙ eq_refl j) in
      (final, rw written (read ∙ ap (completed_once P result when) found ∙ e), done)

  finalize_policy :
      (result : Result P) (when : P.Datetime) (s : Store P)
      → (finalize P result when s).1.worker_policy ≡ s.worker_policy
  unfolding finalize
  finalize_policy result when s = refl

  -- What a row is from a first store on, and after a last one.
  pub Grows-some :
      (a : StoredJob P) (o : Option (StoredJob P))
      → Grows P (some a) o
      → (b : StoredJob P) × (o ≡ some b) × (is_terminal P a ≡ true → b ≡ a)
  Grows-some a none h = absurd h
  Grows-some a (some b) h = (b, refl, λ done. (rw done at h).5)

  -- A run leaves what one write, or none, makes of the store.
  Completed-Writes :
      (deps : Deps P) (job : Job P) (s : Store P) (n : ℕ) (end : Fallible (Result P) × World P)
      → Ends (Completed P deps job s [] n) (Aborted P deps job s [] n) end
      → Writes P s end.1.store
  Completed-Writes deps job s n (returned r, w) h =
      subst (Writes P s) (sym h.2.1) (Writes.next Writes.here (Write.finish r h.2.0))
  Completed-Writes deps job s n (raised e, w) (inl h, _, _) =
      subst (Writes P s) (sym h.0) Writes.here
  Completed-Writes deps job s n (raised e, w) (inr (cut, (r, same, (when, written), told)), _, _) =
      subst (Writes P s) (sym written) (Writes.next Writes.here (Write.finish r when))
  Completed-Writes deps job s n (out_of_fuel, w) h = absurd h

  pub Steps-Writes :
      {y z : System P} (laws : TextLaws P)
      → Steps P y z
      → IsValid P y.store
      → Writes P y.store z.store
  Steps-Writes laws Steps.here valid = Writes.here
  Steps-Writes {y} laws (Steps.next {z = m} before (Step.work deps job moment limiter below))
        valid =
      let w : World P = worker_at P m.store moment limiter in
      let earlier = Steps-Writes laws before valid in
      Writes-trans earlier (
        Completed-Writes deps job m.store (0 + deps.policy.retry.max_attempts)
          (process_job P deps job w)
          (process_job_once P laws deps job w below (History.Writes-IsValid P earlier valid) tt))
  Steps-Writes laws (Steps.next before (Step.write write)) valid =
      Writes.next (Steps-Writes laws before valid) write

  -- What a run settles is settled for whoever looked before, and stays settled.
  Settles-between :
      {x y z u : System P} (laws : TextLaws P) (j : String)
      → Steps P x y
      → Settles j y.store z.store
      → Steps P z u
      → IsValid P x.store
      → IsValid P z.store
      → Settles j x.store u.store
  Settles-between {x} {y} {z} {u} laws j before settled after valid valid_z stored found =
      let (seen, e, _) = Grows-some stored (get P j y.store) (
        subst (λ o. Grows P o (get P j y.store)) found
          (Writes-Grows P laws j (Steps-Writes laws before valid) valid)) in
      let (final, f, done) = settled seen e in
      let (last, g, same) = Grows-some final (get P j u.store) (
        subst (λ o. Grows P o (get P j u.store)) f
          (Writes-Grows P laws j (Steps-Writes laws after valid_z) valid_z)) in
      (final, rw (same done) at g, done)

  module _ (T : Texts P.Float) (B : Broker) where
    -- The store and all the callbacks, as a worker has them.
    abbrev pub system : Shell P T B → System P
    system s = record { store = s.world.store; sent = sent_by s.runs }

    module _ {Payload : Type 0} (outside : Outside P T Payload) where
      -- If the message is a job, the row of that job is settled.
      abbrev pub Handled : Store P → Store P → Payload → Type 0
      Handled s t payload =
          (job : Job P) → outside.decode payload ≡ answered job → Settles job.job_id s t

      module _ (laws : TextLaws P) (deps : Deps P)
          (below : 0 < deps.policy.retry.max_attempts) where
        abbrev Onward : Shell P T B → Exc → Shell P T B → Type 0
        Onward s _ t = Steps P (system s) (system t)

        abbrev Through : Shell P T B → Payload → Unit {0} → Shell P T B → Type 0
        Through s payload _ t =
            Steps P (system s) (system t)
            × Handled s.world.store t.world.store payload
            × (t.world.store.worker_policy ≡ s.world.store.worker_policy)

        -- the shell after a run of a job
        abbrev after_run :
            Shell P T B → Fallible (Result P) × World P → Fallible (Unit {0}) × Shell P T B
        after_run s (r, w) =
            let (r', w') = continue {B = Unit {0}} r (λ _. pure tt) w in
            (r', record s { world = w'; runs = w'.trace ∷ s.runs })

        Ends-after_run :
            (payload : Payload) (job : Job P) (s : Shell P T B) (n : ℕ)
            → outside.decode payload ≡ answered job
            → IsValid P s.world.store
            → (end : Fallible (Result P) × World P)
            → Ends
                (Completed P deps job s.world.store [] n)
                (Aborted P deps job s.world.store [] n)
                end
            → Step P (system s) (left_by P (system s) end)
            → Ends (Through s payload) (Onward s) (after_run s end)
        Ends-after_run payload job s n decoded valid (returned r, w) h step = (
          Steps.next Steps.here step,
          λ other e.
              let same : other ≡ job = cc in
              subst (λ (x : Job P). Settles x.job_id s.world.store w.store) (sym same)
                (finalize-Settles laws s.world.store w.store job.job_id r h.2.0 valid h.0 h.2.1),
          ap (λ (t : Store P). t.worker_policy) h.2.1 ∙ finalize_policy r h.2.0 s.world.store,
        )
        Ends-after_run payload job s n decoded valid (raised e, w) h step =
            Steps.next Steps.here step
        Ends-after_run payload job s n decoded valid (out_of_fuel, w) h step = absurd h

        Ends-consume :
            (payload : Payload) (s : Shell P T B) (o : Ended (Job P))
            → outside.decode payload ≡ o
            → IsValid P s.world.store
            → Ends (Through s payload) (Onward s) (in_run P T B (consume P deps o) s)
        unfolding consume
        Ends-consume payload s (answered job) decoded valid =
            let w : World P = worker_at P s.world.store s.world.moment s.world.limiter in
            Ends-after_run payload job s (0 + deps.policy.retry.max_attempts) decoded valid
              (process_job P deps job w) (process_job_once P laws deps job w below valid tt)
              (Step.work deps job s.world.moment s.world.limiter below)
        Ends-consume payload s (failed e) decoded valid =
            elim (Bool-cases (e.type_name == "ValidationError")) [
              | inl poison ↦ rw (poison, consume) (Steps.here, λ job other. cc, refl)
              | inr bad ↦ rw (bad, consume) Steps.here
            ]

        Onward-trans :
            (s t : Shell P T B)
            → Steps P (system s) (system t)
            → (e : Exc) (u : Shell P T B) → Onward t e u
            → Onward s e u
        Onward-trans s t before e u after = Steps-trans before after

        -- All the messages went through, the callbacks and the store moved by runs, and the policy on
        -- record is the same.
        abbrev pub Consumed : List Payload → Shell P T B → Unit {0} → Shell P T B → Type 0
        Consumed payloads s _ t =
            Steps P (system s) (system t)
            × All (Handled s.world.store t.world.store) payloads
            × (t.world.store.worker_policy ≡ s.world.store.worker_policy)

        pub Steps-IsValid :
            (s t : Shell P T B)
            → Steps P (system s) (system t)
            → IsValid P s.world.store
            → IsValid P t.world.store
        Steps-IsValid s t steps valid =
            History.Writes-IsValid P (Steps-Writes laws steps valid) valid

        Handled-before :
            (s t u : Shell P T B) (payload : Payload)
            → IsValid P s.world.store
            → Through s payload tt t
            → Steps P (system t) (system u)
            → Handled s.world.store u.world.store payload
        Handled-before s t u payload valid (first, handled, _) after job e =
            Settles-between {x = system s} laws job.job_id Steps.here (handled job e) after valid
              (Steps-IsValid s t first valid)

        pub All-Handled :
            (s t u : Shell P T B)
            → IsValid P s.world.store
            → Steps P (system s) (system t)
            → IsValid P u.world.store
            → (payloads : List Payload) → All (Handled t.world.store u.world.store) payloads
            → All (Handled s.world.store u.world.store) payloads
        All-Handled s t u valid before valid_u [] h = tt
        All-Handled s t u valid before valid_u (payload ∷ payloads) (h, hs) = (
          λ job e.
              Settles-between {z = system u} laws job.job_id before (h job e) Steps.here valid
                valid_u,
          All-Handled s t u valid before valid_u payloads hs,
        )

        Ends-after :
            (post : Unit {0} → Shell P T B → Type 0) (fail : Exc → Shell P T B → Type 0)
            → ((e : Exc) → outside.propagates e ≡ true)
            → (r : Fallible (Unit {0})) (t : Shell P T B) → Ends post fail (r, t)
            → Ends post fail (after_message P T B outside r, t)
        unfolding after_message
        Ends-after post fail propagates (returned _) t h = h
        Ends-after post fail propagates (raised e) t h = rw (propagates e) h
        Ends-after post fail propagates out_of_fuel t h = h

        Ends-on_message :
            (post : Unit {0} → Shell P T B → Type 0) (fail : Exc → Shell P T B → Type 0)
            → ((e : Exc) → outside.propagates e ≡ true)
            → (m : Action (Shell P T B) (Unit {0})) (s : Shell P T B) → Ends post fail (m s)
            → Ends post fail (on_message P T B outside m s)
        unfolding on_message
        Ends-on_message post fail propagates m s h =
            let (r, t) = m s in Ends-after post fail propagates r t h

        -- Consuming ends, however the runs end.
        pub consume_all-Ends :
            ((e : Exc) → outside.propagates e ≡ true)
            → (payloads : List Payload) (s : Shell P T B) → IsValid P s.world.store
            → Ends (Consumed payloads s) (Onward s) (consume_all P T B outside deps payloads s)
        unfolding consume_all consume_one
        consume_all-Ends propagates [] s valid = (Steps.here, tt, refl)
        consume_all-Ends propagates (payload ∷ payloads) s valid =
            (Hoare-bind {pre = λ x. x ≡ s} (λ r t. Through s payload r t)
                (on_message P T B outside (in_run P T B (consume P deps (outside.decode payload))))
                (λ _. consume_all P T B outside deps payloads)
                (record {
                  at = λ x e. rw e (
                      Ends-on_message (λ r t. Through s payload r t) (Onward s) propagates
                        (in_run P T B (consume P deps (outside.decode payload))) s
                        (Ends-consume payload s (outside.decode payload) refl valid));
                })
                λ _. record {
                  at = λ t h.
                      let valid_t = Steps-IsValid s t h.0 valid in
                      Ends-weaken (consume_all P T B outside deps payloads t)
                        (λ r u k. (
                          Steps-trans h.0 k.0,
                          (
                            Handled-before s t u payload valid h k.0,
                            All-Handled s t u valid h.0 (Steps-IsValid t u k.0 valid_t) payloads
                                k.1,
                          ),
                          k.2 ∙ h.2,
                        ))
                        (λ e u k. Onward-trans s t h.0 e u k)
                        (consume_all-Ends propagates payloads t valid_t);
                }).at
              s refl
