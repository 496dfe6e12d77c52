-- ===== src/Worker/Wiring/Life.antt =====
-- The whole life of a worker, from its settings to the end of its consumption.
use llmbus.Shared.{◌≡◌, refl, ◌∙◌, true, false, Option, some, All}
use llmbus.Python.Exc.{
  Exc, Fallible, returned, raised, out_of_fuel, IsFinal, Ended, answered, failed,
}
use llmbus.Python.Action.{lift, continue, ◌>>◌}
use llmbus.Python.Hoare.{Ends, Ends-weaken, Hoare, Hoare-bind}
use llmbus.Python.Outcome.{EndsIn}
use llmbus.Python.Platform.{Platform, TextLaws, FloatLaws}
use llmbus.Python.Texts.{Texts}
use llmbus.Retry.{retry_budget_seconds}
use llmbus.Ratelimit.{RateLimiter, make_rate_limiter}
use llmbus.Store.{Store, publish_worker_policy, read_worker_policy}
use llmbus.Store.Published.{published, read_worker_policy-publish, read_worker_policy-same}
use llmbus.Store.Jobs.{IsValid}
use llmbus.Store.History.{Write}
use llmbus.Config.{Env}
use llmbus.Config.Checks.{IsConfigError}
use llmbus.Processing.Once.{System, Step, Steps}
use llmbus.Worker.{connect_broker}
use llmbus.Worker.Handshake.{Connected, GaveUp, connect_broker-Ends}
use llmbus.Worker.Ensured.{BrokerLaws, Ensured, NothingLost, ensure_topology-Ends}
use llmbus.Worker.Wiring.{
  Topology, Broker, ensure_topology, Settings, load_settings, Outside, Shell, on_world, on_tables,
  on_attempts, on_broker, open_http, open_store, end_store, close_store, close_http, join_group,
  set_limiter, close_all, deps_of, Opening, opened, refused, left_behind, Process, idle, on_shell,
  consume_all, run_body, run_settings, run_worker,
}
use llmbus.Worker.Wiring.Consuming.{
  Steps-trans, system, Handled, All-Handled, Steps-IsValid, consume_all-Ends,
}
use llmbus.Worker.Wiring.Boot.{
  make_rate_limiter-IsFinal, publish-IsFinal, Attempted, load_settings_ends, Ends-IsFinal,
  Ends-final,
}

module _ (P : Platform) (T : Texts P.Float) {Payload : Type 0} (outside : Outside P T Payload) where
  -- A budget that can be computed is on record, with the policy it belongs to.
  abbrev pub OnRecord : Settings P T → Store P → Type 0
  OnRecord settings t =
      (budget : P.Float)
      → retry_budget_seconds P settings.policy ≡ returned budget
      → read_worker_policy P t ≡ some (published P settings.policy budget outside.stamped)

  module _ (B : Broker) where
    abbrev pub Closed : Process P T B → Type 0
    Closed p = (p.store_open ≡ false) × (p.store_connections ≡ 0) × (p.http_open ≡ false)

    -- What is open after a worker that raised, and why.
    pub data Remains (e : Exc) (p : Process P T B) : Type 0 where
      all_closed : Closed p → Remains e p
      -- connecting the store failed after the driver had a connection, which nothing closes
      left_open :
          outside.store_opens ≡ left_behind e
          → (p.store_open ≡ false) × (p.store_connections ≡ 1) × (p.http_open ≡ false)
          → Remains e p
      -- the store did not close, so the HTTP client was not closed either
      store_stuck :
          outside.store_closes ≡ failed e
          → (p.store_open ≡ true) × (p.store_connections ≡ 1) × (p.http_open ≡ true)
          → Remains e p
      -- the HTTP client did not close
      http_stuck :
          outside.http_closes ≡ failed e
          → (p.store_open ≡ false) × (p.http_open ≡ true)
          → Remains e p

    -- The store and the callbacks moved by writes and runs, and what is still open has its reason.
    abbrev pub Released : Shell P T B → Exc → Process P T B → Type 0
    Released s e p = Remains e p × Steps P (system P T B s) (system P T B p.shell)

    -- It read its settings, its policy is on record, and every job that was handed to it is settled.
    abbrev pub Served : Option Env → Env → Shell P T B → Unit {0} → Process P T B → Type 0
    Served env process s _ p =
        Closed p
        × Steps P (system P T B s) (system P T B p.shell)
        × ((settings : Settings P T) × (load_settings P T env process ≡ returned settings)
            × OnRecord settings p.shell.world.store)
        × All (Handled P T B outside s.world.store p.shell.world.store) outside.messages

module _ (P : Platform) (T : Texts P.Float) (B : Broker) (b : BrokerLaws B) (texts : TextLaws P)
    (floats : FloatLaws P) {Payload : Type 0} (outside : Outside P T Payload)
    (propagates : (e : Exc) → outside.propagates e ≡ true) where
  module _ (settings : Settings P T) (can : Attempted P T floats settings) (topology : Topology)
      (s : Shell P T B) (valid : IsValid P s.world.store) where
    abbrev sys : Shell P T B → System P
    sys x = system P T B x

    -- The store and the callbacks moved by writes and runs.
    abbrev Moved : Shell P T B → Type 0
    Moved x = Steps P (sys s) (sys x) × OnRecord P T outside settings x.world.store

    abbrev Fresh : Shell P T B → Type 0
    Fresh x = Steps P (sys s) (sys x) × (x.attempts.clients ≡ 0)

    abbrev Announced : Shell P T B → Type 0
    Announced x = Moved x × (x.attempts.clients ≡ 0)

    abbrev Left : Shell P T B → Type 0
    Left x = Steps P (sys s) (sys x)

    abbrev Failed : Exc → Shell P T B → Type 0
    Failed e x = Left x

    abbrev Delivered : Unit {0} → Shell P T B → Type 0
    Delivered _ x =
        Steps P (sys s) (sys x)
        × OnRecord P T outside settings x.world.store
        × All (Handled P T B outside s.world.store x.world.store) outside.messages

    Ends-published :
        (x : Shell P T B) (r : Fallible (Unit {0})) (t : Store P)
        → IsFinal r
        → Write P x.world.store t
        → OnRecord P T outside settings t
        → Fresh x
        → Ends (λ _ y. Announced y) Failed (r, record x { world = record x.world { store = t } })
    Ends-published x (returned _) t final w on h = ((Steps.next h.0 (Step.write w), on), h.1)
    Ends-published x (raised e) t final w on h = Steps.next h.0 (Step.write w)
    Ends-published x out_of_fuel t final w on h = absurd final

    Hoare-publish :
        Hoare Fresh
          (on_world P T B
            (on_tables P T B (publish_worker_policy P settings.policy outside.stamped)))
          (λ _ x. Announced x)
          Failed
    Hoare-publish = record {
      at = λ x h.
          let (r, t) = publish_worker_policy P settings.policy outside.stamped x.world.store in
          Ends-published x r t (publish-IsFinal P settings.policy outside.stamped x.world.store)
            (Write.publish settings.policy outside.stamped)
            (λ budget e.
              (read_worker_policy-publish P texts settings.policy outside.stamped budget
                x.world.store e).0)
            h;
    }

    Hoare-handshake :
        Hoare Announced
          (on_attempts P T B (connect_broker P settings.connect_policy outside.network))
          (λ _ x. Moved x)
          Failed
    Hoare-handshake = record {
      at = λ x h.
          let (r, a) = connect_broker P settings.connect_policy outside.network x.attempts in
          Ends-final Moved r (record x { attempts = a })
            (Ends-IsFinal (Connected P settings.connect_policy outside.network)
              (GaveUp P settings.connect_policy outside.network) r a
              (connect_broker-Ends P settings.connect_policy outside.network x.attempts can.1 h.1))
            h.0 Left (λ k. k.0);
    }

    Hoare-ensure :
        Hoare Moved (on_broker P T B (ensure_topology B topology)) (λ _ x. Moved x) Failed
    Hoare-ensure = record {
      at = λ x h.
          let (r, a) = ensure_topology B topology x.broker in
          Ends-final Moved r (record x { broker = a })
            (Ends-IsFinal (Ensured B b topology x.broker) (NothingLost B b topology x.broker) r a
              (ensure_topology-Ends B b topology x.broker))
            h Left (λ k. k.0);
    }

    Hoare-join : (o : Ended (Unit {0})) → Hoare Moved (join_group P T B o) (λ _ x. Moved x) Failed
    unfolding join_group
    Hoare-join (answered _) = record { at = λ x h. h }
    Hoare-join (failed e) = record { at = λ x h. h.0 }

    Hoare-consume :
        Hoare Moved
          (consume_all P T B outside (deps_of P T B outside settings) outside.messages)
          Delivered
          Failed
    unfolding deps_of
    Hoare-consume = record {
      at = λ x h.
          let deps = deps_of P T B outside settings in
          let valid_x = Steps-IsValid P T B outside texts deps can.0 s x h.0 valid in
          Ends-weaken (consume_all P T B outside deps outside.messages x)
            (λ r y k. (
              Steps-trans P h.0 k.0,
              λ budget e. read_worker_policy-same P x.world.store y.world.store k.2 ∙ h.1 budget e,
              All-Handled P T B outside texts deps can.0 s x y valid h.0
                  (Steps-IsValid P T B outside texts deps can.0 x y k.0 valid_x) outside.messages
                  k.1,
            ))
            (λ e y k. Steps-trans P h.0 k)
            (consume_all-Ends P T B outside texts deps can.0 propagates outside.messages x valid_x);
    }

    Hoare-limiter :
        Hoare Moved
          (lift (make_rate_limiter P settings.config.rate_limits outside.started))
          (λ _ x. Moved x)
          Failed
    Hoare-limiter = record {
      at = λ x h.
          Ends-final Moved (make_rate_limiter P settings.config.rate_limits outside.started) x
            (make_rate_limiter-IsFinal P settings.config.rate_limits outside.started) h Left
            (λ k. k.0);
    }

    Hoare-set_limiter :
        (limiter : RateLimiter P)
        → Hoare Moved (on_world P T B (set_limiter P T B limiter)) (λ _ x. Moved x) Failed
    unfolding set_limiter
    Hoare-set_limiter limiter = record { at = λ x h. h }

    Hoare-run_body : Hoare Fresh (run_body P T B outside settings topology) Delivered Failed
    unfolding run_body
    Hoare-run_body = Hoare-bind _ _ _ Hoare-publish λ _. Hoare-bind _ _ _ Hoare-handshake λ client.
        Hoare-bind _ _ _ Hoare-ensure λ _. Hoare-bind _ _ _ Hoare-limiter λ limiter.
          Hoare-bind _ _ _ (Hoare-set_limiter limiter)
            λ _. Hoare-bind _ _ _ (Hoare-join outside.joined) λ _. Hoare-consume

    -- A worker with an open store and an open HTTP client.
    abbrev running : Shell P T B → Process P T B
    running x = record { shell = x; store_open = true; store_connections = 1; http_open = true }

    moved :
        (r : Fallible (Unit {0})) (x : Shell P T B)
        → Ends Delivered Failed (r, x)
        → Steps P (sys s) (sys x)
    moved (returned _) x h = h.0
    moved (raised e) x h = h
    moved out_of_fuel x h = absurd h

    -- What `close_all` makes of the end of the body.
    Ends-close_all :
        (env : Option Env) (process : Env)
        → load_settings P T env process ≡ returned settings
        → (a c : Ended (Unit {0})) → outside.store_closes ≡ a
        → outside.http_closes ≡ c
        → (r : Fallible (Unit {0})) (x : Shell P T B) → Ends Delivered Failed (r, x)
        → Ends
            (Served P T outside B env process s)
            (Released P T outside B s)
            (close_all P T B a c (r, running x))
    unfolding close_all close_store end_store close_http
    Ends-close_all env process e (answered _) (answered _) ea ec (returned _) x h =
        ((refl, refl, refl), h.0, (settings, e, h.1), h.2)
    Ends-close_all env process e (answered _) (answered _) ea ec (raised y) x h =
        (Remains.all_closed (refl, refl, refl), h)
    Ends-close_all env process e (answered _) (answered _) ea ec out_of_fuel x h = absurd h
    Ends-close_all env process e (answered _) (failed y) ea ec r x h =
        (Remains.http_stuck ec (refl, refl), moved r x h)
    Ends-close_all env process e (failed y) c ea ec r x h =
        (Remains.store_stuck ea (refl, refl, refl), moved r x h)

    -- The same from the opening of the store on.
    Ends-opening :
        s.attempts.clients ≡ 0
        → (o : Opening) → outside.store_opens ≡ o
        → (a c : Ended (Unit {0})) → outside.store_closes ≡ a
        → outside.http_closes ≡ c
        → (env : Option Env) (process : Env) → load_settings P T env process ≡ returned settings
        → Ends (Served P T outside B env process s) (Released P T outside B s) (
            close_all P T B a c (
              (open_store P T B o >> on_shell P T B (run_body P T B outside settings topology))
                (record (idle P T B s) { http_open = true })))
    unfolding close_all close_store close_http open_store
    Ends-opening none_yet opened eo a c ea ec env process e =
        let (r, x) = run_body P T B outside settings topology s in
        Ends-close_all env process e a c ea ec r x (Hoare-run_body.at s (Steps.here, none_yet))
    Ends-opening none_yet (refused y) eo a (answered _) ea ec env process e =
        (Remains.all_closed (refl, refl, refl), Steps.here)
    Ends-opening none_yet (refused y) eo a (failed z) ea ec env process e =
        (Remains.http_stuck ec (refl, refl), Steps.here)
    Ends-opening none_yet (left_behind y) eo a (answered _) ea ec env process e =
        (Remains.left_open eo (refl, refl, refl), Steps.here)
    Ends-opening none_yet (left_behind y) eo a (failed z) ea ec env process e =
        (Remains.http_stuck ec (refl, refl), Steps.here)

  Ends-run_settings :
      (env : Option Env) (process : Env) (topology : Topology) (s : Shell P T B)
      → IsValid P s.world.store
      → s.attempts.clients ≡ 0
      → (r : Fallible (Settings P T)) → load_settings P T env process ≡ r
      → EndsIn (Attempted P T floats) IsConfigError r
      → Ends
          (Served P T outside B env process s)
          (Released P T outside B s)
          (continue r (λ settings. run_settings P T B outside settings topology) (idle P T B s))
  unfolding run_settings open_http
  Ends-run_settings env process topology s valid none_yet (returned settings) e can =
      Ends-opening settings can topology s valid none_yet outside.store_opens refl
        outside.store_closes outside.http_closes refl refl env process e
  Ends-run_settings env process topology s valid none_yet (raised x) e bad =
      (Remains.all_closed (refl, refl, refl), Steps.here)
  Ends-run_settings env process topology s valid none_yet out_of_fuel e h = absurd h

  -- A worker over a broker that keeps its laws, a consumer that ends with an exception of its
  -- callback, and a store whose primary key holds ends, whatever the settings, the network, the
  -- adapters, the callbacks and the messages are, and however the opening and the closing of
  -- the store and the closing of the HTTP client end. The store and the callbacks moved by
  -- writes to the store and runs of a worker that is allowed an attempt. When it returns, the
  -- store and the HTTP client are closed, its settings were read, its policy is on record if
  -- its budget can be computed, and every message that is a job whose row was there when the
  -- worker began has a terminal row. When it raises, all is closed as well, but for the
  -- connection of a store that failed after the driver had it, and for what an exception of a
  -- closing kept open: it keeps the HTTP client open if it is the store's.
  pub run_worker-Ends :
      (env : Option Env) (process : Env) (topology : Topology) (s : Shell P T B)
      → IsValid P s.world.store
      → s.attempts.clients ≡ 0
      → Ends
          (Served P T outside B env process s)
          (Released P T outside B s)
          (run_worker P T B outside env process topology (idle P T B s))
  unfolding run_worker
  run_worker-Ends env process topology s valid none_yet =
      Ends-run_settings env process topology s valid none_yet (load_settings P T env process) refl
        (load_settings_ends P T floats env process)
