-- ===== src/Client/Session/Life.antt =====
-- What an `async with` block on a `BusClient` of src/llmbus/client.py leaves of the store and the broker.
use llmbus.Shared.{◌≡◌, refl, ap, none}
use llmbus.Python.Exc.{Exc, Fallible, returned, raised, out_of_fuel, Ended, failed}
use llmbus.Python.Action.{Action, continue}
use llmbus.Python.Hoare.{Ends, Ends-weaken, Ends-within, Hoare, Hoare-bind, Hoare-from}
use llmbus.Python.Platform.{Platform}
use llmbus.Python.Texts.{Texts}
use llmbus.Store.Connection.{Driver, Handle, Tables, attempt, left}
use llmbus.Store.Connection
use llmbus.Store.Connection.Creating.{Hoare-attempt}
use llmbus.Store.Connection.Opening.{Refused, connected, Hoare-connect, close-Ends}
use llmbus.Worker.Wiring.{Broker, ensure_topology}
use llmbus.Worker.Ensured.{BrokerLaws, Ensured, NothingLost, ensure_topology-Ends}
use llmbus.Client.Session.{
  BusClient, Session, on_session_broker, on_session_store, connect, close, left_by, with_client,
}

module _ (P : Platform) (T : Texts P.Float) (B : Broker) (b : BrokerLaws B) (driver : Driver)
    (iggy : Ended (Unit {0})) (client : BusClient P T) (s : Session P T B) where
  abbrev opened : Session P T B
  opened = record s { store = connected P s.store }

  -- Connected, with the topology at the broker.
  abbrev pub Ready : Session P T B → Type 0
  Ready x = (x.store ≡ connected P s.store) × Ensured B b client.topology s.broker tt x.broker

  -- Why a client did not connect, and what is open then.
  pub data Unready : Exc → Session P T B → Type 0 where
    -- the store refused
    unopened :
        {e : Exc} {x : Session P T B}
        → Refused P driver s.store e x.store
        → x.broker ≡ s.broker
        → Unready e x
    -- the broker was not reached, and the store is still open
    unreached : {e : Exc} → iggy ≡ failed e → Unready e opened
    -- the topology was not made, and the store is still open
    unensured :
        {e : Exc} {x : Session P T B}
        → x.store ≡ connected P s.store
        → NothingLost B b client.topology s.broker e x.broker
        → Unready e x

  Hoare-store :
      Hoare
        (λ x. x ≡ s)
        (on_session_store P T B (Connection.connect P driver))
        (λ _ x. x ≡ opened)
        Unready
  Hoare-store = Hoare-from s _ (
      Ends-within _ _ (λ h. record s { store = h }) (Connection.connect P driver s.store)
        (Ends-weaken (Connection.connect P driver s.store)
          (λ _ h k. ap (λ (y : Handle P). record s { store = y }) k)
          (λ e h k. Unready.unopened k refl) ((Hoare-connect P driver s.store).at s.store refl)))

  Hoare-iggy : Hoare (λ x. x ≡ opened) (attempt iggy) (λ _ x. x ≡ opened) Unready
  Hoare-iggy = Hoare-attempt iggy λ e x why h. rw h (Unready.unreached why)

  Hoare-topology :
      Hoare
        (λ x. x ≡ opened)
        (on_session_broker P T B (ensure_topology B client.topology))
        (λ _ x. Ready x)
        Unready
  Hoare-topology = Hoare-from opened _ (
      Ends-within _ _ (λ t. record opened { broker = t })
        (ensure_topology B client.topology s.broker)
        (Ends-weaken (ensure_topology B client.topology s.broker) (λ _ t k. (refl, k))
          (λ e t k. Unready.unensured refl k) (ensure_topology-Ends B b client.topology s.broker)))

  Hoare-Ready : Hoare (λ x. x ≡ s) (connect P T B driver iggy client) (λ _ x. Ready x) Unready
  unfolding connect
  Hoare-Ready = Hoare-bind _ _ _ Hoare-store λ _. Hoare-bind _ _ _ Hoare-iggy λ _. Hoare-topology

  module _ {A : Type 0} (m : Action (Session P T B) A) where
    -- How the block ends, in a result and a state.
    pub data Lived : Fallible A → Session P T B → Type 0 where
      -- the client did not connect, and the body did not run
      unready : {e : Exc} {x : Session P T B} → Unready e x → Lived (raised e) x
      -- the body ran on a client that is ready, and the store is closed
      ended :
          {t x : Session P T B}
          → Ready t
          → x.store.db ≡ none
          → (x.store.disk ≡ (m t).1.store.disk) × (x.broker ≡ (m t).1.broker)
          → Lived (m t).0 x
      -- so, but closing the store raised
      unclosed :
          {t x : Session P T B} {e : Exc} → Ready t → driver.closes ≡ failed e → Lived (raised e) x

    Lived-closed :
        (t : Session P T B)
        → Ready t
        → (c : Fallible (Unit {0}) × Handle P)
        → Ends
            (λ _ x. (x.db ≡ none) × (x.disk ≡ (m t).1.store.disk))
            (λ e x. driver.closes ≡ failed e)
            c
        → Lived (left P (m t).0 c.0) (record (m t).1 { store = c.1 })
    Lived-closed t h (returned _, x) k = Lived.ended h k.0 (k.1, refl)
    Lived-closed t h (raised e, x) k = Lived.unclosed h k
    Lived-closed t h (out_of_fuel, x) k = absurd k

    Lived-left_by :
        (t : Session P T B)
        → Ready t
        → Lived (left_by P T B driver (m t)).0 (left_by P T B driver (m t)).1
    unfolding left_by close
    Lived-left_by t h = Lived-closed t h _ (close-Ends P driver.closes (m t).1.store)

    Lived-connect :
        (end : Fallible (Unit {0}) × Session P T B)
        → Ends (λ _ x. Ready x) Unready end
        → Lived
            (continue end.0 (λ _ t. left_by P T B driver (m t)) end.1).0
            (continue end.0 (λ _ t. left_by P T B driver (m t)) end.1).1
    Lived-connect (returned _, t) h = Lived-left_by t h
    Lived-connect (raised e, x) h = Lived.unready h
    Lived-connect (out_of_fuel, x) h = absurd h

  -- On a broker that keeps its laws, an `async with` block on a client ends in one of three ways.
  -- The client did not connect, and the body did not run: the store refused, with no table lost on
  -- disk, or the broker could not be reached or the topology not be made, and then the store is
  -- still open, since the exit of the block does not run. Or the body ran with the store open on the
  -- tables that were found and with the topology at the broker: the block ends as the body does, with the
  -- store closed, and the file and the broker as the body left them. Or it ran so, and the block
  -- raises because closing the store did.
  pub with_client-Lived :
      {A : Type 0} (m : Action (Session P T B) A)
      → Lived m
          (with_client P T B driver iggy client m s).0
          (with_client P T B driver iggy client m s).1
  unfolding with_client
  with_client-Lived m = Lived-connect m (connect P T B driver iggy client s) (Hoare-Ready.at s refl)
