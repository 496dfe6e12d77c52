-- ===== src/Client/Session.antt =====
-- The life of a `BusClient` of src/llmbus/client.py: from its settings to its closing.
pub mod Life
use llmbus.Shared.{String, Option}
use llmbus.Python.Exc.{Fallible, returned, Ended, ◌>>=◌ as bind}
use llmbus.Python.Action.{Action, ◌>>◌}
use llmbus.Python.Platform.{Platform}
use llmbus.Python.Texts.{Texts}
use llmbus.Config.{Env, Config, load_config, iggy_connection_string}
use llmbus.Store.{Store, read_worker_policy}
use llmbus.Store.Rows.{PublishedWorkerPolicy}
use llmbus.Store.Connection.{Driver, Handle, attempt, left}
use llmbus.Store.Connection
use llmbus.Worker.Wiring.{Topology, Broker, ensure_topology}

module _ (P : Platform) (T : Texts P.Float) where
  -- what `BusClient` is made of: the text its Iggy client connects by, the path of its store, and the
  -- names of its topology
  pub record BusClient : Type 0 where
    pub connection_string : String
    pub db_path : String
    pub topology : Topology

  unfoldable pub from_config : Config P T → Topology → BusClient
  from_config config topology = record {
    connection_string =
        iggy_connection_string P T config.iggy_address config.iggy_username config.iggy_password;
    db_path = config.db_path;
    topology = topology;
  }

  unfoldable pub from_env : Option Env → Env → Topology → Fallible BusClient
  from_env env process topology =
      bind (load_config P T env process) λ config. returned (from_config config topology)

  module _ (B : Broker) where
    -- The broker as the client's connection finds it, and the store that the client owns.
    pub record Session : Type 0 where
      pub broker : B.State
      pub store : Handle P

    abbrev pub on_session_broker : {A : Type 0} → Action B.State A → Action Session A
    on_session_broker m s = let (r, b) = m s.broker in (r, record s { broker = b })

    abbrev pub on_session_store : {A : Type 0} → Action (Handle P) A → Action Session A
    on_session_store m s = let (r, h) = m s.store in (r, record s { store = h })

    unfoldable pub connect : Driver → Ended (Unit {0}) → BusClient → Action Session (Unit {0})
    connect driver iggy client = do
      on_session_store (Connection.connect P driver)
      attempt iggy
      on_session_broker (ensure_topology B client.topology)

    unfoldable pub close : Driver → Action Session (Unit {0})
    close driver = on_session_store (Connection.close P driver.closes)

    -- the block of an `async with` statement, and `__aexit__`
    left_by : {A : Type 0} → Driver → Fallible A × Session → Fallible A × Session
    unfolding close
    left_by driver (r, s) = let (c, s') = close driver s in (left P r c, s')

    -- `async with BusClient.from_env() as bus`
    unfoldable pub with_client :
        {A : Type 0} → Driver → Ended (Unit {0}) → BusClient → Action Session A → Action Session A
    unfolding connect left_by
    with_client driver iggy client m = connect driver iggy client >> λ s. left_by driver (m s)

  unfoldable pub worker_policy : Store P → Option (PublishedWorkerPolicy P)
  worker_policy s = read_worker_policy P s
