-- ===== src/Worker/Wiring.antt =====
-- The wiring of src/llmbus/worker.py: the topology, the callback sender, and a worker from its settings to the end
-- of its life. The broker's client, HMAC and the HTTP client are arguments.
pub mod Consuming
pub mod Boot
pub mod Life
use Prim.Native.String.{◌++◌}
use llmbus.Shared.{
  ℕ, ◌+◌, ◌-◌, if◌then◌else◌, String, Bool, true, false, Option, none, some, List, [], ◌∷◌,
}
use llmbus.Python.Exc.{
  Exc, Fallible, returned, raised, out_of_fuel, Ended, answered, failed, ◌>>=◌ as bind,
}
use llmbus.Python.Action.{Action, pure, raise, lift, ◌>>=◌, ◌>>◌}
use llmbus.Python.Answers
use llmbus.Python.Platform.{Platform}
use llmbus.Python.Texts.{Texts}
use llmbus.Schema.{Job}
use llmbus.Retry.{RetryPolicy, WorkerPolicy}
use llmbus.Ratelimit.{RateLimiter, make_rate_limiter}
use llmbus.Store.{Store, publish_worker_policy}
use llmbus.Config.{
  Env, given_or, Config, parse_config, parse_worker_policy, parse_connect_policy, build_providers,
}
use llmbus.Processing.Effects.{Provider, Deps, World, Event}
use llmbus.Processing.Effects
use llmbus.Store.Connection.{left}
use llmbus.Worker.{Attempts, Network, connect_broker, consume_one}

pub record Topology : Type 0 where
  pub stream : String
  pub topic : String
  pub consumer_group : String
  pub partitions : ℕ

abbrev pub default_topology : Topology
default_topology = record {
  stream = "llmbus";
  topic = "llm-jobs";
  consumer_group = "llm-workers";
  partitions = 1;
}

-- What is asked of the broker's client.
pub record Broker : Type 1 where
  pub State : Type 0
  pub has_stream : String → Action State Bool
  pub create_stream : String → Action State (Unit {0})
  pub has_topic : String → String → Action State Bool
  pub create_topic : String → String → ℕ → Action State (Unit {0})

module _ (B : Broker) where
  -- `if await ... is None: await ...`
  unfoldable pub unless_found : Action B.State (Unit {0}) → Bool → Action B.State (Unit {0})
  unless_found create true = pure tt
  unless_found create false = create

  unfoldable pub ensure_topology : Topology → Action B.State (Unit {0})
  unfolding unless_found
  ensure_topology topology = do
    stream_found ← B.has_stream topology.stream
    unless_found (B.create_stream topology.stream) stream_found
    topic_found ← B.has_topic topology.stream topology.topic
    unless_found (B.create_topic topology.stream topology.topic topology.partitions) topic_found

module _ {Body : Type 0} (hexdigest : String → Body → String) where
  -- `callback_signature`, over the HMAC-SHA256 of a secret and a body
  abbrev pub callback_signature : String → Body → String
  callback_signature secret body = "sha256=" ++ hexdigest secret body

  unfoldable pub callback_headers : Option String → Body → List (String × String)
  callback_headers none body = ("Content-Type", "application/json") ∷ []
  callback_headers (some secret) body =
      ("Content-Type", "application/json")
      ∷ ("X-Llmbus-Signature-256", callback_signature secret body)
      ∷ []

  -- `make_callback_sender`: the bytes that are signed are the bytes that are posted
  unfoldable pub make_callback_sender :
      {Payload Reply : Type 0}
      → (Payload → Body)
      → (String → Body → List (String × String) → Ended Reply)
      → (Reply → Ended (Unit {0}))
      → Option String
      → String
      → Payload
      → Ended (Unit {0})
  make_callback_sender encode post raise_for_status secret url payload =
      let body = encode payload in
      Answers.◌>>=◌ (post url body (callback_headers secret body)) raise_for_status

-- How `store.connect()` ends: connected, or with an exception and no connection, or with an
-- exception that came after the driver had opened its connection.
pub data Opening : Type 0 where
  opened : Opening
  refused : Exc → Opening
  left_behind : Exc → Opening

module _ (P : Platform) (T : Texts P.Float) where
  pub record Settings : Type 0 where
    pub config : Config P T
    pub policy : WorkerPolicy P
    pub connect_policy : RetryPolicy P

  -- `_load`
  unfoldable pub load_settings : Option Env → Env → Fallible Settings
  load_settings env process = bind (parse_config P T (given_or env process)) λ config.
      bind (parse_worker_policy P T (given_or env process)) λ policy.
        bind (parse_connect_policy P T (given_or env process)) λ connect_policy.
          returned (record { config = config; policy = policy; connect_policy = connect_policy })

  -- What the outside does: how the store opens, how it and the HTTP client close, the network,
  -- the clock readings, the adapters, how a callback ends, how the worker joins the consumer
  -- group, and the messages that the consumer hands over until it is shut down, in order.
  pub record Outside (Payload : Type 0) : Type 0 where
    pub store_opens : Opening
    pub store_closes : Ended (Unit {0})
    pub http_closes : Ended (Unit {0})
    pub network : Network P
    pub stamped : P.Datetime
    pub started : P.Float
    pub openai : String → Provider P
    pub anthropic : String → Provider P
    pub env : Option String → Effects.Env P
    pub decode : Payload → Ended (Job P)
    pub joined : Ended (Unit {0})
    pub messages : List Payload
    -- whether the consumer ends with an exception of its callback, or goes on with the next message
    pub propagates : Exc → Bool

  module _ (B : Broker) where
    -- What a worker works on: the store and its limiter, the handshake and the broker. `runs` has
    -- the trace of each message that was handled, the latest first.
    pub record Shell : Type 0 where
      pub world : World P
      pub runs : List (List (Event P))
      pub attempts : Attempts P
      pub broker : B.State

    -- A worker, whether its `Store` is connected, how many connections to the database it opened and
    -- did not close, and whether its HTTP client is open.
    pub record Process : Type 0 where
      pub shell : Shell
      pub store_open : Bool
      pub store_connections : ℕ
      pub http_open : Bool

    -- before `run_worker`
    abbrev pub idle : Shell → Process
    idle s = record { shell = s; store_open = false; store_connections = 0; http_open = false }

    abbrev pub on_shell : {A : Type 0} → Action Shell A → Action Process A
    on_shell m p = let (r, s) = m p.shell in (r, record p { shell = s })

    abbrev on_world : {A : Type 0} → Action (World P) A → Action Shell A
    on_world m s = let (r, w) = m s.world in (r, record s { world = w })

    abbrev on_tables : {A : Type 0} → Action (Store P) A → Action (World P) A
    on_tables m w = let (r, t) = m w.store in (r, record w { store = t })

    abbrev on_attempts : {A : Type 0} → Action (Attempts P) A → Action Shell A
    on_attempts m s = let (r, a) = m s.attempts in (r, record s { attempts = a })

    abbrev on_broker : {A : Type 0} → Action B.State A → Action Shell A
    on_broker m s = let (r, b) = m s.broker in (r, record s { broker = b })

    -- `httpx.AsyncClient(...)` and `store.connect()`
    open_http : Action Process (Unit {0})
    open_http p = (returned tt, record p { http_open = true })

    open_store : Opening → Action Process (Unit {0})
    open_store opened p =
        (returned tt, record p { store_open = true; store_connections = p.store_connections + 1 })
    open_store (refused e) p = (raised e, p)
    open_store (left_behind e) p =
        (raised e, record p { store_connections = p.store_connections + 1 })

    -- `store.close()`, which does nothing on a store that is not connected
    end_store : Ended (Unit {0}) → Action Process (Unit {0})
    end_store (answered _) p =
        (returned tt, record p { store_open = false; store_connections = p.store_connections - 1 })
    end_store (failed e) p = (raised e, p)

    close_store : Ended (Unit {0}) → Action Process (Unit {0})
    unfolding end_store
    close_store closes p = if p.store_open then end_store closes p else (returned tt, p)

    -- `http_client.aclose()`
    close_http : Ended (Unit {0}) → Action Process (Unit {0})
    close_http (answered _) p = (returned tt, record p { http_open = false })
    close_http (failed e) p = (raised e, p)

    -- `client.consumer_group(...)`, by how it ends
    join_group : Ended (Unit {0}) → Action Shell (Unit {0})
    join_group (answered _) = pure tt
    join_group (failed e) = raise e

    set_limiter : RateLimiter P → Action (World P) (Unit {0})
    set_limiter limiter w = (returned tt, record w { limiter = limiter })

    -- The handling of one message, with a trace of its own.
    abbrev pub in_run : {A : Type 0} → Action (World P) A → Action Shell A
    in_run m s =
        let (r, w) = m (record s.world { trace = [] }) in
        (r, record s { world = w; runs = w.trace ∷ s.runs })

    -- the `finally` clause: an exception of the first call skips the second, and one of either takes
    -- the place of the body's end
    close_all :
        {A : Type 0}
        → Ended (Unit {0})
        → Ended (Unit {0})
        → Fallible A × Process
        → Fallible A × Process
    unfolding close_store close_http
    close_all store_closes http_closes (r, p) =
        let (c, p') = (close_store store_closes >> close_http http_closes) p in (left P r c, p')

    module _ {Payload : Type 0} (outside : Outside Payload) where
      -- `WorkerDeps(...)`
      deps_of : Settings → Deps P
      deps_of settings = record {
        providers = build_providers P T outside.openai outside.anthropic settings.config;
        policy = settings.policy;
        env = outside.env settings.config.callback_secret;
      }

      -- how `consume_messages` takes the end of its callback
      after_message : Fallible (Unit {0}) → Fallible (Unit {0})
      after_message (returned _) = returned tt
      after_message (raised e) = if outside.propagates e then raised e else returned tt
      after_message out_of_fuel = out_of_fuel

      on_message : Action Shell (Unit {0}) → Action Shell (Unit {0})
      unfolding after_message
      on_message m s = let (r, s') = m s in (after_message r, s')

      -- `consumer.consume_messages(on_message, shutdown)`
      unfoldable pub consume_all : Deps P → List Payload → Action Shell (Unit {0})
      unfolding on_message
      consume_all deps [] = pure tt
      consume_all deps (payload ∷ payloads) =
          on_message (in_run (consume_one P outside.decode deps payload))
          >> consume_all deps payloads

      -- the body of the `try`, once the store is open
      run_body : Settings → Topology → Action Shell (Unit {0})
      unfolding set_limiter join_group deps_of consume_all
      run_body settings topology = do
        on_world (on_tables (publish_worker_policy P settings.policy outside.stamped))
        client ← on_attempts (connect_broker P settings.connect_policy outside.network)
        on_broker (ensure_topology B topology)
        limiter ← lift (make_rate_limiter P settings.config.rate_limits outside.started)
        on_world (set_limiter limiter)
        join_group outside.joined
        consume_all (deps_of settings) outside.messages

      run_settings : Settings → Topology → Action Process (Unit {0})
      unfolding run_body open_http open_store close_all
      run_settings settings topology = open_http >> λ p.
          close_all outside.store_closes outside.http_closes
            ((open_store outside.store_opens >> on_shell (run_body settings topology)) p)

      -- `run_worker`: settings that cannot be read raise before anything is opened
      unfoldable pub run_worker : Option Env → Env → Topology → Action Process (Unit {0})
      unfolding run_settings
      run_worker env process topology = do
        settings ← lift (load_settings env process)
        run_settings settings topology
