-- ===== src/Worker.antt =====
-- The worker's shell, src/llmbus/worker.py: the handshake with the broker, and one message.
pub mod Handshake
pub mod Ensured
pub mod Wiring
use llmbus.Shared.{
  ℕ, zero, suc, ◌+◌, String, Bool, true, false, not, Option, List, ◌∷◌, ◌==◌, leb, if◌then◌else◌,
}
use llmbus.Python.Exc.{Exc, Fallible, returned, raised, out_of_fuel, Ended, answered, failed}
use llmbus.Python.Action.{Action, pure, raise, lift, ◌>>=◌, ◌>>◌}
use llmbus.Python.Platform.{Platform}
use llmbus.Schema.{Job}
use llmbus.Retry.{RetryPolicy, backoff_delay}
use llmbus.Processing.Effects.{Deps, World}
use llmbus.Processing.{process_job}

module _ (P : Platform) where
  -- The clients that were made, numbered from 0, and the sleeps between, the latest first.
  pub record Attempts : Type 0 where
    pub clients : ℕ
    pub slept : List P.Float

  -- How `connect()` of each client ends, and the draw before each retry.
  pub record Network : Type 0 where
    pub connect : ℕ → Ended (Unit {0})
    pub rand : ℕ → P.Float

  -- `make_client()`, and `effects.sleep`
  abbrev pub make_client : Action Attempts ℕ
  make_client s = (returned s.clients, record s { clients = suc s.clients })

  abbrev pub sleep : P.Float → Action Attempts (Unit {0})
  sleep delay s = (returned tt, record s { slept = delay ∷ s.slept })

  -- what follows `connect()`; `again` is the next round
  after_connect :
      RetryPolicy P → Network → ℕ → Action Attempts ℕ → ℕ → Ended (Unit {0}) → Action Attempts ℕ
  after_connect policy network attempt again client (answered _) = pure client
  after_connect policy network attempt again client (failed e) =
      if not e.is_exception
      then raise e
      else if leb policy.max_attempts (attempt + 1)
      then raise e
      else (do
        delay ← lift (backoff_delay P attempt policy (network.rand attempt))
        sleep delay
        again)

  connect_round : RetryPolicy P → Network → ℕ → Action Attempts ℕ → Action Attempts ℕ
  unfolding after_connect
  connect_round policy network attempt again = do
    client ← make_client
    after_connect policy network attempt again client (network.connect client)

  -- `while True` on fuel
  connect_loop : ℕ → RetryPolicy P → Network → ℕ → Action Attempts ℕ
  connect_loop zero policy network attempt = lift out_of_fuel
  connect_loop (suc fuel) policy network attempt =
      connect_round policy network attempt (connect_loop fuel policy network (attempt + 1))

  -- The last round is the one whose `attempt + 1` reaches `max_attempts`.
  unfoldable pub connect_broker : RetryPolicy P → Network → Action Attempts ℕ
  unfolding connect_loop connect_round
  connect_broker policy network = connect_loop (suc policy.max_attempts) policy network 0

  -- the handler of `ValidationError`, and the run of a job that was decoded
  consume : Deps P → Ended (Job P) → Action (World P) (Unit {0})
  consume deps (answered job) = do process_job P deps job; pure tt
  consume deps (failed e) = if e.type_name == "ValidationError" then pure tt else raise e

  -- `_consume_one`, over a decoder of the messages' bodies
  unfoldable pub consume_one :
      {Payload : Type 0}
      → (Payload → Ended (Job P))
      → Deps P
      → Payload
      → Action (World P) (Unit {0})
  unfolding consume
  consume_one decode deps payload = consume deps (decode payload)
