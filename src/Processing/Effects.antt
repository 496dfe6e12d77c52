-- ===== src/Processing/Effects.antt =====
-- What a run of the worker sees and what it leaves: the injected effects of `WorkerDeps` in
-- src/llmbus/processing.py. Every answer of the outside is a function of a moment that the run counts up.
use llmbus.Shared.{ℕ, suc, String, List, ◌∷◌}
use llmbus.Python.Exc.{Ended, returned}
use llmbus.Python.Action.{Action}
use llmbus.Python.Platform.{Platform}
use llmbus.Schema.{Usage, Message, JobParams, Result}
use llmbus.Retry.{WorkerPolicy}
use llmbus.Ratelimit.{RateLimiter}
use llmbus.Store.{Store}

module _ (P : Platform) where
  -- `ProviderResult` of src/llmbus/providers/base.py
  pub record ProviderResult : Type 0 where
    pub completion : String
    pub usage : Usage P

  -- A provider's name and its model call, as it ends under the timeout that it is given: with a
  -- result, or with an exception of the SDK, of the adapter or of the timeout.
  pub record Provider : Type 0 where
    pub name : String
    pub call : ℕ → P.Float → String → List Message → JobParams P → Ended ProviderResult

  -- What is read off the outside at each moment: the wall clock, the limiter's clock, a random draw,
  -- the clock reading that the store stamps a result with, and how a callback POST ends.
  pub record Env : Type 0 where
    pub now : ℕ → P.Datetime
    pub monotonic : ℕ → P.Float
    pub rand : ℕ → P.Float
    pub stamp : ℕ → P.Datetime
    pub deliver : ℕ → String → Result P → Ended (Unit {0})

  pub record Deps : Type 0 where
    pub providers : List (String × Provider)
    pub policy : WorkerPolicy P
    pub env : Env

  -- What a run does to the outside, and the deadline checks between, in order: a reading of the
  -- wall clock, a reservation, a sleep, a model call, a callback.
  pub data Event : Type 0 where
    looked : P.Datetime → Event
    acquired : String → Event
    slept : P.Float → Event
    called : String → Event
    posted : String → Result P → Event

  pub record World : Type 0 where
    pub moment : ℕ
    pub limiter : RateLimiter P
    pub store : Store P
    -- the latest event first
    pub trace : List Event

  -- An answer of the outside at the current moment; the next reading is a later one.
  abbrev pub ask : {A : Type 0} → (ℕ → A) → Action World A
  ask answer w = (returned (answer w.moment), record w { moment = suc w.moment })

  abbrev pub emit : Event → Action World (Unit {0})
  emit e w = (returned tt, record w { trace = e ∷ w.trace })
