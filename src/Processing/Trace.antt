-- ===== src/Processing/Trace.antt =====
-- What the trace of a run says: its callbacks, its model calls, and that each call was cleared.
use llmbus.Shared.{
  arith, ℕ, suc, String, ◌≡◌, false, List, [], ◌∷◌, leb, Bool-cases, Option-cases, inl, inr,
}
use llmbus.Python.Exc.{returned, IsFinal, IsFinal-bind}
use llmbus.Python.Platform.{Platform}
use llmbus.Schema.{Job, Result}
use llmbus.Retry.{RetryPolicy, backoff_delay}
use llmbus.Cost.Prices.{cost_usd-IsFinal}
use llmbus.Processing.Effects.{ProviderResult, Event, looked, acquired, slept, called, posted}
use llmbus.Processing.{is_expired, model_of, price}

module _ (P : Platform) where
  -- the callbacks of a trace
  abbrev pub posts : List (Event P) → List (String × Result P)
  posts [] = []
  posts (posted url result ∷ trace) = (url, result) ∷ posts trace
  posts (looked now ∷ trace) = posts trace
  posts (acquired name ∷ trace) = posts trace
  posts (slept delay ∷ trace) = posts trace
  posts (called name ∷ trace) = posts trace

  -- the number of model calls
  abbrev pub calls : List (Event P) → ℕ
  calls [] = 0
  calls (called name ∷ trace) = suc (calls trace)
  calls (posted url result ∷ trace) = calls trace
  calls (looked now ∷ trace) = calls trace
  calls (acquired name ∷ trace) = calls trace
  calls (slept delay ∷ trace) = calls trace

  -- The last thing done was to reserve a provider's budget, and to sleep if that was asked for.
  abbrev pub JustAcquired : String → List (Event P) → Type 0
  JustAcquired name (acquired n ∷ trace) = n ≡ name
  JustAcquired name _ = ⊥

  abbrev pub Reserved : String → List (Event P) → Type 0
  Reserved name (slept delay ∷ trace) = JustAcquired name trace
  Reserved name (acquired n ∷ trace) = n ≡ name
  Reserved name _ = ⊥

  pub acquired-Reserved :
      (name : String) (trace : List (Event P)) → JustAcquired name trace → Reserved name trace
  acquired-Reserved name (acquired m ∷ trace) h = h
  acquired-Reserved name _ h = absurd h

  -- After that a reading of the clock found the deadline not passed.
  abbrev pub Cleared : Job P → String → List (Event P) → Type 0
  Cleared job name (looked now ∷ trace) =
      (is_expired P job now ≡ returned false) × Reserved name trace
  Cleared job name _ = ⊥

  -- Every model call was cleared.
  abbrev pub CallsCleared : Job P → List (Event P) → Type 0
  CallsCleared job [] = Unit
  CallsCleared job (called name ∷ trace) = Cleared job name trace × CallsCleared job trace
  CallsCleared job (posted url result ∷ trace) = CallsCleared job trace
  CallsCleared job (looked now ∷ trace) = CallsCleared job trace
  CallsCleared job (acquired name ∷ trace) = CallsCleared job trace
  CallsCleared job (slept delay ∷ trace) = CallsCleared job trace

  pub model_of-IsFinal : (job : Job P) → IsFinal (model_of P job)
  unfolding model_of
  model_of-IsFinal job = elim (Option-cases job.model) [
    | inl unset ↦ rw (unset, model_of) tt
    | inr (model, e) ↦ rw (e, model_of) tt
  ]

  pub price-IsFinal : (job : Job P) (call : ProviderResult P) → IsFinal (price P job call)
  unfolding price
  price-IsFinal job call =
      IsFinal-bind _ _
        (IsFinal-bind (model_of P job) _ (model_of-IsFinal job)
          (λ model. cost_usd-IsFinal P model _ _ _))
        (λ cost. tt)

  pub backoff_delay-IsFinal :
      (i : ℕ) (policy : RetryPolicy P) (draw : P.Float) → IsFinal (backoff_delay P i policy draw)
  unfolding backoff_delay
  backoff_delay-IsFinal i policy draw = elim (Bool-cases (leb 1024 i)) [
    | inl out ↦ rw (out, backoff_delay) tt
    | inr fine ↦ rw (fine, backoff_delay) tt
  ]

module _ (P : Platform) where
  pub is_expired-IsFinal : (job : Job P) (now : P.Datetime) → IsFinal (is_expired P job now)
  unfolding is_expired
  is_expired-IsFinal job now = elim (Option-cases job.ttl_s) [
    | inl timeless ↦ rw (timeless, is_expired) tt
    | inr (ttl, until) ↦ rw (until, is_expired) (ground arith)
  ]
