-- ===== src/Worker/Handshake.antt =====
-- The handshake with the broker ends, and how.
use llmbus.Shared.{
  ℕ, zero, suc, ◌+◌, ◌≤◌, ◌<◌, ◌≡◌, refl, ap, true, not, leb, arith, Bool-cases, inl, inr,
}
use native.Mathlib.Numerals.{add-one}
use llmbus.Python.Exc.{
  Exc, Fallible, returned, raised, out_of_fuel, Ended, answered, failed, IsFinal,
}
use llmbus.Python.Action.{Action, raise, lift}
use llmbus.Python.Hoare.{Ends, Hoare, Hoare-pure, Hoare-raise, Hoare-if, Hoare-bind, Hoare-fact}
use llmbus.Python.Platform.{Platform}
use llmbus.Retry.{RetryPolicy, backoff_delay}
use llmbus.Processing.Trace.{backoff_delay-IsFinal}
use llmbus.Worker.{
  Attempts, Network, make_client, sleep, after_connect, connect_round, connect_loop, connect_broker,
}

module _ (P : Platform) (policy : RetryPolicy P) (network : Network P) where
  -- Before the round of an attempt, as many clients were made, and none of them connected.
  abbrev pub Failed : ℕ → Type 0
  Failed k = (i : ℕ) → i < k → (e : Exc) × (network.connect i ≡ failed e) × (e.is_exception ≡ true)

  abbrev pub Tried : ℕ → Attempts P → Type 0
  Tried k s = (s.clients ≡ k) × Failed k

  -- The client is the last one made, the first one that connected, and within the attempts.
  abbrev pub Connected : ℕ → Attempts P → Type 0
  Connected client s =
      (s.clients ≡ suc client)
      × (network.connect client ≡ answered tt)
      × Failed client
      × (s.clients ≤ policy.max_attempts)

  abbrev pub GaveUp : Exc → Attempts P → Type 0
  GaveUp e s = s.clients ≤ policy.max_attempts

  module _ (k : ℕ) (below : k < policy.max_attempts) where
    Failed-suc :
        (e : Exc) → network.connect k ≡ failed e → e.is_exception ≡ true → Failed k → Failed (suc k)
    Failed-suc e h c before i less = elim (Bool-cases (leb k i)) [
      | inl last ↦ let same : i ≡ k = ground arith in rw same (e, h, c)
      | inr early ↦ before i (ground arith)
    ]

    delay_keeps :
        (r : Fallible P.Float)
        → IsFinal r
        → Failed (suc k)
        → Hoare (λ s. s.clients ≡ suc k) (lift r) (λ d s. Tried (suc k) s) GaveUp
    delay_keeps (returned a) e f = record { at = λ s h. (h, f) }
    delay_keeps (raised x) _ f = record { at = λ s h. omega arith }
    delay_keeps out_of_fuel e f = absurd e

    Hoare-after_connect :
        (again : Action (Attempts P) ℕ)
        → (suc k < policy.max_attempts → Hoare (Tried (suc k)) again Connected GaveUp)
        → (outcome : Ended (Unit {0})) → network.connect k ≡ outcome
        → Failed k
        → Hoare
            (λ s. s.clients ≡ suc k)
            (after_connect P policy network k again k outcome)
            Connected
            GaveUp
    unfolding after_connect
    Hoare-after_connect again rest (answered tt) e before =
        Hoare-pure k (λ s h. (h, e, before, omega arith))
    Hoare-after_connect again rest (failed x) e before =
        Hoare-if (not x.is_exception) (raise x) _ (λ _. Hoare-raise x (λ s h. omega arith))
          λ caught.
            Hoare-if (leb policy.max_attempts (k + 1)) (raise x) _
              (λ _. Hoare-raise x (λ s h. omega arith))
              λ more.
                Hoare-bind (λ d s. Tried (suc k) s)
                  (lift (backoff_delay P k policy (network.rand k))) _
                  (delay_keeps _ (backoff_delay-IsFinal P k policy (network.rand k))
                    (Failed-suc x e (ground arith) before))
                  λ delay.
                    Hoare-bind (λ _ s. Tried (suc k) s) (sleep P delay) _ (record { at = λ s h. h })
                      λ _. rest (ground arith)

    Hoare-Connected_round :
        (again : Action (Attempts P) ℕ)
        → (suc k < policy.max_attempts → Hoare (Tried (suc k)) again Connected GaveUp)
        → Hoare (Tried k) (connect_round P policy network k again) Connected GaveUp
    unfolding connect_round
    Hoare-Connected_round again rest =
        Hoare-bind (λ client s. ((client ≡ k) × Failed k) × (s.clients ≡ suc k)) (make_client P)
          (λ client. after_connect P policy network k again client (network.connect client))
          (record { at = λ s h. ((h.0, h.1), ap (λ n. suc n) h.0) })
          λ client.
            Hoare-fact λ h. rw (h.0) (Hoare-after_connect again rest (network.connect k) refl h.1)

  Hoare-connect_loop :
      (fuel k : ℕ)
      → k < policy.max_attempts
      → policy.max_attempts ≤ k + fuel
      → Hoare (Tried k) (connect_loop P fuel policy network k) Connected GaveUp
  unfolding connect_loop
  Hoare-connect_loop zero k below enough = absurd (omega arith)
  Hoare-connect_loop (suc fuel) k below enough =
      Hoare-Connected_round k below _
        λ more. rw add-one (Hoare-connect_loop fuel (suc k) more (omega arith))

-- With one attempt allowed at least, the handshake ends. It returns the first client that connected,
-- after every earlier one failed with an `Exception`, and whether it returns or raises it made as
-- many clients as attempts are allowed at most.
pub connect_broker-Ends :
    (P : Platform) (policy : RetryPolicy P) (network : Network P) (s : Attempts P)
    → 0 < policy.max_attempts
    → s.clients ≡ 0
    → Ends
        (Connected P policy network)
        (GaveUp P policy network)
        (connect_broker P policy network s)
unfolding connect_broker
connect_broker-Ends P policy network s below none_yet =
    (Hoare-connect_loop P policy network (suc policy.max_attempts) 0 below (omega arith)).at s
      (none_yet, λ i less. absurd (omega arith))
