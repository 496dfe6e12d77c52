-- ===== src/Client/Poll.antt =====
-- What a poll may return, that it ends, and that it reads back what the worker wrote.
use llmbus.Shared.{
  ℕ, zero, suc, ◌+◌, ◌≤◌, ◌<◌, String, ◌≡◌, ◌≢◌, refl, sym, ap, ◌∙◌, true, Option, none, some,
  arith, Bool-cases, Option-cases, inl, inr,
}
use llmbus.Python.Exc.{returned, IsFinal}
use llmbus.Python.Platform.{Platform}
use llmbus.Schema.{Result, ResultStatus, status_ok, status_error}
use llmbus.Store.{Store, get}
use llmbus.Store.Rows.{StoredJob, status_text, is_terminal}
use llmbus.Store.Jobs.{completed}
use llmbus.Client.{result_from_stored, validated, parse_status, terminal, poll_loop}

module _ (P : Platform) where
  parse-status_text : (st : ResultStatus) → parse_status P (status_text st) ≡ some st
  unfolding parse_status
  parse-status_text status_ok = refl
  parse-status_text status_error = refl

  -- A result that is written to a waiting row with its meta is read back whole.
  pub result_from_stored-completed :
      (result : Result P) (when : P.Datetime) (stored : StoredJob P)
      → P.uuid stored.job_id ≡ some result.job_id
      → stored.meta ≡ result.meta
      → result_from_stored P (completed P result when stored) ≡ returned result
  unfolding result_from_stored validated
  result_from_stored-completed result when stored id same =
      rw (id, parse-status_text result.status, same)

  validated-IsFinal :
      (stored : StoredJob P) (id : Option String) (status : Option ResultStatus)
      → IsFinal (validated P stored id status)
  unfolding validated
  validated-IsFinal stored (some id) (some _) = tt
  validated-IsFinal stored (some id) none = tt
  validated-IsFinal stored none _ = tt

  result_from_stored-IsFinal : (stored : StoredJob P) → IsFinal (result_from_stored P stored)
  unfolding result_from_stored
  result_from_stored-IsFinal stored = validated-IsFinal stored (P.uuid stored.job_id) _

  terminal-some :
      (o : Option (StoredJob P)) (stored : StoredJob P)
      → terminal P o ≡ some stored
      → (o ≡ some stored) × (is_terminal P stored ≡ true)
  terminal-some none stored h = cc
  terminal-some (some a) stored h = elim (Bool-cases (is_terminal P a)) [
    | inl done ↦
        let shown : some a ≡ some stored = rw (done, terminal) at h in
        let e : a ≡ stored = cc in (shown, ap (is_terminal P) (sym e) ∙ done)
    | inr waits ↦ cc (rw (waits, terminal) at h)
  ]

  module _ (read : ℕ → Store P) (clock : ℕ → P.Float) (job_id : String) (deadline : P.Float) where
    -- What a poll returns is the result of a terminal row that the store showed at some reading.
    pub poll_sound :
        (fuel moment : ℕ) (result : Result P)
        → poll_loop P fuel read clock job_id deadline moment ≡ returned result
        → (k : ℕ) × (stored : StoredJob P) × (get P job_id (read k) ≡ some stored)
          × (is_terminal P stored ≡ true)
          × (result_from_stored P stored ≡ returned result)
    unfolding poll_loop
    poll_sound zero moment result h = cc
    poll_sound (suc fuel) moment result h =
        elim (Option-cases (terminal P (get P job_id (read moment)))) [
          | inr (stored, e) ↦
              let (found, done) = terminal-some (get P job_id (read moment)) stored e in
              (moment, stored, found, done, rw (e, poll_loop) at h)
          | inl waits ↦ elim (Bool-cases (P.le deadline (clock moment))) [
            | inl late ↦ cc (rw (waits, late, poll_loop) at h)
            | inr early ↦ poll_sound fuel (suc moment) result (rw (waits, early, poll_loop) at h)
          ]
        ]

    -- A poll whose clock passes the deadline within the fuel ends.
    pub poll-ends :
        (fuel moment m : ℕ)
        → P.le deadline (clock m) ≡ true
        → moment ≤ m
        → m < moment + fuel
        → IsFinal (poll_loop P fuel read clock job_id deadline moment)
    unfolding poll_loop
    poll-ends zero moment m late from to = absurd (omega arith)
    poll-ends (suc fuel) moment m late from to =
        elim (Option-cases (terminal P (get P job_id (read moment)))) [
          | inr (stored, e) ↦ rw (e, poll_loop) (result_from_stored-IsFinal stored)
          | inl waits ↦ elim (Bool-cases (P.le deadline (clock moment))) [
            | inl passed ↦ rw (waits, passed, poll_loop) tt
            | inr early ↦
                rw (waits, early, poll_loop)
                  (let other : moment ≢ m = λ e. cc (ap (λ k. P.le deadline (clock k)) e) in
                    poll-ends fuel (suc moment) m late (omega arith) (omega arith))
          ]
        ]

    -- A row that is terminal at the first reading is returned at once, whatever the deadline.
    pub poll_done :
        (fuel moment : ℕ) (stored : StoredJob P)
        → get P job_id (read moment) ≡ some stored
        → is_terminal P stored ≡ true
        → poll_loop P (suc fuel) read clock job_id deadline moment ≡ result_from_stored P stored
    unfolding poll_loop
    poll_done fuel moment stored found done = rw (found, poll_loop) (rw (done, poll_loop))
