-- ===== src/Processing/Once.antt =====
-- Redelivery over the life of the store: workers that restart and are handed jobs again, producers
-- that write in between, in any order.
use llmbus.Shared.{
  ℕ, suc, ◌+◌, ◌≤◌, ◌<◌, String, ◌≡◌, sym, ◌∙◌, Bool, true, false, Option, none, some, List, [],
  ◌∷◌, ◌++◌, ◌==◌, eq_iff, arith, if◌then◌else◌, Bool-cases, inl, inr,
}
use llmbus.Python.Exc.{Fallible, returned, raised, out_of_fuel}
use llmbus.Python.Hoare.{Ends}
use llmbus.Python.Platform.{Platform, TextLaws}
use llmbus.Schema.{Job, Result}
use llmbus.Ratelimit.{RateLimiter}
use llmbus.Store.{Store, finalize, get}
use llmbus.Store.Rows.{StoredJob, is_terminal}
use llmbus.Store.Jobs.{
  IsValid, get-finalize, finalize-IsValid, completed_once, is_waiting, completed-is_terminal,
}
use llmbus.Store.History.{Write, Grows, Write-Grows, Write-IsValid}
use llmbus.Processing.Effects.{Deps, World}
use llmbus.Processing.{process_job}
use llmbus.Processing.Trace.{posts}
use llmbus.Processing.Delivery.{announced, Completed, Aborted, process_job_once}

module _ (P : Platform) where
  -- The store, and all the callbacks that were ever posted, the latest first.
  pub record System : Type 0 where
    pub store : Store P
    pub sent : List (String × Result P)

  -- A worker at some moment, with some limiter, that is handed a job.
  abbrev pub worker_at : Store P → ℕ → RateLimiter P → World P
  worker_at s moment limiter = record { moment = moment; limiter = limiter; store = s; trace = [] }

  -- What its run leaves, however it ends.
  abbrev pub left_by : System → Fallible (Result P) × World P → System
  left_by y (r, w) = record { store = w.store; sent = posts P w.trace ++ y.sent }

  -- One step: a run of some worker on some job, or one write to the store.
  pub data Step : System → System → Type 0 where
    work :
        {y : System} (deps : Deps P) (job : Job P) (moment : ℕ) (limiter : RateLimiter P)
        → 0 < deps.policy.retry.max_attempts
        → Step y (left_by y (process_job P deps job (worker_at y.store moment limiter)))
    write : {y : System} {t : Store P} → Write P y.store t → Step y (record y { store = t })

  pub data Steps (y : System) : System → Type 0 where
    here : Steps y y
    next : {z x : System} → Steps y z → Step z x → Steps y x

  -- the callbacks for a job id
  abbrev pub callbacks : String → List (String × Result P) → ℕ
  callbacks j [] = 0
  callbacks j ((url, result) ∷ sent) =
      if result.job_id == j then suc (callbacks j sent) else callbacks j sent

  -- one as long as a row may still become terminal
  abbrev pub chance : Option (StoredJob P) → ℕ
  chance none = 1
  chance (some stored) = if is_terminal P stored then 0 else 1

  callbacks-append :
      (j : String) (xs ys : List (String × Result P))
      → callbacks j (xs ++ ys) ≡ callbacks j xs + callbacks j ys
  callbacks-append j [] ys = omega arith
  callbacks-append j ((url, result) ∷ xs) ys = ground (arith, callbacks-append j xs ys)

  chance-Grows : (o p : Option (StoredJob P)) → Grows P o p → chance p ≤ chance o
  chance-Grows none none h = omega arith
  chance-Grows none (some b) h = ground arith
  chance-Grows (some a) none h = absurd h
  chance-Grows (some a) (some b) h = elim (Bool-cases (is_terminal P a)) [
    | inl done ↦ let same : b ≡ a = (rw done at h).5 in rw same (omega arith)
    | inr waits ↦ ground arith
  ]

  abbrev wins : Option (StoredJob P) → ℕ
  wins o = if is_waiting P o then 1 else 0

  chance-completed_once :
      (result : Result P) (when : P.Datetime) (o : Option (StoredJob P))
      → wins o + chance (completed_once P result when o) ≤ chance o
  chance-completed_once result when none = omega arith
  chance-completed_once result when (some a) = elim (Bool-cases (is_terminal P a)) [
    | inl done ↦ rw (done, done) (omega arith)
    | inr waits ↦ rw (waits, completed-is_terminal P result when a) (omega arith)
  ]

  module _ (deps : Deps P) (job : Job P) where
    callbacks-announced :
        (j : String) (won : Bool) (url : Option String) (result : Result P)
        → callbacks j (announced P deps job won url result [])
          ≤ (if result.job_id == j then (if won then 1 else 0) else 0)
    callbacks-announced j true (some url) result = ground arith
    callbacks-announced j true none result = ground arith
    callbacks-announced j false url result = ground arith

    -- A result that is written and announced if it won uses up the chance of its job.
    chance-finalize :
        (laws : TextLaws P) (s : Store P) (result : Result P) (when : P.Datetime)
        (url : Option String) (j : String)
        → IsValid P s
        → callbacks j (announced P deps job (is_waiting P (get P result.job_id s)) url result [])
            + chance (get P j (finalize P result when s).1)
          ≤ chance (get P j s)
    chance-finalize laws s result when url j valid =
        let posted = callbacks-announced j (is_waiting P (get P result.job_id s)) url result in
        let read = (get-finalize P laws result when j s valid).1 in
        elim (Bool-cases (j == result.job_id)) [
          | inl same ↦
              let e : j ≡ result.job_id = ground (arith, eq_iff j result.job_id) in
              let after : get P j (finalize P result when s).1
                  ≡ completed_once P result when (get P j s) =
                read ∙ rw same in
              let won : wins (get P j s) ≡ wins (get P result.job_id s) = rw e in
              let once = chance-completed_once result when (get P j s) in rw after (ground arith)
          | inr other ↦
              let after : get P j (finalize P result when s).1 ≡ get P j s = read ∙ rw other in
              rw after (ground (arith, eq_iff j result.job_id, eq_iff result.job_id j))
        ]

    -- After a run: the primary key holds, and what was posted was in the chance.
    abbrev Spent : String → Store P → World P → Type 0
    Spent j s w =
        IsValid P w.store
        × (callbacks j (posts P w.trace) + chance (get P j w.store) ≤ chance (get P j s))

    Spent-written :
        (laws : TextLaws P) (j : String) (s : Store P) (w : World P) (result : Result P)
        (when : P.Datetime)
        → IsValid P s
        → result.job_id ≡ job.job_id
        → w.store ≡ (finalize P result when s).1
        → posts P w.trace
          ≡ announced P deps job (is_waiting P (get P job.job_id s)) job.callback_url result []
        → Spent j s w
    Spent-written laws j s w result when valid same written told =
        rw (written, told, sym same)
          (
            finalize-IsValid P result when s valid,
            chance-finalize laws s result when job.callback_url j valid,
          )

    Spent-run :
        (laws : TextLaws P) (j : String) (s : Store P) (n : ℕ) (end : Fallible (Result P) × World P)
        → IsValid P s
        → Ends (Completed P deps job s [] n) (Aborted P deps job s [] n) end
        → Spent j s end.1
    Spent-run laws j s n (returned result, w) valid h =
        Spent-written laws j s w result h.2.0 valid h.0 h.2.1 h.3
    Spent-run laws j s n (raised e, w) valid (inl h, _, _) = rw (h.0, h.1) (valid, omega arith)
    Spent-run laws j s n (raised e, w) valid
          (inr (cut, (result, same, (when, written), told)), _, _) =
        Spent-written laws j s w result when valid same written told
    Spent-run laws j s n (out_of_fuel, w) valid h = absurd h

  abbrev Budgeted : String → System → System → Type 0
  Budgeted j y z =
      IsValid P z.store
      × (callbacks j z.sent + chance (get P j z.store)
          ≤ callbacks j y.sent + chance (get P j y.store))

  Budgeted-left :
      (j : String) (y : System) (end : Fallible (Result P) × World P)
      → IsValid P end.1.store
      → callbacks j (posts P end.1.trace) + chance (get P j end.1.store) ≤ chance (get P j y.store)
      → Budgeted j y (left_by y end)
  Budgeted-left j y (r, w) valid h =
      (valid, omega (arith, callbacks-append j (posts P w.trace) y.sent, h))

  Step-Budgeted :
      {y z : System} (laws : TextLaws P) (j : String)
      → Step y z
      → IsValid P y.store
      → Budgeted j y z
  Step-Budgeted {y} laws j (work deps job moment limiter below) valid =
      let w : World P = worker_at y.store moment limiter in
      let spent =
        Spent-run deps job laws j y.store (0 + deps.policy.retry.max_attempts)
          (process_job P deps job w) valid (process_job_once P laws deps job w below valid tt) in
      Budgeted-left j y (process_job P deps job w) spent.0 spent.1
  Step-Budgeted {y} laws j (write {t = t} w) valid =
      let fewer = chance-Grows (get P j y.store) (get P j t) (Write-Grows P laws j w valid) in
      (Write-IsValid P w valid, omega arith)

  Steps-Budgeted :
      {y z : System} (laws : TextLaws P) (j : String)
      → Steps y z
      → IsValid P y.store
      → Budgeted j y z
  Steps-Budgeted laws j here valid = (valid, omega arith)
  Steps-Budgeted laws j (next before last) valid =
      let first = Steps-Budgeted laws j before valid in
      let second = Step-Budgeted laws j last first.0 in (second.0, omega arith)

  -- From a store whose primary key holds, whatever workers run on whatever jobs, delivered again or
  -- not, ended by a return or by an exception, and whatever producers and workers write in between:
  -- the callbacks for a job id grow by one at most, and by none if its row was terminal.
  pub Steps-callbacks :
      {y z : System} (laws : TextLaws P) (j : String)
      → Steps y z
      → IsValid P y.store
      → callbacks j z.sent ≤ callbacks j y.sent + chance (get P j y.store)
  Steps-callbacks laws j steps valid = omega (arith, (Steps-Budgeted laws j steps valid).1)
