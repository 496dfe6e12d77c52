-- ===== src/Store/Jobs.antt =====
-- The life of a row of `jobs`: inserted once, finalized once, read back as it was written.
use llmbus.Shared.{
  ℕ, ◌+◌, String, ◌≡◌, refl, ap, ◌∙◌, Bool, true, false, not, Option, none, some, ◌==◌, eqb, arith,
  if◌then◌else◌, Bool-cases, Option-cases, inl, inr,
}
use llmbus.Python.Exc.{returned}
use llmbus.Python.Platform.{Platform, TextLaws}
use llmbus.Schema.{Job, Result, ResultStatus, status_ok, status_error, default_usage}
use llmbus.Sql.{find, insert_or_ignore}
use llmbus.Sql.Keyed
use llmbus.Sql.Keyed.{IsKeyed}
use llmbus.Store.Rows.{JobRow, StoredJob, pending, status_text, is_terminal, row_to_stored_job}
use llmbus.Store.{
  Store, job_key, is_pending, insert_pending, insert_row, finalize, finalize_row, pending_row, get,
  pending_count, read_row,
}

module _ (P : Platform) where
  -- The primary key of `jobs` holds.
  abbrev pub IsValid : Store P → Type 0
  IsValid s = IsKeyed (job_key P) s.jobs

  -- What a reader sees of a job that was submitted with a model and not run yet.
  abbrev pub submitted : Job P → String → StoredJob P
  submitted job model = record {
    job_id = job.job_id;
    project = job.project;
    model = model;
    status = pending;
    completion = none;
    error = none;
    provider = none;
    usage = default_usage P;
    meta = job.meta;
    submitted_at = job.submitted_at;
    completed_at = none;
  }

  -- What a reader sees of a job after its result was written.
  abbrev pub completed : Result P → P.Datetime → StoredJob P → StoredJob P
  completed result when stored = record stored {
    status = status_text result.status;
    completion = result.completion;
    error = result.error;
    provider = result.provider;
    usage = result.usage;
    completed_at = some when;
  }

  -- A terminal row stays as it is.
  abbrev pub completed_once : Result P → P.Datetime → Option (StoredJob P) → Option (StoredJob P)
  completed_once result when none = none
  completed_once result when (some stored) =
      if is_terminal P stored then some stored else some (completed result when stored)

  abbrev pub is_waiting : Option (StoredJob P) → Bool
  is_waiting none = false
  is_waiting (some stored) = not (is_terminal P stored)

  abbrev pub is_none : Option (StoredJob P) → Bool
  is_none none = true
  is_none (some stored) = false

  abbrev pub first_of : Option (StoredJob P) → StoredJob P → StoredJob P
  first_of none stored = stored
  first_of (some old) stored = old

  status_text-not-pending : (st : ResultStatus) → (status_text st == pending) ≡ false
  status_text-not-pending status_ok = refl
  status_text-not-pending status_error = refl

  pub completed-is_terminal :
      (result : Result P) (when : P.Datetime) (stored : StoredJob P)
      → is_terminal P (completed result when stored) ≡ true
  unfolding is_terminal
  completed-is_terminal result when stored = ap not (status_text-not-pending result.status)

  finalize_row-not-pending :
      (result : Result P) (when : P.Datetime) (row : JobRow P)
      → is_pending P (finalize_row P result when row) ≡ false
  unfolding finalize_row
  finalize_row-not-pending result when row = status_text-not-pending result.status

  finalize_row-key :
      (result : Result P) (when : P.Datetime) (row : JobRow P)
      → job_key P (finalize_row P result when row) ≡ job_key P row
  unfolding finalize_row
  finalize_row-key result when row = refl

  -- Both writers keep the primary key.
  pub insert_pending-IsValid :
      (job : Job P) (s : Store P) → IsValid s → IsValid (insert_pending P job s).1
  unfolding insert_pending
  insert_pending-IsValid job s h = elim (Option-cases job.model) [
    | inl unset ↦ rw (unset, insert_pending) h
    | inr (model, e) ↦
        rw (e, insert_pending) (Keyed.insert-IsKeyed (job_key P) (pending_row P job model) s.jobs h)
  ]

  pub finalize-IsValid :
      (result : Result P) (when : P.Datetime) (s : Store P)
      → IsValid s
      → IsValid (finalize P result when s).1
  unfolding finalize
  finalize-IsValid result when s h =
      Keyed.update-IsKeyed (job_key P) result.job_id (is_pending P) (finalize_row P result when)
        (finalize_row-key result when) s.jobs h

  read-pending_row :
      (laws : TextLaws P) (job : Job P) (model : String)
      → row_to_stored_job P (pending_row P job model) ≡ submitted job model
  unfolding row_to_stored_job pending_row
  read-pending_row laws job model =
      rw (laws.loads-dumps job.meta, laws.fromisoformat-isoformat job.submitted_at)

  read-or_else :
      (c : Bool) (o : Option (JobRow P)) (row : JobRow P)
      → read_row P (if c then some (Keyed.or_else (job_key P) o row) else o)
        ≡ (if c then some (first_of (read_row P o) (row_to_stored_job P row)) else read_row P o)
  read-or_else true none row = refl
  read-or_else true (some old) row = refl
  read-or_else false o row = refl

  insert_row-returned :
      (row : JobRow P) (s : Store P)
      → (insert_row P row s).0
        ≡ returned (is_none (read_row P (find (job_key P) row.job_id s.jobs)))
  unfolding insert_row
  insert_row-returned row s = elim (Option-cases (find (job_key P) row.job_id s.jobs)) [
    | inl absent ↦ rw (absent, insert_or_ignore)
    | inr (old, found) ↦ rw (found, insert_or_ignore)
  ]

  -- The first insert of a job with a model wins, says so, and is read back; a later one for the same
  -- job id changes nothing that is read.
  pub get-insert_pending :
      (laws : TextLaws P) (job : Job P) (model : String) (j : String) (s : Store P)
      → job.model ≡ some model
      → ((insert_pending P job s).0 ≡ returned (is_none (get P job.job_id s)))
        × (get P j (insert_pending P job s).1 ≡ (
            if j == job.job_id
            then some (first_of (get P j s) (submitted job model))
            else get P j s))
  unfolding insert_pending get
  get-insert_pending laws job model j s e =
      rw (e, insert_pending)
        (
          insert_row-returned (pending_row P job model) s,
          ap (read_row P) (Keyed.find-insert (job_key P) j (pending_row P job model) s.jobs)
              ∙ read-or_else (j == job.job_id) (find (job_key P) j s.jobs) (pending_row P job model)
              ∙ rw (read-pending_row laws job model),
        )

  module _ (result : Result P) (when : P.Datetime) where
    abbrev updated_row : Option (JobRow P) → Option (JobRow P)
    updated_row =
        Keyed.updated (job_key P) result.job_id (is_pending P) (finalize_row P result when)
          (finalize_row-key result when)

    abbrev row_count : Option (JobRow P) → ℕ
    row_count =
        Keyed.hits (job_key P) result.job_id (is_pending P) (finalize_row P result when)
          (finalize_row-key result when)

    read-updated_row :
        (laws : TextLaws P) (o : Option (JobRow P))
        → read_row P (updated_row o) ≡ completed_once result when (read_row P o)
    unfolding row_to_stored_job finalize_row is_terminal
    read-updated_row laws none = refl
    read-updated_row laws (some row) = elim (Bool-cases (row.status == pending)) [
      | inl waits ↦ rw (waits, laws.isoformat_nonempty when, laws.fromisoformat-isoformat when)
      | inr done ↦ rw done
    ]

    row_count-is_waiting : (o : Option (JobRow P)) → eqb (row_count o) 1 ≡ is_waiting (read_row P o)
    unfolding row_to_stored_job is_terminal
    row_count-is_waiting none = refl
    row_count-is_waiting (some row) = elim (Bool-cases (row.status == pending)) [
      | inl waits ↦ rw waits
      | inr done ↦ rw done
    ]

    row_count-eq :
        (o : Option (JobRow P)) → row_count o ≡ (if is_waiting (read_row P o) then 1 else 0)
    unfolding row_to_stored_job is_terminal
    row_count-eq none = refl
    row_count-eq (some row) = elim (Bool-cases (row.status == pending)) [
      | inl waits ↦ rw waits
      | inr done ↦ rw done
    ]

    read-if :
        (laws : TextLaws P) (c : Bool) (o : Option (JobRow P))
        → read_row P (if c then updated_row o else o)
          ≡ (if c then completed_once result when (read_row P o) else read_row P o)
    read-if laws true o = read-updated_row laws o
    read-if laws false o = refl

  -- Writing a result to a store whose primary key holds: it says whether the row was waiting,
  -- completes that row if it was, and changes no terminal row and no other row.
  pub get-finalize :
      (laws : TextLaws P) (result : Result P) (when : P.Datetime) (j : String) (s : Store P)
      → IsValid s
      → ((finalize P result when s).0 ≡ returned (is_waiting (get P result.job_id s)))
        × (get P j (finalize P result when s).1
            ≡ (if j == result.job_id then completed_once result when (get P j s) else get P j s))
  unfolding finalize get
  get-finalize laws result when j s h = (
    ap (λ n. returned (eqb n 1))
          (Keyed.changed-find (job_key P) result.job_id (is_pending P) (finalize_row P result when)
            (finalize_row-key result when) s.jobs h)
        ∙ ap returned (row_count-is_waiting result when (find (job_key P) result.job_id s.jobs)),
    ap (read_row P) (
          Keyed.find-update (job_key P) result.job_id (is_pending P) (finalize_row P result when)
            (finalize_row-key result when) j s.jobs h)
        ∙ read-if result when laws (j == result.job_id) (find (job_key P) j s.jobs),
  )

  -- Where the primary key holds, a result that was accepted takes one job off the count of waiting
  -- jobs; a refused one none.
  pending_count-finalize :
      (result : Result P) (when : P.Datetime) (s : Store P)
      → IsValid s
      → pending_count P (finalize P result when s).1
          + (if is_waiting (get P result.job_id s) then 1 else 0)
        ≡ pending_count P s
  unfolding finalize get pending_count
  pending_count-finalize result when s h = omega (
    arith,
    Keyed.count-update (job_key P) result.job_id (is_pending P) (finalize_row P result when)
        (finalize_row-key result when) s.jobs (finalize_row-not-pending result when),
    Keyed.changed-find (job_key P) result.job_id (is_pending P) (finalize_row P result when)
        (finalize_row-key result when) s.jobs h,
    row_count-eq result when (find (job_key P) result.job_id s.jobs),
  )

  pending_row-waits : (job : Job P) (model : String) → is_pending P (pending_row P job model) ≡ true
  unfolding pending_row
  pending_row-waits job model = refl

  count-insert_row :
      (row : JobRow P) (s : Store P)
      → is_pending P row ≡ true
      → pending_count P (insert_row P row s).1
        ≡ pending_count P s
          + (if is_none (read_row P (find (job_key P) row.job_id s.jobs)) then 1 else 0)
  unfolding insert_row pending_count
  count-insert_row row s waits = elim (Option-cases (find (job_key P) row.job_id s.jobs)) [
    | inl absent ↦
        rw (absent, insert_or_ignore)
          (Keyed.count-append (job_key P) (is_pending P) s.jobs row ∙ rw waits)
    | inr (old, found) ↦ rw (found, insert_or_ignore) (omega arith)
  ]

  -- A first insert of a job with a model adds one to the count of waiting jobs, a later one none.
  pending_count-insert :
      (job : Job P) (model : String) (s : Store P)
      → job.model ≡ some model
      → pending_count P (insert_pending P job s).1
        ≡ pending_count P s + (if is_none (get P job.job_id s) then 1 else 0)
  unfolding insert_pending get pending_count
  pending_count-insert job model s e =
      rw (e, insert_pending)
        (count-insert_row (pending_row P job model) s (pending_row-waits job model))
