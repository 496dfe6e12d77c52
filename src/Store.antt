-- ===== src/Store.antt =====
-- The SQLite results store of src/llmbus/store.py: the `jobs`, `model_policy` and `worker_policy` tables, and the
-- methods of `Store` on an open connection. Each method is an action on the tables; one that raises
-- commits nothing.
pub mod Rows
pub mod Jobs
pub mod History
pub mod Policies
pub mod Published
pub mod Ledger
pub mod Costs
pub mod Connection
use llmbus.Shared.Sorting.{sort_by, text_leb}
use llmbus.Shared.{
  map, ℕ, String, Bool, true, false, ◌&&◌, Option, none, some, List, [], ◌∷◌, ◌==◌, eqb,
  if◌then◌else◌,
}
use llmbus.Python.Exc.{Exc, raising, Fallible, returned, raised, out_of_fuel}
use llmbus.Python.Action.{Action}
use llmbus.Python.Platform.{Platform}
use llmbus.Schema.{Job, Result, default_usage}
use llmbus.Retry.{WorkerPolicy, retry_budget_seconds}
use llmbus.Sql.{find, update_where, changed, insert_or_ignore, count_where}
use llmbus.Store.Rows.{
  JobRow, StoredJob, ModelPolicy, PolicyRow, pending, status_text, row_to_stored_job,
  row_to_model_policy, PublishedRow, WorkerTable, fitting, stale, PublishedWorkerPolicy,
  row_to_published,
}

module _ (P : Platform) where
  -- the tables of the database file
  pub record Store : Type 0 where
    pub jobs : List (JobRow P)
    pub model_policies : List PolicyRow
    pub worker_policy : WorkerTable P

  abbrev pub job_key : JobRow P → String
  job_key row = row.job_id

  abbrev pub is_pending : JobRow P → Bool
  is_pending row = row.status == pending

  abbrev pub not_null_error : Exc
  not_null_error = raising "IntegrityError" "NOT NULL constraint failed: jobs.model"

  pending_row : Job P → String → JobRow P
  pending_row job model = record {
    job_id = job.job_id;
    project = job.project;
    model = model;
    status = pending;
    completion = none;
    error = none;
    provider = none;
    usage = default_usage P;
    meta = P.dumps job.meta;
    submitted_at = P.isoformat job.submitted_at;
    completed_at = none;
  }

  insert_row : JobRow P → Action Store Bool
  insert_row row s =
      let (rows, rowcount) = insert_or_ignore job_key row s.jobs in
      (returned (eqb rowcount 1), record s { jobs = rows })

  unfoldable pub insert_pending : Job P → Action Store Bool
  unfolding pending_row insert_row
  insert_pending job = elim job.model [
    | some model ↦ insert_row (pending_row job model)
    | none ↦ λ s. (raised not_null_error, s)
  ]

  -- the SET clause of `finalize`
  finalize_row : Result P → P.Datetime → JobRow P → JobRow P
  finalize_row result when row = record row {
    status = status_text result.status;
    completion = result.completion;
    error = result.error;
    provider = result.provider;
    usage = result.usage;
    completed_at = some (P.isoformat when);
  }

  unfoldable pub finalize : Result P → P.Datetime → Action Store Bool
  unfolding finalize_row
  finalize result when s = (
    returned (eqb (changed job_key result.job_id is_pending s.jobs) 1),
    record s {
      jobs = update_where job_key result.job_id is_pending (finalize_row result when) s.jobs;
    },
  )

  abbrev pub read_row : Option (JobRow P) → Option (StoredJob P)
  read_row none = none
  read_row (some row) = some (row_to_stored_job P row)

  unfoldable pub get : String → Store → Option (StoredJob P)
  get job_id s = read_row (find job_key job_id s.jobs)

  unfoldable pub pending_count : Store → ℕ
  pending_count s = count_where is_pending s.jobs

  -- the upsert on `(project, kind)`
  upsert_policy : PolicyRow → List PolicyRow → List PolicyRow
  upsert_policy row [] = row ∷ []
  upsert_policy row (old ∷ rows) =
      if old.project == row.project && old.kind == row.kind
      then record old { model = row.model; updated_at = row.updated_at } ∷ rows
      else old ∷ upsert_policy row rows

  find_policy : String → String → List PolicyRow → Option PolicyRow
  find_policy project kind [] = none
  find_policy project kind (row ∷ rows) =
      if row.project == project && row.kind == kind then some row else find_policy project kind rows

  unfoldable pub set_model_policy : String → String → String → P.Datetime → Store → Store
  unfolding upsert_policy
  set_model_policy project kind model stamp s = record s {
    model_policies =
        upsert_policy
          (record { project = project; kind = kind; model = model; updated_at = P.isoformat stamp })
          s.model_policies;
  }

  abbrev pub read_policy : Option PolicyRow → Option (ModelPolicy P)
  read_policy none = none
  read_policy (some row) = some (row_to_model_policy P row)

  unfoldable pub model_policy : String → String → Store → Option (ModelPolicy P)
  unfolding find_policy
  model_policy project kind s = read_policy (find_policy project kind s.model_policies)

  -- `ORDER BY project, kind`
  abbrev pub policy_leb : PolicyRow → PolicyRow → Bool
  policy_leb a b =
      if a.project == b.project then text_leb a.kind b.kind else text_leb a.project b.project

  unfoldable pub list_model_policies : Store → List (ModelPolicy P)
  list_model_policies s = map (row_to_model_policy P) (sort_by policy_leb s.model_policies)

  -- `_rebuild_worker_policy_if_stale`
  rebuild_if_stale : WorkerTable P → WorkerTable P
  rebuild_if_stale (fitting row) = fitting row
  rebuild_if_stale (stale has_row) = fitting none

  -- the upsert of the pinned row
  upsert_published : PublishedRow P → WorkerTable P → WorkerTable P
  upsert_published row (fitting old) = fitting (some row)
  upsert_published row (stale has_row) = stale has_row

  -- The budget is worked out before the write, so a budget that raises commits nothing.
  unfoldable pub publish_worker_policy : WorkerPolicy P → P.Datetime → Action Store (Unit {0})
  unfolding rebuild_if_stale upsert_published
  publish_worker_policy policy stamped s = elim (retry_budget_seconds P policy) [
    | returned budget ↦ (
      returned tt,
      record s {
        worker_policy =
            upsert_published
              (record {
                max_attempts = policy.retry.max_attempts;
                job_timeout_s = policy.job_timeout_s;
                base_delay_s = policy.retry.base_delay_s;
                max_delay_s = policy.retry.max_delay_s;
                retry_budget_s = budget;
                updated_at = P.isoformat stamped;
              })
              (rebuild_if_stale s.worker_policy);
      },
    )
    | raised e ↦ (raised e, s)
    | out_of_fuel ↦ (out_of_fuel, s)
  ]

  read_published : WorkerTable P → Option (PublishedWorkerPolicy P)
  read_published (fitting none) = none
  read_published (fitting (some row)) = some (row_to_published P row)
  read_published (stale has_row) = none

  unfoldable pub read_worker_policy : Store → Option (PublishedWorkerPolicy P)
  unfolding read_published
  read_worker_policy s = read_published s.worker_policy
