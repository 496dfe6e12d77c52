-- ===== src/Store/Rows.antt =====
-- The rows of the store's tables and the records that src/llmbus/store.py reads them into.
use llmbus.Shared.{ℕ, String, Bool, not, Option, none, some, ◌==◌, if◌then◌else◌}
use llmbus.Python.Json.{Fields}
use llmbus.Python.Platform.{Platform}
use llmbus.Schema.{Usage, ResultStatus, status_ok, status_error}

-- `PENDING`, the status that only the store knows
abbrev pub pending : String
pending = "pending"

-- the terminal statuses as they are stored
abbrev pub status_text : ResultStatus → String
status_text status_ok = "ok"
status_text status_error = "error"

-- a row of `model_policy`, whose primary key is the pair of project and kind
pub record PolicyRow : Type 0 where
  pub project : String
  pub kind : String
  pub model : String
  pub updated_at : String

module _ (P : Platform) where
  -- a row of `jobs`; the token columns and the cost are kept together
  pub record JobRow : Type 0 where
    pub job_id : String
    pub project : String
    pub model : String
    pub status : String
    pub completion : Option String
    pub error : Option String
    pub provider : Option String
    pub usage : Usage P
    pub meta : P.JsonText
    pub submitted_at : String
    pub completed_at : Option String

  pub record StoredJob : Type 0 where
    pub job_id : String
    pub project : String
    pub model : String
    pub status : String
    pub completion : Option String
    pub error : Option String
    pub provider : Option String
    pub usage : Usage P
    pub meta : Fields P.Float
    pub submitted_at : P.Datetime
    pub completed_at : Option P.Datetime

  unfoldable pub is_terminal : StoredJob → Bool
  is_terminal stored = not (stored.status == pending)

  pub record ModelPolicy : Type 0 where
    pub project : String
    pub kind : String
    pub model : String
    pub updated_at : P.Datetime

  -- `fromisoformat(raw) if raw else None`: an empty text counts as absent
  read_completed : Option String → Option P.Datetime
  read_completed none = none
  read_completed (some raw) = if raw == "" then none else some (P.fromisoformat raw)

  unfoldable pub row_to_stored_job : JobRow → StoredJob
  unfolding read_completed
  row_to_stored_job row = record {
    job_id = row.job_id;
    project = row.project;
    model = row.model;
    status = row.status;
    completion = row.completion;
    error = row.error;
    provider = row.provider;
    usage = row.usage;
    meta = P.loads row.meta;
    submitted_at = P.fromisoformat row.submitted_at;
    completed_at = read_completed row.completed_at;
  }

  unfoldable pub row_to_model_policy : PolicyRow → ModelPolicy
  row_to_model_policy row = record {
    project = row.project;
    kind = row.kind;
    model = row.model;
    updated_at = P.fromisoformat row.updated_at;
  }

  -- the row of `worker_policy`
  pub record PublishedRow : Type 0 where
    pub max_attempts : ℕ
    pub job_timeout_s : P.Float
    pub base_delay_s : P.Float
    pub max_delay_s : P.Float
    pub retry_budget_s : P.Float
    pub updated_at : String

  -- The table `worker_policy`: with the columns that are expected and its one row, if any; or as an
  -- older worker made it, with or without a row.
  pub data WorkerTable : Type 0 where
    fitting : Option PublishedRow → WorkerTable
    stale : Bool → WorkerTable

  pub record PublishedWorkerPolicy : Type 0 where
    pub max_attempts : ℕ
    pub job_timeout_s : P.Float
    pub base_delay_s : P.Float
    pub max_delay_s : P.Float
    pub retry_budget_s : P.Float
    pub updated_at : P.Datetime

  unfoldable pub row_to_published : PublishedRow → PublishedWorkerPolicy
  row_to_published row = record {
    max_attempts = row.max_attempts;
    job_timeout_s = row.job_timeout_s;
    base_delay_s = row.base_delay_s;
    max_delay_s = row.max_delay_s;
    retry_budget_s = row.retry_budget_s;
    updated_at = P.fromisoformat row.updated_at;
  }
