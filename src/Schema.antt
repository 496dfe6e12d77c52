-- ===== src/Schema.antt =====
-- The message contract of src/llmbus/schema.py: jobs, results and the checks on their fields.
pub mod Checks
use llmbus.Shared.{String, Option, none, some, List}
use llmbus.Shared.Int.{ℤ, pos}
use llmbus.Python.Exc.{Fallible, returned, raised}
use llmbus.Python.Json.{Fields, end}
use llmbus.Python.Platform.{Platform, nought}
use llmbus.Schema.Checks.{model_policy_error, no_policy_message}

pub data Role : Type 0 where
  system user assistant : Role

pub record Message : Type 0 where
  pub role : Role
  pub content : String

-- `Literal["ok", "error"]`
pub data ResultStatus : Type 0 where
  status_ok status_error : ResultStatus

module _ (P : Platform) where
  pub record ResponseFormat : Type 0 where
    pub name : String
    pub json_schema : Fields P.Float

  pub record JobParams : Type 0 where
    pub temperature : Option P.Float
    pub max_tokens : Option ℤ
    pub response_format : Option ResponseFormat

  pub record Job : Type 0 where
    pub job_id : String
    pub project : String
    pub kind : String
    pub model : Option String
    pub messages : List Message
    pub params : JobParams
    pub callback_url : Option String
    pub meta : Fields P.Float
    pub submitted_at : P.Datetime
    pub ttl_s : Option P.Float

  pub record Usage : Type 0 where
    pub input_tokens : ℤ
    pub output_tokens : ℤ
    pub cost_usd : P.Float

  -- `Usage()`
  abbrev pub default_usage : Usage
  default_usage = record { input_tokens = pos 0; output_tokens = pos 0; cost_usd = nought P }

  -- The contract's outcome of a job.
  pub record Result : Type 0 where
    pub job_id : String
    pub status : ResultStatus
    pub completion : Option String
    pub usage : Usage
    pub provider : Option String
    pub error : Option String
    pub meta : Fields P.Float

  unfoldable pub resolve_model : Job → Option String → Fallible String
  resolve_model job policy_model = elim job.model [
    | some model ↦ returned model
    | none ↦ elim policy_model [
      | some model ↦ returned model
      | none ↦ raised (model_policy_error (no_policy_message P job.project job.kind))
    ]
  ]
