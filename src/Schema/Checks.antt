-- ===== src/Schema/Checks.antt =====
-- The field checks of src/llmbus/schema.py, and the errors that they raise.
pub mod Strict
use Prim.Native.String.{◌++◌}
use llmbus.Shared.{String, Bool, true, false, not, ◌&&◌, Option, none, some, ◌==◌, if◌then◌else◌}
use llmbus.Shared.Int.{ℤ, pos, ltb_ℤ}
use llmbus.Python.Exc.{Exc, raising, Fallible, returned, raised}
use llmbus.Python.Json.{Json, boolean, text, Fields, end, field, get}
use llmbus.Python.Platform.{Platform, nought}

abbrev pub model_policy_error : String → Exc
model_policy_error = raising "ModelPolicyError"

abbrev pub value_error : String → Exc
value_error = raising "ValueError"

-- `MAX_TTL_S`, a day
abbrev pub max_ttl_s : ℤ
max_ttl_s = pos 86400

module _ (P : Platform) where
  abbrev pub no_policy_message : String → String → String
  no_policy_message project kind =
      "no model policy for project "
      ++ (P.repr project ++ (" kind " ++ (P.repr kind ++ ", and the job set no model")))

  -- `schema.get("type") != "object"`, negated
  is_object_type : Option (Json P.Float) → Bool
  is_object_type (some (text t)) = t == "object"
  is_object_type _ = false

  -- `schema.get("additionalProperties") is False`
  is_false : Option (Json P.Float) → Bool
  is_false (some (boolean false)) = true
  is_false _ = false

  is_empty : Fields P.Float → Bool
  is_empty end = true
  is_empty (field k v d) = false

  unfoldable pub ensure_strict_object_schema : Fields P.Float → Fallible (Fields P.Float)
  unfolding is_object_type is_false is_empty get
  ensure_strict_object_schema schema =
      if is_empty schema
      then raised (value_error "response_format schema must be a non-empty JSON Schema object")
      else if not (is_object_type (get "type" schema))
      then raised (value_error "response_format schema must declare top-level type 'object'")
      else if not (is_false (get "additionalProperties" schema))
      then raised
          (value_error "response_format schema must set top-level additionalProperties to false")
      else returned schema

  -- `Field(default=None, gt=0)` of `max_tokens`
  unfoldable pub max_tokens_ok : Option ℤ → Bool
  max_tokens_ok none = true
  max_tokens_ok (some n) = ltb_ℤ (pos 0) n

  -- `Field(default=None, gt=0, le=MAX_TTL_S)` of `ttl_s`
  unfoldable pub ttl_ok : Option P.Float → Bool
  ttl_ok none = true
  ttl_ok (some t) = P.lt (nought P) t && not (P.lt (P.of_int max_ttl_s) t)
