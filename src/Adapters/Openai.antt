-- ===== src/Adapters/Openai.antt =====
-- The adapter for OpenAI's models, src/llmbus/providers/openai.py.
pub mod Clean
use Prim.Native.String.{◌++◌}
use llmbus.Shared.{
  ℕ, String, ◌≡◌, refl, Bool, true, false, not, Option, none, some, List, [], ◌∷◌, ◌==◌,
  if◌then◌else◌,
}
use llmbus.Python.Json.{Fields, end, field, text, int, boolean, array, object, extend}
use llmbus.Python.Exc.{Exc, raising, Ended, answered, failed}
use llmbus.Python.Answers.{◌>>=◌, ◌>>◌, fail_if}
use llmbus.Python.Platform.{Platform}
use llmbus.Schema.{Message, JobParams, ResponseFormat, Usage}
use llmbus.Schema.Checks.{value_error}
use llmbus.Processing.Effects.{ProviderResult, Provider}
use llmbus.Adapters.{message_items, SdkUsage, repr_or_none, token_usage, make_provider_result}

pub record Choice : Type 0 where
  pub finish_reason : Option String
  pub content : Option String

pub record Response : Type 0 where
  pub choices : List Choice
  pub usage : Option SdkUsage

abbrev pub index_error : Exc
index_error = raising "IndexError" "list index out of range"

module _ (P : Platform) where
  abbrev is_set {ℓ} : {A : Type ℓ} → Option A → Bool
  is_set none = false
  is_set (some a) = true

  no_temperature : String → Exc
  no_temperature model = value_error (
      "model "
      ++ (P.repr model
          ++ (" does not support a caller-set temperature; the "
              ++ "GPT-5 family only uses its fixed default, so leave temperature unset")))

  with_max_tokens : JobParams P → Fields P.Float → Fields P.Float
  with_max_tokens params request = elim params.max_tokens [
    | none ↦ request
    | some n ↦ extend request "max_completion_tokens" (int n)
  ]

  format_object : ResponseFormat P → Fields P.Float
  format_object format = field "type" (text "json_schema") (
      field "json_schema"
        (object (
          field "name" (text format.name)
            (field "schema" (object format.json_schema) (field "strict" (boolean true) end))))
        end)

  with_format : JobParams P → Fields P.Float → Fields P.Float
  unfolding format_object
  with_format params request = elim params.response_format [
    | none ↦ request
    | some format ↦ extend request "response_format" (object (format_object format))
  ]

  -- `_openai_request`
  unfoldable pub openai_request : String → List Message → JobParams P → Ended (Fields P.Float)
  unfolding with_max_tokens with_format no_temperature
  openai_request model messages params = do
    fail_if (is_set params.temperature) (no_temperature model)
    answered (
        with_format params (
          with_max_tokens params
            (field "model" (text model) (field "messages" (array (message_items messages)) end))))

  not_stopped : Option String → Exc
  not_stopped finish_reason = value_error (
      "OpenAI response finished with finish_reason="
      ++ (repr_or_none P finish_reason
          ++ (", not 'stop' — the completion is truncated or absent; with 'length' the "
              ++ ("max_completion_tokens budget ran out (GPT-5 spends it on reasoning "
                  ++ "tokens too, so raise params.max_tokens well above the expected output)"))))

  abbrev pub is_text : Option String → String → Bool
  is_text none wanted = false
  is_text (some s) wanted = s == wanted

  content_of : Option String → Ended String
  content_of none = failed (value_error "OpenAI response carried no completion content")
  content_of (some content) = answered content

  completion_of : List Choice → Ended String
  unfolding not_stopped content_of
  completion_of [] = failed index_error
  completion_of (choice ∷ choices) = do
    fail_if (not (is_text choice.finish_reason "stop")) (not_stopped choice.finish_reason)
    content_of choice.content

  -- `_completion_from_response`
  unfoldable pub openai_completion : Response → Ended String
  unfolding completion_of
  openai_completion response = completion_of response.choices

  -- `_usage_from_openai`
  unfoldable pub usage_from_openai : Option SdkUsage → Ended (Usage P)
  usage_from_openai usage = token_usage P "prompt_tokens" usage

  -- `OpenAIAdapter.call`, over `client.chat.completions.create` as it ends at a moment, within a timeout
  unfoldable pub openai_call :
      (ℕ → P.Float → Fields P.Float → Ended Response)
      → ℕ
      → P.Float
      → String
      → List Message
      → JobParams P
      → Ended (ProviderResult P)
  openai_call create moment timeout model messages params = do
    request ← openai_request model messages params
    response ← create moment timeout request
    completion ← openai_completion response
    usage ← usage_from_openai response.usage
    make_provider_result P completion usage

  -- `OpenAIAdapter(client)`
  unfoldable pub openai_adapter : (ℕ → P.Float → Fields P.Float → Ended Response) → Provider P
  openai_adapter create = record { name = "openai"; call = openai_call create }
