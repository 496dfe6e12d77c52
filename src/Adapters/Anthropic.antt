-- ===== src/Adapters/Anthropic.antt =====
-- The adapter for Anthropic's models, src/llmbus/providers/anthropic.py.
pub mod Clean
use Prim.Native.String.{◌++◌}
use llmbus.Shared.{
  ℕ, String, ◌≡◌, refl, Bool, true, false, not, ◌&&◌, Option, none, some, List, [], ◌∷◌, ◌==◌,
  contains, keep_if, map, if◌then◌else◌,
}
use llmbus.Shared.Int.{ℤ, pos}
use llmbus.Python.Json.{Fields, end, field, text, int, float, array, object, extend}
use llmbus.Python.Exc.{Exc, Ended, answered, failed}
use llmbus.Python.Answers.{◌>>=◌, ◌>>◌, fail_if}
use llmbus.Python.Platform.{Platform, nought}
use llmbus.Python.Texts.{Texts, join_with}
use llmbus.Schema.{Role, system, user, assistant, Message, JobParams, Usage}
use llmbus.Schema.Checks.{value_error}
use llmbus.Processing.Effects.{ProviderResult, Provider}
use llmbus.Adapters.{message_items, SdkUsage, repr_or_none, token_usage, make_provider_result}

pub record Block : Type 0 where
  pub kind : String
  pub body : Option String

pub record Response : Type 0 where
  pub stop_reason : Option String
  pub content : List Block
  pub usage : Option SdkUsage

-- `_MODELS_SUPPORTING_TEMPERATURE`
abbrev pub models_supporting_temperature : List String
models_supporting_temperature = "claude-haiku-4-5" ∷ []

abbrev pub is_system : Message → Bool
is_system m = elim m.role [ system ↦ true | user ↦ false | assistant ↦ false ]

system_text : List String → Option String
system_text [] = none
system_text (part ∷ parts) = some (join_with "\n\n" (part ∷ parts))

-- `_anthropic_system_and_messages`
unfoldable pub anthropic_system_and_messages : List Message → Option String × List Message
unfolding system_text
anthropic_system_and_messages messages = (
  system_text (map (λ m. m.content) (keep_if is_system messages)),
  keep_if (λ m. not (is_system m)) messages,
)

module _ (P : Platform) (T : Texts P.Float) where
  -- the checks on a temperature that is set
  allowed_temperature : String → P.Float → Ended (Option P.Float)
  allowed_temperature model temperature = do
    fail_if (not (contains model models_supporting_temperature)) (
        value_error (
          "model "
          ++ (P.repr model ++ " does not support a caller-set temperature; leave it unset")))
    fail_if (not (P.le (nought P) temperature && P.le temperature (P.of_int (pos 1)))) (
        value_error (
          "temperature "
          ++ (T.repr_float temperature
              ++ (" is out of range for " ++ (P.repr model ++ "; Anthropic accepts 0.0-1.0")))))
    answered (some temperature)

  temperature_of : String → Option P.Float → Ended (Option P.Float)
  unfolding allowed_temperature
  temperature_of model none = answered none
  temperature_of model (some temperature) = allowed_temperature model temperature

  -- `_anthropic_temperature`
  unfoldable pub anthropic_temperature : String → JobParams P → Ended (Option P.Float)
  unfolding temperature_of
  anthropic_temperature model params = temperature_of model params.temperature

  with_system : Option String → Fields P.Float → Fields P.Float
  with_system none request = request
  with_system (some s) request = extend request "system" (text s)

  with_temperature : Option P.Float → Fields P.Float → Fields P.Float
  with_temperature none request = request
  with_temperature (some temperature) request = extend request "temperature" (float temperature)

  with_output : JobParams P → Fields P.Float → Fields P.Float
  with_output params request = elim params.response_format [
    | none ↦ request
    | some format ↦ extend request "output_config" (
        object (
          field "format"
            (object
              (field "type" (text "json_schema") (field "schema" (object format.json_schema) end)))
            end))
  ]

  required_max_tokens : String → Option ℤ → Ended ℤ
  required_max_tokens model none = failed (
      value_error
        ("Anthropic requires max_tokens; set params.max_tokens for model " ++ P.repr model))
  required_max_tokens model (some n) = answered n

  -- `_anthropic_request`
  unfoldable pub anthropic_request : String → List Message → JobParams P → Ended (Fields P.Float)
  unfolding with_system with_temperature with_output required_max_tokens
  anthropic_request model messages params = do
    max_tokens ← required_max_tokens model params.max_tokens
    temperature ← anthropic_temperature model params
    answered (
        with_output params (
          with_temperature temperature (
            with_system (anthropic_system_and_messages messages).0 (
              field "model" (text model) (
                field "max_tokens" (int max_tokens) (
                  field "messages"
                    (array (message_items (anthropic_system_and_messages messages).1)) end))))))

  stopped_early : Option String → Exc
  stopped_early stop_reason = value_error (
      "Anthropic response stopped early (stop_reason="
      ++ (repr_or_none P stop_reason
          ++ (", not 'end_turn') — the completion is truncated or absent; with "
              ++ "'max_tokens', raise params.max_tokens")))

  -- `block.text` if `block.type == "text" and block.text is not None`
  text_of : Block → Option String
  text_of block = if block.kind == "text" then block.body else none

  or_next : Option String → Ended String → Ended String
  or_next none next = next
  or_next (some s) next = answered s

  -- the loop over the blocks
  first_text : List Block → Ended String
  unfolding text_of or_next
  first_text [] = failed (value_error "Anthropic response carried no text block")
  first_text (block ∷ blocks) = or_next (text_of block) (first_text blocks)

  abbrev pub is_text : Option String → String → Bool
  is_text none wanted = false
  is_text (some s) wanted = s == wanted

  -- `_completion_from_response`
  unfoldable pub anthropic_completion : Response → Ended String
  unfolding first_text stopped_early
  anthropic_completion response = do
    fail_if (not (is_text response.stop_reason "end_turn")) (stopped_early response.stop_reason)
    first_text response.content

  -- `_usage_from_anthropic`
  unfoldable pub usage_from_anthropic : Option SdkUsage → Ended (Usage P)
  usage_from_anthropic usage = token_usage P "input_tokens" usage

  -- `AnthropicAdapter.call`, over `client.messages.create`
  unfoldable pub anthropic_call :
      (ℕ → P.Float → Fields P.Float → Ended Response)
      → ℕ
      → P.Float
      → String
      → List Message
      → JobParams P
      → Ended (ProviderResult P)
  anthropic_call create moment timeout model messages params = do
    request ← anthropic_request model messages params
    response ← create moment timeout request
    completion ← anthropic_completion response
    usage ← usage_from_anthropic response.usage
    make_provider_result P completion usage

  -- `AnthropicAdapter(client)`
  unfoldable pub anthropic_adapter : (ℕ → P.Float → Fields P.Float → Ended Response) → Provider P
  anthropic_adapter create = record { name = "anthropic"; call = anthropic_call create }
