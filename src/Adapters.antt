-- ===== src/Adapters.antt =====
-- The provider adapters, src/llmbus/providers/openai.py and src/llmbus/providers/anthropic.py, over an
-- SDK client: what is asked of it, and what of its response becomes a result.
pub mod Usages
pub mod Openai
pub mod Anthropic
use Prim.Native.String.{◌++◌}
use llmbus.Shared.{String, Option, none, some, List, [], ◌∷◌}
use llmbus.Shared.Int.{ℤ}
use llmbus.Python.Json.{Json, Items, nil, cons, Fields, end, field, text, object}
use llmbus.Python.Exc.{Exc, raising, Ended, answered, failed}
use llmbus.Python.Answers.{◌>>=◌, ◌>>◌}
use llmbus.Providers.{reject_priced_usage}
use llmbus.Processing.Effects.{ProviderResult}
use llmbus.Python.Platform.{Platform, nought}
use llmbus.Schema.{Role, system, user, assistant, Message, Usage}

-- the literal of a role
abbrev pub role_text : Role → String
role_text system = "system"
role_text user = "user"
role_text assistant = "assistant"

-- `{"role": m.role, "content": m.content}` for each message
abbrev pub message_items : {F : Type 0} → List Message → Items F
message_items [] = nil
message_items (m ∷ messages) =
    cons (object (field "role" (text (role_text m.role)) (field "content" (text m.content) end)))
      (message_items messages)

-- the counts that an SDK reports
pub record SdkUsage : Type 0 where
  pub input : ℤ
  pub output : ℤ

abbrev pub attribute_error : String → Exc
attribute_error name =
    raising "AttributeError" ("'NoneType' object has no attribute '" ++ (name ++ "'"))

module _ (P : Platform) where
  -- `repr` of a text that may be `None`
  abbrev pub repr_or_none : Option String → String
  repr_or_none none = "None"
  repr_or_none (some s) = P.repr s

  -- `Usage(input_tokens=..., output_tokens=...)`; the first attribute that is read is the one named
  abbrev pub token_usage : String → Option SdkUsage → Ended (Usage P)
  token_usage name none = failed (attribute_error name)
  token_usage name (some usage) =
      answered
        (record { input_tokens = usage.input; output_tokens = usage.output; cost_usd = nought P })

  -- `ProviderResult(...)`, with its `__post_init__`
  unfoldable pub make_provider_result : String → Usage P → Ended (ProviderResult P)
  make_provider_result completion usage = do
    reject_priced_usage P usage
    answered (record { completion = completion; usage = usage })
