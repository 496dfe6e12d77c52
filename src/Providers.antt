-- ===== src/Providers.antt =====
-- Routing and the provider contract of src/llmbus/providers/base.py.
pub mod Tables
use Prim.Native.String.{◌++◌}
use llmbus.Shared.Sorting.{sort_by, text_leb}
use llmbus.Shared.{
  Bool, true, false, if◌then◌else◌, String, not, Option, none, some, List, [], ◌∷◌, lookup,
}
use llmbus.Python.Exc.{Exc, raising, Fallible, returned, raised, IsFinal, Ended}
use llmbus.Python.Answers.{fail_if}
use llmbus.Python.Platform.{Platform, nought}
use llmbus.Schema.{Usage}
use llmbus.Schema.Checks.{value_error}

-- `PROVIDERS`
unfoldable pub providers : List (String × String)
providers =
    ("gpt-5", "openai")
    ∷ ("gpt-5-mini", "openai")
    ∷ ("gpt-5-nano", "openai")
    ∷ ("gpt-5.4-mini", "openai")
    ∷ ("gpt-5.2", "openai")
    ∷ ("gpt-5.4", "openai")
    ∷ ("gpt-5.5", "openai")
    ∷ ("claude-opus-4-8", "anthropic")
    ∷ ("claude-sonnet-5", "anthropic")
    ∷ ("claude-haiku-4-5", "anthropic")
    ∷ []

pub data Capability : Type 0 where
  chat transcription embedding : Capability

-- `CAPABILITIES`
unfoldable pub capabilities : List (String × Capability)
capabilities =
    ("gpt-5", chat)
    ∷ ("gpt-5-mini", chat)
    ∷ ("gpt-5-nano", chat)
    ∷ ("gpt-5.4-mini", chat)
    ∷ ("gpt-5.2", chat)
    ∷ ("gpt-5.4", chat)
    ∷ ("gpt-5.5", chat)
    ∷ ("claude-opus-4-8", chat)
    ∷ ("claude-sonnet-5", chat)
    ∷ ("claude-haiku-4-5", chat)
    ∷ []

abbrev pub same_capability : Capability → Capability → Bool
same_capability chat chat = true
same_capability transcription transcription = true
same_capability embedding embedding = true
same_capability a b = false

-- the keys of a table whose value passes a test
abbrev pub keys_if {ℓ} : {V : Type ℓ} → (V → Bool) → List (String × V) → List String
keys_if test [] = []
keys_if test ((k, v) ∷ d) = if test v then k ∷ keys_if test d else keys_if test d

unfoldable pub models_with_capability : Capability → List String
unfolding capabilities
models_with_capability capability =
    sort_by text_leb (keys_if (λ served. same_capability served capability) capabilities)

-- A `KeyError` prints the `repr` of its key.
abbrev pub unknown_model_error : (String → String) → String → Exc
unknown_model_error repr model = raising "UnknownModelError" (repr model)

-- `table[model]`, with the `KeyError` turned into an `UnknownModelError`
abbrev pub or_unknown {ℓ} : {A : Type ℓ} → (String → String) → String → Option A → Fallible A
or_unknown repr model none = raised (unknown_model_error repr model)
or_unknown repr model (some a) = returned a

module _ (P : Platform) where
  unfoldable pub provider_for : String → Fallible String
  provider_for model = or_unknown P.repr model (lookup model providers)

  unfoldable pub capability_for : String → Fallible Capability
  capability_for model = or_unknown P.repr model (lookup model capabilities)

  -- `_reject_priced_usage`
  unfoldable pub reject_priced_usage : Usage P → Ended (Unit {0})
  reject_priced_usage usage = fail_if (not (P.float_eq usage.cost_usd (nought P))) (
      value_error (
        "providers must not price a result; leave usage.cost_usd at its "
        ++ ("0.0 default (cost.py fills it, §6), got " ++ P.str_float usage.cost_usd)))

or_unknown-IsFinal :
    {A : Type 0} (repr : String → String) (model : String) (o : Option A)
    → IsFinal (or_unknown repr model o)
or_unknown-IsFinal repr model none = tt
or_unknown-IsFinal repr model (some a) = tt

pub provider_for-IsFinal : (P : Platform) (model : String) → IsFinal (provider_for P model)
unfolding provider_for
provider_for-IsFinal P model = or_unknown-IsFinal P.repr model (lookup model providers)
