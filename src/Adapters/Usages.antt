-- ===== src/Adapters/Usages.antt =====
-- The counts and the result that an adapter reports.
use llmbus.Shared.{String, ◌≡◌, refl, not, Option, none, some}
use llmbus.Python.Exc.{answered}
use llmbus.Python.Answers.{fail_if-answered}
use llmbus.Python.Platform.{Platform, nought}
use llmbus.Schema.{Usage}
use llmbus.Providers.{reject_priced_usage}
use llmbus.Processing.Effects.{ProviderResult}
use llmbus.Adapters.{SdkUsage, token_usage, make_provider_result}

answered_injective : {A : Type 0} {a b : A} → answered a ≡ answered b → b ≡ a
answered_injective h = cc

module _ (P : Platform) where
  pub token_usage-answered :
      (name : String) (o : Option SdkUsage) {usage : Usage P}
      → token_usage P name o ≡ answered usage
      → (tokens : SdkUsage) × (o ≡ some tokens)
        × (usage ≡ record {
          input_tokens = tokens.input;
          output_tokens = tokens.output;
          cost_usd = nought P;
        })
  token_usage-answered name none h = cc
  token_usage-answered name (some tokens) h = (tokens, refl, cc)

  pub make_provider_result-answered :
      (completion : String) (usage : Usage P) {r : ProviderResult P}
      → make_provider_result P completion usage ≡ answered r
      → r ≡ record { completion = completion; usage = usage }
  unfolding make_provider_result reject_priced_usage
  make_provider_result-answered completion usage {r} h =
      let made : ProviderResult P = record { completion = completion; usage = usage } in
      answered_injective
        (fail_if-answered (not (P.float_eq usage.cost_usd (nought P))) _ (answered made) h).1
