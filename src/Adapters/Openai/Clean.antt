-- ===== src/Adapters/Openai/Clean.antt =====
-- What a result of the OpenAI adapter was made of.
use llmbus.Shared.{
  ℕ, String, ◌≡◌, refl, sym, ap, ◌∙◌, false, not, Option, none, some, List, [], ◌∷◌, eq_iff, arith,
}
use llmbus.Python.Json.{Fields}
use llmbus.Python.Exc.{Ended, answered}
use llmbus.Python.Answers.{bind-answered, fail_if-answered}
use llmbus.Python.Platform.{Platform, nought}
use llmbus.Schema.{Message, JobParams}
use llmbus.Processing.Effects.{ProviderResult}
use llmbus.Adapters.{SdkUsage, make_provider_result}
use llmbus.Adapters.Usages.{token_usage-answered, make_provider_result-answered}
use llmbus.Adapters.Openai.{
  Choice, Response, is_set, is_text, openai_request, openai_completion, completion_of, content_of,
  usage_from_openai, openai_call,
}

module _ (P : Platform) where
  -- A result that is the whole, finished answer to the job's own request.
  pub record IsClean (create : ℕ → P.Float → Fields P.Float → Ended Response) (moment : ℕ)
      (timeout : P.Float) (model : String) (messages : List Message) (params : JobParams P)
      (r : ProviderResult P) : Type 0 where
    pub request : Fields P.Float
    pub response : Response
    pub choice : Choice
    pub others : List Choice
    pub tokens : SdkUsage
    pub asked : openai_request P model messages params ≡ answered request
    pub responded : create moment timeout request ≡ answered response
    pub default_temperature : params.temperature ≡ none
    pub first : response.choices ≡ choice ∷ others
    pub finished : choice.finish_reason ≡ some "stop"
    pub content : choice.content ≡ some r.completion
    pub reported : response.usage ≡ some tokens
    pub counted :
        r.usage
        ≡ record { input_tokens = tokens.input; output_tokens = tokens.output; cost_usd = nought P }

  is_set-none {ℓ} : {A : Type ℓ} (o : Option A) → is_set P o ≡ false → o ≡ none
  is_set-none none h = refl
  is_set-none (some a) h = cc

  openai_request-temperature :
      (model : String) (messages : List Message) (params : JobParams P) {request : Fields P.Float}
      → openai_request P model messages params ≡ answered request
      → params.temperature ≡ none
  unfolding openai_request
  openai_request-temperature model messages params h =
      is_set-none params.temperature (fail_if-answered _ _ _ h).0

  is_text-true : (o : Option String) (s : String) → not (is_text P o s) ≡ false → o ≡ some s
  is_text-true none s h = cc
  is_text-true (some t) s h = ap some ((eq_iff t s).0 (ground arith))

  content_of-answered :
      (o : Option String) {text : String} → content_of P o ≡ answered text → o ≡ some text
  unfolding content_of
  content_of-answered none h = cc
  content_of-answered (some s) h = cc

  completion_of-answered :
      (choices : List Choice) {text : String}
      → completion_of P choices ≡ answered text
      → (choice : Choice) × (others : List Choice) × (choices ≡ choice ∷ others)
        × (choice.finish_reason ≡ some "stop")
        × (choice.content ≡ some text)
  unfolding completion_of
  completion_of-answered [] h = cc
  completion_of-answered (choice ∷ others) h =
      let (finished, rest) = fail_if-answered _ _ _ h in
      (
        choice,
        others,
        refl,
        is_text-true choice.finish_reason "stop" finished,
        content_of-answered choice.content rest,
      )

  -- If the adapter returns, the request was the one built for the job, with no temperature set; the
  -- response was the client's to that request; its first choice finished with "stop" and its content is
  -- the completion; and the usage is the reported counts, with no price.
  pub openai_call-IsClean :
      (create : ℕ → P.Float → Fields P.Float → Ended Response) (moment : ℕ) (timeout : P.Float)
      (model : String) (messages : List Message) (params : JobParams P) {r : ProviderResult P}
      → openai_call P create moment timeout model messages params ≡ answered r
      → IsClean create moment timeout model messages params r
  unfolding openai_call openai_completion usage_from_openai
  openai_call-IsClean create moment timeout model messages params {r} h =
      let (request, asked, h1) = bind-answered _ _ h in
      let (response, responded, h2) = bind-answered _ _ h1 in
      let (completion, e3, h3) = bind-answered _ _ h2 in
      let (usage, e4, h4) =
        bind-answered (usage_from_openai P response.usage) (make_provider_result P completion) h3 in
      let (choice, others, first, finished, content) = completion_of-answered response.choices e3 in
      let (tokens, reported, counted) = token_usage-answered P "prompt_tokens" response.usage e4 in
      let same = make_provider_result-answered P completion usage h4 in
      record {
        request = request;
        response = response;
        choice = choice;
        others = others;
        tokens = tokens;
        asked = asked;
        responded = responded;
        default_temperature = openai_request-temperature model messages params asked;
        first = first;
        finished = finished;
        content = content ∙ ap some (sym (ap (λ x. x.completion) same));
        reported = reported;
        counted = ap (λ x. x.usage) same ∙ counted;
      }
