-- ===== src/Adapters/Anthropic/Clean.antt =====
-- What a result of the Anthropic adapter was made of.
use llmbus.Shared.{
  ℕ, String, ◌≡◌, refl, sym, ap, ◌∙◌, true, false, not, Option, none, some, List, [], ◌∷◌, ◌++◌,
  ◌==◌, eq_iff, arith, contains, All, ◌⊎◌, inl, inr, Bool-cases, Option-cases,
}
use llmbus.Shared.Int.{ℤ, pos}
use llmbus.Python.Json.{Fields}
use llmbus.Python.Exc.{Ended, answered}
use llmbus.Python.Answers.{bind-answered, fail_if-answered}
use llmbus.Python.Platform.{Platform, nought}
use llmbus.Python.Texts.{Texts}
use llmbus.Schema.{Message, JobParams}
use llmbus.Processing.Effects.{ProviderResult}
use llmbus.Adapters.{SdkUsage, make_provider_result}
use llmbus.Adapters.Usages.{token_usage-answered, make_provider_result-answered}
use llmbus.Adapters.Anthropic.{
  Block, Response, is_text, anthropic_request, required_max_tokens, anthropic_temperature,
  allowed_temperature, models_supporting_temperature, anthropic_completion, first_text,
  temperature_of, text_of, or_next, usage_from_anthropic, anthropic_call,
}

-- A block that has no text to give.
abbrev pub IsTextless : Block → Type 0
IsTextless block = ((block.kind == "text") ≡ false) ⊎ (block.body ≡ none)

module _ (P : Platform) (T : Texts P.Float) where
  -- A temperature that is left alone, or in range for a model that takes one.
  abbrev pub IsAllowed : String → Option P.Float → Type 0
  IsAllowed model none = Unit
  IsAllowed model (some temperature) =
      (contains model models_supporting_temperature ≡ true)
      × (P.le (nought P) temperature ≡ true)
      × (P.le temperature (P.of_int (pos 1)) ≡ true)

  -- A result that is the first text of a turn that ended, for the job's own request.
  pub record IsClean (create : ℕ → P.Float → Fields P.Float → Ended Response) (moment : ℕ)
      (timeout : P.Float) (model : String) (messages : List Message) (params : JobParams P)
      (r : ProviderResult P) : Type 0 where
    pub request : Fields P.Float
    pub response : Response
    pub before : List Block
    pub block : Block
    pub after : List Block
    pub limit : ℤ
    pub tokens : SdkUsage
    pub asked : anthropic_request P T model messages params ≡ answered request
    pub responded : create moment timeout request ≡ answered response
    pub limited : params.max_tokens ≡ some limit
    pub allowed : IsAllowed model params.temperature
    pub finished : response.stop_reason ≡ some "end_turn"
    pub split : response.content ≡ before ++ (block ∷ after)
    pub skipped : All IsTextless before
    pub is_text_block : block.kind ≡ "text"
    pub content : block.body ≡ some r.completion
    pub reported : response.usage ≡ some tokens
    pub counted :
        r.usage
        ≡ record { input_tokens = tokens.input; output_tokens = tokens.output; cost_usd = nought P }

  required_max_tokens-answered :
      (model : String) (o : Option ℤ) {n : ℤ}
      → required_max_tokens P T model o ≡ answered n
      → o ≡ some n
  unfolding required_max_tokens
  required_max_tokens-answered model none h = cc
  required_max_tokens-answered model (some m) h = cc

  allowed_temperature-IsAllowed :
      (model : String) (temperature : P.Float) {o : Option P.Float}
      → allowed_temperature P T model temperature ≡ answered o
      → IsAllowed model (some temperature)
  unfolding allowed_temperature
  allowed_temperature-IsAllowed model temperature h = ground (arith, h)

  temperature_of-IsAllowed :
      (model : String) (temperature : Option P.Float) {o : Option P.Float}
      → temperature_of P T model temperature ≡ answered o
      → IsAllowed model temperature
  unfolding temperature_of
  temperature_of-IsAllowed model none h = tt
  temperature_of-IsAllowed model (some temperature) h =
      allowed_temperature-IsAllowed model temperature h

  is_text-true : (o : Option String) (s : String) → not (is_text P T o s) ≡ false → o ≡ some s
  is_text-true none s h = cc
  is_text-true (some t) s h = ap some ((eq_iff t s).0 (ground arith))

  abbrev FirstText : List Block → String → Type 0
  FirstText blocks text =
      (before : List Block) × (block : Block) × (after : List Block) × (blocks
        ≡ before ++ (block ∷ after))
      × All IsTextless before
      × (block.kind ≡ "text")
      × (block.body ≡ some text)

  skip :
      (block : Block) (blocks : List Block) (text : String)
      → IsTextless block
      → FirstText blocks text
      → FirstText (block ∷ blocks) text
  skip block blocks text h (before, found, after, e, textless, kind, body) =
      (block ∷ before, found, after, ap (λ bs. block ∷ bs) e, (h, textless), kind, body)

  text_of-IsTextless : (block : Block) → text_of P T block ≡ none → IsTextless block
  unfolding text_of
  text_of-IsTextless block h = elim (Bool-cases (block.kind == "text")) [
    | inl is ↦ inr (rw is at h)
    | inr other ↦ inl other
  ]

  text_of-text :
      (block : Block) (text : String)
      → text_of P T block ≡ some text
      → (block.kind ≡ "text") × (block.body ≡ some text)
  unfolding text_of
  text_of-text block text h = elim (Bool-cases (block.kind == "text")) [
    | inl is ↦ ((eq_iff block.kind "text").0 is, rw is at h)
    | inr other ↦ cc (rw other at h)
  ]

  first_text-FirstText :
      (blocks : List Block) (text : String)
      → first_text P T blocks ≡ answered text
      → FirstText blocks text
  unfolding first_text or_next
  first_text-FirstText [] text h = cc
  first_text-FirstText (block ∷ blocks) text h = elim (Option-cases (text_of P T block)) [
    | inl none_here ↦
        skip block blocks text (text_of-IsTextless block none_here)
          (first_text-FirstText blocks text (rw none_here at h))
    | inr (found, here) ↦
        let same : found ≡ text = cc (rw here at h) in
        let (kind, body) = text_of-text block found here in
        ([], block, blocks, refl, tt, kind, body ∙ ap some same)
  ]

  -- If the adapter returns, the request was the one built for the job, with a token limit, and with a
  -- temperature only from 0 to 1 for a model that takes one; the response was the client's to that
  -- request; its turn ended; the completion is the text of the first block that has one; and the usage
  -- is the reported counts, with no price.
  pub anthropic_call-IsClean :
      (create : ℕ → P.Float → Fields P.Float → Ended Response) (moment : ℕ) (timeout : P.Float)
      (model : String) (messages : List Message) (params : JobParams P) {r : ProviderResult P}
      → anthropic_call P T create moment timeout model messages params ≡ answered r
      → IsClean create moment timeout model messages params r
  unfolding anthropic_call anthropic_completion usage_from_anthropic anthropic_request
      anthropic_temperature
  anthropic_call-IsClean create moment timeout model messages params {r} h =
      let (request, asked, h1) = bind-answered (anthropic_request P T model messages params) _ h in
      let (response, responded, h2) = bind-answered (create moment timeout request) _ h1 in
      let (completion, e3, h3) = bind-answered (anthropic_completion P T response) _ h2 in
      let (usage, e4, h4) =
        bind-answered (usage_from_anthropic P T response.usage) (make_provider_result P completion)
          h3 in
      let (limit, limited, a1) =
        bind-answered (required_max_tokens P T model params.max_tokens) _ asked in
      let (temperature, allowed, a2) =
        bind-answered (temperature_of P T model params.temperature) _ a1 in
      let (finished, found) =
        fail_if-answered (not (is_text P T response.stop_reason "end_turn")) _
          (first_text P T response.content) e3 in
      let (before, block, after, split, skipped, kind, body) =
        first_text-FirstText response.content completion found in
      let (tokens, reported, counted) = token_usage-answered P "input_tokens" response.usage e4 in
      let same = make_provider_result-answered P completion usage h4 in
      record {
        request = request;
        response = response;
        before = before;
        block = block;
        after = after;
        limit = limit;
        tokens = tokens;
        asked = asked;
        responded = responded;
        limited = required_max_tokens-answered model params.max_tokens limited;
        allowed = temperature_of-IsAllowed model params.temperature allowed;
        finished = is_text-true response.stop_reason "end_turn" finished;
        split = split;
        skipped = skipped;
        is_text_block = kind;
        content = body ∙ ap some (sym (ap (λ x. x.completion) same));
        reported = reported;
        counted = ap (λ x. x.usage) same ∙ counted;
      }
