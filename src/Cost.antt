-- ===== src/Cost.antt =====
-- Pricing of src/llmbus/cost.py: dated rates, the rate in force on a day, the cost of a call.
pub mod Prices
use llmbus.Shared.{
  ℕ, ◌+◌, ◌-◌, ◌^◌, String, Bool, true, false, ◌||◌, Option, none, some, List, [], ◌∷◌, lookup,
  keep_if, ltb, leb, eqb, if◌then◌else◌,
}
use llmbus.Shared.Int.{ℤ, pos, ◌+ℤ◌, ◌*ℤ◌, ltb_ℤ}
use llmbus.Python.Exc.{Exc, raising, Fallible, returned, raised, raise_if, ◌>>=◌, ◌>>◌}
use llmbus.Python.Platform.{Platform, Date, Decimal}
use llmbus.Providers.{unknown_model_error}
use llmbus.Schema.Checks.{value_error}

-- `a <= b` on dates
unfoldable pub date_leb : Date → Date → Bool
date_leb a b =
    if ltb a.year b.year
    then true
    else if ltb b.year a.year
    then false
    else if ltb a.month b.month
    then true
    else if ltb b.month a.month
    then false
    else leb a.day b.day

abbrev pub on_day : ℕ → ℕ → ℕ → Date
on_day y m d = record { year = y; month = m; day = d }

-- `_EPOCH`
abbrev pub epoch : Date
epoch = on_day 2025 1 1

pub record ModelPricing : Type 0 where
  pub input_per_mtok : Decimal
  pub output_per_mtok : Decimal

pub record PricePoint : Type 0 where
  pub effective : Date
  pub pricing : ModelPricing

-- `Decimal("d.cc")`, written in hundredths
abbrev pub cents : ℕ → Decimal
cents n = record { coefficient = pos n; scale = 2 }

abbrev pub priced : Date → ℕ → ℕ → PricePoint
priced from input output = record {
  effective = from;
  pricing = record { input_per_mtok = cents input; output_per_mtok = cents output };
}

abbrev pub flat : ℕ → ℕ → List PricePoint
flat input output = priced epoch input output ∷ []

-- `PRICING`
unfoldable pub pricing_table : List (String × List PricePoint)
pricing_table =
    ("gpt-5", flat 125 1000)
    ∷ ("gpt-5-mini", flat 25 200)
    ∷ ("gpt-5-nano", flat 5 40)
    ∷ ("gpt-5.4-mini", flat 75 450)
    ∷ ("gpt-5.2", flat 175 1400)
    ∷ ("gpt-5.4", flat 250 1500)
    ∷ ("gpt-5.5", flat 500 3000)
    ∷ ("claude-opus-4-8", flat 500 2500)
    ∷ ("claude-haiku-4-5", flat 100 500)
    ∷ ("claude-sonnet-5", priced epoch 200 1000 ∷ priced (on_day 2026 9 1) 300 1500 ∷ [])
    ∷ []

-- the entries of the history that are in force on a day
unfoldable pub applicable : Date → List PricePoint → List PricePoint
applicable on points = keep_if (λ point. date_leb point.effective on) points

-- `max(points, key=effective)`: the first of the greatest, starting from `best`
unfoldable pub latest : PricePoint → List PricePoint → PricePoint
latest best [] = best
latest best (point ∷ points) =
    latest (if date_leb point.effective best.effective then best else point) points

-- `d * n` for an `int`
abbrev pub times : ℤ → Decimal → Decimal
times n d = record d { coefficient = n *ℤ d.coefficient }

-- the coefficient of `d` at a scale that is at least its own
abbrev pub at_scale : ℕ → Decimal → ℤ
at_scale scale d = d.coefficient *ℤ pos (10 ^ (scale - d.scale))

-- `a + b`, at the larger of the two scales
abbrev pub plus : Decimal → Decimal → Decimal
plus a b =
    let scale : ℕ = if leb a.scale b.scale then b.scale else a.scale in
    record { coefficient = at_scale scale a +ℤ at_scale scale b; scale = scale }

-- `d / _PER_MILLION`
abbrev pub per_million : Decimal → Decimal
per_million d = record d { scale = d.scale + 6 }

module _ (P : Platform) where
  price_in : String → List PricePoint → Fallible ModelPricing
  price_in message [] = raised (raising "UnknownModelError" message)
  price_in message (point ∷ points) = returned (latest point points).pricing

  unfoldable pub price_for : String → Date → Fallible ModelPricing
  unfolding price_in applicable latest
  price_for model on = elim (lookup model pricing_table) [
    | none ↦ raised (unknown_model_error P.repr model)
    | some points ↦ price_in (P.unpriced model on) (applicable on points)
  ]

  unfoldable pub cost_usd : String → ℤ → ℤ → Date → Fallible Decimal
  cost_usd model input_tokens output_tokens on = do
    raise_if (ltb_ℤ input_tokens (pos 0) || ltb_ℤ output_tokens (pos 0))
        (value_error "token counts must be non-negative")
    pricing ← price_for model on
    returned (
        per_million (
          plus (times input_tokens pricing.input_per_mtok)
            (times output_tokens pricing.output_per_mtok)))
