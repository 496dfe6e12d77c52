-- ===== src/Dashboard.antt =====
-- The cost page of src/llmbus/dashboard.py: the totals of the ledger. `decimal.Decimal` is an
-- interface of amounts.
pub mod Totals
pub mod Keys
pub mod Pages
use Prim.Native.String.{◌++◌}
use llmbus.Shared.{String, Bool, true, false, not, List, [], ◌∷◌, ◌==◌, if◌then◌else◌}
use llmbus.Shared.Int.{pos}
use llmbus.Shared.Sorting.{sort_by, text_leb}
use llmbus.Python.Platform.{Platform, nought, fmin, fmax}
use llmbus.Store.Costs.{ProjectDayCost}

-- What the page uses of `Decimal`.
pub record Amounts (F : Type 0) : Type 1 where
  pub Amount : Type 0
  pub zero : Amount
  pub add : Amount → Amount → Amount
  pub lt : Amount → Amount → Bool
  -- `Decimal(str(x))`
  pub of_float : F → Amount
  -- `float(a / b)`
  pub ratio : Amount → Amount → F
  -- `f"{a:,.6f}"`: six places and thousands separators
  pub grouped : Amount → String

module _ (P : Platform) (A : Amounts P.Float) where
  pub record Total : Type 0 where
    pub key : String
    pub amount : A.Amount

  pub record CostSummary : Type 0 where
    pub rows : List (ProjectDayCost P)
    pub by_project : List Total
    pub by_day : List Total
    pub grand_total : A.Amount

  abbrev pub to_decimal : P.Float → A.Amount
  to_decimal value = A.of_float value

  abbrev pub format_usd : A.Amount → String
  format_usd amount = "$" ++ A.grouped amount

  -- `amount <= 0`
  abbrev is_nothing : A.Amount → Bool
  is_nothing amount = not (A.lt A.zero amount)

  unfoldable pub bar_width_pct : A.Amount → A.Amount → P.Float
  bar_width_pct amount largest =
      if is_nothing largest
      then nought P
      else fmax P (nought P)
          (fmin P (P.of_int (pos 100)) (P.mul (A.ratio amount largest) (P.of_int (pos 100))))

  -- `totals[key] = totals.get(key, Decimal(0)) + amount`
  abbrev pub bump : String → A.Amount → List Total → List Total
  bump key amount [] = record { key = key; amount = A.add A.zero amount } ∷ []
  bump key amount (total ∷ totals) =
      if total.key == key
      then record total { amount = A.add total.amount amount } ∷ totals
      else total ∷ bump key amount totals

  abbrev pub sum_onto :
      (ProjectDayCost P → String) → List Total → List (ProjectDayCost P) → List Total
  sum_onto attribute totals [] = totals
  sum_onto attribute totals (row ∷ rows) =
      sum_onto attribute (bump (attribute row) (to_decimal row.cost_usd) totals) rows

  -- `_sum_by`
  unfoldable pub sum_by : (ProjectDayCost P → String) → List (ProjectDayCost P) → List Total
  sum_by attribute rows = sum_onto attribute [] rows

  -- the key `(-amount, name)`
  abbrev pub spend_leb : Total → Total → Bool
  spend_leb a b =
      if A.lt b.amount a.amount
      then true
      else if A.lt a.amount b.amount
      then false
      else text_leb a.key b.key

  abbrev pub key_leb : Total → Total → Bool
  key_leb a b = text_leb a.key b.key

  -- `sum(amounts, Decimal(0))`
  abbrev pub sum_from : A.Amount → List Total → A.Amount
  sum_from start [] = start
  sum_from start (total ∷ totals) = sum_from (A.add start total.amount) totals

  -- As the keys of a dict are distinct, sorting them sorts its entries.
  unfoldable pub summarize : List (ProjectDayCost P) → CostSummary
  summarize rows =
      let per_project : List Total = sum_by (λ row. row.project) rows in
      let per_day : List Total = sum_by (λ row. row.day) rows in
      record {
        rows = rows;
        by_project = sort_by spend_leb per_project;
        by_day = sort_by key_leb per_day;
        grand_total = sum_from A.zero per_project;
      }
