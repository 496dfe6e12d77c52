-- ===== src/Dashboard/Totals.antt =====
-- The totals of the page agree with each other and with the rows.
use llmbus.Shared.{
  String, ◌≡◌, refl, sym, ap, ◌∙◌, Bool, true, false, List, [], ◌∷◌, ◌==◌, eq_iff, arith,
  if◌then◌else◌, Bool-cases, inl, inr,
}
use llmbus.Shared.Sorting.{sort_by, insert_by}
use llmbus.Python.Platform.{Platform}
use llmbus.Store.Costs.{ProjectDayCost}
use llmbus.Dashboard.{
  Amounts, Total, bump, sum_onto, sum_by, sum_from, spend_leb, key_leb, summarize,
}

-- Sums that need no rounding: as long as the digits of all of them fit, `Decimal` adds exactly.
pub record AmountLaws {F : Type 0} (A : Amounts F) : Type 0 where
  pub add_comm : (a b : A.Amount) → A.add a b ≡ A.add b a
  pub add_assoc : (a b c : A.Amount) → A.add (A.add a b) c ≡ A.add a (A.add b c)
  pub add_zero : (a : A.Amount) → A.add A.zero a ≡ a

module _ (P : Platform) (A : Amounts P.Float) where
  -- all amounts, from the last on
  abbrev pub sum_of : List (Total P A) → A.Amount
  sum_of [] = A.zero
  sum_of (total ∷ totals) = A.add total.amount (sum_of totals)

  abbrev pub spend_of : List (ProjectDayCost P) → A.Amount
  spend_of [] = A.zero
  spend_of (row ∷ rows) = A.add (A.of_float row.cost_usd) (spend_of rows)

  -- the rows of a key only
  abbrev pub spend_on : (ProjectDayCost P → String) → String → List (ProjectDayCost P) → A.Amount
  spend_on attribute key [] = A.zero
  spend_on attribute key (row ∷ rows) =
      if attribute row == key
      then A.add (A.of_float row.cost_usd) (spend_on attribute key rows)
      else spend_on attribute key rows

  -- the amount under a key, nothing if it is not there
  abbrev pub amount_at : String → List (Total P A) → A.Amount
  amount_at key [] = A.zero
  amount_at key (total ∷ totals) = if total.key == key then total.amount else amount_at key totals

  module _ (laws : AmountLaws A) where
    swap : (a b c : A.Amount) → A.add a (A.add b c) ≡ A.add b (A.add a c)
    swap a b c =
        sym (laws.add_assoc a b c) ∙ ap (λ x. A.add x c) (laws.add_comm a b) ∙ laws.add_assoc b a c

    sum_of-insert_by :
        (le : Total P A → Total P A → Bool) (t : Total P A) (totals : List (Total P A))
        → sum_of (insert_by le t totals) ≡ A.add t.amount (sum_of totals)
    sum_of-insert_by le t [] = refl
    sum_of-insert_by le t (u ∷ totals) = elim (Bool-cases (le t u)) [
      | inl first ↦ rw first refl
      | inr later ↦ rw later (
          ap (A.add u.amount) (sum_of-insert_by le t totals)
          ∙ swap u.amount t.amount (sum_of totals))
    ]

    sum_of-sort_by :
        (le : Total P A → Total P A → Bool) (totals : List (Total P A))
        → sum_of (sort_by le totals) ≡ sum_of totals
    sum_of-sort_by le [] = refl
    sum_of-sort_by le (t ∷ totals) =
        sum_of-insert_by le t (sort_by le totals) ∙ ap (A.add t.amount) (sum_of-sort_by le totals)

    sum_of-bump :
        (key : String) (amount : A.Amount) (totals : List (Total P A))
        → sum_of (bump P A key amount totals) ≡ A.add amount (sum_of totals)
    sum_of-bump key amount [] = ap (λ a. A.add a A.zero) (laws.add_zero amount)
    sum_of-bump key amount (t ∷ totals) = elim (Bool-cases (t.key == key)) [
      | inl here ↦
          rw here
            (laws.add_assoc t.amount amount (sum_of totals) ∙ swap t.amount amount (sum_of totals))
      | inr other ↦ rw other (
          ap (A.add t.amount) (sum_of-bump key amount totals)
          ∙ swap t.amount amount (sum_of totals))
    ]

    sum_of-sum_onto :
        (attribute : ProjectDayCost P → String) (totals : List (Total P A))
        (rows : List (ProjectDayCost P))
        → sum_of (sum_onto P A attribute totals rows) ≡ A.add (spend_of rows) (sum_of totals)
    sum_of-sum_onto attribute totals [] = sym (laws.add_zero (sum_of totals))
    sum_of-sum_onto attribute totals (row ∷ rows) =
        let amount = A.of_float row.cost_usd in
        sum_of-sum_onto attribute (bump P A (attribute row) amount totals) rows
        ∙ ap (A.add (spend_of rows)) (sum_of-bump (attribute row) amount totals)
        ∙ swap (spend_of rows) amount (sum_of totals)
        ∙ sym (laws.add_assoc amount (spend_of rows) (sum_of totals))

    add_zero_right : (a : A.Amount) → A.add a A.zero ≡ a
    add_zero_right a = laws.add_comm a A.zero ∙ laws.add_zero a

    sum_of-sum_by :
        (attribute : ProjectDayCost P → String) (rows : List (ProjectDayCost P))
        → sum_of (sum_by P A attribute rows) ≡ spend_of rows
    unfolding sum_by
    sum_of-sum_by attribute rows =
        sum_of-sum_onto attribute [] rows ∙ add_zero_right (spend_of rows)

    sum_from-sum_of :
        (start : A.Amount) (totals : List (Total P A))
        → sum_from P A start totals ≡ A.add start (sum_of totals)
    sum_from-sum_of start [] = sym (add_zero_right start)
    sum_from-sum_of start (t ∷ totals) =
        sum_from-sum_of (A.add start t.amount) totals
        ∙ laws.add_assoc start t.amount (sum_of totals)

    amount_at-bump :
        (key k : String) (amount : A.Amount) (totals : List (Total P A))
        → amount_at k (bump P A key amount totals)
          ≡ (if key == k then A.add (amount_at k totals) amount else amount_at k totals)
    amount_at-bump key k amount [] = refl
    amount_at-bump key k amount (t ∷ totals) =
        ground (
          arith,
          amount_at-bump key k amount totals,
          eq_iff t.key key,
          eq_iff t.key k,
          eq_iff key k,
        )

    add-if :
        (c : Bool) (a x b : A.Amount)
        → A.add (if c then A.add a x else a) b ≡ A.add a (if c then A.add x b else b)
    add-if true a x b = laws.add_assoc a x b
    add-if false a x b = refl

    amount_at-sum_onto :
        (attribute : ProjectDayCost P → String) (k : String) (totals : List (Total P A))
        (rows : List (ProjectDayCost P))
        → amount_at k (sum_onto P A attribute totals rows)
          ≡ A.add (amount_at k totals) (spend_on attribute k rows)
    amount_at-sum_onto attribute k totals [] = sym (add_zero_right (amount_at k totals))
    amount_at-sum_onto attribute k totals (row ∷ rows) =
        amount_at-sum_onto attribute k (bump P A (attribute row) (A.of_float row.cost_usd) totals)
          rows
        ∙ ap (λ a. A.add a (spend_on attribute k rows))
            (amount_at-bump (attribute row) k (A.of_float row.cost_usd) totals)
        ∙ add-if (attribute row == k) (amount_at k totals) (A.of_float row.cost_usd)
            (spend_on attribute k rows)

    -- Under exact sums, `_sum_by` has under every key the sum of the rows of that key.
    pub amount_at-sum_by :
        (attribute : ProjectDayCost P → String) (k : String) (rows : List (ProjectDayCost P))
        → amount_at k (sum_by P A attribute rows) ≡ spend_on attribute k rows
    unfolding sum_by
    amount_at-sum_by attribute k rows =
        amount_at-sum_onto attribute k [] rows ∙ laws.add_zero (spend_on attribute k rows)

    -- Under exact sums, the amounts by project, the amounts by day and the grand total of a summary
    -- all come to the sum of the rows.
    summarize_agrees :
        (rows : List (ProjectDayCost P))
        → (sum_of (summarize P A rows).by_project ≡ spend_of rows)
          × (sum_of (summarize P A rows).by_day ≡ spend_of rows)
          × ((summarize P A rows).grand_total ≡ spend_of rows)
    unfolding summarize
    summarize_agrees rows = (
      sum_of-sort_by (spend_leb P A) (sum_by P A (λ row. row.project) rows)
          ∙ sum_of-sum_by (λ row. row.project) rows,
      sum_of-sort_by (key_leb P A) (sum_by P A (λ row. row.day) rows)
          ∙ sum_of-sum_by (λ row. row.day) rows,
      sum_from-sum_of A.zero (sum_by P A (λ row. row.project) rows)
          ∙ laws.add_zero (sum_of (sum_by P A (λ row. row.project) rows))
          ∙ sum_of-sum_by (λ row. row.project) rows,
    )
