-- ===== src/Dashboard/Keys.antt =====
-- Every project and every day is on the page once, with what its own rows add up to.
use llmbus.Shared.{
  String, ◌≡◌, refl, sym, ◌∙◌, Bool, false, ◌||◌, List, [], ◌∷◌, ◌==◌, eq_iff, arith, All,
  Bool-cases, inl, inr,
}
use llmbus.Shared.Sorting.{sort_by, insert_by}
use llmbus.Python.Platform.{Platform}
use llmbus.Store.Costs.{ProjectDayCost}
use llmbus.Dashboard.{Amounts, Total, bump, sum_onto, sum_by, spend_leb, key_leb, summarize}
use llmbus.Dashboard.Totals.{AmountLaws, amount_at, spend_on, amount_at-sum_by}

module _ (P : Platform) (A : Amounts P.Float) where
  abbrev pub has_key : String → List (Total P A) → Bool
  has_key k [] = false
  has_key k (t ∷ totals) = t.key == k || has_key k totals

  -- No key twice.
  abbrev pub IsKeyed : List (Total P A) → Type 0
  IsKeyed [] = Unit
  IsKeyed (t ∷ totals) = (has_key t.key totals ≡ false) × IsKeyed totals

  has_key-bump :
      (key k : String) (amount : A.Amount) (totals : List (Total P A))
      → has_key k (bump P A key amount totals) ≡ (key == k || has_key k totals)
  has_key-bump key k amount [] = refl
  has_key-bump key k amount (t ∷ totals) =
      ground
        (arith, has_key-bump key k amount totals, eq_iff t.key key, eq_iff t.key k, eq_iff key k)

  IsKeyed-bump :
      (key : String) (amount : A.Amount) (totals : List (Total P A))
      → IsKeyed totals
      → IsKeyed (bump P A key amount totals)
  IsKeyed-bump key amount [] h = (refl, tt)
  IsKeyed-bump key amount (t ∷ totals) (h, hs) = elim (Bool-cases (t.key == key)) [
    | inl here ↦ rw here (h, hs)
    | inr other ↦ rw other (
      ground (arith, has_key-bump key t.key amount totals, eq_iff t.key key, eq_iff key t.key),
      IsKeyed-bump key amount totals hs,
    )
  ]

  IsKeyed-sum_onto :
      (attribute : ProjectDayCost P → String) (totals : List (Total P A))
      (rows : List (ProjectDayCost P))
      → IsKeyed totals
      → IsKeyed (sum_onto P A attribute totals rows)
  IsKeyed-sum_onto attribute totals [] h = h
  IsKeyed-sum_onto attribute totals (row ∷ rows) h =
      IsKeyed-sum_onto attribute (bump P A (attribute row) (A.of_float row.cost_usd) totals) rows
        (IsKeyed-bump (attribute row) (A.of_float row.cost_usd) totals h)

  module _ (le : Total P A → Total P A → Bool) where
    has_key-insert_by :
        (k : String) (t : Total P A) (totals : List (Total P A))
        → has_key k (insert_by le t totals) ≡ (t.key == k || has_key k totals)
    has_key-insert_by k t [] = refl
    has_key-insert_by k t (u ∷ totals) = ground (arith, has_key-insert_by k t totals)

    has_key-sort_by :
        (k : String) (totals : List (Total P A)) → has_key k (sort_by le totals) ≡ has_key k totals
    has_key-sort_by k [] = refl
    has_key-sort_by k (t ∷ totals) =
        has_key-insert_by k t (sort_by le totals) ∙ rw (has_key-sort_by k totals) refl

    IsKeyed-insert_by :
        (t : Total P A) (totals : List (Total P A))
        → has_key t.key totals ≡ false
        → IsKeyed totals
        → IsKeyed (insert_by le t totals)
    IsKeyed-insert_by t [] h k = (refl, tt)
    IsKeyed-insert_by t (u ∷ totals) h (k, ks) = elim (Bool-cases (le t u)) [
      | inl first ↦ rw first (h, (k, ks))
      | inr later ↦ rw later (
        ground (arith, has_key-insert_by u.key t totals, eq_iff t.key u.key, eq_iff u.key t.key),
        IsKeyed-insert_by t totals (ground arith) ks,
      )
    ]

    IsKeyed-sort_by : (totals : List (Total P A)) → IsKeyed totals → IsKeyed (sort_by le totals)
    IsKeyed-sort_by [] h = tt
    IsKeyed-sort_by (t ∷ totals) (h, hs) =
        IsKeyed-insert_by t (sort_by le totals) (has_key-sort_by t.key totals ∙ h)
          (IsKeyed-sort_by totals hs)

    All-insert_by :
        (Q : Total P A → Type 0) (t : Total P A) (totals : List (Total P A))
        → Q t
        → All Q totals
        → All Q (insert_by le t totals)
    All-insert_by Q t [] h hs = (h, tt)
    All-insert_by Q t (u ∷ totals) h (k, ks) = elim (Bool-cases (le t u)) [
      | inl first ↦ rw first (h, (k, ks))
      | inr later ↦ rw later (k, All-insert_by Q t totals h ks)
    ]

    All-sort_by :
        (Q : Total P A → Type 0) (totals : List (Total P A))
        → All Q totals
        → All Q (sort_by le totals)
    All-sort_by Q [] h = tt
    All-sort_by Q (t ∷ totals) (h, hs) =
        All-insert_by Q t (sort_by le totals) h (All-sort_by Q totals hs)

  -- With distinct keys, what is under the key of an entry is that entry's amount.
  All-behind :
      (t : Total P A) (totals rest : List (Total P A))
      → has_key t.key rest ≡ false
      → All (λ u. amount_at P A u.key totals ≡ u.amount) rest
      → All (λ u. amount_at P A u.key (t ∷ totals) ≡ u.amount) rest
  All-behind t totals [] h k = tt
  All-behind t totals (u ∷ rest) h (k, ks) = (
    ground (arith, eq_iff t.key u.key, eq_iff u.key t.key, k),
    All-behind t totals rest (ground arith) ks,
  )

  IsKeyed-All :
      (totals : List (Total P A))
      → IsKeyed totals
      → All (λ u. amount_at P A u.key totals ≡ u.amount) totals
  IsKeyed-All [] h = tt
  IsKeyed-All (t ∷ totals) (h, hs) =
      (ground (arith, eq_iff t.key t.key), All-behind t totals totals h (IsKeyed-All totals hs))

  -- A row has this key.
  abbrev pub has_row : (ProjectDayCost P → String) → String → List (ProjectDayCost P) → Bool
  has_row attribute k [] = false
  has_row attribute k (row ∷ rows) = attribute row == k || has_row attribute k rows

  has_key-sum_onto :
      (attribute : ProjectDayCost P → String) (k : String) (totals : List (Total P A))
      (rows : List (ProjectDayCost P))
      → has_key k (sum_onto P A attribute totals rows)
        ≡ (has_key k totals || has_row attribute k rows)
  has_key-sum_onto attribute k totals [] = ground arith
  has_key-sum_onto attribute k totals (row ∷ rows) =
      let more = bump P A (attribute row) (A.of_float row.cost_usd) totals in
      ground (
        arith,
        has_key-sum_onto attribute k more rows,
        has_key-bump (attribute row) k (A.of_float row.cost_usd) totals,
      )

  -- The keys are those of the rows, each once, and under it is what the rows of that key add up to.
  abbrev pub Itemizes :
      (ProjectDayCost P → String) → List (ProjectDayCost P) → List (Total P A) → Type 0
  Itemizes attribute rows totals =
      ((k : String) → has_key k totals ≡ has_row attribute k rows)
      × IsKeyed totals
      × All (λ t. t.amount ≡ spend_on P A attribute t.key rows) totals

  All-map :
      {Q R : Total P A → Type 0} (totals : List (Total P A))
      → ((t : Total P A) → Q t → R t)
      → All Q totals
      → All R totals
  All-map [] f h = tt
  All-map (t ∷ totals) f (h, hs) = (f t h, All-map totals f hs)

  module _ (laws : AmountLaws A) where
    sum_by-Itemizes :
        (attribute : ProjectDayCost P → String) (rows : List (ProjectDayCost P))
        → Itemizes attribute rows (sum_by P A attribute rows)
    unfolding sum_by
    sum_by-Itemizes attribute rows =
        let keyed = IsKeyed-sum_onto attribute [] rows tt in
        (
          λ k. has_key-sum_onto attribute k [] rows,
          keyed,
          All-map {Q = λ u. amount_at P A u.key (sum_by P A attribute rows) ≡ u.amount}
              (sum_by P A attribute rows)
              (λ t h. sym h ∙ amount_at-sum_by P A laws attribute t.key rows)
              (IsKeyed-All (sum_by P A attribute rows) keyed),
        )

    -- Where amounts add up exactly, a summary has the projects of its rows and no other, each once,
    -- with the sum of its own rows, and the days of its rows likewise.
    pub summarize-Itemizes :
        (rows : List (ProjectDayCost P))
        → Itemizes (λ row. row.project) rows (summarize P A rows).by_project
          × Itemizes (λ row. row.day) rows (summarize P A rows).by_day
    unfolding summarize
    summarize-Itemizes rows =
        let (ph, pk, pa) = sum_by-Itemizes (λ row. row.project) rows in
        let (dh, dk, da) = sum_by-Itemizes (λ row. row.day) rows in
        (
          (
            λ k. has_key-sort_by (spend_leb P A) k (sum_by P A (λ row. row.project) rows) ∙ ph k,
            IsKeyed-sort_by (spend_leb P A) (sum_by P A (λ row. row.project) rows) pk,
            All-sort_by (spend_leb P A) _ (sum_by P A (λ row. row.project) rows) pa,
          ),
          (
            λ k. has_key-sort_by (key_leb P A) k (sum_by P A (λ row. row.day) rows) ∙ dh k,
            IsKeyed-sort_by (key_leb P A) (sum_by P A (λ row. row.day) rows) dk,
            All-sort_by (key_leb P A) _ (sum_by P A (λ row. row.day) rows) da,
          ),
        )
