-- ===== src/Store/Costs/Groups.antt =====
-- What the cost ledger lists, `cost_by_project_day` of src/llmbus/store.py.
use llmbus.Shared.{
  ℕ, suc, ◌≡◌, refl, ap, ◌∙◌, Bool, true, false, not, ◌&&◌, ◌||◌, List, [], ◌∷◌, ◌==◌, eq_iff, map,
  keep_if, arith, All, if◌then◌else◌, Bool-cases, inl, inr,
}
use llmbus.Shared.Sorting.Laws.{
  text_leb_total, IsTotal, IsSorted, sort_by-IsSorted, count_if, count_if-sort_by, count_if-keep_if,
  count_if-map, count_if-ext, All-sort_by,
}
use llmbus.Python.Platform.{Platform, nought}
use llmbus.Store.{Store}
use llmbus.Store.Rows.{JobRow}
use llmbus.Store.Costs.{
  Group, same_group, distinct_groups, ProjectDayCost, group_of, group_cost, day_leb,
  cost_by_project_day,
}

abbrev pub has_group : Group → List Group → Bool
has_group g [] = false
has_group g (h ∷ groups) = same_group h g || has_group g groups

-- The same project and the same day: the groups are equal.
same_group-eq : (g h : Group) → same_group g h ≡ true → g ≡ h
same_group-eq (p, d) (q, e) h = ground (arith, eq_iff p q, eq_iff d e, h)

same_group_trans : (f g h : Group) → same_group g h ≡ true → same_group f h ≡ same_group f g
same_group_trans (a, b) (p, d) (q, e) h =
    ground (arith, eq_iff p q, eq_iff d e, eq_iff a p, eq_iff a q, eq_iff b d, eq_iff b e, h)

count_none : (groups : List Group) → count_if (λ (h : Group). false) groups ≡ 0
count_none [] = refl
count_none (g ∷ groups) = count_none groups

module _ (g : Group) (k : Bool) where
  abbrev hit : Group → Bool
  hit h = same_group h g && k

  -- A group that is there is there once.
  count_if-distinct_groups :
      (groups : List Group)
      → count_if hit (distinct_groups groups) ≡ (if has_group g groups && k then 1 else 0)
  count_if-distinct_groups [] = refl
  count_if-distinct_groups (x ∷ groups) = elim (Bool-cases (same_group x g)) [
    | inl here ↦ rw here (
        ap (λ (n : ℕ). if k then suc n else n)
          (count_if-keep_if hit (λ h. not (same_group h x)) (distinct_groups groups)
            ∙ count_if-ext _ (λ h. false) (distinct_groups groups)
                (λ h. ground (arith, same_group_trans h x g here))
            ∙ count_none (distinct_groups groups)))
    | inr other ↦ rw other (
        count_if-keep_if hit (λ h. not (same_group h x)) (distinct_groups groups)
        ∙ count_if-ext _ hit (distinct_groups groups) (λ h. elim (Bool-cases (same_group h x)) [
          | inl same ↦
              let off : same_group h g ≡ false =
                ap (λ (y : Group). same_group y g) (same_group-eq h x same) ∙ other in
              ground (arith, off)
          | inr apart ↦ ground arith
        ])
        ∙ count_if-distinct_groups groups)
  ]

module _ (P : Platform) (sql_sum : List P.Float → P.Float) where
  -- what the rows of a group add up to, as the database adds
  abbrev pub group_total : List (JobRow P) → Group → P.Float
  group_total rows g =
      sql_sum
        (map (λ row. row.usage.cost_usd) (keep_if (λ row. same_group (group_of P row) g) rows))

  abbrev pub key_of : ProjectDayCost P → Group
  key_of cost = (cost.project, cost.day)

  abbrev is_spend : ProjectDayCost P → Bool
  is_spend cost = P.lt (nought P) cost.cost_usd

  abbrev pub is_spent : List (JobRow P) → Group → Bool
  is_spent rows g = P.lt (nought P) (group_total rows g)

  -- A ledger of some rows: each of their groups with a positive total once and no other, with its
  -- total, by day and then by project.
  abbrev pub Lists : List (JobRow P) → List (ProjectDayCost P) → Type 0
  Lists rows ledger =
      ((g : Group)
        → count_if (λ cost. same_group (key_of cost) g) ledger
          ≡ (if has_group g (map (group_of P) rows) && is_spent rows g then 1 else 0))
      × All (λ cost. cost.cost_usd ≡ group_total rows (key_of cost)) ledger
      × IsSorted (day_leb P) ledger

  day_leb-IsTotal : IsTotal (day_leb P)
  day_leb-IsTotal a b h = elim (Bool-cases (a.day == b.day)) [
    | inl same ↦
        let back : (b.day == a.day) ≡ true =
          ground (arith, eq_iff a.day b.day, eq_iff b.day a.day, same) in
        rw back (text_leb_total a.project b.project (rw same at h))
    | inr other ↦
        let back : (b.day == a.day) ≡ false =
          ground (arith, eq_iff a.day b.day, eq_iff b.day a.day, other) in
        rw back (text_leb_total a.day b.day (rw other at h))
  ]

  spent_under :
      (rows : List (JobRow P)) (g h : Group)
      → (same_group (key_of (group_cost P sql_sum rows h)) g
          && is_spend (group_cost P sql_sum rows h))
        ≡ (same_group h g && is_spent rows g)
  unfolding group_cost
  spent_under rows g h = elim (Bool-cases (same_group h g)) [
    | inl same ↦ ap (λ (y : Group). same_group h g && is_spent rows y) (same_group-eq h g same)
    | inr other ↦ ground (arith, other)
  ]

  spend-All :
      (rows : List (JobRow P)) (groups : List Group)
      → All
          (λ cost. cost.cost_usd ≡ group_total rows (key_of cost))
          (keep_if is_spend (map (group_cost P sql_sum rows) groups))
  unfolding group_cost
  spend-All rows [] = tt
  spend-All rows (g ∷ groups) = elim (Bool-cases (is_spend (group_cost P sql_sum rows g))) [
    | inl kept ↦ rw kept (refl, spend-All rows groups)
    | inr gone ↦ rw gone (spend-All rows groups)
  ]

  -- Every project and day with a row has its line in the ledger if its rows add up to a positive
  -- amount, and one line only; there is no other line; each line has what the rows of its project
  -- and day add up to, as the database adds them; and the lines are in the order of their days, and
  -- within a day of their projects.
  pub cost_by_project_day-Lists : (s : Store P) → Lists s.jobs (cost_by_project_day P sql_sum s)
  unfolding cost_by_project_day group_cost
  cost_by_project_day-Lists s =
      let groups : List Group = distinct_groups (map (group_of P) s.jobs) in
      let costs : List (ProjectDayCost P) = map (group_cost P sql_sum s.jobs) groups in
      (
        λ g.
            count_if-sort_by (day_leb P) _ (keep_if is_spend costs)
            ∙ count_if-keep_if _ is_spend costs
            ∙ count_if-map _ (group_cost P sql_sum s.jobs) groups
            ∙ count_if-ext _ (hit g (is_spent s.jobs g)) groups (spent_under s.jobs g)
            ∙ count_if-distinct_groups g (is_spent s.jobs g) (map (group_of P) s.jobs),
        All-sort_by (day_leb P) _ (keep_if is_spend costs) (spend-All s.jobs groups),
        sort_by-IsSorted (day_leb P) day_leb-IsTotal (keep_if is_spend costs),
      )
