-- ===== src/Store/Costs.antt =====
-- The cost ledger of the store: `cost_by_project_day`. How the database adds up floats is an argument.
pub mod Groups
use llmbus.Shared.{String, Bool, not, ◌&&◌, List, [], ◌∷◌, map, keep_if, ◌==◌, if◌then◌else◌}
use llmbus.Shared.Sorting.{sort_by, text_leb}
use llmbus.Python.Platform.{Platform, nought}
use llmbus.Python.Texts.{first_chars}
use llmbus.Store.Rows.{JobRow}
use llmbus.Store.{Store}

-- a group of the ledger: a project and a day
abbrev pub Group : Type 0
Group = String × String

abbrev pub same_group : Group → Group → Bool
same_group (p, d) (q, e) = p == q && d == e

-- the groups, each once
abbrev pub distinct_groups : List Group → List Group
distinct_groups [] = []
distinct_groups (g ∷ groups) = g ∷ keep_if (λ h. not (same_group h g)) (distinct_groups groups)

module _ (P : Platform) where
  pub record ProjectDayCost : Type 0 where
    pub project : String
    pub day : String
    pub cost_usd : P.Float

  -- `project, substr(submitted_at, 1, 10)`
  abbrev pub group_of : JobRow P → Group
  group_of row = (row.project, first_chars 10 row.submitted_at)

  group_cost : (List P.Float → P.Float) → List (JobRow P) → Group → ProjectDayCost
  group_cost sql_sum rows (project, day) = record {
    project = project;
    day = day;
    cost_usd = sql_sum (
        map (λ row. row.usage.cost_usd)
          (keep_if (λ row. same_group (group_of row) (project, day)) rows));
  }

  -- `ORDER BY day, project`
  abbrev pub day_leb : ProjectDayCost → ProjectDayCost → Bool
  day_leb a b = if a.day == b.day then text_leb a.project b.project else text_leb a.day b.day

  unfoldable pub cost_by_project_day : (List P.Float → P.Float) → Store P → List ProjectDayCost
  unfolding group_cost
  cost_by_project_day sql_sum s = sort_by day_leb (
      keep_if (λ cost. P.lt (nought P) cost.cost_usd)
        (map (group_cost sql_sum s.jobs) (distinct_groups (map group_of s.jobs))))
