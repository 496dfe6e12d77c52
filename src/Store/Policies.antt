-- ===== src/Store/Policies.antt =====
-- The `model_policy` table: an upsert on the pair of project and kind, and its lookup.
use llmbus.Shared.{
  String, ◌≡◌, refl, ap, ◌∙◌, Bool, true, false, ◌&&◌, Option, some, List, [], ◌∷◌, ◌==◌, eq_iff,
  arith, if◌then◌else◌,
}
use llmbus.Python.Platform.{Platform, TextLaws}
use llmbus.Store.Rows.{PolicyRow, row_to_model_policy}
use llmbus.Store.{Store, set_model_policy, model_policy, upsert_policy, find_policy, read_policy}

module _ (P : Platform) where
  -- The keys of the pair that is looked up are those of the row found, so an update that keeps them
  -- gives the new row.
  find-upsert :
      (new : PolicyRow) (project kind : String) (rows : List PolicyRow)
      → find_policy P project kind (upsert_policy P new rows) ≡ (
          if new.project == project && new.kind == kind
          then some new
          else find_policy P project kind rows)
  unfolding find_policy upsert_policy
  find-upsert new project kind [] = refl
  find-upsert new project kind (row ∷ rows) = ground (
    arith,
    find-upsert new project kind rows,
    eq_iff row.project new.project,
    eq_iff row.kind new.kind,
    eq_iff row.project project,
    eq_iff row.kind kind,
    eq_iff new.project project,
    eq_iff new.kind kind,
  )

  read-if :
      (c : Bool) (a : PolicyRow) (o : Option PolicyRow)
      → read_policy P (if c then some a else o)
        ≡ (if c then some (row_to_model_policy P a) else read_policy P o)
  read-if true a o = refl
  read-if false a o = refl

  -- What was set last for a pair is what is read for it; no other pair is touched.
  pub model_policy-set :
      (laws : TextLaws P) (project kind model : String) (stamp : P.Datetime) (q k : String)
      (s : Store P)
      → model_policy P q k (set_model_policy P project kind model stamp s) ≡ (
          if project == q && kind == k
          then some (record { project = project; kind = kind; model = model; updated_at = stamp })
          else model_policy P q k s)
  unfolding model_policy set_model_policy row_to_model_policy
  model_policy-set laws project kind model stamp q k s =
      let new : PolicyRow = record {
        project = project;
        kind = kind;
        model = model;
        updated_at = P.isoformat stamp;
      } in
      ap (read_policy P) (find-upsert new q k s.model_policies)
      ∙ read-if (project == q && kind == k) new (find_policy P q k s.model_policies)
      ∙ rw (laws.fromisoformat-isoformat stamp)
