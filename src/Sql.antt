-- ===== src/Sql.antt =====
-- The SQLite statements that src/llmbus/store.py issues, on a table as the list of its rows in
-- rowid order. A table's primary key is a text that `key` reads off a row.
pub mod Keyed
use llmbus.Shared.{
  ℕ, suc, String, Bool, Option, none, some, List, [], ◌∷◌, ◌++◌, ◌&&◌, ◌==◌, if◌then◌else◌,
}

module _ {A : Type 0} (key : A → String) where
  -- `SELECT … WHERE key = ?`, then `fetchone()`
  abbrev pub find : String → List A → Option A
  find k [] = none
  find k (row ∷ rows) = if key row == k then some row else find k rows

  -- `UPDATE … SET … WHERE key = ? AND test`
  abbrev pub update_where : String → (A → Bool) → (A → A) → List A → List A
  update_where k test set [] = []
  update_where k test set (row ∷ rows) =
      (if key row == k && test row then set row else row) ∷ update_where k test set rows

  -- the `rowcount` of that statement
  abbrev pub changed : String → (A → Bool) → List A → ℕ
  changed k test [] = 0
  changed k test (row ∷ rows) =
      if key row == k && test row then suc (changed k test rows) else changed k test rows

  -- `INSERT … ON CONFLICT(key) DO NOTHING`, and its `rowcount`
  abbrev pub insert_or_ignore : A → List A → List A × ℕ
  insert_or_ignore row rows = elim (find (key row) rows) [
    | none ↦ (rows ++ row ∷ [], 1)
    | some _ ↦ (rows, 0)
  ]

-- `SELECT COUNT(*) … WHERE test`
abbrev pub count_where : {A : Type 0} → (A → Bool) → List A → ℕ
count_where test [] = 0
count_where test (row ∷ rows) =
    if test row then suc (count_where test rows) else count_where test rows
