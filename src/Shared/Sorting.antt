-- ===== src/Shared/Sorting.antt =====
-- `sorted` and `ORDER BY` as insertion, by a Boolean order. Both are stable, as insertion from the
-- right is.
pub mod Laws
use Prim.Native.String.{String, compare}
use mathlib.Core.Bool.{Bool}
use mathlib.Core.List.{List, [], ◌∷◌}
use text.Mathlib.Text.{is_le}
use llmbus.Shared.Tests.{if◌then◌else◌}

-- `a <= b` on texts, by code points
abbrev pub text_leb : String → String → Bool
text_leb a b = is_le (compare a b)

module _ {ℓ} {A : Type ℓ} (le : A → A → Bool) where
  abbrev pub insert_by : A → List A → List A
  insert_by x [] = x ∷ []
  insert_by x (y ∷ ys) = if le x y then x ∷ y ∷ ys else y ∷ insert_by x ys

  abbrev pub sort_by : List A → List A
  sort_by [] = []
  sort_by (x ∷ xs) = insert_by x (sort_by xs)
