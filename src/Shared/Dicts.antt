-- ===== src/Shared/Dicts.antt =====
-- Facts about constant tables that a closed computation settles: which keys they share, and what
-- holds of every entry.
use Prim.Native.String.{String}
use mathlib.Core.Path.{◌≡◌, refl}
use mathlib.Core.Bool.{Bool, true, false, ◌&&◌}
use mathlib.Core.Option.{Option, none, some}
use mathlib.Core.Logic.{inl, inr}
use mathlib.Core.List.{List, [], ◌∷◌}
use native.Mathlib.Omega.{arith}
use text.Mathlib.Text.{◌==◌}
use text.Mathlib.TextEquality.{eq_iff}
use llmbus.Shared.Tests.{Bool-cases}
use llmbus.Shared.Lists.{lookup}

abbrev pub has_value {ℓ} : {V : Type ℓ} → Option V → Bool
has_value none = false
has_value (some v) = true

pub has_value-some {ℓ} : {V : Type ℓ} (o : Option V) → has_value o ≡ true → (v : V) × (o ≡ some v)
has_value-some none h = cc
has_value-some (some v) h = (v, refl)

&&-left : (a b : Bool) → (a && b) ≡ true → a ≡ true
&&-left true b h = refl
&&-left false b h = h

&&-right : (a b : Bool) → (a && b) ≡ true → b ≡ true
&&-right true b h = h
&&-right false b h = cc

module _ {V W : Type 0} where
  -- every key of the first table is a key of the second
  abbrev pub covers : List (String × V) → List (String × W) → Bool
  covers [] e = true
  covers ((k, v) ∷ d) e = has_value (lookup k e) && covers d e

  pub lookup-covers :
      (k : String) (d : List (String × V)) (e : List (String × W)) {v : V}
      → covers d e ≡ true
      → lookup k d ≡ some v
      → has_value (lookup k e) ≡ true
  lookup-covers k [] e c h = cc
  lookup-covers k ((j, x) ∷ d) e {v} c h = elim (Bool-cases (j == k)) [
    | inl same ↦ rw (← ((eq_iff j k).0 same)) (&&-left (has_value (lookup j e)) (covers d e) c)
    | inr other ↦
        lookup-covers k d e {v = v} (&&-right (has_value (lookup j e)) (covers d e) c)
          (rw other at h)
  ]

module _ {V : Type 0} (test : V → Bool) where
  abbrev pub all_values : List (String × V) → Bool
  all_values [] = true
  all_values ((k, v) ∷ d) = test v && all_values d

  pub lookup-all_values :
      (k : String) (d : List (String × V)) {v : V}
      → all_values d ≡ true
      → lookup k d ≡ some v
      → test v ≡ true
  lookup-all_values k [] c h = cc
  lookup-all_values k ((j, x) ∷ d) {v} c h = ground (arith, lookup-all_values k d {v = v})
