-- ===== src/Python/Floats.antt =====
-- Python's `min` and `max` of two floats, under the laws of floats.
use llmbus.Shared.{Bool-cases, inl, inr}
use llmbus.Python.Platform.{Platform, FloatLaws, Le, fmin, fmax}

module _ (P : Platform) (laws : FloatLaws P) where
  pub fmin-le : (a b : P.Float) → (Le P (fmin P a b) a) × (Le P (fmin P a b) b)
  fmin-le a b = elim (Bool-cases (P.lt b a)) [
    | inl less ↦ rw (less, fmin) (laws.lt_asymm b a less, laws.le_refl b)
    | inr more ↦ rw (more, fmin) (laws.le_refl a, more)
  ]

  pub le-fmin : (c a b : P.Float) → Le P c a → Le P c b → Le P c (fmin P a b)
  le-fmin c a b ha hb = elim (Bool-cases (P.lt b a)) [
    | inl less ↦ rw (less, fmin) hb
    | inr more ↦ rw (more, fmin) ha
  ]

  pub le-fmax : (a b : P.Float) → (Le P a (fmax P a b)) × (Le P b (fmax P a b))
  le-fmax a b = elim (Bool-cases (P.lt a b)) [
    | inl less ↦ rw (less, fmax) (laws.lt_asymm a b less, laws.le_refl b)
    | inr more ↦ rw (more, fmax) (laws.le_refl a, more)
  ]
