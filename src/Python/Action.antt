-- ===== src/Python/Action.antt =====
-- Methods that change a state and may raise. What was written before a raise stays written, so the
-- state comes back beside the exception too.
use llmbus.Python.Exc.{Exc, Fallible, returned, raised, out_of_fuel}

abbrev pub Action : Type 0 → Type 0 → Type 0
Action S A = S → Fallible A × S

module _ {S A : Type 0} where
  abbrev pub pure : A → Action S A
  pure a s = (returned a, s)

  abbrev pub raise : Exc → Action S A
  raise e s = (raised e, s)

  abbrev pub lift : Fallible A → Action S A
  lift r s = (r, s)

  abbrev pub gets : (S → A) → Action S A
  gets f s = (returned (f s), s)

module _ {S A B : Type 0} where
  abbrev pub continue : Fallible A → (A → Action S B) → Action S B
  continue (returned a) f s = f a s
  continue (raised e) f s = (raised e, s)
  continue out_of_fuel f s = (out_of_fuel, s)

  infixl 5 ◌>>=◌ ◌>>◌
  abbrev pub ◌>>=◌ : Action S A → (A → Action S B) → Action S B
  ◌>>=◌ m f s = let (r, s') = m s in continue r f s'

  abbrev pub ◌>>◌ : Action S A → Action S B → Action S B
  m >> n = m >>= λ _. n
