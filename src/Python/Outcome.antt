-- ===== src/Python/Outcome.antt =====
-- How a call with no state ends: a condition on what it returns and one on what it raises. Running
-- out of fuel meets neither.
use llmbus.Shared.{◌≡◌, refl, Bool, true, false, if◌then◌else◌}
use llmbus.Python.Exc.{Exc, Fallible, returned, raised, out_of_fuel, ◌>>=◌}

module _ {A : Type 0} where
  abbrev pub EndsIn : (A → Type 0) → (Exc → Type 0) → Fallible A → Type 0
  EndsIn good bad (returned a) = good a
  EndsIn good bad (raised e) = bad e
  EndsIn good bad out_of_fuel = ⊥

  pub EndsIn-if :
      (good : A → Type 0) (bad : Exc → Type 0) (b : Bool) (m n : Fallible A)
      → (b ≡ true → EndsIn good bad m)
      → (b ≡ false → EndsIn good bad n)
      → EndsIn good bad (if b then m else n)
  EndsIn-if good bad true m n hm hn = hm refl
  EndsIn-if good bad false m n hm hn = hn refl

  pub EndsIn-map :
      (good better : A → Type 0) (bad : Exc → Type 0) (m : Fallible A)
      → ((a : A) → good a → better a)
      → EndsIn good bad m
      → EndsIn better bad m
  EndsIn-map good better bad (returned a) f h = f a h
  EndsIn-map good better bad (raised e) f h = h
  EndsIn-map good better bad out_of_fuel f h = h

module _ {A B : Type 0} where
  pub EndsIn-bind :
      (mid : A → Type 0) (good : B → Type 0) (bad : Exc → Type 0) (m : Fallible A)
      (f : A → Fallible B)
      → EndsIn mid bad m
      → ((a : A) → mid a → EndsIn good bad (f a))
      → EndsIn good bad (m >>= f)
  EndsIn-bind mid good bad (returned a) f h k = k a h
  EndsIn-bind mid good bad (raised e) f h k = h
  EndsIn-bind mid good bad out_of_fuel f h k = h
