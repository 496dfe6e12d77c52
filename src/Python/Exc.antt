-- ===== src/Python/Exc.antt =====
-- Exceptions as values. Handlers in the program look at the class name, at `isinstance` tests and
-- at the `status_code` attribute, so a value carries these and the text of `str(exc)`.
use llmbus.Shared.{String, ◌≡◌, refl, Bool, true, false, Option, none}
use llmbus.Shared.Int.{ℤ}

pub record Exc : Type 0 where
  pub type_name : String
  -- `isinstance(exc, Exception)`; false for `CancelledError` and the like
  pub is_exception : Bool
  -- `isinstance(exc, (TimeoutError, ConnectionError))`
  pub is_transport : Bool
  -- the attribute, if it is there and an `int`
  pub status_code : Option ℤ
  pub message : String

-- An exception that the program raises itself: a plain `Exception` with no status.
abbrev pub raising : String → String → Exc
raising name text = record {
  type_name = name;
  is_exception = true;
  is_transport = false;
  status_code = none;
  message = text;
}

-- The end of a call. `out_of_fuel` is no Python value: it says that a loop of the model ran out of
-- its bound, and theorems rule it out.
pub data Fallible {ℓ} (A : Type ℓ) : Type ℓ where
  returned : A → Fallible A
  raised : Exc → Fallible A
  out_of_fuel : Fallible A

-- The end of a call with no loop of the model in it: of the code outside, and of plain checks.
pub data Ended {ℓ} (A : Type ℓ) : Type ℓ where
  answered : A → Ended A
  failed : Exc → Ended A

infixl 5 ◌>>=◌ ◌>>◌
abbrev pub ◌>>=◌ {ℓ κ} : {A : Type ℓ} {B : Type κ} → Fallible A → (A → Fallible B) → Fallible B
returned a >>= f = f a
raised e >>= f = raised e
out_of_fuel >>= f = out_of_fuel

abbrev pub ◌>>◌ {ℓ} : {B : Type ℓ} → Fallible (Unit {0}) → Fallible B → Fallible B
m >> k = m >>= λ _. k

-- `if test: raise exc`
abbrev pub raise_if : Bool → Exc → Fallible (Unit {0})
raise_if true e = raised e
raise_if false e = returned tt

pub >>=-eq-returned {ℓ κ} :
    {A : Type ℓ} {B : Type κ} (m : Fallible A) (f : A → Fallible B) {b : B}
    → (m >>= f) ≡ returned b
    → (a : A) × (m ≡ returned a) × (f a ≡ returned b)
>>=-eq-returned (returned a) f h = (a, refl, h)
>>=-eq-returned (raised e) f h = cc
>>=-eq-returned out_of_fuel f h = cc

-- A call that ends, by a return or a raise.
abbrev pub IsFinal {ℓ} : {A : Type ℓ} → Fallible A → Type 0
IsFinal (returned a) = Unit
IsFinal (raised e) = Unit
IsFinal out_of_fuel = ⊥

pub IsFinal-bind {ℓ κ} :
    {A : Type ℓ} {B : Type κ} (m : Fallible A) (f : A → Fallible B)
    → IsFinal m
    → ((a : A) → IsFinal (f a))
    → IsFinal (m >>= f)
IsFinal-bind (returned a) f h k = k a
IsFinal-bind (raised e) f h k = tt
IsFinal-bind out_of_fuel f h k = h

pub raise_if-IsFinal : (b : Bool) (e : Exc) → IsFinal (raise_if b e)
raise_if-IsFinal true e = tt
raise_if-IsFinal false e = tt
