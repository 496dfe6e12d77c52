-- ===== src/Python/Platform.antt =====
-- The values of the Python runtime and of its libraries that the program handles without looking
-- inside: floats, JSON values, datetimes and the texts that they are printed as. Every component
-- takes one such platform. Laws that hold of Python's own values stand in records of their own, and
-- only the theorems that need them take them.
use llmbus.Shared.{ℕ, String, ◌≡◌, Bool, true, false, not, Option, List, [], ◌∷◌, ◌==◌}
use llmbus.Shared.Int.{ℤ, pos}
use llmbus.Python.Json.{Fields}

-- `datetime.date`, ordered by year, month and day
pub record Date : Type 0 where
  pub year : ℕ
  pub month : ℕ
  pub day : ℕ

-- `decimal.Decimal`: the number coefficient / 10 ^ scale
pub record Decimal : Type 0 where
  pub coefficient : ℤ
  pub scale : ℕ

pub record Platform : Type 1 where
  -- `float`
  pub Float : Type 0
  pub lt : Float → Float → Bool
  pub le : Float → Float → Bool
  pub float_eq : Float → Float → Bool
  pub of_int : ℤ → Float
  -- whether `float(n)` is a float and no `OverflowError`
  pub fits_float : ℤ → Bool
  pub add : Float → Float → Float
  pub sub : Float → Float → Float
  pub mul : Float → Float → Float
  pub div : Float → Float → Float
  pub neg : Float → Float
  -- the built-in `sum`
  pub fsum : List Float → Float
  pub of_decimal : Decimal → Float
  -- `Decimal(str(x))`
  pub decimal_of : Float → Decimal
  pub str_float : Float → String
  -- the texts that `json.dumps` of a dict gives and `json.loads` reads
  pub JsonText : Type 0
  pub dumps : Fields Float → JsonText
  pub loads : JsonText → Fields Float
  -- `str(uuid.UUID(text))`, none where it raises
  pub uuid : String → Option String
  -- an aware `datetime`: its instant in microseconds, its calendar date, its ISO text, and
  -- `timedelta(seconds=x)` in microseconds
  pub Datetime : Type 0
  pub instant : Datetime → ℤ
  pub date : Datetime → Date
  pub isoformat : Datetime → String
  pub fromisoformat : String → Datetime
  -- `isoformat(timespec="seconds")`
  pub iso_seconds : Datetime → String
  pub microseconds : Float → ℤ
  -- whether `d + timedelta(seconds=x)` is a `datetime` and no `OverflowError`
  pub in_range : Datetime → Float → Bool
  -- the f-string texts of an `int` and of a `repr`
  pub str_int : ℤ → String
  pub repr : String → String
  -- `repr(model) + " has no price effective on " + on.isoformat()`, as `str` of a `KeyError` shows it
  pub unpriced : String → Date → String

-- Reading back what was written gives the value that was written.
pub record TextLaws (P : Platform) : Type 0 where
  pub loads-dumps : (j : Fields P.Float) → P.loads (P.dumps j) ≡ j
  pub fromisoformat-isoformat : (d : P.Datetime) → P.fromisoformat (P.isoformat d) ≡ d
  pub isoformat_nonempty : (d : P.Datetime) → (P.isoformat d == "") ≡ false

module _ (P : Platform) where
  abbrev pub nought : P.Float
  nought = P.of_int (pos 0)

  -- Python's `max(a, b)` and `min(a, b)` keep the first of two equal values.
  abbrev pub fmax : P.Float → P.Float → P.Float
  fmax a b = elim (P.lt a b) [ true ↦ b | false ↦ a ]

  abbrev pub fmin : P.Float → P.Float → P.Float
  fmin a b = elim (P.lt b a) [ true ↦ b | false ↦ a ]

  -- `a <= b` away from NaN
  abbrev pub Le : P.Float → P.Float → Type 0
  Le a b = P.lt b a ≡ false

  -- each entry of one list is at most the entry of the other
  abbrev pub Pointwise : List P.Float → List P.Float → Type 0
  Pointwise [] [] = Unit
  Pointwise (x ∷ xs) (y ∷ ys) = Le x y × Pointwise xs ys
  Pointwise [] (y ∷ ys) = ⊥
  Pointwise (x ∷ xs) [] = ⊥

-- What IEEE arithmetic gives away from NaN and infinities: a linear preorder, and operations that
-- round monotonically. Associativity, distributivity and exact division are not among the laws.
pub record FloatLaws (P : Platform) : Type 0 where
  pub le-not-lt : (a b : P.Float) → P.le a b ≡ not (P.lt b a)
  pub lt_asymm : (a b : P.Float) → P.lt a b ≡ true → P.lt b a ≡ false
  pub le_refl : (a : P.Float) → Le P a a
  pub le_trans : (a b c : P.Float) → Le P a b → Le P b c → Le P a c
  pub add_mono : (a b c d : P.Float) → Le P a b → Le P c d → Le P (P.add a c) (P.add b d)
  pub le-add_nonneg : (a b : P.Float) → Le P (nought P) b → Le P a (P.add a b)
  pub sub-le_nonneg : (a b : P.Float) → Le P (nought P) b → Le P (P.sub a b) a
  pub sub_nonneg : (a b : P.Float) → Le P a b → Le P (nought P) (P.sub b a)
  pub mul_nonneg :
      (a b : P.Float) → Le P (nought P) a → Le P (nought P) b → Le P (nought P) (P.mul a b)
  pub mul-le_left :
      (a b : P.Float) → Le P (nought P) a → Le P b (P.of_int (pos 1)) → Le P (P.mul a b) a
  pub fsum_mono : (xs ys : List P.Float) → Pointwise P xs ys → Le P (P.fsum xs) (P.fsum ys)
  pub of_int_nonneg : (n : ℕ) → Le P (nought P) (P.of_int (pos n))
  pub div_nonneg :
      (a b : P.Float) → Le P (nought P) a → P.lt (nought P) b ≡ true → Le P (nought P) (P.div a b)
