-- ===== src/Tests/Host.antt =====
-- A platform on which every law holds. Its floats are natural numbers, with a subtraction that stops
-- at 0; its clock knows three moments; the text of a JSON document is the document.
use llmbus.Shared.{
  ℕ, zero, suc, ◌+◌, ◌-◌, ◌*◌, ◌/◌, ◌^◌, ◌≤◌, String, ◌≡◌, refl, true, false, not, some, List, [],
  ◌∷◌, ◌==◌, ltb, leb, eqb, arith, if◌then◌else◌,
}
use llmbus.Shared.Int.{ℤ, pos, pos_part}
use llmbus.Python.Json.{Fields}
use llmbus.Python.Platform.{Platform, Date, TextLaws, FloatLaws, Pointwise}

pub data Moment : Type 0 where
  past noon dusk : Moment

abbrev pub day_of : Moment → Date
day_of past = record { year = 2024; month = 12; day = 31 }
day_of noon = record { year = 2026; month = 3; day = 1 }
day_of dusk = record { year = 2026; month = 3; day = 1 }

-- in microseconds: noon and dusk are ten seconds apart
abbrev pub instant_of : Moment → ℤ
instant_of past = pos 0
instant_of noon = pos 36800000000000
instant_of dusk = pos 36800010000000

abbrev pub text_of : Moment → String
text_of past = "2024-12-31T00:00:00+00:00"
text_of noon = "2026-03-01T12:00:00+00:00"
text_of dusk = "2026-03-01T12:00:10+00:00"

abbrev pub read_moment : String → Moment
read_moment text =
    if text == "2026-03-01T12:00:00+00:00"
    then noon
    else if text == "2026-03-01T12:00:10+00:00"
    then dusk
    else past

abbrev pub total : List ℕ → ℕ
total [] = 0
total (x ∷ xs) = x + total xs

abbrev pub host : Platform
host = record {
  Float = ℕ;
  lt = ltb;
  le = leb;
  float_eq = eqb;
  of_int = pos_part;
  fits_float = λ n. true;
  add = λ a b. a + b;
  sub = λ a b. a - b;
  mul = λ a b. a * b;
  div = λ a b. a / b;
  neg = λ a. 0;
  fsum = total;
  of_decimal = λ d. pos_part d.coefficient / 10 ^ d.scale;
  decimal_of = λ x. record { coefficient = pos x; scale = 0 };
  str_float = λ x. "x";
  JsonText = Fields ℕ;
  dumps = λ j. j;
  loads = λ j. j;
  uuid = λ text. some text;
  Datetime = Moment;
  instant = instant_of;
  date = day_of;
  isoformat = text_of;
  fromisoformat = read_moment;
  iso_seconds = text_of;
  microseconds = λ x. pos (x * 1000000);
  in_range = λ d x. true;
  str_int = λ n. "n";
  repr = λ text. text;
  unpriced = λ model on. model;
}

read-text_of : (d : Moment) → read_moment (text_of d) ≡ d
read-text_of past = refl
read-text_of noon = refl
read-text_of dusk = refl

text_of_nonempty : (d : Moment) → (text_of d == "") ≡ false
text_of_nonempty past = refl
text_of_nonempty noon = refl
text_of_nonempty dusk = refl

pub host_texts : TextLaws host
host_texts = record {
  loads-dumps = λ j. refl;
  fromisoformat-isoformat = read-text_of;
  isoformat_nonempty = text_of_nonempty;
}

nonneg : (x : ℕ) → ltb x 0 ≡ false
nonneg x = ground arith

le-lt : (a b : ℕ) → leb a b ≡ not (ltb b a)
le-lt a b = ground arith

lt_asymm : (a b : ℕ) → ltb a b ≡ true → ltb b a ≡ false
lt_asymm a b h = ground arith

le_refl : (a : ℕ) → ltb a a ≡ false
le_refl a = ground arith

le_trans : (a b c : ℕ) → ltb b a ≡ false → ltb c b ≡ false → ltb c a ≡ false
le_trans a b c h k = ground arith

add_mono : (a b c d : ℕ) → ltb b a ≡ false → ltb d c ≡ false → ltb (b + d) (a + c) ≡ false
add_mono a b c d h k = ground arith

le-add : (a b : ℕ) → ltb (a + b) a ≡ false
le-add a b = ground arith

sub-le : (a b : ℕ) → ltb a (a - b) ≡ false
sub-le a b = ground arith

mul_small : (a b : ℕ) → b ≤ 1 → a * b ≤ a
mul_small a zero h = omega arith
mul_small a (suc zero) h = omega arith
mul_small a (suc (suc b)) h = absurd (omega arith)

le_one : (b : ℕ) → ltb 1 b ≡ false → b ≤ 1
le_one b h = ground arith

not_lt : (a b : ℕ) → b ≤ a → ltb a b ≡ false
not_lt a b h = ground arith

mul-le : (a b : ℕ) → ltb 1 b ≡ false → ltb a (a * b) ≡ false
mul-le a b h = not_lt a (a * b) (mul_small a b (le_one b h))

total_mono : (xs ys : List ℕ) → Pointwise host xs ys → ltb (total ys) (total xs) ≡ false
total_mono [] [] h = refl
total_mono (x ∷ xs) (y ∷ ys) h = add_mono x y (total xs) (total ys) h.0 (total_mono xs ys h.1)
total_mono [] (y ∷ ys) h = absurd h
total_mono (x ∷ xs) [] h = absurd h

pub host_floats : FloatLaws host
host_floats = record {
  le-not-lt = le-lt;
  lt_asymm = lt_asymm;
  le_refl = le_refl;
  le_trans = le_trans;
  add_mono = add_mono;
  le-add_nonneg = λ a b h. le-add a b;
  sub-le_nonneg = λ a b h. sub-le a b;
  sub_nonneg = λ a b h. nonneg (b - a);
  mul_nonneg = λ a b h k. nonneg (a * b);
  mul-le_left = λ a b h k. mul-le a b k;
  fsum_mono = total_mono;
  of_int_nonneg = λ n. nonneg n;
  div_nonneg = λ a b h k. nonneg (a / b);
}
