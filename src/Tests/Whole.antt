-- ===== src/Tests/Whole.antt =====
-- A platform whose floats are integers, of any size and with quotients rounded up: on it nothing
-- else is rounded.
use native.Mathlib.Nat.{div-add-mod', mod-lt}
use llmbus.Shared.{
  ℕ, zero, suc, ◌+◌, ◌-◌, ◌*◌, ◌/◌, ◌≤◌, ◌≡◌, ap, true, false, List, [], ◌∷◌, arith, some,
}
use llmbus.Shared.Int.{
  ℤ, pos, negsuc, pos_part, neg_part, ◌+ℤ◌, ◌-ℤ◌, ◌*ℤ◌, ltb_ℤ, leb_ℤ, eqb_ℤ, int_laws, +ℤ_parts,
}
use llmbus.Python.Json.{Fields}
use llmbus.Python.Platform.{Platform}
use llmbus.Ratelimit.Exact.{ExactLaws}
use llmbus.Tests.Host.{Moment, instant_of, day_of, text_of, read_moment}

-- rounded up, by a positive divisor
abbrev ceiling : ℤ → ℤ → ℤ
ceiling (pos n) (pos m) = pos ((n + (m - 1)) / m)
ceiling (negsuc n) (pos m) = pos 0
ceiling a (negsuc m) = pos 0

abbrev sum_of : List ℤ → ℤ
sum_of [] = pos 0
sum_of (x ∷ xs) = x +ℤ sum_of xs

abbrev pub whole : Platform
whole = record {
  Float = ℤ;
  lt = ltb_ℤ;
  le = leb_ℤ;
  float_eq = eqb_ℤ;
  of_int = λ n. n;
  fits_float = λ n. true;
  add = λ a b. a +ℤ b;
  sub = λ a b. a -ℤ b;
  mul = λ a b. a *ℤ b;
  div = ceiling;
  neg = λ a. pos 0 -ℤ a;
  fsum = sum_of;
  of_decimal = λ d. d.coefficient;
  decimal_of = λ x. record { coefficient = x; scale = 0 };
  str_float = λ x. "x";
  JsonText = Fields ℤ;
  dumps = λ j. j;
  loads = λ j. j;
  uuid = λ text. some text;
  Datetime = Moment;
  instant = instant_of;
  date = day_of;
  isoformat = text_of;
  fromisoformat = read_moment;
  iso_seconds = text_of;
  microseconds = λ x. x;
  in_range = λ d x. true;
  str_int = λ n. "n";
  repr = λ text. text;
  unpriced = λ model on. model;
}

-- `a <= b`, for `omega`
le_parts : (a b : ℤ) → ltb_ℤ b a ≡ false → pos_part a + neg_part b ≤ pos_part b + neg_part a
le_parts a b h = ground arith

parts_le : (a b : ℤ) → pos_part a + neg_part b ≤ pos_part b + neg_part a → ltb_ℤ b a ≡ false
parts_le a b h = ground arith

*ℤ_pos_parts :
    (a : ℤ) (k : ℕ)
    → pos_part (a *ℤ pos k) + neg_part a * k ≡ neg_part (a *ℤ pos k) + pos_part a * k
unfolding ◌*ℤ◌
*ℤ_pos_parts a k = ground arith

*ℤ_neg_parts :
    (a : ℤ) (k : ℕ)
    → pos_part (a *ℤ negsuc k) + pos_part a * suc k ≡ neg_part (a *ℤ negsuc k) + neg_part a * suc k
unfolding ◌*ℤ◌
*ℤ_neg_parts a k = ground arith

lt_asymm : (a b : ℤ) → ltb_ℤ a b ≡ true → ltb_ℤ b a ≡ false
lt_asymm a b h = ground arith

le_refl : (a : ℤ) → ltb_ℤ a a ≡ false
le_refl a = ground arith

le_trans : (a b c : ℤ) → ltb_ℤ b a ≡ false → ltb_ℤ c b ≡ false → ltb_ℤ c a ≡ false
le_trans a b c h k = ground arith

le_antisymm : (a b : ℤ) → ltb_ℤ b a ≡ false → ltb_ℤ a b ≡ false → a ≡ b
le_antisymm a b h k = ground arith

add_mono : (a b c d : ℤ) → ltb_ℤ b a ≡ false → ltb_ℤ d c ≡ false → ltb_ℤ (b +ℤ d) (a +ℤ c) ≡ false
add_mono a b c d h k = parts_le (a +ℤ c) (b +ℤ d) (omega (int_laws, le_parts a b h, le_parts c d k))

add-mul_pos : (a b : ℤ) (k : ℕ) → (a +ℤ b) *ℤ pos k ≡ a *ℤ pos k +ℤ b *ℤ pos k
add-mul_pos a b k = omega (
  int_laws,
  *ℤ_pos_parts a k,
  *ℤ_pos_parts b k,
  *ℤ_pos_parts (a +ℤ b) k,
  ap (λ (t : ℕ). t * k) (+ℤ_parts a b),
)

add-mul_neg : (a b : ℤ) (k : ℕ) → (a +ℤ b) *ℤ negsuc k ≡ a *ℤ negsuc k +ℤ b *ℤ negsuc k
add-mul_neg a b k = omega (
  int_laws,
  *ℤ_neg_parts a k,
  *ℤ_neg_parts b k,
  *ℤ_neg_parts (a +ℤ b) k,
  ap (λ (t : ℕ). t * suc k) (+ℤ_parts a b),
)

add-mul : (a b r : ℤ) → (a +ℤ b) *ℤ r ≡ a *ℤ r +ℤ b *ℤ r
add-mul a b (pos k) = add-mul_pos a b k
add-mul a b (negsuc k) = add-mul_neg a b k

mul_nonneg :
    (a r : ℤ) → ltb_ℤ a (pos 0) ≡ false → ltb_ℤ (pos 0) r ≡ true → ltb_ℤ (a *ℤ r) (pos 0) ≡ false
unfolding ◌*ℤ◌
mul_nonneg (pos n) (pos k) h p = ground arith
mul_nonneg (negsuc n) (pos k) h p = absurd (ground (arith, h))
mul_nonneg a (negsuc k) h p = absurd (ground (arith, p))

mul_mono :
    (a b r : ℤ) → ltb_ℤ b a ≡ false → ltb_ℤ (pos 0) r ≡ true → ltb_ℤ (b *ℤ r) (a *ℤ r) ≡ false
mul_mono a b (pos k) h p =
    parts_le (a *ℤ pos k) (b *ℤ pos k)
      (omega (arith, *ℤ_pos_parts a k, *ℤ_pos_parts b k, times_le k _ _ (le_parts a b h)))
  where
    times_le : (k x y : ℕ) → x ≤ y → x * k ≤ y * k
    times_le k x y h = grind arith
mul_mono a b (negsuc k) h p = absurd (ground (arith, p))

ceiling_bound : (n k : ℕ) → n ≤ (n + k) / suc k * suc k
ceiling_bound n k =
    omega (arith, div-add-mod' (n + k) (suc k), mod-lt (n + k) {m = suc k} (omega arith))

le-mul-ceiling : (a r : ℤ) → ltb_ℤ (pos 0) r ≡ true → ltb_ℤ (ceiling a r *ℤ r) a ≡ false
le-mul-ceiling (pos n) (pos (suc k)) p =
    parts_le (pos n) (ceiling (pos n) (pos (suc k)) *ℤ pos (suc k))
      (omega (arith, *ℤ_pos_parts (ceiling (pos n) (pos (suc k))) (suc k), ceiling_bound n k))
le-mul-ceiling (negsuc n) (pos (suc k)) p =
    parts_le (negsuc n) (pos 0 *ℤ pos (suc k)) (omega (arith, *ℤ_pos_parts (pos 0) (suc k)))
le-mul-ceiling a (pos zero) p = cc
le-mul-ceiling a (negsuc k) p = absurd (ground (arith, p))

sub_nonneg : (a b : ℤ) → ltb_ℤ b a ≡ false → ltb_ℤ (b -ℤ a) (pos 0) ≡ false
sub_nonneg a b h = parts_le (pos 0) (b -ℤ a) (omega (int_laws, le_parts a b h))

pub whole_laws : ExactLaws whole
whole_laws = record {
  lt_asymm = lt_asymm;
  le_refl = le_refl;
  le_trans = le_trans;
  le_antisymm = le_antisymm;
  add_mono = add_mono;
  add_assoc = λ a b c. omega int_laws;
  add_comm = λ a b. omega int_laws;
  add-nought = λ a. omega int_laws;
  add-neg = λ a. omega int_laws;
  add-sub = λ a b. omega int_laws;
  sub_trans = λ a b c. omega int_laws;
  sub_nonneg = sub_nonneg;
  add-mul = add-mul;
  mul_nonneg = mul_nonneg;
  mul_mono = mul_mono;
  le-mul-div = le-mul-ceiling;
  of_int-suc = λ n. omega int_laws;
  of_int_nonneg = λ n. ground arith;
}
