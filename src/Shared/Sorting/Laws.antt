-- ===== src/Shared/Sorting/Laws.antt =====
-- Sorting keeps what is in a list, and orders it.
use Prim.Native.String.{String, compare, then as lexical}
use Prim.Native.String.compare as compare_laws
use Prim.Native.Char.{code}
use Prim.Native.Nat.{ℕ, suc, Ordering, compare as compare_ℕ}
use mathlib.Core.Bool.{Bool, true, false, ◌&&◌, false≢true}
use mathlib.Core.List.{List, [], ◌∷◌, map}
use mathlib.Core.Logic.{inl, inr}
use mathlib.Core.Path.{◌≡◌, refl, sym, ap, ◌∙◌}
use native.Mathlib.Omega.{arith}
use text.Mathlib.Text.{is_le}
use llmbus.Shared.Tests.{if◌then◌else◌, Bool-cases}
use llmbus.Shared.Lists.{keep_if, All}
use llmbus.Shared.Sorting.{text_leb, insert_by, sort_by}

lexical_total :
    (a b : ℕ) (o p : Ordering)
    → (is_le o ≡ false → is_le p ≡ true)
    → is_le (lexical (compare_ℕ a b) o) ≡ false
    → is_le (lexical (compare_ℕ b a) p) ≡ true
lexical_total a b o p f h = ground (arith, f)

pub text_leb_total : (s t : String) → text_leb s t ≡ false → text_leb t s ≡ true
text_leb_total String.[] String.[] h = refl
text_leb_total String.[] (String.◌∷◌ d t) h =
    absurd (false≢true (sym h ∙ ap is_le (compare_laws.nil-cons d t)))
text_leb_total (String.◌∷◌ c s) String.[] h = ap is_le (compare_laws.nil-cons c s)
text_leb_total (String.◌∷◌ c s) (String.◌∷◌ d t) h =
    ap is_le (compare_laws.cons-cons d c t s)
    ∙ lexical_total (code c) (code d) (compare s t) (compare t s) (text_leb_total s t)
        (sym (ap is_le (compare_laws.cons-cons c d s t)) ∙ h)

module _ {ℓ} {A : Type ℓ} where
  -- The order is total.
  abbrev pub IsTotal : (A → A → Bool) → Type ℓ
  IsTotal le = (a b : A) → le a b ≡ false → le b a ≡ true

  -- Neighbours are in order.
  abbrev pub HeadLe : (A → A → Bool) → A → List A → Type 0
  HeadLe le x [] = Unit
  HeadLe le x (y ∷ ys) = le x y ≡ true

  abbrev pub IsSorted : (A → A → Bool) → List A → Type 0
  IsSorted le [] = Unit
  IsSorted le (x ∷ xs) = HeadLe le x xs × IsSorted le xs

  -- how many pass a test
  abbrev pub count_if : (A → Bool) → List A → ℕ
  count_if q [] = 0
  count_if q (x ∷ xs) = if q x then suc (count_if q xs) else count_if q xs

  module _ (le : A → A → Bool) where
    HeadLe-insert_by :
        (x y : A) (ys : List A) → le y x ≡ true → HeadLe le y ys → HeadLe le y (insert_by le x ys)
    HeadLe-insert_by x y [] h k = h
    HeadLe-insert_by x y (z ∷ ys) h k = elim (Bool-cases (le x z)) [
      | inl first ↦ rw first h
      | inr later ↦ rw later k
    ]

    insert_by-IsSorted :
        IsTotal le → (x : A) (xs : List A) → IsSorted le xs → IsSorted le (insert_by le x xs)
    insert_by-IsSorted total x [] h = (tt, tt)
    insert_by-IsSorted total x (y ∷ ys) (h, hs) = elim (Bool-cases (le x y)) [
      | inl first ↦ rw first (first, (h, hs))
      | inr later ↦
          rw later (HeadLe-insert_by x y ys (total x y later) h, insert_by-IsSorted total x ys hs)
    ]

    pub sort_by-IsSorted : IsTotal le → (xs : List A) → IsSorted le (sort_by le xs)
    sort_by-IsSorted total [] = tt
    sort_by-IsSorted total (x ∷ xs) =
        insert_by-IsSorted total x (sort_by le xs) (sort_by-IsSorted total xs)

    count_if-insert_by :
        (q : A → Bool) (x : A) (xs : List A) → count_if q (insert_by le x xs) ≡ count_if q (x ∷ xs)
    count_if-insert_by q x [] = refl
    count_if-insert_by q x (y ∷ ys) = ground (arith, count_if-insert_by q x ys)

    pub count_if-sort_by : (q : A → Bool) (xs : List A) → count_if q (sort_by le xs) ≡ count_if q xs
    count_if-sort_by q [] = refl
    count_if-sort_by q (x ∷ xs) =
        count_if-insert_by q x (sort_by le xs)
        ∙ ap (λ (n : ℕ). if q x then suc n else n) (count_if-sort_by q xs)

    All-insert_by :
        (Q : A → Type 0) (x : A) (xs : List A) → Q x → All Q xs → All Q (insert_by le x xs)
    All-insert_by Q x [] h hs = (h, tt)
    All-insert_by Q x (y ∷ ys) h (k, ks) = elim (Bool-cases (le x y)) [
      | inl first ↦ rw first (h, (k, ks))
      | inr later ↦ rw later (k, All-insert_by Q x ys h ks)
    ]

    pub All-sort_by : (Q : A → Type 0) (xs : List A) → All Q xs → All Q (sort_by le xs)
    All-sort_by Q [] h = tt
    All-sort_by Q (x ∷ xs) (h, hs) = All-insert_by Q x (sort_by le xs) h (All-sort_by Q xs hs)

  pub count_if-keep_if :
      (q p : A → Bool) (xs : List A) → count_if q (keep_if p xs) ≡ count_if (λ x. q x && p x) xs
  count_if-keep_if q p [] = refl
  count_if-keep_if q p (x ∷ xs) = ground (arith, count_if-keep_if q p xs)

  -- Tests that agree on all values count alike.
  pub count_if-ext :
      (q p : A → Bool) (xs : List A) → ((x : A) → q x ≡ p x) → count_if q xs ≡ count_if p xs
  count_if-ext q p [] h = refl
  count_if-ext q p (x ∷ xs) h = ground (arith, h x, count_if-ext q p xs h)

module _ {ℓ κ} {A : Type ℓ} {B : Type κ} where
  pub count_if-map :
      (q : B → Bool) (f : A → B) (xs : List A) → count_if q (map f xs) ≡ count_if (λ x. q (f x)) xs
  count_if-map q f [] = refl
  count_if-map q f (x ∷ xs) = ap (λ (n : ℕ). if q (f x) then suc n else n) (count_if-map q f xs)
