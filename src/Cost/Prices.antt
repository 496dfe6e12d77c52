-- ===== src/Cost/Prices.antt =====
-- Which rate is in force, and that every routed model has one.
use mathlib.Core.Path.{subst}
use llmbus.Shared.{
  String, ◌≡◌, refl, Bool, true, false, ◌⊎◌, inl, inr, Option, none, some, List, [], ◌∷◌, lookup,
  arith, ◌<◌, ◌≤◌, All, if◌then◌else◌, ◌&&◌, Bool-cases, Option-cases,
}
use llmbus.Shared.Dicts.{covers, lookup-covers, all_values, lookup-all_values, has_value-some}
use llmbus.Shared.Int.{ℤ}
use llmbus.Python.Exc.{IsFinal, IsFinal-bind, raise_if-IsFinal, Exc, returned, raised}
use llmbus.Python.Platform.{Platform, Date}
use llmbus.Providers.{provider_for, providers, or_unknown}
use llmbus.Cost.{
  PricePoint, ModelPricing, date_leb, epoch, pricing_table, applicable, latest, price_in, price_for,
  cost_usd,
}

-- An entry of a list.
abbrev pub In : PricePoint → List PricePoint → Type 0
In p [] = ⊥
In p (q ∷ points) = (q ≡ p) ⊎ In p points

date_leb_refl : (a : Date) → date_leb a a ≡ true
unfolding date_leb
date_leb_refl a = ground arith

date_leb_trans : (a b c : Date) → date_leb a b ≡ true → date_leb b c ≡ true → date_leb a c ≡ true
unfolding date_leb
date_leb_trans a b c h k = ground arith

date_leb_total : (a b : Date) → date_leb a b ≡ false → date_leb b a ≡ true
unfolding date_leb
date_leb_total a b h = ground arith

-- A day that is another day or an earlier one.
abbrev pub NoLater : Date → Date → Type 0
NoLater a b =
    (a.year < b.year)
    ⊎ ((a.year ≡ b.year) × ((a.month < b.month) ⊎ ((a.month ≡ b.month) × (a.day ≤ b.day))))

-- A price point in force on a day, and the latest of those in force on it.
abbrev pub InForce : Date → PricePoint → Type 0
InForce on p = NoLater p.effective on

abbrev pub NoneLater : Date → Date → List PricePoint → Type 0
NoneLater on d points = All (λ p. InForce on p → NoLater p.effective d) points

NoLater-date_leb : (a b : Date) → date_leb a b ≡ true → NoLater a b
unfolding date_leb
NoLater-date_leb a b h = ground (arith, h)

date_leb-NoLater : (a b : Date) → NoLater a b → date_leb a b ≡ true
unfolding date_leb
date_leb-NoLater a b (inl year) = ground (arith, year)
date_leb-NoLater a b (inr (year, inl month)) = ground (arith, year, month)
date_leb-NoLater a b (inr (year, inr (month, day))) = ground (arith, year, month, day)

abbrev Before : Date → PricePoint → Type 0
Before d p = date_leb p.effective d ≡ true

In-if :
    (c : Bool) (best p : PricePoint) (points : List PricePoint) (q : PricePoint)
    → In q ((if c then best else p) ∷ points)
    → In q (best ∷ p ∷ points)
In-if true best p points q (inl e) = inl e
In-if true best p points q (inr h) = inr (inr h)
In-if false best p points q h = inr h

later_of_two :
    (best p : PricePoint)
    → let later = (if date_leb p.effective best.effective then best else p) in
      Before later.effective best × Before later.effective p
later_of_two best p = elim (Bool-cases (date_leb p.effective best.effective)) [
  | inl older ↦ rw older (date_leb_refl best.effective, older)
  | inr newer ↦
      rw newer (date_leb_total p.effective best.effective newer, date_leb_refl p.effective)
]

-- The price point chosen is at least as late as the best so far and every point left.
latest-greatest :
    (best : PricePoint) (points : List PricePoint)
    → All (Before (latest best points).effective) (best ∷ points)
unfolding latest
latest-greatest best [] = (date_leb_refl best.effective, tt)
latest-greatest best (p ∷ points) =
    let later : PricePoint = if date_leb p.effective best.effective then best else p in
    let rest = latest-greatest later points in
    let (over_best, over_p) = later_of_two best p in
    (
      date_leb_trans best.effective later.effective _ over_best rest.0,
      (date_leb_trans p.effective later.effective _ over_p rest.0, rest.1),
    )

latest-In : (best : PricePoint) (points : List PricePoint) → In (latest best points) (best ∷ points)
unfolding latest
latest-In best [] = inl refl
latest-In best (p ∷ points) =
    In-if (date_leb p.effective best.effective) best p points _
      (latest-In (if date_leb p.effective best.effective then best else p) points)

price_in-latest :
    (P : Platform) (message : String) (points : List PricePoint) {pricing : ModelPricing}
    → price_in P message points ≡ returned pricing
    → (point : PricePoint) × In point points
      × (point.pricing ≡ pricing)
      × All (Before point.effective) points
unfolding price_in
price_in-latest P message [] h = cc
price_in-latest P message (p ∷ points) h =
    (latest p points, latest-In p points, cc, latest-greatest p points)

In-applicable :
    (on : Date) (p : PricePoint) (points : List PricePoint)
    → In p (applicable on points)
    → In p points × InForce on p
unfolding applicable
In-applicable on p [] h = absurd h
In-applicable on p (q ∷ points) h = elim (Bool-cases (date_leb q.effective on)) [
  | inl now ↦ elim (rw now at h) [
    | inl e ↦ (inl e, subst (InForce on) e (NoLater-date_leb q.effective on now))
    | inr k ↦ let (i, f) = In-applicable on p points k in (inr i, f)
  ]
  | inr later ↦ let (i, f) = In-applicable on p points (rw later at h) in (inr i, f)
]

NoneLater-applicable :
    (on d : Date) (points : List PricePoint)
    → All (Before d) (applicable on points)
    → NoneLater on d points
unfolding applicable
NoneLater-applicable on d [] h = tt
NoneLater-applicable on d (q ∷ points) h = elim (Bool-cases (date_leb q.effective on)) [
  | inl now ↦
      let (k, ks) = rw now at h in
      (λ _. NoLater-date_leb q.effective d k, NoneLater-applicable on d points ks)
  | inr later ↦ (
    λ k. absurd (ground (arith, later, date_leb-NoLater q.effective on k)),
    NoneLater-applicable on d points (rw later at h),
  )
]

-- The rate that is charged is that of an entry of the model's history in force on that day, so one
-- that took effect on that day or earlier, and no such entry took effect later.
pub price_for-latest :
    (P : Platform) (model : String) (on : Date) (points : List PricePoint) {pricing : ModelPricing}
    → lookup model pricing_table ≡ some points
    → price_for P model on ≡ returned pricing
    → (point : PricePoint) × In point points
      × InForce on point
      × (point.pricing ≡ pricing)
      × NoneLater on point.effective points
unfolding price_for
price_for-latest P model on points {pricing} known h =
    let (point, there, rate, last) =
      price_in-latest P _ (applicable on points) {pricing = pricing} (rw (known, price_for) at h) in
    let (i, f) = In-applicable on point points there in
    (point, i, f, rate, NoneLater-applicable on point.effective points last)

-- the first price of a model is in force from the epoch on
abbrev priced_from_epoch : List PricePoint → Bool
priced_from_epoch [] = false
priced_from_epoch (p ∷ points) = date_leb p.effective epoch

price_in-first :
    (P : Platform) (message : String) (on : Date) (points : List PricePoint)
    → date_leb epoch on ≡ true
    → priced_from_epoch points ≡ true
    → (pricing : ModelPricing) × (price_in P message (applicable on points) ≡ returned pricing)
unfolding price_in applicable
price_in-first P message on [] k first = cc
price_in-first P message on (p ∷ points) k first =
    rw (date_leb_trans p.effective epoch on first k) (_, refl)

routed_are_priced : covers providers pricing_table ≡ true
unfolding providers pricing_table
routed_are_priced = refl

all_priced_from_epoch : all_values priced_from_epoch pricing_table ≡ true
unfolding pricing_table date_leb
all_priced_from_epoch = refl

or_unknown-returned :
    {A : Type 0} (repr : String → String) (model : String) (o : Option A) {a : A}
    → or_unknown repr model o ≡ returned a
    → o ≡ some a
or_unknown-returned repr model none h = cc
or_unknown-returned repr model (some b) h = cc

price_for-first :
    (P : Platform) (model : String) (on : Date) (points : List PricePoint)
    → date_leb epoch on ≡ true
    → lookup model pricing_table ≡ some points
    → (pricing : ModelPricing) × (price_for P model on ≡ returned pricing)
unfolding price_for
price_for-first P model on points k known =
    rw (known, price_for)
      (price_in-first P _ on points k (
        lookup-all_values priced_from_epoch model pricing_table {v = points} all_priced_from_epoch
          known))

-- A model that a provider serves has a price on every day from the epoch on, so the worker can
-- price whatever it may call.
pub routed_is_priced :
    (P : Platform) (model : String) (on : Date) {provider : String}
    → provider_for P model ≡ returned provider
    → date_leb epoch on ≡ true
    → (pricing : ModelPricing) × (price_for P model on ≡ returned pricing)
unfolding provider_for
routed_is_priced P model on {provider} h k =
    let routed = or_unknown-returned P.repr model (lookup model providers) {a = provider} h in
    let (points, known) =
      has_value-some (lookup model pricing_table)
        (lookup-covers model providers pricing_table {v = provider} routed_are_priced routed) in
    price_for-first P model on points k known

-- no price of a model takes effect before the epoch
abbrev none_before_epoch : List PricePoint → Bool
none_before_epoch [] = true
none_before_epoch (p ∷ points) = date_leb epoch p.effective && none_before_epoch points

all_none_before_epoch : all_values none_before_epoch pricing_table ≡ true
unfolding pricing_table date_leb
all_none_before_epoch = refl

applicable_before :
    (on : Date) (points : List PricePoint)
    → date_leb epoch on ≡ false
    → none_before_epoch points ≡ true
    → applicable on points ≡ []
unfolding applicable
applicable_before on [] k h = refl
applicable_before on (p ∷ points) k h =
    ground (arith, date_leb_trans epoch p.effective on, applicable_before on points k)

-- Before the epoch no model has a price.
pub price_for_before_epoch :
    (P : Platform) (model : String) (on : Date)
    → date_leb epoch on ≡ false
    → (e : Exc) × (price_for P model on ≡ raised e) × (e.is_exception ≡ true)
unfolding price_for
price_for_before_epoch P model on k = elim (Option-cases (lookup model pricing_table)) [
  | inl unknown ↦ rw (unknown, price_for) (_, refl, refl)
  | inr (points, known) ↦
      rw (known, price_for)
        (rw
          (applicable_before on points k (
            lookup-all_values none_before_epoch model pricing_table {v = points}
              all_none_before_epoch known))
          (_, refl, refl))
]

price_in-IsFinal :
    (P : Platform) (message : String) (points : List PricePoint)
    → IsFinal (price_in P message points)
unfolding price_in
price_in-IsFinal P message [] = tt
price_in-IsFinal P message (p ∷ points) = tt

price_for-IsFinal : (P : Platform) (model : String) (on : Date) → IsFinal (price_for P model on)
unfolding price_for
price_for-IsFinal P model on = elim (Option-cases (lookup model pricing_table)) [
  | inl unknown ↦ rw (unknown, price_for) tt
  | inr (points, known) ↦ rw (known, price_for) (price_in-IsFinal P _ (applicable on points))
]

pub cost_usd-IsFinal :
    (P : Platform) (model : String) (i o : ℤ) (on : Date) → IsFinal (cost_usd P model i o on)
unfolding cost_usd
cost_usd-IsFinal P model i o on =
    IsFinal-bind _ _ (raise_if-IsFinal _ _)
      λ _. IsFinal-bind (price_for P model on) _ (price_for-IsFinal P model on) λ pricing. tt
