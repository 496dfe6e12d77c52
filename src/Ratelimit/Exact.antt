-- ===== src/Ratelimit/Exact.antt =====
-- A bucket of src/llmbus/ratelimit.py over any stretch of time, for arithmetic that does not round.
use mathlib.Core.Path.{subst}
use llmbus.Shared.{ℕ, suc, ◌≡◌, refl, sym, ap, ◌∙◌, true, false, Bool-cases, inl, inr}
use llmbus.Shared.Int.{pos}
use llmbus.Python.Platform.{Platform, Le, fmin, fmax, nought}
use llmbus.Ratelimit.{TokenBucket, charge}
use llmbus.Ratelimit.Bucket.{IsWell, wait_of}

-- What holds of numbers that are not rounded. A quotient may be rounded up.
pub record ExactLaws (P : Platform) : Type 0 where
  pub lt_asymm : (a b : P.Float) → P.lt a b ≡ true → P.lt b a ≡ false
  pub le_refl : (a : P.Float) → Le P a a
  pub le_trans : (a b c : P.Float) → Le P a b → Le P b c → Le P a c
  pub le_antisymm : (a b : P.Float) → Le P a b → Le P b a → a ≡ b
  pub add_mono : (a b c d : P.Float) → Le P a b → Le P c d → Le P (P.add a c) (P.add b d)
  pub add_assoc : (a b c : P.Float) → P.add (P.add a b) c ≡ P.add a (P.add b c)
  pub add_comm : (a b : P.Float) → P.add a b ≡ P.add b a
  pub add-nought : (a : P.Float) → P.add a (nought P) ≡ a
  pub add-neg : (a : P.Float) → P.add a (P.neg a) ≡ nought P
  pub add-sub : (a b : P.Float) → P.add a (P.sub b a) ≡ b
  pub sub_trans : (a b c : P.Float) → P.add (P.sub b a) (P.sub c b) ≡ P.sub c a
  pub sub_nonneg : (a b : P.Float) → Le P a b → Le P (nought P) (P.sub b a)
  pub add-mul : (a b r : P.Float) → P.mul (P.add a b) r ≡ P.add (P.mul a r) (P.mul b r)
  pub mul_nonneg :
      (a r : P.Float) → Le P (nought P) a → P.lt (nought P) r ≡ true → Le P (nought P) (P.mul a r)
  pub mul_mono :
      (a b r : P.Float) → Le P a b → P.lt (nought P) r ≡ true → Le P (P.mul a r) (P.mul b r)
  pub le-mul-div : (a r : P.Float) → P.lt (nought P) r ≡ true → Le P a (P.mul (P.div a r) r)
  pub of_int-suc : (n : ℕ) → P.of_int (pos (suc n)) ≡ P.add (P.of_int (pos n)) (P.of_int (pos 1))
  pub of_int_nonneg : (n : ℕ) → Le P (nought P) (P.of_int (pos n))

module _ (P : Platform) where
  -- The units that may have gone by a time, counted from a first reservation.
  abbrev pub allowed : TokenBucket P → P.Float → P.Float
  allowed b elapsed = P.add b.capacity (P.mul elapsed b.rate)

  -- A bucket is charged at a first time and then at later ones, to a sum.
  pub data Charges (b : TokenBucket P) : P.Float → P.Float → P.Float → TokenBucket P → Type 0 where
    first :
        (now amount : P.Float)
        → Le P b.updated now
        → Charges b now amount now (charge P now amount b)
    more :
        {start spent last : P.Float} {c : TokenBucket P} (now amount : P.Float)
        → Charges b start spent last c
        → Le P last now
        → Charges b start (P.add spent amount) now (charge P now amount c)

  record Within (b : TokenBucket P) (start spent now : P.Float) (c : TokenBucket P) : Type 0 where
    same_rate : c.rate ≡ b.rate
    same_capacity : c.capacity ≡ b.capacity
    dated : c.updated ≡ now
    bounded : Le P (P.add spent c.tokens) (allowed b (P.sub now start))

module _ (P : Platform) (laws : ExactLaws P) where
  fmin-le_left : (a b : P.Float) → Le P (fmin P a b) a
  fmin-le_left a b = elim (Bool-cases (P.lt b a)) [
    | inl less ↦ rw (less, fmin) (laws.lt_asymm b a less)
    | inr other ↦ rw (other, fmin) (laws.le_refl a)
  ]

  fmin-le_right : (a b : P.Float) → Le P (fmin P a b) b
  fmin-le_right a b = elim (Bool-cases (P.lt b a)) [
    | inl less ↦ rw (less, fmin) (laws.le_refl b)
    | inr other ↦ rw (other, fmin) other
  ]

  pub fmax-eq : (a b : P.Float) → Le P a b → fmax P a b ≡ b
  fmax-eq a b h = elim (Bool-cases (P.lt a b)) [
    | inl less ↦ rw (less, fmax)
    | inr other ↦ rw (other, fmax) (laws.le_antisymm a b h other)
  ]

  pub le-fmax_left : (a b : P.Float) → Le P a (fmax P a b)
  le-fmax_left a b = elim (Bool-cases (P.lt a b)) [
    | inl less ↦ rw (less, fmax) (laws.lt_asymm a b less)
    | inr other ↦ rw (other, fmax) (laws.le_refl a)
  ]

  pub le-fmax_right : (a b : P.Float) → Le P b (fmax P a b)
  le-fmax_right a b = elim (Bool-cases (P.lt a b)) [
    | inl less ↦ rw (less, fmax) (laws.le_refl b)
    | inr other ↦ rw (other, fmax) other
  ]

  le-add : (a b : P.Float) → Le P (nought P) b → Le P a (P.add a b)
  le-add a b h =
      subst (λ x. Le P x (P.add a b)) (laws.add-nought a)
        (laws.add_mono a a (nought P) b (laws.le_refl a) h)

  add-add-sub : (s a m : P.Float) → P.add (P.add s a) (P.sub m a) ≡ P.add s m
  add-add-sub s a m = laws.add_assoc s a (P.sub m a) ∙ ap (P.add s) (laws.add-sub a m)

  -- The balance after a refill and before the spending.
  abbrev refilled : P.Float → TokenBucket P → P.Float
  refilled now b =
      fmin P b.capacity (P.add b.tokens (P.mul (fmax P (nought P) (P.sub now b.updated)) b.rate))

  module _ (b : TokenBucket P) (well : IsWell P b) where
    Within-first :
        (now amount : P.Float)
        → Le P b.updated now
        → Within P b now amount now (charge P now amount b)
    Within-first now amount h = record {
      same_rate = refl;
      same_capacity = refl;
      dated = fmax-eq b.updated now h;
      bounded =
          subst (λ x. Le P x (allowed P b (P.sub now now)))
            (sym (laws.add-sub amount (refilled now b)))
            (laws.le_trans _ b.capacity _ (fmin-le_left b.capacity _) (
              le-add b.capacity _ (
                laws.mul_nonneg _ b.rate (laws.sub_nonneg now now (laws.le_refl now))
                  well.rate_pos)));
    }

    -- What a later charge refills is allowed for the time between.
    refilled-allowed :
        (start spent last now : P.Float) (c : TokenBucket P)
        → Within P b start spent last c
        → Le P last now
        → Le P (P.add spent (refilled now c)) (allowed P b (P.sub now start))
    refilled-allowed start spent last now c w h =
        let elapsed : fmax P (nought P) (P.sub now c.updated) ≡ P.sub now last =
          ap (λ t. fmax P (nought P) (P.sub now t)) w.dated
          ∙ fmax-eq (nought P) (P.sub now last) (laws.sub_nonneg last now h) in
        let gained : P.Float = P.mul (P.sub now last) b.rate in
        let refill : P.mul (fmax P (nought P) (P.sub now c.updated)) c.rate ≡ gained =
          ap (λ t. P.mul t c.rate) elapsed ∙ ap (P.mul (P.sub now last)) w.same_rate in
        let below : Le P (refilled now c) (P.add c.tokens gained) =
          subst (λ x. Le P (refilled now c) (P.add c.tokens x)) refill
            (fmin-le_right c.capacity _) in
        let regroup : P.add (allowed P b (P.sub last start)) gained
            ≡ allowed P b (P.sub now start) =
          laws.add_assoc b.capacity _ gained
          ∙ ap (P.add b.capacity) (
              sym (laws.add-mul (P.sub last start) (P.sub now last) b.rate)
              ∙ ap (λ t. P.mul t b.rate) (laws.sub_trans start last now)) in
        subst (λ x. Le P (P.add spent (refilled now c)) x) regroup
          (laws.le_trans _ (P.add (P.add spent c.tokens) gained) _
            (subst (λ x. Le P (P.add spent (refilled now c)) x)
              (sym (laws.add_assoc spent c.tokens gained))
              (laws.add_mono spent spent _ _ (laws.le_refl spent) below))
            (laws.add_mono _ _ gained gained w.bounded (laws.le_refl gained)))

    Within-more :
        (start spent last now amount : P.Float) (c : TokenBucket P)
        → Within P b start spent last c
        → Le P last now
        → Within P b start (P.add spent amount) now (charge P now amount c)
    Within-more start spent last now amount c w h = record {
      same_rate = w.same_rate;
      same_capacity = w.same_capacity;
      dated = ap (λ t. fmax P t now) w.dated ∙ fmax-eq last now h;
      bounded =
          subst (λ x. Le P x (allowed P b (P.sub now start)))
            (sym (add-add-sub spent amount (refilled now c)))
            (refilled-allowed start spent last now c w h);
    }

    Charges-Within :
        {start spent now : P.Float} {c : TokenBucket P}
        → Charges P b start spent now c
        → Within P b start spent now c
    Charges-Within (first now amount h) = Within-first now amount h
    Charges-Within (more {start = s} {spent = t} {last = l} {c = c} now amount before h) =
        Within-more s t l now amount c (Charges-Within before) h

    -- Once the deficit is slept out, what was spent is allowed.
    pub Charges-allowed :
        {start spent now : P.Float} {c : TokenBucket P} (wait : P.Float)
        → Charges P b start spent now c
        → Le P (wait_of P c) wait
        → Le P spent (allowed P b (P.add (P.sub now start) wait))
    Charges-allowed {start} {spent} {now} {c} wait charges long =
        let w = Charges-Within charges in
        let owed : Le P (P.neg c.tokens) (P.mul wait b.rate) =
          laws.le_trans _ (fmax P (nought P) (P.neg c.tokens)) _ (le-fmax_right (nought P) _) (
            subst (λ r. Le P (fmax P (nought P) (P.neg c.tokens)) (P.mul wait r)) w.same_rate
              (laws.le_trans _ (P.mul (wait_of P c) c.rate) _
                (laws.le-mul-div _ c.rate (rate_pos c w))
                (laws.mul_mono _ _ c.rate long (rate_pos c w)))) in
        let balance : P.add (P.add spent c.tokens) (P.neg c.tokens) ≡ spent =
          laws.add_assoc spent c.tokens (P.neg c.tokens)
          ∙ ap (P.add spent) (laws.add-neg c.tokens)
          ∙ laws.add-nought spent in
        let regroup : P.add (allowed P b (P.sub now start)) (P.mul wait b.rate)
            ≡ allowed P b (P.add (P.sub now start) wait) =
          laws.add_assoc b.capacity _ _
          ∙ ap (P.add b.capacity) (sym (laws.add-mul (P.sub now start) wait b.rate)) in
        subst (λ x. Le P x (allowed P b (P.add (P.sub now start) wait))) balance
          (subst (λ x. Le P (P.add (P.add spent c.tokens) (P.neg c.tokens)) x) regroup
            (laws.add_mono _ _ _ _ w.bounded owed))
      where
        rate_pos :
            (c : TokenBucket P) → Within P b start spent now c → P.lt (nought P) c.rate ≡ true
        rate_pos c w = subst (λ r. P.lt (nought P) r ≡ true) (sym w.same_rate) well.rate_pos
