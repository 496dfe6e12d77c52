-- ===== src/Ratelimit/Bucket.antt =====
-- What one reservation does to a bucket, to the two buckets of a provider, and to the registry.
use llmbus.Shared.{
  String, ◌≡◌, ◌≢◌, refl, Bool, true, false, [], ◌∷◌, lookup, eq_iff, arith, Bool-cases,
  Option-cases, inl, inr,
}
use llmbus.Shared.Int.{ℤ, pos, ltb_ℤ}
use llmbus.Python.Exc.{Fallible, returned, raised, out_of_fuel}
use llmbus.Python.Hoare.{Ends}
use llmbus.Python.Action.{◌>>=◌}
use llmbus.Python.Platform.{Platform, FloatLaws, Le, fmax, nought}
use llmbus.Python.Floats.{fmin-le, le-fmax}
use llmbus.Schema.Checks.{value_error}
use llmbus.Ratelimit.{
  TokenBucket, make_bucket, charge, reserve_units, ProviderLimiter, reserve_job, RateLimiter,
  replace_limiter, reserve, reserve_too_large, reserve_int,
}

module _ (P : Platform) where
  -- The rate and the capacity are positive, and the balance is at most the capacity.
  pub record IsWell (b : TokenBucket P) : Type 0 where
    pub rate_pos : P.lt (nought P) b.rate ≡ true
    pub capacity_pos : P.lt (nought P) b.capacity ≡ true
    pub within : Le P b.tokens b.capacity

  -- How a reservation of some units ends: with a wait that is not negative, or refused and uncharged.
  abbrev pub WaitOr : Bool → TokenBucket P → Fallible P.Float × TokenBucket P → Type 0
  WaitOr negative b (returned wait, b') = (negative ≡ false) × Le P (nought P) wait
  WaitOr negative b (raised e, b') = (negative ≡ true) × (b' ≡ b)
  WaitOr negative b (out_of_fuel, b') = ⊥

  -- How a job's reservation ends: both buckets charged, or refused and neither charged.
  abbrev pub Charged :
      P.Float → P.Float → ProviderLimiter P → Fallible P.Float × ProviderLimiter P → Type 0
  Charged now tokens l (returned wait, l') =
      (P.lt tokens (nought P) ≡ false)
      × (l'.requests ≡ charge P now (P.of_int (pos 1)) l.requests)
      × (l'.tokens ≡ charge P now tokens l.tokens)
  Charged now tokens l (raised e, l') = (P.lt tokens (nought P) ≡ true) × (l' ≡ l)
  Charged now tokens l (out_of_fuel, l') = ⊥

module _ (P : Platform) where
  -- the wait that a charged bucket asks for
  abbrev pub wait_of : TokenBucket P → P.Float
  wait_of b = P.div (fmax P (nought P) (P.neg b.tokens)) b.rate

  pub reserve_units_fine :
      (now amount : P.Float) (b : TokenBucket P)
      → P.lt amount (nought P) ≡ false
      → reserve_units P now amount b
        ≡ (returned (wait_of (charge P now amount b)), charge P now amount b)
  unfolding reserve_units
  reserve_units_fine now amount b fine = rw (fine, reserve_units)

  reserve_units_negative :
      (now amount : P.Float) (b : TokenBucket P)
      → P.lt amount (nought P) ≡ true
      → reserve_units P now amount b ≡ (raised (value_error "amount must be non-negative"), b)
  unfolding reserve_units
  reserve_units_negative now amount b negative = rw (negative, reserve_units)

  pub reserve_job_negative :
      (now tokens : P.Float) (l : ProviderLimiter P)
      → P.lt tokens (nought P) ≡ true
      → reserve_job P now tokens l ≡ (raised (value_error "amount must be non-negative"), l)
  unfolding reserve_job
  reserve_job_negative now tokens l negative = ground arith

  pub reserve_job_fine :
      (now tokens : P.Float) (l : ProviderLimiter P)
      → Le P (nought P) (P.of_int (pos 1))
      → P.lt tokens (nought P) ≡ false
      → reserve_job P now tokens l ≡ (
        returned (
            fmax P
              (wait_of (charge P now (P.of_int (pos 1)) l.requests))
              (wait_of (charge P now tokens l.tokens))),
        record {
          requests = charge P now (P.of_int (pos 1)) l.requests;
          tokens = charge P now tokens l.tokens;
        },
      )
  unfolding reserve_job
  reserve_job_fine now tokens l one fine =
      rw (fine, ◌>>=◌, reserve_units_fine now (P.of_int (pos 1)) l.requests one)
        (rw (◌>>=◌, reserve_units_fine now tokens l.tokens fine))

  -- A reservation ends.
  abbrev pub IsEnded : {A S : Type 0} → Fallible A × S → Type 0
  IsEnded = Ends (λ _ _. Unit) (λ _ _. Unit)

  IsEnded-map : {A S T : Type 0} (f : S → T) (m : Fallible A × S) → IsEnded m → IsEnded (m.0, f m.1)
  IsEnded-map f (returned a, x) h = tt
  IsEnded-map f (raised e, x) h = tt
  IsEnded-map f (out_of_fuel, x) h = h

  reserve_job-IsEnded :
      (now tokens : P.Float) (l : ProviderLimiter P) → IsEnded (reserve_job P now tokens l)
  unfolding reserve_job
  reserve_job-IsEnded now tokens l = elim (Bool-cases (P.lt tokens (nought P))) [
    | inl negative ↦ rw (negative, reserve_job) tt
    | inr fine ↦ elim (Bool-cases (P.lt (P.of_int (pos 1)) (nought P))) [
      | inl odd ↦ rw (fine, ◌>>=◌, reserve_units_negative now (P.of_int (pos 1)) l.requests odd) tt
      | inr one ↦
          rw (fine, ◌>>=◌, reserve_units_fine now (P.of_int (pos 1)) l.requests one)
            (rw (◌>>=◌, reserve_units_fine now tokens l.tokens fine) tt)
    ]
  ]

  reserve-IsEnded :
      (provider : String) (now tokens : P.Float) (limiters : RateLimiter P)
      → IsEnded (reserve P provider now tokens limiters)
  unfolding reserve
  reserve-IsEnded provider now tokens limiters = elim (Option-cases (lookup provider limiters)) [
    | inl unknown ↦ rw (unknown, reserve) tt
    | inr (l, known) ↦
        rw (known, reserve)
          (IsEnded-map (λ l'. replace_limiter P provider l' limiters) (reserve_job P now tokens l)
            (reserve_job-IsEnded now tokens l))
  ]

  reserve_too_large-IsEnded :
      (now : P.Float) (tokens : ℤ) (l : ProviderLimiter P)
      → IsEnded (reserve_too_large P now tokens l)
  unfolding reserve_too_large
  reserve_too_large-IsEnded now tokens l = elim (Bool-cases (ltb_ℤ tokens (pos 0))) [
    | inl negative ↦ rw (negative, reserve_too_large) tt
    | inr fine ↦ elim (Bool-cases (P.lt (P.of_int (pos 1)) (nought P))) [
      | inl odd ↦ rw (fine, ◌>>=◌, reserve_units_negative now (P.of_int (pos 1)) l.requests odd) tt
      | inr one ↦ rw (fine, ◌>>=◌, reserve_units_fine now (P.of_int (pos 1)) l.requests one) tt
    ]
  ]

  pub reserve_int-IsEnded :
      (provider : String) (now : P.Float) (tokens : ℤ) (limiters : RateLimiter P)
      → IsEnded (reserve_int P provider now tokens limiters)
  unfolding reserve_int
  reserve_int-IsEnded provider now tokens limiters = elim (Bool-cases (P.fits_float tokens)) [
    | inl fits ↦ rw (fits, reserve_int) (reserve-IsEnded provider now (P.of_int tokens) limiters)
    | inr huge ↦ elim (Option-cases (lookup provider limiters)) [
      | inl unknown ↦ rw (huge, unknown, reserve_int) tt
      | inr (l, known) ↦
          rw (huge, known, reserve_int)
            (IsEnded-map (λ l'. replace_limiter P provider l' limiters)
              (reserve_too_large P now tokens l) (reserve_too_large-IsEnded now tokens l))
    ]
  ]

module _ (P : Platform) (laws : FloatLaws P) where
  -- A bucket that is accepted is well formed, full, and dated now.
  pub make_bucket-IsWell :
      (rate capacity now : P.Float) {b : TokenBucket P}
      → make_bucket P rate capacity now ≡ returned b
      → IsWell P b × (b.tokens ≡ capacity) × (b.updated ≡ now)
  unfolding make_bucket
  make_bucket-IsWell rate capacity now {b} h = ground (
    arith,
    laws.le-not-lt rate (nought P),
    laws.le-not-lt capacity (nought P),
    laws.le_refl capacity,
  )

  charge-IsWell :
      (now amount : P.Float) (b : TokenBucket P)
      → P.lt amount (nought P) ≡ false
      → IsWell P b
      → IsWell P (charge P now amount b)
  charge-IsWell now amount b n h = record {
    rate_pos = h.rate_pos;
    capacity_pos = h.capacity_pos;
    within = laws.le_trans _ _ _ (laws.sub-le_nonneg _ amount n) ((fmin-le P laws b.capacity _).0);
  }

  -- Whatever a reservation asks for, a well-formed bucket stays well formed, keeps its rate and
  -- capacity, and its date never goes back, also if the clock did.
  pub reserve_units-IsWell :
      (now amount : P.Float) (b : TokenBucket P)
      → IsWell P b
      → let b' = (reserve_units P now amount b).1 in
        IsWell P b' × (b'.rate ≡ b.rate) × (b'.capacity ≡ b.capacity) × Le P b.updated b'.updated
  unfolding reserve_units
  reserve_units-IsWell now amount b h = elim (Bool-cases (P.lt amount (nought P))) [
    | inl negative ↦ rw (negative, reserve_units) (h, refl, refl, laws.le_refl b.updated)
    | inr fine ↦
        rw (fine, reserve_units)
          (charge-IsWell now amount b fine h, refl, refl, (le-fmax P laws b.updated now).0)
  ]

  -- On a well-formed bucket a reservation is refused exactly for a negative amount, and then charges nothing; a wait that is
  -- returned is not negative.
  reserve_units-outcome :
      (now amount : P.Float) (b : TokenBucket P)
      → IsWell P b
      → WaitOr P (P.lt amount (nought P)) b (reserve_units P now amount b)
  unfolding reserve_units
  reserve_units-outcome now amount b h = elim (Bool-cases (P.lt amount (nought P))) [
    | inl negative ↦ rw (negative, reserve_units) (refl, refl)
    | inr fine ↦
        rw (fine, reserve_units)
          (refl, laws.div_nonneg _ b.rate ((le-fmax P laws (nought P) _).0) h.rate_pos)
  ]

  -- One job's reservation is all or nothing: it raises for a negative token count and charges
  -- neither bucket, or it charges one request and the tokens.
  pub reserve_job_atomic :
      (now tokens : P.Float) (l : ProviderLimiter P)
      → Charged P now tokens l (reserve_job P now tokens l)
  reserve_job_atomic now tokens l = elim (Bool-cases (P.lt tokens (nought P))) [
    | inl negative ↦ rw (reserve_job_negative P now tokens l negative) (negative, refl)
    | inr fine ↦ rw (reserve_job_fine P now tokens l (laws.of_int_nonneg 1) fine) (fine, refl, refl)
  ]

  lookup-replace_ne :
      (k j : String) (new : ProviderLimiter P) (d : RateLimiter P)
      → j ≢ k
      → lookup j (replace_limiter P k new d) ≡ lookup j d
  lookup-replace_ne k j new [] h = refl
  lookup-replace_ne k j new ((i, l) ∷ d) h =
      ground (arith, lookup-replace_ne k j new d h, eq_iff i k, eq_iff i j)

  -- A reservation against one provider leaves the limiter of every other as it is.
  reserve_others :
      (provider j : String) (now tokens : P.Float) (limiters : RateLimiter P)
      → j ≢ provider
      → lookup j (reserve P provider now tokens limiters).1 ≡ lookup j limiters
  unfolding reserve
  reserve_others provider j now tokens limiters h = elim (Option-cases (lookup provider limiters)) [
    | inl unknown ↦ rw (unknown, reserve)
    | inr (l, known) ↦ rw (known, reserve) (lookup-replace_ne provider j _ limiters h)
  ]
