-- ===== src/Ratelimit/Known.antt =====
-- Reservations that cannot raise: against a provider that the limiter knows, for no negative amount.
use llmbus.Shared.{String, ◌≡◌, refl, ◌∙◌, true, false, [], ◌∷◌, lookup, eq_iff, arith}
use llmbus.Shared.Int.{ℤ, pos}
use llmbus.Shared.Dicts.{has_value, has_value-some}
use llmbus.Python.Exc.{returned}
use llmbus.Python.Action.{◌>>=◌}
use llmbus.Python.Hoare.{Ends, Ends-returned}
use llmbus.Python.Platform.{Platform, nought}
use llmbus.Ratelimit.{
  ProviderLimiter, RateLimiter, replace_limiter, reserve_job, reserve, reserve_int,
}
use llmbus.Ratelimit.Bucket.{reserve_units_fine}

module _ (P : Platform) where
  -- The limiter has an entry for the provider.
  abbrev pub Knows : String → RateLimiter P → Type 0
  Knows name limiters = has_value (lookup name limiters) ≡ true

  Knows-replace :
      (name other : String) (new : ProviderLimiter P) (d : RateLimiter P)
      → has_value (lookup name (replace_limiter P other new d)) ≡ has_value (lookup name d)
  Knows-replace name other new [] = refl
  Knows-replace name other new ((j, l) ∷ d) =
      ground (arith, Knows-replace name other new d, eq_iff j other, eq_iff j name)

  reserve_job-returned :
      (now tokens : P.Float) (l : ProviderLimiter P)
      → P.lt tokens (nought P) ≡ false
      → P.lt (P.of_int (pos 1)) (nought P) ≡ false
      → (wait : P.Float) × ((reserve_job P now tokens l).0 ≡ returned wait)
  unfolding reserve_job
  reserve_job-returned now tokens l fine one =
      rw (fine, ◌>>=◌, reserve_units_fine P now (P.of_int (pos 1)) l.requests one)
        (rw (◌>>=◌, reserve_units_fine P now tokens l.tokens fine) (_, refl))

  reserve-Knows :
      (name : String) (now tokens : P.Float) (limiters : RateLimiter P)
      → P.lt tokens (nought P) ≡ false
      → P.lt (P.of_int (pos 1)) (nought P) ≡ false
      → Knows name limiters
      → Ends (λ _ l. Knows name l) (λ _ _. ⊥) (reserve P name now tokens limiters)
  unfolding reserve
  reserve-Knows name now tokens limiters fine one known =
      let (l, found) = has_value-some (lookup name limiters) known in
      let (wait, e) = reserve_job-returned now tokens l fine one in
      rw (found, reserve)
        (Ends-returned (λ _ l. Knows name l) (λ _ _. ⊥) (reserve_job P now tokens l).0 wait
          (replace_limiter P name (reserve_job P now tokens l).1 limiters) e
          (Knows-replace name name (reserve_job P now tokens l).1 limiters ∙ known))

  pub reserve_int-Knows :
      (name : String) (now : P.Float) (tokens : ℤ) (limiters : RateLimiter P)
      → P.fits_float tokens ≡ true
      → P.lt (P.of_int tokens) (nought P) ≡ false
      → P.lt (P.of_int (pos 1)) (nought P) ≡ false
      → Knows name limiters
      → Ends (λ _ l. Knows name l) (λ _ _. ⊥) (reserve_int P name now tokens limiters)
  unfolding reserve_int
  reserve_int-Knows name now tokens limiters fits fine one known =
      rw (fits, reserve_int) (reserve-Knows name now (P.of_int tokens) limiters fine one known)
