-- ===== src/Ratelimit/Conformance.antt =====
-- That a provider's limits hold over any stretch of time, src/llmbus/ratelimit.py, for arithmetic
-- that does not round.
use mathlib.Core.Path.{subst}
use llmbus.Shared.{ℕ, suc, ◌≡◌, refl, sym, Bool-cases, inl, inr}
use llmbus.Shared.Int.{pos}
use llmbus.Python.Exc.{Exc, Fallible, returned, raised}
use llmbus.Python.Hoare.{Ends}
use llmbus.Python.Platform.{Platform, Le, nought}
use llmbus.Ratelimit.{charge, ProviderLimiter, reserve_job}
use llmbus.Ratelimit.Bucket.{IsWell, wait_of, reserve_job_fine, reserve_job_negative}
use llmbus.Ratelimit.Exact.{
  ExactLaws, le-fmax_left, le-fmax_right, allowed, Charges, first, more, Charges-allowed,
}

module _ (P : Platform) where
  -- How a job's reservation ends: both buckets charged and a wait that is enough for both, or
  -- nothing charged.
  record Granted (now tokens : P.Float) (l : ProviderLimiter P) (wait : P.Float)
      (c : ProviderLimiter P) : Type 0 where
    requests_charged : c.requests ≡ charge P now (P.of_int (pos 1)) l.requests
    tokens_charged : c.tokens ≡ charge P now tokens l.tokens
    requests_waited : Le P (wait_of P c.requests) wait
    tokens_waited : Le P (wait_of P c.tokens) wait

  abbrev GrantedOr :
      P.Float → P.Float → ProviderLimiter P → Fallible P.Float × ProviderLimiter P → Type 0
  GrantedOr now tokens l = Ends (Granted now tokens l) (λ _ c. c ≡ l)

  -- Jobs that were granted by a limiter from some time on, and those that it refused between: the
  -- time of the first, how many there were and of how many tokens, and the time and the wait of the
  -- last. The clock that it reads does not go back.
  pub data Jobs (l : ProviderLimiter P)
      : P.Float → ℕ → P.Float → P.Float → P.Float → ProviderLimiter P → Type 0 where
    one :
        {c : ProviderLimiter P} (now tokens wait : P.Float)
        → Le P l.requests.updated now
        → Le P l.tokens.updated now
        → reserve_job P now tokens l ≡ (returned wait, c)
        → Jobs l now 1 tokens now wait c
    another :
        {start spent last waited : P.Float} {n : ℕ} {c d : ProviderLimiter P}
        (now tokens wait : P.Float)
        → Jobs l start n spent last waited c
        → Le P last now
        → reserve_job P now tokens c ≡ (returned wait, d)
        → Jobs l start (suc n) (P.add spent tokens) now wait d
    refused :
        {start spent last waited : P.Float} {n : ℕ} {c d : ProviderLimiter P} (now tokens : P.Float)
        (e : Exc)
        → Jobs l start n spent last waited c
        → reserve_job P now tokens c ≡ (raised e, d)
        → Jobs l start n spent last waited d

module _ (P : Platform) (laws : ExactLaws P) where
  reserve_job-GrantedOr :
      (now tokens : P.Float) (l : ProviderLimiter P)
      → GrantedOr P now tokens l (reserve_job P now tokens l)
  reserve_job-GrantedOr now tokens l = elim (Bool-cases (P.lt tokens (nought P))) [
    | inl negative ↦
        subst (GrantedOr P now tokens l) (sym (reserve_job_negative P now tokens l negative)) refl
    | inr fine ↦
        subst (GrantedOr P now tokens l)
          (sym (reserve_job_fine P now tokens l (laws.of_int_nonneg 1) fine))
          (record {
            requests_charged = refl;
            tokens_charged = refl;
            requests_waited = le-fmax_left P laws _ _;
            tokens_waited = le-fmax_right P laws _ _;
          })
  ]

  record Followed (l : ProviderLimiter P) (start : P.Float) (n : ℕ) (spent now wait : P.Float)
      (c : ProviderLimiter P) : Type 0 where
    requests : Charges P l.requests start (P.of_int (pos n)) now c.requests
    tokens : Charges P l.tokens start spent now c.tokens
    requests_waited : Le P (wait_of P c.requests) wait
    tokens_waited : Le P (wait_of P c.tokens) wait

  granted :
      (now tokens wait : P.Float) (l c : ProviderLimiter P)
      → reserve_job P now tokens l ≡ (returned wait, c)
      → Granted P now tokens l wait c
  granted now tokens wait l c e =
      subst (GrantedOr P now tokens l) e (reserve_job-GrantedOr now tokens l)

  Jobs-Followed :
      {l c : ProviderLimiter P} {start spent now wait : P.Float} {n : ℕ}
      → Jobs P l start n spent now wait c
      → Followed l start n spent now wait c
  Jobs-Followed {l} {c} (one now tokens wait hr ht e) =
      let g = granted now tokens wait l c e in
      record {
        requests =
            subst (Charges P l.requests now (P.of_int (pos 1)) now) (sym g.requests_charged)
              (first now (P.of_int (pos 1)) hr);
        tokens =
            subst (Charges P l.tokens now tokens now) (sym g.tokens_charged) (first now tokens ht);
        requests_waited = g.requests_waited;
        tokens_waited = g.tokens_waited;
      }
  Jobs-Followed {l} {c = d}
        (another {start = s} {spent = t} {n = n} {c = c} now tokens wait before later e) =
      let f = Jobs-Followed before in
      let g = granted now tokens wait c d e in
      record {
        requests =
            subst (λ x. Charges P l.requests s x now d.requests) (sym (laws.of_int-suc n))
              (subst (Charges P l.requests s (P.add (P.of_int (pos n)) (P.of_int (pos 1))) now)
                (sym g.requests_charged) (more now (P.of_int (pos 1)) f.requests later));
        tokens =
            subst (Charges P l.tokens s (P.add t tokens) now) (sym g.tokens_charged)
              (more now tokens f.tokens later);
        requests_waited = g.requests_waited;
        tokens_waited = g.tokens_waited;
      }
  Jobs-Followed {l} {c = d}
        (refused {start = s} {spent = t} {last = u} {waited = w} {n = n} {c = c} now tokens e before
          told) =
      let same : d ≡ c =
        subst (GrantedOr P now tokens c) told (reserve_job-GrantedOr now tokens c) in
      subst (Followed l s n t u w) (sym same) (Jobs-Followed before)

  -- In arithmetic that does not round, whichever jobs a provider's limiter grants one after another,
  -- at times that do not go back, and whichever it refuses between: when the last of them has slept
  -- out its wait, there were at most as many as the request bucket holds and is refilled with in the
  -- time since the first of them, and their tokens are at most what the token bucket holds and is
  -- refilled with in that time.
  pub Jobs-allowed :
      {l c : ProviderLimiter P} {start spent now wait : P.Float} {n : ℕ}
      → IsWell P l.requests
      → IsWell P l.tokens
      → Jobs P l start n spent now wait c
      → Le P (P.of_int (pos n)) (allowed P l.requests (P.add (P.sub now start) wait))
        × Le P spent (allowed P l.tokens (P.add (P.sub now start) wait))
  Jobs-allowed {l} {wait = wait} hr ht jobs =
      let f = Jobs-Followed jobs in
      (
        Charges-allowed P laws l.requests hr wait f.requests f.requests_waited,
        Charges-allowed P laws l.tokens ht wait f.tokens f.tokens_waited,
      )
