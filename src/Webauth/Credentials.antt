-- ===== src/Webauth/Credentials.antt =====
-- Who gets past the check of credentials.
use llmbus.Shared.{
  String, ◌≡◌, refl, ap, true, false, Option, none, some, ◌==◌, eq_iff, arith, Bool-cases, inl, inr,
}
use llmbus.Python.Exc.{Ended, answered, failed}
use llmbus.Python.Texts.{Texts, Parts, partition}
use llmbus.Webauth.{compare_digest, password_ok, decoded_ok, scheme_ok, basic_auth_ok}

compare_digest-true : (a b : String) → compare_digest a b ≡ answered true → a ≡ b
unfolding compare_digest
compare_digest-true a b h = ground (arith, eq_iff a b)

module _ {F : Type 0} (T : Texts F) where
  -- A header that is well-formed Basic credentials with a password.
  pub record Carries (password header : String) : Type 0 where
    pub scheme : String
    pub remainder : String
    pub decoded : String
    pub user : String
    pub split : partition b' ' header ≡ (scheme, true, remainder)
    pub is_basic : (T.lower scheme == "basic") ≡ true
    pub well_formed : T.b64decode (T.strip remainder) ≡ answered decoded
    pub credentials : partition b':' decoded ≡ (user, true, password)

  password_ok-true :
      (secret : String) (parts : Parts)
      → password_ok T secret parts ≡ answered true
      → (user : String) × (parts ≡ (user, true, secret))
  unfolding password_ok
  password_ok-true secret (user, true, password) h =
      (user, ap (λ p. (user, true, p)) (compare_digest-true password secret h))
  password_ok-true secret (user, false, password) h = cc

  decoded_ok-true :
      (secret : String) (o : Ended String)
      → decoded_ok T secret o ≡ answered true
      → (decoded : String) × (user : String) × (o ≡ answered decoded)
        × (partition b':' decoded ≡ (user, true, secret))
  unfolding decoded_ok
  decoded_ok-true secret (failed e) h = ground (arith, h)
  decoded_ok-true secret (answered decoded) h =
      let (user, e) = password_ok-true secret (partition b':' decoded) h in (decoded, user, refl, e)

  scheme_ok-true :
      (secret header : String) (parts : Parts)
      → partition b' ' header ≡ parts
      → scheme_ok T secret parts ≡ answered true
      → Carries secret header
  unfolding scheme_ok
  scheme_ok-true secret header (scheme, false, remainder) e h = cc
  scheme_ok-true secret header (scheme, true, remainder) e h =
      elim (Bool-cases (T.lower scheme == "basic")) [
        | inr other ↦ cc (rw (other, scheme_ok) at h)
        | inl basic ↦ elim (Bool-cases (T.strip remainder == "")) [
          | inl blank ↦ cc (rw (blank, scheme_ok) at (rw (basic, scheme_ok) at h))
          | inr full ↦
              let (decoded, user, e1, e2) =
                decoded_ok-true secret (T.b64decode (T.strip remainder))
                  (rw (full, scheme_ok) at (rw (basic, scheme_ok) at h)) in
              record {
                scheme = scheme;
                remainder = remainder;
                decoded = decoded;
                user = user;
                split = e;
                is_basic = basic;
                well_formed = e1;
                credentials = e2;
              }
        ]
      ]

  -- A request is let in only if a secret is set, a header is there, and the header is well-formed
  -- Basic credentials whose password is the secret.
  pub basic_auth_ok-Carries :
      (header secret : Option String)
      → basic_auth_ok T header secret ≡ answered true
      → (h : String) × (s : String) × (header ≡ some h) × (secret ≡ some s) × Carries s h
  unfolding basic_auth_ok
  basic_auth_ok-Carries header none e = cc
  basic_auth_ok-Carries none (some secret) e = cc
  basic_auth_ok-Carries (some header) (some secret) e =
      (header, secret, refl, refl, scheme_ok-true secret header (partition b' ' header) refl e)
