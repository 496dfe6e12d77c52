-- ===== src/Config/Binding/Hosts.antt =====
-- The addresses that the cost server may listen on.
use llmbus.Shared.{
  ℕ, ◌≤◌, ◌<◌, length, String, ◌≡◌, refl, ap, Bool, true, false, not, ◌&&◌, Option, none, some,
  List, [], ◌∷◌, map, keep_if, contains, ◌==◌, eq_iff, eq_refl, arith, All, Bool-cases, inl, inr,
}
use llmbus.Shared.Int.{ℤ}
use llmbus.Python.Outcome.{EndsIn, EndsIn-map, EndsIn-if, EndsIn-bind}
use llmbus.Python.Texts.{Texts}
use llmbus.Python.Platform.{Platform}
use llmbus.Config.{Env, setting}
use llmbus.Config.Checks.{IsConfigError}
use llmbus.Config.Binding.{
  CostsBind, wildcard_hosts, dedupe, or_default, refuse_wildcards, validate_costs_hosts,
  validate_costs_port, port_of, costs_port, parse_costs_bind, load_costs_bind, flagged_hosts,
  flagged_port, resolve_bind,
}

-- A text that is none of the three spellings of a wildcard that the check knows. A socket takes others,
-- such as `0`, for the same address.
abbrev pub IsNarrow : String → Type 0
IsNarrow host = ((host == "") ≡ false) × ((host == "0.0.0.0") ≡ false) × ((host == "::") ≡ false)

IsNarrow-wildcard_hosts : (host : String) → contains host wildcard_hosts ≡ false → IsNarrow host
IsNarrow-wildcard_hosts host h = ground (
  arith,
  h,
  eq_iff host "",
  eq_iff "" host,
  eq_iff host "0.0.0.0",
  eq_iff "0.0.0.0" host,
  eq_iff host "::",
  eq_iff "::" host,
)

-- No text occurs twice.
abbrev pub IsDistinct : List String → Type 0
IsDistinct [] = Unit
IsDistinct (x ∷ xs) = (contains x xs ≡ false) × IsDistinct xs

-- What can be bound: each address once, none of them one of the three refused texts.
abbrev pub IsBindable : List String → Type 0
IsBindable hosts = All IsNarrow hosts × IsDistinct hosts

contains-keep_if :
    (p : String → Bool) (x : String) (xs : List String)
    → contains x (keep_if p xs) ≡ (contains x xs && p x)
contains-keep_if p x [] = refl
contains-keep_if p x (y ∷ ys) = elim (Bool-cases (y == x)) [
  | inl same ↦
      let e : y ≡ x = (eq_iff y x).0 same in
      ground (arith, contains-keep_if p x ys, ap p e, eq_refl y)
  | inr other ↦ ground (arith, contains-keep_if p x ys)
]

-- Deduplication keeps the same texts.
pub contains-dedupe : (x : String) (xs : List String) → contains x (dedupe xs) ≡ contains x xs
unfolding dedupe
contains-dedupe x [] = refl
contains-dedupe x (y ∷ ys) = ground (
  arith,
  contains-dedupe x ys,
  contains-keep_if (λ z. not (z == y)) x (dedupe ys),
  eq_iff x y,
  eq_iff y x,
)

IsDistinct-keep_if :
    (p : String → Bool) (xs : List String) → IsDistinct xs → IsDistinct (keep_if p xs)
IsDistinct-keep_if p [] h = tt
IsDistinct-keep_if p (x ∷ xs) (h, hs) =
    ground (arith, contains-keep_if p x xs, IsDistinct-keep_if p xs hs)

pub IsDistinct-dedupe : (xs : List String) → IsDistinct (dedupe xs)
unfolding dedupe
IsDistinct-dedupe [] = tt
IsDistinct-dedupe (x ∷ xs) = (
  ground (arith, contains-keep_if (λ y. not (y == x)) x (dedupe xs), eq_refl x),
  IsDistinct-keep_if (λ y. not (y == x)) (dedupe xs) (IsDistinct-dedupe xs),
)

contains-All :
    (P : String → Type 0) (xs : List String)
    → ((x : String) → contains x xs ≡ true → P x)
    → All P xs
contains-All P [] h = tt
contains-All P (x ∷ xs) h =
    (h x (ground (arith, eq_refl x)), contains-All P xs λ y k. h y (ground arith))

All-contains :
    (P : String → Type 0) (x : String) (xs : List String) → All P xs → contains x xs ≡ true → P x
All-contains P x [] h k = cc
All-contains P x (y ∷ ys) (h, hs) k = elim (Bool-cases (y == x)) [
  | inl same ↦ rw (← (eq_iff y x).0 same) h
  | inr other ↦ All-contains P x ys hs (ground arith)
]

-- A predicate of all texts of a list is one of all texts after deduplication.
All-dedupe : (P : String → Type 0) (xs : List String) → All P xs → All P (dedupe xs)
All-dedupe P xs h =
    contains-All P (dedupe xs) λ x k. All-contains P x xs h (rw (contains-dedupe x xs) at k)

-- Both have the same texts.
abbrev pub SameTexts : List String → List String → Type 0
SameTexts xs ys = (x : String) → contains x xs ≡ contains x ys

contains-length : (x : String) (xs : List String) → contains x xs ≡ true → 0 < length xs
contains-length x [] h = cc
contains-length x (y ∷ ys) h = omega arith

-- An address to bind: some hosts, each one once and none of them one of the three refused texts, and a
-- port that exists.
abbrev pub IsSafe : CostsBind → Type 0
IsSafe bind =
    (0 < length bind.hosts) × IsBindable bind.hosts × (1 ≤ bind.port) × (bind.port ≤ 65535)

abbrev IsPort : ℕ → Type 0
IsPort port = (1 ≤ port) × (port ≤ 65535)

abbrev Hosted : List String → Type 0
Hosted hosts = (0 < length hosts) × IsBindable hosts

module _ (P : Platform) (T : Texts P.Float) where
  -- What a validation of these hosts may give.
  abbrev pub Validated : List String → List String → Type 0
  Validated hosts valid = IsBindable valid × SameTexts valid (map T.strip hosts)

  refuse_wildcards_ends :
      (hosts : List String)
      → EndsIn (λ _. All IsNarrow (map T.strip hosts)) IsConfigError (refuse_wildcards P T hosts)
  unfolding refuse_wildcards
  refuse_wildcards_ends [] = tt
  refuse_wildcards_ends (host ∷ hosts) =
      EndsIn-if (λ _. All IsNarrow (map T.strip (host ∷ hosts))) IsConfigError
        (contains (T.strip host) wildcard_hosts) _ (refuse_wildcards P T hosts) (λ h. refl)
        λ narrow.
          EndsIn-map (λ _. All IsNarrow (map T.strip hosts))
            (λ _. All IsNarrow (map T.strip (host ∷ hosts))) IsConfigError
            (refuse_wildcards P T hosts) (λ _ h. (IsNarrow-wildcard_hosts (T.strip host) narrow, h))
            (refuse_wildcards_ends hosts)

  pub validate_costs_hosts_ends :
      (hosts : List String)
      → EndsIn (λ valid. Validated hosts valid) IsConfigError (validate_costs_hosts P T hosts)
  unfolding validate_costs_hosts
  validate_costs_hosts_ends hosts =
      EndsIn-bind (λ _. All IsNarrow (map T.strip hosts)) (λ valid. Validated hosts valid)
        IsConfigError (refuse_wildcards P T hosts) _ (refuse_wildcards_ends hosts)
        λ _ h. (
          (All-dedupe IsNarrow (map T.strip hosts) h, IsDistinct-dedupe (map T.strip hosts)),
          λ x. contains-dedupe x (map T.strip hosts),
        )

  validate_costs_port_ends : (port : ℤ) → EndsIn IsPort IsConfigError (validate_costs_port P T port)
  unfolding validate_costs_port
  validate_costs_port_ends port = ground arith

  port_of_ends : (raw : String) (o : Option ℤ) → EndsIn IsPort IsConfigError (port_of P T raw o)
  unfolding port_of
  port_of_ends raw none = refl
  port_of_ends raw (some port) = validate_costs_port_ends port

  costs_port_ends : (env : Env) → EndsIn IsPort IsConfigError (costs_port P T env)
  unfolding costs_port
  costs_port_ends env =
      EndsIn-if IsPort IsConfigError (setting P T env "COSTS_PORT" == "") _ _
        (λ h. (omega arith, omega arith))
        λ h. port_of_ends (setting P T env "COSTS_PORT") (T.int_of (setting P T env "COSTS_PORT"))

  or_default-Hosted : (hosts : List String) → IsBindable hosts → Hosted (or_default hosts)
  unfolding or_default
  or_default-Hosted [] h = (omega arith, (((refl, refl, refl), tt), (refl, tt)))
  or_default-Hosted (host ∷ hosts) h = (omega arith, h)

  pub parse_costs_bind_ends : (env : Env) → EndsIn IsSafe IsConfigError (parse_costs_bind P T env)
  unfolding parse_costs_bind
  parse_costs_bind_ends env =
      EndsIn-bind (λ valid. Validated _ valid) IsSafe IsConfigError (validate_costs_hosts P T _) _
        (validate_costs_hosts_ends _)
        λ hosts h.
          EndsIn-bind IsPort IsSafe IsConfigError (costs_port P T env) _ (costs_port_ends env)
            λ port hp.
              ((or_default-Hosted hosts h.0).0, (or_default-Hosted hosts h.0).1, hp.0, hp.1)

  flagged_hosts_ends :
      (hosts configured : List String)
      → Hosted configured
      → EndsIn Hosted IsConfigError (flagged_hosts P T hosts configured)
  unfolding flagged_hosts
  flagged_hosts_ends [] configured h = h
  flagged_hosts_ends (host ∷ hosts) configured h =
      EndsIn-map (λ valid. Validated (host ∷ hosts) valid) Hosted IsConfigError
        (validate_costs_hosts P T (host ∷ hosts))
        (λ valid h. (
          contains-length (T.strip host) valid
              (rw (h.1 (T.strip host)) (ground (arith, eq_refl (T.strip host)))),
          h.0,
        ))
        (validate_costs_hosts_ends (host ∷ hosts))

  flagged_port_ends :
      (port : Option ℤ) (configured : ℕ)
      → IsPort configured
      → EndsIn IsPort IsConfigError (flagged_port P T port configured)
  unfolding flagged_port
  flagged_port_ends none configured h = h
  flagged_port_ends (some port) configured h = validate_costs_port_ends port

  -- Whatever the flags and the environment are, the server gets an address to bind or a `ConfigError`
  -- is raised: at least one host, none twice, none of them the empty text, `0.0.0.0` or `::`, and a
  -- port from 1 to 65535.
  pub resolve_bind_ends :
      (hosts : List String) (port : Option ℤ) (env : Env)
      → EndsIn IsSafe IsConfigError (resolve_bind P T hosts port env)
  unfolding resolve_bind load_costs_bind
  resolve_bind_ends hosts port env =
      EndsIn-bind IsSafe IsSafe IsConfigError (parse_costs_bind P T env) _
        (parse_costs_bind_ends env)
        λ configured hc.
          EndsIn-bind Hosted IsSafe IsConfigError (flagged_hosts P T hosts configured.hosts) _
            (flagged_hosts_ends hosts configured.hosts (hc.0, hc.1))
            λ chosen hh.
              EndsIn-bind IsPort IsSafe IsConfigError (flagged_port P T port configured.port) _
                (flagged_port_ends port configured.port (hc.2, hc.3))
                λ p hp. (hh.0, hh.1, hp.0, hp.1)
