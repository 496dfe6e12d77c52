-- ===== src/Config/Binding.antt =====
-- Where the cost server of src/llmbus/config.py and src/llmbus/server.py listens.
pub mod Hosts
use Prim.Native.String.{◌++◌}
use llmbus.Shared.{
  ℕ, String, Bool, not, ◌&&◌, Option, none, some, List, [], ◌∷◌, map, keep_if, contains, ◌==◌,
  if◌then◌else◌,
}
use llmbus.Shared.Int.{ℤ, pos, pos_part, leb_ℤ}
use llmbus.Python.Exc.{Fallible, returned, raised, ◌>>=◌, ◌>>◌}
use llmbus.Python.Texts.{Texts, split}
use llmbus.Python.Platform.{Platform}
use llmbus.Config.{Env, config_error, setting, text_or_empty, given_or}
use llmbus.Shared.{lookup}

pub record CostsBind : Type 0 where
  pub hosts : List String
  pub port : ℕ

-- `_WILDCARD_HOSTS`
abbrev pub wildcard_hosts : List String
wildcard_hosts = "" ∷ "0.0.0.0" ∷ "::" ∷ []

abbrev pub default_costs_host : String
default_costs_host = "127.0.0.1"

abbrev pub default_costs_port : ℕ
default_costs_port = 8093

-- `tuple(dict.fromkeys(texts))`: the first occurrence of each stays
unfoldable pub dedupe : List String → List String
dedupe [] = []
dedupe (x ∷ xs) = x ∷ keep_if (λ y. not (y == x)) (dedupe xs)

-- `hosts or default`
or_default : List String → List String
or_default [] = default_costs_host ∷ []
or_default (host ∷ hosts) = host ∷ hosts

module _ (P : Platform) (T : Texts P.Float) where
  -- the loop over the hosts
  refuse_wildcards : List String → Fallible (Unit {0})
  refuse_wildcards [] = returned tt
  refuse_wildcards (host ∷ hosts) =
      if contains (T.strip host) wildcard_hosts
      then raised (
          config_error (
            "cost report host "
            ++ (P.repr host
                ++ (" binds every interface; the page has no "
                    ++ "authentication, so 0.0.0.0 and :: are refused (§11)"))))
      else refuse_wildcards hosts

  unfoldable pub validate_costs_hosts : List String → Fallible (List String)
  unfolding refuse_wildcards
  validate_costs_hosts hosts = do refuse_wildcards hosts; returned (dedupe (map T.strip hosts))

  unfoldable pub validate_costs_port : ℤ → Fallible ℕ
  validate_costs_port port =
      if leb_ℤ (pos 1) port && leb_ℤ port (pos 65535)
      then returned (pos_part port)
      else raised
          (config_error ("setting COSTS_PORT must be a valid port, got " ++ T.repr_int port))

  port_of : String → Option ℤ → Fallible ℕ
  unfolding validate_costs_port
  port_of raw none =
      raised (config_error ("setting COSTS_PORT must be an integer, got " ++ P.repr raw))
  port_of raw (some port) = validate_costs_port port

  unfoldable pub costs_port : Env → Fallible ℕ
  unfolding port_of
  costs_port env =
      let raw = setting P T env "COSTS_PORT" in
      if raw == "" then returned default_costs_port else port_of raw (T.int_of raw)

  unfoldable pub parse_costs_bind : Env → Fallible CostsBind
  unfolding or_default
  parse_costs_bind env = do
    hosts ← validate_costs_hosts (
        keep_if (λ part. not (T.strip part == ""))
          (split b',' (text_or_empty (lookup "COSTS_BIND_HOSTS" env))))
    port ← costs_port env
    returned (record { hosts = or_default hosts; port = port })

  unfoldable pub load_costs_bind : Option Env → Env → Fallible CostsBind
  load_costs_bind env process = parse_costs_bind (given_or env process)

  flagged_hosts : List String → List String → Fallible (List String)
  flagged_hosts [] configured = returned configured
  flagged_hosts (host ∷ hosts) configured = validate_costs_hosts (host ∷ hosts)

  flagged_port : Option ℤ → ℕ → Fallible ℕ
  flagged_port none configured = returned configured
  flagged_port (some port) configured = validate_costs_port port

  -- `resolve_bind`; no `--host` flag is the empty list, as both are false
  unfoldable pub resolve_bind : List String → Option ℤ → Env → Fallible CostsBind
  unfolding flagged_hosts flagged_port
  resolve_bind hosts port process = do
    configured ← load_costs_bind none process
    chosen_hosts ← flagged_hosts hosts configured.hosts
    chosen_port ← flagged_port port configured.port
    returned (record { hosts = chosen_hosts; port = chosen_port })
