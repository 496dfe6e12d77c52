-- ===== src/Config.antt =====
-- The settings of src/llmbus/config.py, read from an environment: a mapping of names to texts. A
-- positive `int` is a native number.
pub mod Checks
pub mod Binding
use Prim.Native.String.{◌++◌}
use llmbus.Shared.{
  ℕ, String, Bool, not, ◌||◌, Option, none, some, List, [], ◌∷◌, lookup, ◌==◌, if◌then◌else◌,
}
use llmbus.Shared.Int.{ℤ, pos, pos_part, leb_ℤ}
use llmbus.Python.Exc.{Exc, raising, Fallible, returned, raised, out_of_fuel, ◌>>=◌, ◌>>◌}
use llmbus.Python.Texts.{Texts}
use llmbus.Python.Platform.{Platform, nought}
use llmbus.Retry.{RetryPolicy, WorkerPolicy, make_retry_policy, validate_worker_policy}
use llmbus.Ratelimit.{ProviderLimits, make_provider_limits}
use llmbus.Processing.Effects.{Provider}

abbrev pub Env : Type 0
Env = List (String × String)

abbrev pub config_error : String → Exc
config_error text = raising "ConfigError" text

-- `except ValueError as exc: raise ConfigError(str(exc))`, around a call that raises nothing else
abbrev pub as_config_error {ℓ} : {A : Type ℓ} → Fallible A → Fallible A
as_config_error (returned a) = returned a
as_config_error (raised e) = raised (config_error e.message)
as_config_error out_of_fuel = out_of_fuel

-- `env.get(key, "")`
abbrev pub text_or_empty : Option String → String
text_or_empty none = ""
text_or_empty (some text) = text

-- the mapping that is injected, or the environment of the process after `load_dotenv()`
abbrev pub given_or : Option Env → Env → Env
given_or none process = process
given_or (some env) process = env

module _ (P : Platform) (T : Texts P.Float) where
  -- `env.get(key, "").strip()`
  abbrev pub setting : Env → String → String
  setting env key = T.strip (text_or_empty (lookup key env))

  unfoldable pub required : Env → String → Fallible String
  required env key =
      if setting env key == ""
      then raised (config_error ("missing required setting " ++ key))
      else returned (setting env key)

  unfoldable pub optional : Env → String → Option String
  optional env key = if setting env key == "" then none else some (setting env key)

  finite_positive : String → String → Option P.Float → Fallible P.Float
  finite_positive key raw none =
      raised (config_error ("setting " ++ (key ++ (" must be a number, got " ++ P.repr raw))))
  finite_positive key raw (some value) =
      if not (T.is_finite value) || P.le value (nought P)
      then raised (
          config_error (
            "setting "
            ++ (key ++ (" must be a positive finite number, got " ++ T.repr_float value))))
      else returned value

  unfoldable pub positive_float : Env → String → Fallible P.Float
  unfolding finite_positive
  positive_float env key = do raw ← required env key; finite_positive key raw (T.float_of raw)

  integer_positive : String → String → Option ℤ → Fallible ℕ
  integer_positive key raw none =
      raised (config_error ("setting " ++ (key ++ (" must be an integer, got " ++ P.repr raw))))
  integer_positive key raw (some value) =
      if leb_ℤ value (pos 0)
      then raised (
          config_error
            ("setting " ++ (key ++ (" must be a positive integer, got " ++ T.repr_int value))))
      else returned (pos_part value)

  unfoldable pub positive_int : Env → String → Fallible ℕ
  unfolding integer_positive
  positive_int env key = do raw ← required env key; integer_positive key raw (T.int_of raw)

  unfoldable pub provider_limits : Env → String → Fallible (ProviderLimits P)
  provider_limits env name = do
    requests_per_min ← positive_float env (name ++ "_RPM")
    tokens_per_min ← positive_float env (name ++ "_TPM")
    make_provider_limits P requests_per_min tokens_per_min

  pub record Config : Type 0 where
    pub openai_api_key : String
    pub anthropic_api_key : String
    pub rate_limits : List (String × ProviderLimits P)
    pub iggy_address : String
    pub iggy_username : String
    pub iggy_password : String
    pub db_path : String
    pub callback_secret : Option String

  unfoldable pub parse_config : Env → Fallible Config
  parse_config env = do
    openai_api_key ← required env "OPENAI_API_KEY"
    anthropic_api_key ← required env "ANTHROPIC_API_KEY"
    openai_limits ← provider_limits env "OPENAI"
    anthropic_limits ← provider_limits env "ANTHROPIC"
    iggy_address ← required env "IGGY_ADDRESS"
    iggy_username ← required env "IGGY_USERNAME"
    iggy_password ← required env "IGGY_PASSWORD"
    db_path ← required env "STORE_PATH"
    returned (record {
      openai_api_key = openai_api_key;
      anthropic_api_key = anthropic_api_key;
      rate_limits = ("openai", openai_limits) ∷ ("anthropic", anthropic_limits) ∷ [];
      iggy_address = iggy_address;
      iggy_username = iggy_username;
      iggy_password = iggy_password;
      db_path = db_path;
      callback_secret = optional env "WORKER_CALLBACK_SECRET";
    })

  unfoldable pub parse_store_path : Env → Fallible String
  parse_store_path env = required env "STORE_PATH"

  unfoldable pub parse_costs_secret : Env → Option String
  parse_costs_secret env = optional env "COSTS_AUTH_SECRET"

  -- the three settings of a retry policy, and its construction
  abbrev pub parse_retry_policy : Env → String → String → String → Fallible (RetryPolicy P)
  parse_retry_policy env attempts_key base_key max_key = do
    max_attempts ← positive_int env attempts_key
    base_delay_s ← positive_float env base_key
    max_delay_s ← positive_float env max_key
    as_config_error (make_retry_policy P max_attempts base_delay_s max_delay_s)

  -- `WorkerPolicy(...)`, with its `__post_init__`
  abbrev pub make_worker_policy : RetryPolicy P → P.Float → ℕ → Fallible (WorkerPolicy P)
  make_worker_policy retry job_timeout_s default_output_tokens =
      validate_worker_policy P job_timeout_s (pos default_output_tokens)
      >> returned (record {
        retry = retry;
        job_timeout_s = job_timeout_s;
        default_output_tokens = pos default_output_tokens;
      })

  unfoldable pub parse_worker_policy : Env → Fallible (WorkerPolicy P)
  parse_worker_policy env = do
    retry ←
        parse_retry_policy env "WORKER_MAX_ATTEMPTS" "WORKER_BACKOFF_BASE_S" "WORKER_BACKOFF_MAX_S"
    job_timeout_s ← positive_float env "WORKER_JOB_TIMEOUT_S"
    default_output_tokens ← positive_int env "WORKER_DEFAULT_OUTPUT_TOKENS"
    make_worker_policy retry job_timeout_s default_output_tokens

  unfoldable pub parse_connect_policy : Env → Fallible (RetryPolicy P)
  parse_connect_policy env =
      parse_retry_policy env "WORKER_CONNECT_MAX_ATTEMPTS" "WORKER_CONNECT_BACKOFF_BASE_S"
        "WORKER_CONNECT_BACKOFF_MAX_S"

  unfoldable pub iggy_connection_string : String → String → String → String
  iggy_connection_string address username password =
      "iggy+tcp://" ++ (T.quote username ++ (":" ++ (T.quote password ++ ("@" ++ address))))

  -- `build_providers`, over the construction of an adapter from a key
  unfoldable pub build_providers :
      (openai anthropic : String → Provider P) → Config → List (String × Provider P)
  build_providers openai anthropic config =
      ("openai", openai config.openai_api_key)
      ∷ ("anthropic", anthropic config.anthropic_api_key)
      ∷ []

  unfoldable pub load_config : Option Env → Env → Fallible Config
  load_config env process = parse_config (given_or env process)

  unfoldable pub load_store_path : Option Env → Env → Fallible String
  load_store_path env process = parse_store_path (given_or env process)

  unfoldable pub load_costs_secret : Option Env → Env → Option String
  load_costs_secret env process = parse_costs_secret (given_or env process)
