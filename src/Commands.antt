-- ===== src/Commands.antt =====
-- The two commands: `llmbus-costs` of src/llmbus/cli.py and `llmbus-costs-serve` of
-- src/llmbus/server.py, over flags that are parsed. The file system is an argument.
pub mod Sockets
use Prim.Native.String.{◌++◌}
use llmbus.Shared.{ℕ, String, Bool, not, Option, none, some, List, ◌==◌, if◌then◌else◌}
use llmbus.Shared.Int.{ℤ}
use llmbus.Python.Exc.{Exc, Fallible, returned, raised, out_of_fuel, raise_if, ◌>>=◌, ◌>>◌}
use llmbus.Python.Platform.{Platform}
use llmbus.Python.Texts.{Texts}
use llmbus.Store.{Store}
use llmbus.Store.Costs.{cost_by_project_day}
use llmbus.Dashboard.{Amounts, CostSummary, summarize}
use llmbus.Config.{Env, config_error, load_store_path}
use llmbus.Config.Binding.{CostsBind, resolve_bind}

pub record Files : Type 0 where
  pub is_dir : String → Bool
  pub is_file : String → Bool

-- How a command ends: with a complaint and an exit code, or with what it set out to do.
pub data Outcome (A : Type 0) : Type 0 where
  complained : (code : ℕ) → String → Outcome A
  done : A → Outcome A

-- `except ConfigError as error: ... return 2`
abbrev pub or_complain : {A : Type 0} → Fallible A → Fallible (Outcome A)
or_complain (returned a) = returned (done a)
or_complain (raised e) =
    if e.type_name == "ConfigError" then returned (complained 2 e.message) else raised e
or_complain out_of_fuel = out_of_fuel

module _ (P : Platform) (T : Texts P.Float) (files : Files) where
  unfoldable pub require_existing_store : String → Fallible (Unit {0})
  require_existing_store store_path = if store_path == ":memory:" then returned tt else (do
    raise_if (files.is_dir store_path) (
        config_error ("store path " ++ (P.repr store_path ++ " is a directory, not a SQLite file")))
    raise_if (not (files.is_file store_path))
        (config_error ("no store at " ++ (P.repr store_path ++ " — nothing to report on"))))

  unfoldable pub resolve_store_path : Option String → Env → Fallible String
  resolve_store_path none process = load_store_path P T none process
  resolve_store_path (some path) process = returned path

  -- the part of `main` that may complain
  abbrev existing_store : Option String → Env → Fallible String
  existing_store path process = do
    store_path ← resolve_store_path path process
    require_existing_store store_path
    returned store_path

  -- `collect_summary`, over the tables at a path
  unfoldable pub collect_summary :
      (A : Amounts P.Float) → (List P.Float → P.Float) → Store P → CostSummary P A
  collect_summary A sql_sum s = summarize P A (cost_by_project_day P sql_sum s)

  -- `main` of the report: the page that is written
  unfoldable pub report :
      (A : Amounts P.Float)
      → (List P.Float → P.Float)
      → (String → Store P)
      → (CostSummary P A → String → String)
      → Option String
      → Env
      → Fallible (Outcome String)
  report A sql_sum tables_at render path process = do
    found ← or_complain (existing_store path process)
    returned (page_of found)
    where
      page_of : Outcome String → Outcome String
      page_of (complained code text) = complained code text
      page_of (done store_path) =
          done (render (collect_summary A sql_sum (tables_at store_path)) store_path)

  abbrev served_address :
      Option String → List String → Option ℤ → Env → Fallible (String × CostsBind)
  served_address path hosts port process = do
    store_path ← existing_store path process
    bind ← resolve_bind P T hosts port process
    returned (store_path, bind)

  -- `main` of the server, up to the opening of its sockets
  unfoldable pub serve :
      Option String → List String → Option ℤ → Env → Fallible (Outcome (String × CostsBind))
  serve path hosts port process = or_complain (served_address path hosts port process)
