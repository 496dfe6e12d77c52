-- ===== src/Store/Connection.antt =====
-- The life of the connection that a `Store` owns, in src/llmbus/store.py: `connect`, `close`, `_conn` and the
-- `async with` block. How each call of the database driver ends is an argument.
pub mod Creating
pub mod Opening
pub mod Sessions
pub mod Sharing
use llmbus.Shared.{ℕ, ◌+◌, ◌-◌, String, Bool, Option, none, some, List, [], ◌==◌, if◌then◌else◌}
use llmbus.Python.Exc.{
  Exc, raising, Fallible, returned, raised, out_of_fuel, Ended, answered, failed,
}
use llmbus.Python.Action.{Action, ◌>>=◌, ◌>>◌}
use llmbus.Python.Platform.{Platform}
use llmbus.Store.Rows.{JobRow, PolicyRow, WorkerTable, fitting}
use llmbus.Store.{Store}

-- How the calls behind `connect` and `close` end, in the order they are made.
pub record Driver : Type 0 where
  pub make_parent : Ended (Unit {0})
  pub connects : Ended (Unit {0})
  pub journal_mode : Ended (Unit {0})
  pub busy_timeout : Ended (Unit {0})
  pub create_jobs : Ended (Unit {0})
  pub create_index : Ended (Unit {0})
  pub create_worker_policy : Ended (Unit {0})
  pub create_model_policy : Ended (Unit {0})
  pub commits : Ended (Unit {0})
  pub closes : Ended (Unit {0})

abbrev pub attempt : {S A : Type 0} → Ended A → Action S A
attempt (answered a) s = (returned a, s)
attempt (failed e) s = (raised e, s)

-- `CREATE TABLE IF NOT EXISTS`
abbrev pub or_new : {A : Type 0} → A → Option A → A
or_new new none = new
or_new new (some old) = old

module _ (P : Platform) where
  -- The tables of a database, those that are there.
  pub record Tables : Type 0 where
    pub jobs : Option (List (JobRow P))
    pub worker_policy : Option (WorkerTable P)
    pub model_policies : Option (List PolicyRow)

  abbrev pub no_tables : Tables
  no_tables = record { jobs = none; worker_policy = none; model_policies = none }

  -- what a connection sees once the schema is there
  abbrev pub shown : Tables → Store P
  shown t = record {
    jobs = or_new [] t.jobs;
    model_policies = or_new [] t.model_policies;
    worker_policy = or_new (fitting none) t.worker_policy;
  }

  abbrev pub stored : Store P → Tables
  stored s = record {
    jobs = some s.jobs;
    worker_policy = some s.worker_policy;
    model_policies = some s.model_policies;
  }

  -- A `Store`, the database file at its path, and how many connections it opened and did not close.
  -- What its connection sees is `db`, the attribute `_db`.
  pub record Handle : Type 0 where
    pub path : String
    pub db : Option (Store P)
    pub disk : Tables
    pub open_connections : ℕ

  abbrev pub in_memory : Handle → Bool
  in_memory h = h.path == ":memory:"

  -- what is there when a connection opens
  abbrev pub found_tables : Handle → Tables
  found_tables h = if in_memory h then no_tables else h.disk

  -- the three `CREATE TABLE` statements
  abbrev pub add_jobs : Action Tables (Unit {0})
  add_jobs t = (returned tt, record t { jobs = some (or_new [] t.jobs) })

  abbrev pub add_worker_policy : Action Tables (Unit {0})
  add_worker_policy t =
      (returned tt, record t { worker_policy = some (or_new (fitting none) t.worker_policy) })

  abbrev pub add_model_policy : Action Tables (Unit {0})
  add_model_policy t =
      (returned tt, record t { model_policies = some (or_new [] t.model_policies) })

  abbrev pub tables_after : Fallible (Unit {0}) → Tables → Fallible Tables
  tables_after (returned _) t = returned t
  tables_after (raised e) t = raised e
  tables_after out_of_fuel t = out_of_fuel

  module _ (driver : Driver) where
    -- `db.executescript(_SCHEMA)`: each statement by itself
    pub run_schema : Action Tables (Unit {0})
    run_schema = do
      attempt driver.create_jobs
      add_jobs
      attempt driver.create_index
      attempt driver.create_worker_policy
      add_worker_policy
      attempt driver.create_model_policy
      add_model_policy

    make_directory : Action Handle (Unit {0})
    make_directory h = if in_memory h then (returned tt, h) else attempt driver.make_parent h

    open_db : Ended (Unit {0}) → Action Handle (Unit {0})
    open_db (answered _) h = (returned tt, record h { open_connections = h.open_connections + 1 })
    open_db (failed e) h = (raised e, h)

    -- the script on the database that was opened: a file keeps what it wrote
    create_schema : Action Handle Tables
    unfolding run_schema
    create_schema h =
        let (r, t) = run_schema (found_tables h) in
        let h' : Handle = if in_memory h then h else record h { disk = t } in (tables_after r t, h')

    set_db : Tables → Action Handle (Unit {0})
    set_db t h = (returned tt, record h { db = some (shown t) })

    unfoldable pub connect : Action Handle (Unit {0})
    unfolding make_directory open_db create_schema set_db
    connect = do
      make_directory
      open_db driver.connects
      attempt driver.journal_mode
      attempt driver.busy_timeout
      tables ← create_schema
      attempt driver.commits
      set_db tables

  unfoldable pub close : Ended (Unit {0}) → Action Handle (Unit {0})
  close closes h = elim h.db [
    | none ↦ (returned tt, h)
    | some _ ↦
        (attempt closes >> λ h'.
        (returned tt, record h' { db = none; open_connections = h'.open_connections - 1 }))
          h
  ]

  abbrev pub not_connected : Exc
  not_connected = raising "RuntimeError" "Store is not connected; call connect() first"

  -- what a method does through `_conn`; on a file it is in the file too
  pub on_conn : {A : Type 0} → Action (Store P) A → Action Handle A
  on_conn m h = elim h.db [
    | none ↦ (raised not_connected, h)
    | some s ↦
        let (r, s') = m s in
        (r, record h { db = some s'; disk = if in_memory h then h.disk else stored s' })
  ]

  -- An exception of `__aexit__` takes the place of the body's end.
  abbrev pub left : {A : Type 0} → Fallible A → Fallible (Unit {0}) → Fallible A
  left r (returned _) = r
  left r (raised e) = raised e
  left r out_of_fuel = out_of_fuel

  -- the block of an `async with` statement, and `__aexit__`
  used : {A : Type 0} → Ended (Unit {0}) → Action (Store P) A → Action Handle A
  unfolding on_conn close
  used closes m h = let (r, h') = on_conn m h in let (c, h'') = close closes h' in (left r c, h'')

  -- `async with Store(path) as store`
  unfoldable pub with_store : {A : Type 0} → Driver → Action (Store P) A → Action Handle A
  unfolding connect used
  with_store driver m = connect driver >> used driver.closes m
