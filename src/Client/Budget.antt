-- ===== src/Client/Budget.antt =====
-- From the settings of a worker, src/llmbus/config.py, over the policy that it publishes to what a
-- producer reads of it, `worker_policy` of src/llmbus/client.py.
use mathlib.Core.Path.{subst}
use llmbus.Shared.{◌-◌, ◌≡◌, some, List, length}
use llmbus.Shared.Int.{pos}
use llmbus.Python.Exc.{Fallible, returned}
use llmbus.Python.Outcome.{EndsIn}
use llmbus.Python.Platform.{Platform, TextLaws, FloatLaws, Le}
use llmbus.Python.Texts.{Texts}
use llmbus.Retry.{WorkerPolicy, retry_budget_seconds}
use llmbus.Retry.Delays.{Waits, retry_budget_holds}
use llmbus.Config.{Env, parse_worker_policy}
use llmbus.Config.Checks.{IsWorkable, IsConfigError, parse_worker_policy_ends}
use llmbus.Store.{Store, publish_worker_policy}
use llmbus.Store.Rows.{PublishedWorkerPolicy}
use llmbus.Store.Published.{published, read_worker_policy-publish}
use llmbus.Client.Session.{worker_policy}

module _ (P : Platform) (T : Texts P.Float) where
  -- A full timeout for each attempt, and these waits, come to the budget of the row at most.
  abbrev Spends : PublishedWorkerPolicy P → List P.Float → Type 0
  Spends row waits =
      Le P (P.add (P.mul (P.of_int (pos row.max_attempts)) row.job_timeout_s) (P.fsum waits))
        row.retry_budget_s

  parsed-IsWorkable :
      (floats : FloatLaws P) (env : Env) (policy : WorkerPolicy P)
      → parse_worker_policy P T env ≡ returned policy
      → IsWorkable P policy
  parsed-IsWorkable floats env policy parsed =
      subst (λ (r : Fallible (WorkerPolicy P)). EndsIn (IsWorkable P) IsConfigError r) parsed
        (parse_worker_policy_ends P T floats env)

  worker_policy-publish :
      (texts : TextLaws P) (policy : WorkerPolicy P) (stamped : P.Datetime) (budget : P.Float)
      (s : Store P)
      → retry_budget_seconds P policy ≡ returned budget
      → worker_policy P T (publish_worker_policy P policy stamped s).1
        ≡ some (published P policy budget stamped)
  unfolding worker_policy
  worker_policy-publish texts policy stamped budget s e =
      (read_worker_policy-publish P texts policy stamped budget s e).0

  -- A worker whose policy was read from its settings, and whose budget can be computed, publishes a
  -- policy that a producer reads back, and the budget in it covers a full timeout for each attempt
  -- and the waits of the backoff, whatever draws between 0 and 1 they were made of. The waits of the
  -- rate limiter are not in it.
  advertised_budget_holds :
      (texts : TextLaws P) (floats : FloatLaws P) (env : Env) (policy : WorkerPolicy P)
      (stamped : P.Datetime) (budget : P.Float) (s : Store P) (waits : List P.Float)
      → parse_worker_policy P T env ≡ returned policy
      → retry_budget_seconds P policy ≡ returned budget
      → Waits P policy.retry 0 waits
      → length waits ≡ policy.retry.max_attempts - 1
      → (row : PublishedWorkerPolicy P) × (worker_policy P T
            (publish_worker_policy P policy stamped s).1
          ≡ some row)
        × Spends row waits
  advertised_budget_holds texts floats env policy stamped budget s waits parsed total drawn enough =
      let usable = parsed-IsWorkable floats env policy parsed in
      (
        published P policy budget stamped,
        worker_policy-publish texts policy stamped budget s total,
        retry_budget_holds P floats policy waits budget usable.0.1 usable.0.2 drawn enough total,
      )
