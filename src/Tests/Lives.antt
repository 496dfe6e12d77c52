-- ===== src/Tests/Lives.antt =====
-- A worker's life at concrete settings: a poison message, and a job.
use llmbus.Shared.{true, inl, inr, ◌≡◌, refl, none, [], ◌∷◌}
use llmbus.Python.Exc.{Exc, raising, returned, Ended, answered, failed}
use llmbus.Python.Hoare.{Ends}
use llmbus.Schema.{Job}
use llmbus.Config.{
  Env, parse_config, parse_worker_policy, parse_connect_policy, positive_int, positive_float,
  required, provider_limits, build_providers,
}
use llmbus.Shared.Int.{◌+ℤ◌, ◌*ℤ◌}
use llmbus.Providers.{provider_for, providers}
use llmbus.Retry.{
  is_retryable, backoff_delay, retry_budget_seconds, make_retry_policy, validate_worker_policy,
}
use llmbus.Store.{publish_worker_policy, finalize, insert_pending}
use llmbus.Ratelimit.{
  make_rate_limiter, make_provider_limits, make_limiter, reserve, reserve_int, reserve_job,
  reserve_units,
}
use llmbus.Processing.{
  process_job, run_job, call_with_retry, is_expired, estimate_tokens, model_of, price,
  finalize_and_notify,
}
use llmbus.Processing.Results.{result_ok}
use llmbus.Cost.{cost_usd, price_for, pricing_table, date_leb}
use llmbus.Worker.{connect_broker, consume_one}
use llmbus.Worker.Wiring.{
  opened, idle, default_topology, Outside, Shell, run_worker, load_settings, ensure_topology,
  consume_all,
}
use llmbus.Worker.Wiring.Life.{Served, Released, run_worker-Ends}
use llmbus.Tests.Host.{host, host_texts, host_floats, noon}
use llmbus.Tests.Library.{library}
use llmbus.Client.{Bus, submit}
use llmbus.Client.Submit.{Sends}
use llmbus.Client.Journey.{Answered, poll-run_worker-submit}
use llmbus.Store.History.{here}
use llmbus.Tests.Bus.{row, store, job, store-IsValid, openai, deps, world, network, unconnected}
use llmbus.Tests.Topologies.{broker, broker_laws, in_use}
use llmbus.Tests.Pages.{settings}

abbrev worker_settings : Env
worker_settings =
    ("WORKER_CONNECT_MAX_ATTEMPTS", "5")
    ∷ ("WORKER_CONNECT_BACKOFF_BASE_S", "2")
    ∷ ("WORKER_CONNECT_BACKOFF_MAX_S", "5")
    ∷ ("ANTHROPIC_RPM", "60")
    ∷ settings

abbrev poison : Exc
poison = raising "ValidationError" "1 validation error for Job"

abbrev outside : Outside host library (Ended (Job host))
outside = record {
  store_opens = opened;
  store_closes = answered tt;
  http_closes = answered tt;
  network = network;
  stamped = noon;
  started = 0;
  openai = λ key. openai;
  anthropic = λ key. openai;
  env = λ secret. deps.env;
  decode = λ payload. payload;
  joined = answered tt;
  messages = failed poison ∷ answered job ∷ [];
  propagates = λ e. true;
}

abbrev shell : Shell host library broker
shell = record { world = world; runs = []; attempts = unconnected; broker = in_use }

run_worker-Ends_example :
    Ends
      (Served host library outside broker none worker_settings shell)
      (Released host library outside broker shell)
      (run_worker host library broker outside none worker_settings default_topology
        (idle host library broker shell))
run_worker-Ends_example =
    run_worker-Ends host library broker broker_laws host_texts host_floats outside (λ e. refl) none
      worker_settings default_topology shell store-IsValid refl

-- The worker is shut down after the job, which took a retry.
shut_down :
    let (r, t) =
      run_worker host library broker outside none worker_settings default_topology
        (idle host library broker shell) in
    r ≡ returned tt
unfolding run_worker load_settings parse_config parse_worker_policy parse_connect_policy
    positive_int positive_float required make_retry_policy validate_worker_policy
    publish_worker_policy connect_broker ensure_topology make_rate_limiter consume_all consume_one
    process_job provider_limits make_provider_limits retry_budget_seconds backoff_delay make_limiter
    run_job call_with_retry is_expired provider_for providers ◌+ℤ◌ ◌*ℤ◌ reserve reserve_int
    build_providers reserve_job estimate_tokens reserve_units model_of is_retryable price cost_usd
    price_for pricing_table date_leb finalize_and_notify finalize result_ok
shut_down = refl

abbrev bare : Bus host
bare = record { store = record store { jobs = [] }; topic = [] }

-- the bus after the submit
abbrev submitted_bus : Bus host
submitted_bus = record { store = record store { jobs = row ∷ [] }; topic = job ∷ [] }

submitted_first : submit host (λ sent. (answered tt, 1)) job bare ≡ (returned "j1", submitted_bus)
unfolding submit provider_for providers insert_pending
submitted_first = refl

abbrev started : Shell host library broker
started = record shell { world = record world { store = submitted_bus.store } }

poll-run_worker-submit_example :
    Ends
      (λ _ t.
        (sent : Job host) × Sends host (λ sent. (answered tt, 1)) job bare sent submitted_bus
        × Answered host job sent t.shell.world.store)
      (Released host library outside broker started)
      (run_worker host library broker outside none worker_settings default_topology
        (idle host library broker started))
poll-run_worker-submit_example =
    poll-run_worker-submit host library broker broker_laws host_texts host_floats outside
      (λ e. refl) (λ sent. (answered tt, 1)) job bare submitted_bus "j1" none worker_settings
      default_topology started submitted_first tt here refl (λ sent e. inr (inl (cc)))
