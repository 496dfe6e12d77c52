-- ===== src/Tests/Bus.antt =====
-- A small bus: one job that waits, one that is done, and a provider that answers at its second try.
use llmbus.Shared.{◌≤◌, ℕ, zero, suc, ◌+◌, ◌<◌, ◌≡◌, refl, true, false, none, some, [], ◌∷◌, arith}
use llmbus.Shared.Int.{pos, ◌+ℤ◌, ◌*ℤ◌}
use llmbus.Python.Json.{Fields, end, field, text, int}
use llmbus.Python.Exc.{Exc, raising, returned, Ended, answered, failed, IsFinal}
use llmbus.Python.Hoare.{Ends, Hoare}
use llmbus.Schema.{Job, Result, status_ok, user, default_usage}
use llmbus.Retry.{retry_budget_seconds, RetryPolicy, is_retryable, retryable_status, backoff_delay}
use llmbus.Ratelimit.{RateLimiter, TokenBucket, reserve, reserve_int, reserve_job, reserve_units}
use llmbus.Store.Published.{published, read_worker_policy-publish}
use llmbus.Store.{publish_worker_policy, read_worker_policy, Store, insert_pending, finalize, get}
use llmbus.Store.Rows.{stale, JobRow, StoredJob, ModelPolicy, is_terminal, row_to_stored_job}
use llmbus.Store.Jobs.{
  IsValid, submitted, completed_once, is_waiting, is_none, first_of, get-insert_pending,
  get-finalize,
}
use llmbus.Store.History.{Writes, here, next, insert, finish, Grows, Writes-Grows}
use llmbus.Processing.{
  process_job, call_with_retry, run_job, is_expired, estimate_tokens, model_of, price,
  finalize_and_notify, acquire, deliver,
}
use llmbus.Processing.Results.{result_ok, result_error, expired_result}
use llmbus.Providers.{provider_for, providers}
use llmbus.Cost.{cost_usd, price_for, pricing_table, date_leb, applicable, latest}
use llmbus.Processing.Effects.{ProviderResult, Provider, Deps, World}
use llmbus.Processing.Trace.{posts, calls}
use llmbus.Processing.Run.{Quiet, Stopped, Finished, Hoare-call_with_retry}
use llmbus.Processing.Delivery.{Completed, Aborted, process_job_once}
use llmbus.Client.{Bus, submit, poll_loop, result_from_stored}
use llmbus.Client.Submit.{Placed, Unplaced, submit_agrees}
use llmbus.Client.Poll.{poll_sound, poll-ends}
use llmbus.Client.Answer.{poll-process_job}
use llmbus.Processing.Once.{
  System, worker_at, left_by, Steps, work, write, callbacks, chance, Steps-callbacks,
}
use llmbus.Processing.Once
use llmbus.Processing.Unpriced.{process_job_unpriced}
use llmbus.Worker.{Attempts, Network, connect_broker}
use llmbus.Worker.Handshake.{Connected, GaveUp, connect_broker-Ends}
use llmbus.Cost.{epoch}
use llmbus.Tests.Host.{past, host, host_texts, noon, dusk, text_of}

abbrev labels : Fields ℕ
labels = field "trace" (text "a-1") (field "lane" (int (pos 2)) end)

abbrev pub job : Job host
job = record {
  job_id = "j1";
  project = "milamber";
  kind = "draft";
  model = some "gpt-5-mini";
  messages = record { role = user; content = "Say hello." } ∷ [];
  params = record { temperature = none; max_tokens = some (pos 50); response_format = none };
  callback_url = some "http://producer/done";
  meta = labels;
  submitted_at = noon;
  ttl_s = some 60;
}

abbrev pub row : JobRow host
row = record {
  job_id = "j1";
  project = "milamber";
  model = "gpt-5-mini";
  status = "pending";
  completion = none;
  error = none;
  provider = none;
  usage = default_usage host;
  meta = labels;
  submitted_at = text_of noon;
  completed_at = none;
}

abbrev old_row : JobRow host
old_row = record row {
  job_id = "j0";
  status = "error";
  error = some "timeout";
  completed_at = some (text_of noon);
}

abbrev pub store : Store host
store = record { jobs = old_row ∷ row ∷ []; model_policies = []; worker_policy = stale true }

pub store-IsValid : IsValid host store
store-IsValid = (refl, (refl, tt))

abbrev pub result : Result host
result = record {
  job_id = "j1";
  status = status_ok;
  completion = some "Hello.";
  usage = record { input_tokens = pos 12; output_tokens = pos 3; cost_usd = 1 };
  provider = some "openai";
  error = none;
  meta = labels;
}

abbrev pub waiting : StoredJob host
waiting = submitted host job "gpt-5-mini"

pub waiting_found : get host "j1" store ≡ some waiting
unfolding get row_to_stored_job
waiting_found = refl

pub waiting_waits : is_terminal host waiting ≡ false
unfolding is_terminal
waiting_waits = refl

abbrev bucket : TokenBucket host
bucket = record { rate = 1; capacity = 60; tokens = 60; updated = 0 }

abbrev pub overloaded : Exc
overloaded = record (raising "APIStatusError" "overloaded") { status_code = some (pos 503) }

abbrev pub hello : ProviderResult host
hello = record {
  completion = "Hello.";
  usage = record { input_tokens = pos 12; output_tokens = pos 3; cost_usd = 0 };
}

-- The first call, at moment 3, fails with a status that is worth a retry; later ones answer.
abbrev pub answer : ℕ → Ended (ProviderResult host)
answer (suc (suc (suc (suc n)))) = answered hello
answer _ = failed overloaded

abbrev pub openai : Provider host
openai = record { name = "openai"; call = λ moment limit model messages params. answer moment }

abbrev retry : RetryPolicy host
retry = record { max_attempts = 3; base_delay_s = 2; max_delay_s = 5 }

abbrev pub deps : Deps host
deps = record {
  providers = ("openai", openai) ∷ [];
  policy = record { retry = retry; job_timeout_s = 60; default_output_tokens = pos 100 };
  env = record {
    now = λ moment. noon;
    monotonic = λ moment. moment;
    rand = λ moment. 1;
    stamp = λ moment. dusk;
    deliver = λ moment url result. answered tt;
  };
}

abbrev pub world : World host
world = record {
  moment = 0;
  limiter = ("openai", record { requests = bucket; tokens = bucket }) ∷ [];
  store = store;
  trace = [];
}

pub below : 0 < 3
below = omega arith

process_job_once_example :
    Ends
      (Completed host deps job store [] 3)
      (Aborted host deps job store [] 3)
      (process_job host deps job world)
process_job_once_example = process_job_once host host_texts deps job world below store-IsValid tt

Hoare-call_with_retry_example :
    Hoare
      (Quiet host deps job store [] 0 0)
      (call_with_retry host deps job openai (pos 52))
      (Finished host deps job store [] 0)
      (Stopped host deps job store [] 0)
Hoare-call_with_retry_example = Hoare-call_with_retry host deps job store [] 0 openai (pos 52) below

poll-process_job_example :
    Ends
      (λ (r : Result host) v. poll_loop host 1 (λ _. v.store) (λ k. k) "j1" 0 0 ≡ returned r)
      (Aborted host deps job store [] 3)
      (process_job host deps job world)
poll-process_job_example =
    poll-process_job host host_texts deps job world below store-IsValid tt waiting waiting_found
      waiting_waits refl refl 0 (λ k. k) 0

abbrev accepting : Job host → Ended (Unit {0}) × ℕ
accepting sent = (answered tt, 1)

abbrev renamed : Job host
renamed = record job { model = some "gpt-5" }

abbrev bus : Bus host
bus = record { store = store; topic = [] }

submit_agrees_example :
    Ends
      (Placed host accepting renamed bus)
      (Unplaced host accepting renamed bus)
      (submit host accepting renamed bus)
submit_agrees_example = submit_agrees host host_texts accepting renamed bus

get-finalize_example :
    ((finalize host result dusk store).0 ≡ returned (is_waiting host (get host "j1" store)))
    × (get host "j1" (finalize host result dusk store).1
        ≡ completed_once host result dusk (get host "j1" store))
get-finalize_example = get-finalize host host_texts result dusk "j1" store store-IsValid

get-insert_pending_example :
    ((insert_pending host job store).0 ≡ returned (is_none host (get host "j1" store)))
    × (get host "j1" (insert_pending host job store).1
        ≡ some (first_of host (get host "j1" store) (submitted host job "gpt-5-mini")))
get-insert_pending_example = get-insert_pending host host_texts job "gpt-5-mini" "j1" store refl

abbrev after_insert : Store host
after_insert = (insert_pending host (record job { job_id = "j2" }) store).1

abbrev after_finish : Store host
after_finish = (finalize host result dusk after_insert).1

abbrev history : Writes host store after_finish
history =
    next (next here (insert (record job { job_id = "j2" }) "gpt-5-mini" refl)) (finish result dusk)

Writes-Grows_example : Grows host (get host "j0" store) (get host "j0" after_finish)
Writes-Grows_example =
    Writes-Grows host {s = store} {t = after_finish} host_texts "j0" history store-IsValid

abbrev chosen : ModelPolicy host
chosen = record { project = "milamber"; kind = "draft"; model = "gpt-5"; updated_at = dusk }

abbrev finished : Store host
finished = record {
  jobs =
      old_row
      ∷ record row { status = "ok"; completion = some "Hello."; completed_at = some (text_of dusk) }
      ∷ [];
  model_policies = [];
  worker_policy = stale true;
}

abbrev result_read : Result host
result_read = record {
  job_id = "j1";
  status = status_ok;
  completion = some "Hello.";
  usage = default_usage host;
  provider = none;
  error = none;
  meta = labels;
}

-- The job is done at the third reading.
abbrev readings : ℕ → Store host
readings zero = store
readings (suc zero) = store
readings (suc (suc n)) = finished

poll-ends_example : IsFinal (poll_loop host 9 readings (λ k. k) "j1" 5 0)
poll-ends_example = poll-ends host readings (λ k. k) "j1" 5 9 0 6 refl (omega arith) (omega arith)

finished_poll : poll_loop host 9 readings (λ k. k) "j1" 5 0 ≡ returned result_read
unfolding poll_loop get is_terminal row_to_stored_job result_from_stored
finished_poll = refl

poll_sound_example :
    (k : ℕ) × (stored : StoredJob host) × (get host "j1" (readings k) ≡ some stored)
    × (is_terminal host stored ≡ true)
    × (result_from_stored host stored ≡ returned result_read)
poll_sound_example = poll_sound host readings (λ k. k) "j1" 5 9 0 result_read finished_poll

-- The run itself: a retry after the 503, then the answer, the row and the callback.
abbrev result_sent : Result host
result_sent = record result {
  usage = record { input_tokens = pos 12; output_tokens = pos 3; cost_usd = 0 };
}

process_job_run :
    let (r, w) = process_job host deps job world in
    (r ≡ returned result_sent)
    × (posts host w.trace ≡ ("http://producer/done", result_sent) ∷ [])
    × (calls host w.trace ≡ 2)
unfolding process_job run_job call_with_retry is_expired provider_for providers ◌+ℤ◌ ◌*ℤ◌ reserve
    reserve_int reserve_job estimate_tokens reserve_units model_of is_retryable retryable_status
    backoff_delay price cost_usd price_for pricing_table date_leb applicable latest
    finalize_and_notify finalize result_ok result_error expired_result acquire deliver
process_job_run = (refl, refl, refl)

whole_budget : retry_budget_seconds host deps.policy ≡ returned 186
unfolding retry_budget_seconds
whole_budget = refl

read_worker_policy-publish_example :
    let t = (publish_worker_policy host deps.policy noon store).1 in
    (read_worker_policy host t ≡ some (published host deps.policy 186 noon))
    × (t.jobs ≡ store.jobs)
    × (t.model_policies ≡ store.model_policies)
read_worker_policy-publish_example =
    read_worker_policy-publish host host_texts deps.policy noon 186 store whole_budget

-- A job of the last day before the price table, and a provider that always answers.
abbrev old_job : Job host
old_job = record job { submitted_at = past; ttl_s = none }

abbrev steady : Provider host
steady = record { name = "openai"; call = λ moment limit model messages params. answered hello }

abbrev steady_deps : Deps host
steady_deps = record deps { providers = ("openai", steady) ∷ [] }

mini_routed : provider_for host "gpt-5-mini" ≡ returned "openai"
unfolding provider_for providers
mini_routed = refl

past_early : date_leb epoch (host.date past) ≡ false
unfolding date_leb
past_early = refl

process_job_unpriced_example :
    Ends
      (λ (r : Result host) v. ⊥)
      (λ e v. v.store ≡ store)
      (process_job host steady_deps old_job world)
process_job_unpriced_example =
    process_job_unpriced host steady_deps old_job world "gpt-5-mini" "openai" steady refl refl
      past_early mini_routed refl (λ moment. (hello, refl))

-- The broker refuses the first two connections.
abbrev refused : ℕ → Ended (Unit {0})
refused (suc (suc n)) = answered tt
refused _ = failed overloaded

abbrev pub network : Network host
network = record { connect = refused; rand = λ k. 1 }

abbrev pub unconnected : Attempts host
unconnected = record { clients = 0; slept = [] }

connect_broker-Ends_example :
    Ends
      (Connected host retry network)
      (GaveUp host retry network)
      (connect_broker host retry network unconnected)
connect_broker-Ends_example = connect_broker-Ends host retry network unconnected below refl

third_client :
    connect_broker host retry network unconnected
    ≡ (returned 2, record { clients = 3; slept = 4 ∷ 2 ∷ [] })
unfolding connect_broker backoff_delay
third_client = refl

-- The same job is delivered twice, and a producer writes in between.
abbrev system : System host
system = record { store = store; sent = [] }

abbrev limiter : RateLimiter host
limiter = ("openai", record { requests = bucket; tokens = bucket }) ∷ []

abbrev after_first : System host
after_first = left_by host system (process_job host deps job (worker_at host store 0 limiter))

abbrev after_write : System host
after_write = record after_first {
  store = (insert_pending host (record job { job_id = "j2" }) after_first.store).1;
}

abbrev after_second : System host
after_second =
    left_by host after_write
      (process_job host deps job (worker_at host after_write.store 5 limiter))

abbrev redelivered : Steps host system after_second
redelivered =
    Once.next
      (Once.next (Once.next Once.here (work deps job 0 limiter below))
        (write (insert (record job { job_id = "j2" }) "gpt-5-mini" refl)))
      (work deps job 5 limiter below)

Steps-callbacks_example :
    callbacks host "j1" after_second.sent
    ≤ callbacks host "j1" [] + chance host (get host "j1" store)
Steps-callbacks_example =
    Steps-callbacks host {y = system} {z = after_second} host_texts "j1" redelivered store-IsValid
