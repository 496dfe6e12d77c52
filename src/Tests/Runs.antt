-- ===== src/Tests/Runs.antt =====
-- The theorems on the adapters, on the store's contract and on finishing a job, at concrete inputs.
use llmbus.Shared.{
  ℕ, zero, suc, ◌≡◌, refl, none, some, List, [], ◌∷◌, String, lookup, ◌==◌, arith, Bool-cases, inl,
  inr,
}
use mathlib.Core.Path.{subst}
use llmbus.Shared.Int.{pos, ◌+ℤ◌}
use llmbus.Python.Json.{Fields}
use llmbus.Python.Exc.{Ended, answered, returned}
use llmbus.Python.Hoare.{Ends}
use llmbus.Schema.{Result, Message, system, JobParams}
use llmbus.Providers.{reject_priced_usage}
use llmbus.Cost.{date_leb}
use llmbus.Store.Ledger.{
  Request, insert, finish, read_job, read_policy, choose, serve_all, promise_all, ledger_of,
  serve_refines,
}
use llmbus.Processing.{process_job, estimate_tokens}
use llmbus.Processing.Effects.{Provider}
use llmbus.Processing.Progress.{IsOrderly, Never}
use llmbus.Ratelimit.Known.{Knows}
use llmbus.Processing.Finishes.{IsOrderlyFor, process_job_finishes}
use llmbus.Client.{poll_loop}
use llmbus.Adapters.{make_provider_result}
use llmbus.Adapters.Openai
use llmbus.Adapters.Openai.{openai_request, openai_completion, usage_from_openai, openai_call}
use llmbus.Adapters.Openai.Clean.{openai_call-IsClean, IsClean}
use llmbus.Adapters.Anthropic
use llmbus.Adapters.Anthropic.{
  anthropic_request, anthropic_temperature, anthropic_system_and_messages, anthropic_completion,
  usage_from_anthropic, anthropic_call,
}
use llmbus.Adapters.Anthropic.Clean.{anthropic_call-IsClean, IsClean as IsCleanTurn}
use llmbus.Tests.Host.{host, host_texts, noon, dusk}
use llmbus.Tests.Library.{library}
use llmbus.Tests.Bus.{
  job, store, store-IsValid, waiting, waiting_found, waiting_waits, deps, openai, world, hello,
  result, answer, below,
}

abbrev finished_choice : Openai.Response
finished_choice = record {
  choices = record { finish_reason = some "stop"; content = some "Hello." } ∷ [];
  usage = some (record { input = pos 12; output = pos 3 });
}

abbrev create : ℕ → ℕ → Fields ℕ → Ended Openai.Response
create moment timeout request = answered finished_choice

openai_answers : openai_call host create 4 60 "gpt-5-mini" job.messages job.params ≡ answered hello
unfolding openai_call openai_request openai_completion usage_from_openai make_provider_result
    reject_priced_usage
openai_answers = refl

openai_call-IsClean_example : IsClean host create 4 60 "gpt-5-mini" job.messages job.params hello
openai_call-IsClean_example =
    openai_call-IsClean host create 4 60 "gpt-5-mini" job.messages job.params openai_answers

abbrev ended_turn : Anthropic.Response
ended_turn = record {
  stop_reason = some "end_turn";
  content =
      record { kind = "thinking"; body = none }
      ∷ record { kind = "text"; body = some "Hello." }
      ∷ [];
  usage = some (record { input = pos 12; output = pos 3 });
}

abbrev create_turn : ℕ → ℕ → Fields ℕ → Ended Anthropic.Response
create_turn moment timeout request = answered ended_turn

abbrev warm : JobParams host
warm = record job.params { temperature = some 1 }

abbrev talk : List Message
talk = record { role = system; content = "Be brief." } ∷ job.messages

anthropic_answers :
    anthropic_call host library create_turn 4 60 "claude-haiku-4-5" talk warm ≡ answered hello
unfolding anthropic_call anthropic_request anthropic_temperature anthropic_system_and_messages
    anthropic_completion usage_from_anthropic make_provider_result reject_priced_usage
anthropic_answers = refl

anthropic_call-IsClean_example :
    IsCleanTurn host library create_turn 4 60 "claude-haiku-4-5" talk warm hello
anthropic_call-IsClean_example =
    anthropic_call-IsClean host library create_turn 4 60 "claude-haiku-4-5" talk warm
      anthropic_answers

abbrev requests : List (Request host)
requests =
    insert (record job { job_id = "j2" })
    ∷ choose "milamber" "draft" "gpt-5" noon
    ∷ finish result dusk
    ∷ read_job "j1"
    ∷ read_policy "milamber" "draft"
    ∷ []

serve_refines_example :
    ((serve_all host requests store).0 ≡ (promise_all host requests (ledger_of host store)).0)
    × (ledger_of host (serve_all host requests store).1
        ≡ (promise_all host requests (ledger_of host store)).1)
serve_refines_example = serve_refines host host_texts requests store store-IsValid

only_openai :
    (name : String) (provider : Provider host)
    → lookup name deps.providers ≡ some provider
    → openai ≡ provider
only_openai name provider h = elim (Bool-cases ("openai" == name)) [
  | inl same ↦ cc (rw same at h)
  | inr other ↦ cc (rw other at h)
]

answer-IsOrderly : (n : ℕ) → IsOrderly host (answer n)
answer-IsOrderly zero = refl
answer-IsOrderly (suc zero) = refl
answer-IsOrderly (suc (suc zero)) = refl
answer-IsOrderly (suc (suc (suc zero))) = refl
answer-IsOrderly (suc (suc (suc (suc n)))) = (refl, refl)

orderly : IsOrderlyFor host deps job world
unfolding estimate_tokens ◌+ℤ◌ date_leb
orderly = record {
  calls_end = λ name provider h.
      subst
        (λ (p : Provider host).
          (moment : ℕ) (timeout : ℕ) (model : String) (messages : List Message)
          (params : JobParams host)
          → IsOrderly host (p.call moment timeout model messages params))
        (only_openai name provider h)
        (λ moment timeout model messages params. answer-IsOrderly moment);
  limited = λ name provider h.
      subst (λ (p : Provider host). Knows host p.name world.limiter) (only_openai name provider h)
        refl;
  posts_end = λ moment url result. tt;
  fits = refl;
  dateable = λ ttl e. refl;
  estimated = refl;
  counted = refl;
  dated = refl;
  some_attempt = below;
  few_attempts = omega arith;
}

process_job_finishes_example :
    Ends
      (λ (r : Result host) v. poll_loop host 1 (λ _. v.store) (λ k. k) "j1" 0 0 ≡ returned r)
      (Never host)
      (process_job host deps job world)
process_job_finishes_example =
    process_job_finishes host host_texts deps job world orderly store-IsValid tt waiting
      waiting_found waiting_waits refl refl 0 (λ k. k) 0
