-- ===== src/Processing/Results.antt =====
-- The terminal results that src/llmbus/processing.py builds, and their error texts.
use Prim.Native.String.{◌++◌}
use llmbus.Shared.{ℕ, ◌+◌, String, Option, none, some}
use llmbus.Shared.Int.{pos}
use llmbus.Python.Exc.{Exc}
use llmbus.Python.Platform.{Platform}
use llmbus.Schema.{Job, Result, status_ok, status_error, default_usage}
use llmbus.Processing.Effects.{ProviderResult}

-- `_describe`
abbrev pub describe : Exc → String
describe e = e.type_name ++ (": " ++ e.message)

module _ (P : Platform) where
  unfoldable pub result_ok : Job P → String → ProviderResult P → P.Float → Result P
  result_ok job provider_name call cost = record {
    job_id = job.job_id;
    status = status_ok;
    completion = some call.completion;
    usage = record {
      input_tokens = call.usage.input_tokens;
      output_tokens = call.usage.output_tokens;
      cost_usd = cost;
    };
    provider = some provider_name;
    error = none;
    meta = job.meta;
  }

  unfoldable pub result_error : Job P → Option String → String → Result P
  result_error job provider_name error = record {
    job_id = job.job_id;
    status = status_error;
    completion = none;
    usage = default_usage P;
    provider = provider_name;
    error = some error;
    meta = job.meta;
  }

  -- the f-string of `ttl_s`, which is `None` where there is no deadline
  abbrev ttl_text : Option P.Float → String
  ttl_text none = "None"
  ttl_text (some ttl) = P.str_float ttl

  unfoldable pub expired_result : Job P → String → ℕ → Result P
  unfolding result_error
  expired_result job provider_name attempt = result_error job (some provider_name) (
      "expired before attempt "
      ++ (P.str_int (pos (attempt + 1))
          ++ (": the producer's "
              ++ (ttl_text job.ttl_s
                  ++ ("s deadline elapsed while this job was queued, so it was "
                      ++ "dropped unrun rather than billed")))))
