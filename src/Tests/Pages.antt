-- ===== src/Tests/Pages.antt =====
-- The theorems on the settings and on the policy page at concrete inputs.

use llmbus.Shared.{String, ◌≡◌, refl, true, Option, none, some, [], ◌∷◌, arith}
use llmbus.Python.Exc.{returned, answered}
use llmbus.Python.Outcome.{EndsIn}
use llmbus.Python.Texts.{partition, is_ascii, split}
use llmbus.Schema.{Job}
use llmbus.Store.{Store, set_model_policy}
use llmbus.Client.{resolve_model_name}
use llmbus.Providers.{provider_for, capabilities, chat}
use llmbus.Webauth.{basic_auth_ok, compare_digest, origin_allowed}
use llmbus.Webauth.Credentials.{Carries, basic_auth_ok-Carries}
use llmbus.Server.{
  Request, Response, page, guard, post_body, do_post, parse_content_length, parse_policy_form,
}
use llmbus.Server.Admission.{IsAdmitted, IsForm}
use llmbus.Server.Writes.{IsWrite, WritesOrRefuses, do_post_writes}
use llmbus.Server.InForce.{policy_write_resolves}
use llmbus.Config.{Env, parse_config}
use llmbus.Config.Checks.{IsConfigError, IsComplete, parse_config_ends}
use llmbus.Config.Binding.{
  resolve_bind, load_costs_bind, parse_costs_bind, validate_costs_hosts, costs_port, dedupe,
}
use llmbus.Config.Binding.Hosts.{IsSafe, resolve_bind_ends}
use llmbus.Tests.Host.{host, host_texts, host_floats, noon}
use llmbus.Tests.Library.{library}
use llmbus.Tests.Bus.{job, store}

abbrev header : String
header = "basic ops:hunter2"

let_in : basic_auth_ok library (some header) (some "hunter2") ≡ answered true
unfolding basic_auth_ok partition compare_digest is_ascii
let_in = refl

basic_auth_ok-Carries_example :
    (h : String) × (s : String) × (some header ≡ some h)
    × (some "hunter2" ≡ some s)
    × Carries library s h
basic_auth_ok-Carries_example = basic_auth_ok-Carries library (some header) (some "hunter2") let_in

abbrev form : String
form = "project=milamber&kind=draft&model=gpt-5"

abbrev request : Request host library
request = record {
  path = "/policy";
  authorization = some header;
  origin = some "http://ops";
  host = some "ops";
  content_length = some "39";
  read = λ n. form;
}

abbrev view : Store host → Option String → String
view s none = "page"
view s (some notice) = notice

do_post_writes_example :
    WritesOrRefuses host library view noon
      (some "hunter2")
      request
      store
      (do_post host library view noon (some "hunter2") request store)
do_post_writes_example = do_post_writes host library view noon (some "hunter2") request store

abbrev after : Store host
after = set_model_policy host "milamber" "draft" "gpt-5" noon store

abbrev reply : Response
reply = page 200 "milamber/draft now runs on gpt-5"

posted : do_post host library view noon (some "hunter2") request store ≡ (reply, after)
unfolding do_post post_body basic_auth_ok guard partition compare_digest is_ascii
    parse_content_length origin_allowed parse_policy_form split capabilities
posted = refl

carried : Carries library "hunter2" header
unfolding partition
carried = record {
  scheme = "basic";
  remainder = "ops:hunter2";
  decoded = "ops:hunter2";
  user = "ops";
  split = refl;
  is_basic = refl;
  well_formed = refl;
  credentials = refl;
}

form_admitted : IsAdmitted host library (some "hunter2") request form
unfolding origin_allowed parse_content_length
form_admitted = record {
  header = header;
  password = "hunter2";
  length = 39;
  path = refl;
  protected = refl;
  carried = refl;
  credentials = carried;
  origin = refl;
  declared = refl;
  bounded = omega arith;
  whole = refl;
  source = refl;
}

form_filled : IsForm host library form "milamber" "draft" "gpt-5"
unfolding partition split capabilities
form_filled = record {
  project_field = refl;
  kind_field = refl;
  model_field = refl;
  has_project = refl;
  has_kind = refl;
  has_model = refl;
  capability = chat;
  is_registered = refl;
}

abbrev first_write : IsWrite host library view noon (some "hunter2") request store reply after
first_write = record {
  body = form;
  project = "milamber";
  kind = "draft";
  model = "gpt-5";
  admitted = form_admitted;
  form = form_filled;
  written = refl;
  response = refl;
}

abbrev unset : Job host
unset = record job { model = none }

policy_write_resolves_example :
    (resolve_model_name host unset (record { store = after; topic = [] })
      ≡ (returned "gpt-5", record { store = after; topic = [] }))
    × ((name : String) × (provider_for host "gpt-5" ≡ returned name))
policy_write_resolves_example =
    policy_write_resolves host host_texts library view noon (some "hunter2") request store after
      reply first_write unset [] refl refl refl

abbrev pub settings : Env
settings =
    ("WORKER_MAX_ATTEMPTS", "3")
    ∷ ("WORKER_BACKOFF_BASE_S", "2")
    ∷ ("WORKER_BACKOFF_MAX_S", "5")
    ∷ ("WORKER_JOB_TIMEOUT_S", "60")
    ∷ ("WORKER_DEFAULT_OUTPUT_TOKENS", "60")
    ∷ ("OPENAI_API_KEY", "k1")
    ∷ ("ANTHROPIC_API_KEY", "k2")
    ∷ ("OPENAI_RPM", "60")
    ∷ ("OPENAI_TPM", "60")
    ∷ ("ANTHROPIC_RPM", "5")
    ∷ ("ANTHROPIC_TPM", "60")
    ∷ ("IGGY_ADDRESS", "127.0.0.1:8090")
    ∷ ("IGGY_USERNAME", "iggy")
    ∷ ("IGGY_PASSWORD", "iggy")
    ∷ ("STORE_PATH", "results.db")
    ∷ ("COSTS_BIND_HOSTS", "127.0.0.1,100.64.0.1,")
    ∷ []

parse_config_ends_example :
    EndsIn (λ c. IsComplete host {T = library} c) IsConfigError (parse_config host library settings)
parse_config_ends_example = parse_config_ends host library host_floats settings

resolve_bind_ends_example :
    EndsIn IsSafe IsConfigError
      (resolve_bind host library ("127.0.0.1" ∷ "127.0.0.1" ∷ []) none settings)
resolve_bind_ends_example =
    resolve_bind_ends host library ("127.0.0.1" ∷ "127.0.0.1" ∷ []) none settings

bound_once :
    resolve_bind host library ("127.0.0.1" ∷ "127.0.0.1" ∷ []) none settings
    ≡ returned (record { hosts = "127.0.0.1" ∷ []; port = 8093 })
unfolding resolve_bind load_costs_bind parse_costs_bind validate_costs_hosts costs_port dedupe split
bound_once = refl
