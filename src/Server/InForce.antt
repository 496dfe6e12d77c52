-- ===== src/Server/InForce.antt =====
-- What a write of the policy page does to the next submit.
use llmbus.Shared.{String, ◌≡◌, refl, ap, ◌∙◌, true, Option, none, some, List, lookup, eq_refl}
use llmbus.Python.Exc.{Fallible, returned, raised, out_of_fuel}
use llmbus.Python.Texts.{Texts}
use llmbus.Python.Platform.{Platform, TextLaws}
use llmbus.Schema.{Job}
use llmbus.Providers.{provider_for, capability_for, capabilities, Capability}
use llmbus.Providers.Tables.{succeeds, provider_for-capability_for}
use llmbus.Store.{Store, model_policy, set_model_policy}
use llmbus.Store.Policies.{model_policy-set}
use llmbus.Client.{policy_name, resolve_model_name}
use llmbus.Client.Resolve.{resolve_model_name-none}
use llmbus.Server.{Response, Request}
use llmbus.Server.Writes.{IsWrite}

succeeds-returned : {A : Type 0} (m : Fallible A) → succeeds m ≡ true → (a : A) × (m ≡ returned a)
succeeds-returned (returned a) h = (a, refl)
succeeds-returned (raised e) h = cc
succeeds-returned out_of_fuel h = cc

module _ (P : Platform) where
  capability_for-some :
      (model : String) {c : Capability}
      → lookup model capabilities ≡ some c
      → succeeds (capability_for P model) ≡ true
  unfolding capability_for
  capability_for-some model e = rw e refl

  model_policy-written :
      (laws : TextLaws P) (project kind model : String) (stamp : P.Datetime) (s : Store P)
      → policy_name P (model_policy P project kind (set_model_policy P project kind model stamp s))
        ≡ some model
  model_policy-written laws project kind model stamp s =
      ap (policy_name P) (model_policy-set P laws project kind model stamp project kind s)
      ∙ rw (eq_refl project, eq_refl kind) refl

-- After a write of the policy page that sets a model for a project and a kind, a job of these that
-- names no model is resolved to that model when it is submitted, and a provider serves it.
pub policy_write_resolves :
    (P : Platform) (laws : TextLaws P) (T : Texts P.Float) (view : Store P → Option String → String)
    (stamp : P.Datetime) (secret : Option String) (request : Request P T) (s t : Store P)
    (r : Response) (w : IsWrite P T view stamp secret request s r t) (job : Job P)
    (topic : List (Job P))
    → job.project ≡ w.project
    → job.kind ≡ w.kind
    → job.model ≡ none
    → (resolve_model_name P job (record { store = t; topic = topic })
        ≡ (returned w.model, record { store = t; topic = topic }))
      × ((name : String) × (provider_for P w.model ≡ returned name))
policy_write_resolves P laws T view stamp secret request s t r w job topic project kind unset = (
  resolve_model_name-none P job (record { store = t; topic = topic }) w.model unset
      (rw (project, kind, w.written)
        (model_policy-written P laws w.project w.kind w.model stamp s)),
  succeeds-returned (provider_for P w.model)
      (provider_for-capability_for P w.model ∙ capability_for-some P w.model w.form.is_registered),
)
