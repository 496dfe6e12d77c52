-- ===== src/Client/Resolve.antt =====
-- The model of a job that names none.
use llmbus.Shared.{String, ◌≡◌, refl, none, some}
use llmbus.Python.Exc.{returned}
use llmbus.Python.Platform.{Platform}
use llmbus.Schema.{Job, resolve_model}
use llmbus.Store.{model_policy}
use llmbus.Client.{Bus, policy_name, resolve_model_name, resolve_with}

module _ (P : Platform) where
  pub resolve_model_name-none :
      (job : Job P) (b : Bus P) (model : String)
      → job.model ≡ none
      → policy_name P (model_policy P job.project job.kind b.store) ≡ some model
      → resolve_model_name P job b ≡ (returned model, b)
  unfolding resolve_model_name resolve_with resolve_model
  resolve_model_name-none job b model unset e = rw (unset, e) refl
