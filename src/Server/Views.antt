-- ===== src/Server/Views.antt =====
-- The policy page's reads and writes of src/llmbus/server.py, each in a block of its own on the store, and what
-- the producers see of them.
use llmbus.Shared.{String, ◌≡◌, ap, ◌∙◌, false, Option, none, some, List, ◌&&◌, ◌==◌, if◌then◌else◌}
use llmbus.Python.Exc.{Fallible, returned}
use llmbus.Python.Action.{Action, gets, ◌>>=◌}
use llmbus.Python.Platform.{Platform, TextLaws}
use llmbus.Store.{set_model_policy, model_policy, list_model_policies}
use llmbus.Store.Rows.{ModelPolicy}
use llmbus.Store.Policies.{model_policy-set}
use llmbus.Store.Connection.{Driver, Handle, in_memory, shown, with_store}
use llmbus.Store.Connection.Sharing.{well, with_store-well, with_store-twice}

module _ (P : Platform) where
  unfoldable pub read_policies : Driver → Action (Handle P) (List (ModelPolicy P))
  read_policies driver = with_store P driver (gets (list_model_policies P))

  unfoldable pub write_policy :
      Driver → String → String → String → P.Datetime → Action (Handle P) (Unit {0})
  write_policy driver project kind model stamp =
      with_store P driver (λ s. (returned tt, set_model_policy P project kind model stamp s))

  -- a producer's look at the policy of a pair
  abbrev pub look_up : Driver → String → String → Action (Handle P) (Option (ModelPolicy P))
  look_up driver project kind = with_store P driver (gets (model_policy P project kind))

  -- On a file, and where the calls of the driver succeed, a policy that is written in one block is what
  -- the next block reads for its pair, and for any other pair that block reads what the file had.
  pub look_up-write_policy :
      (laws : TextLaws P) (project kind model : String) (stamp : P.Datetime) (q k : String)
      (h : Handle P)
      → in_memory P h ≡ false
      → h.db ≡ none
      → ((write_policy well project kind model stamp >>= λ _. look_up well q k) h).0
        ≡ returned (
            if project == q && kind == k
            then some (record { project = project; kind = kind; model = model; updated_at = stamp })
            else model_policy P q k (shown P h.disk))
  unfolding write_policy
  look_up-write_policy laws project kind model stamp q k h file db =
      ap (λ (end : Fallible (Option (ModelPolicy P)) × Handle P). end.0)
        (with_store-twice P (λ s. (returned tt, set_model_policy P project kind model stamp s))
            (λ _. gets (model_policy P q k)) h file db
          ∙ with_store-well P h _ file db)
      ∙ ap (λ (p : Option (ModelPolicy P)). returned p)
          (model_policy-set P laws project kind model stamp q k (shown P h.disk))
