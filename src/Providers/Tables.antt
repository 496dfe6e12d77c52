-- ===== src/Providers/Tables.antt =====
-- The routing and the capability tables are in step.
use llmbus.Shared.{
  String, ◌≡◌, refl, sym, ◌∙◌, Bool, true, false, Option, none, some, List, lookup, Option-cases,
  inl, inr,
}
use llmbus.Shared.Dicts.{covers, lookup-covers, has_value}
use llmbus.Python.Exc.{Fallible, returned, raised, out_of_fuel}
use llmbus.Python.Platform.{Platform}
use llmbus.Providers.{providers, capabilities, or_unknown, provider_for, capability_for}

abbrev pub succeeds : {A : Type 0} → Fallible A → Bool
succeeds (returned a) = true
succeeds (raised e) = false
succeeds out_of_fuel = false

succeeds-or_unknown :
    {A : Type 0} (repr : String → String) (model : String) (o : Option A)
    → succeeds (or_unknown repr model o) ≡ has_value o
succeeds-or_unknown repr model none = refl
succeeds-or_unknown repr model (some a) = refl

module _ {V W : Type 0} (d : List (String × V)) (e : List (String × W)) where
  has_value-covers :
      (k : String)
      → covers d e ≡ true
      → covers e d ≡ true
      → has_value (lookup k d) ≡ has_value (lookup k e)
  has_value-covers k there back = elim (Option-cases (lookup k d)) [
    | inr (v, known) ↦ rw known (sym (lookup-covers k d e {v = v} there known))
    | inl unknown ↦ elim (Option-cases (lookup k e)) [
      | inl missing ↦ rw (unknown, missing)
      | inr (w, known) ↦
          let found = lookup-covers k e d {v = w} back known in cc (rw unknown at found)
    ]
  ]

routed_capable : covers providers capabilities ≡ true
unfolding providers capabilities
routed_capable = refl

capable_routed : covers capabilities providers ≡ true
unfolding providers capabilities
capable_routed = refl

-- A model is routed to a provider exactly if it has a capability.
pub provider_for-capability_for :
    (P : Platform) (model : String)
    → succeeds (provider_for P model) ≡ succeeds (capability_for P model)
unfolding provider_for capability_for
provider_for-capability_for P model =
    succeeds-or_unknown P.repr model (lookup model providers)
    ∙ has_value-covers providers capabilities model routed_capable capable_routed
    ∙ sym (succeeds-or_unknown P.repr model (lookup model capabilities))
