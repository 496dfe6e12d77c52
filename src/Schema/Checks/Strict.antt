-- ===== src/Schema/Checks/Strict.antt =====
-- What a response schema that is accepted looks like.
use llmbus.Shared.{◌≡◌, refl, ap, true, false, Option, none, some, eq_iff, arith}
use llmbus.Python.Json.{Json, null, boolean, int, float, text, array, object, Fields, get}
use llmbus.Python.Exc.{returned}
use llmbus.Python.Platform.{Platform}
use llmbus.Schema.Checks.{ensure_strict_object_schema, is_object_type, is_false}

module _ (P : Platform) where
  is_object_type-true :
      (o : Option (Json P.Float)) → is_object_type P o ≡ true → o ≡ some (text "object")
  unfolding is_object_type
  is_object_type-true (some (text t)) h = ap (λ x. some (text x)) ((eq_iff t "object").0 h)
  is_object_type-true none h = cc
  is_object_type-true (some null) h = cc
  is_object_type-true (some (boolean b)) h = cc
  is_object_type-true (some (int n)) h = cc
  is_object_type-true (some (float x)) h = cc
  is_object_type-true (some (array xs)) h = cc
  is_object_type-true (some (object d)) h = cc

  is_false-true : (o : Option (Json P.Float)) → is_false P o ≡ true → o ≡ some (boolean false)
  unfolding is_false
  is_false-true (some (boolean false)) h = refl
  is_false-true (some (boolean true)) h = cc
  is_false-true none h = cc
  is_false-true (some null) h = cc
  is_false-true (some (text t)) h = cc
  is_false-true (some (int n)) h = cc
  is_false-true (some (float x)) h = cc
  is_false-true (some (array xs)) h = cc
  is_false-true (some (object d)) h = cc

  -- A response schema that is accepted is passed on as it is, and it has the type "object" and no
  -- additional properties at its top level, the latter as a Boolean.
  pub ensure_strict_object_schema_sound :
      (schema : Fields P.Float) {accepted : Fields P.Float}
      → ensure_strict_object_schema P schema ≡ returned accepted
      → (accepted ≡ schema)
        × (get "type" schema ≡ some (text "object"))
        × (get "additionalProperties" schema ≡ some (boolean false))
  unfolding ensure_strict_object_schema
  ensure_strict_object_schema_sound schema {accepted} h = ground (
    arith,
    is_object_type-true (get "type" schema),
    is_false-true (get "additionalProperties" schema),
  )
