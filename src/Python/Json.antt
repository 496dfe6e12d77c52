-- ===== src/Python/Json.antt =====
-- JSON values over a type of floats. A `dict` is a value of `Fields`, in insertion order.
use llmbus.Shared.{String, Bool, Option, none, some, ◌==◌, if◌then◌else◌}
use llmbus.Shared.Int.{ℤ}

mutual
  pub data Json (F : Type 0) : Type 0 where
    null : Json F
    boolean : Bool → Json F
    int : ℤ → Json F
    float : F → Json F
    text : String → Json F
    array : Items F → Json F
    object : Fields F → Json F

  pub data Items (F : Type 0) : Type 0 where
    nil : Items F
    cons : Json F → Items F → Items F

  pub data Fields (F : Type 0) : Type 0 where
    end : Fields F
    field : String → Json F → Fields F → Fields F

module _ {F : Type 0} where
  -- `d.get(key)`
  unfoldable pub get : String → Fields F → Option (Json F)
  get k end = none
  get k (field j v d) = if j == k then some v else get k d

  -- `d[key] = value` for a key that `d` does not have
  abbrev pub extend : Fields F → String → Json F → Fields F
  extend end k v = field k v end
  extend (field j w d) k v = field j w (extend d k v)
