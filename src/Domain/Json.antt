-- ===== src/Domain/Json.antt =====
-- The JSON objects that a task carries (`JsonObj` of internal/domain/task/models.go). The code moves
-- them about and never looks inside.
use tasques.Prelude.{ℕ, Bool, String}

mutual
  -- A value of Go's `interface{}` as encoding/json fills it in; `number` has the 64 bits of a float64.
  pub data Json : Type 0 where
    null : Json
    boolean : Bool → Json
    number : ℕ → Json
    text : String → Json
    array : Items → Json
    object : JsonObj → Json

  pub data Items : Type 0 where
    nil : Items
    cons : Json → Items → Items

  pub data JsonObj : Type 0 where
    empty : JsonObj
    field : String → Json → JsonObj → JsonObj
