-- ===== src/SignedMut/Json.antt =====
-- JSON values as Go's decoder hands them over: the members of an object in their order in the text.
use obacht_agent.Base.Int.{ℤ}
use obacht_agent.Base.{Bool}
use obacht_agent.Base.Text.{Text}

mutual
  -- `int n` is a number that `json.Number.Int64` accepts, `other_number` any other number.
  pub data Json : Type 0 where
    null : Json
    bool : Bool → Json
    int : ℤ → Json
    other_number : Text → Json
    str : Text → Json
    arr : Items → Json
    obj : Members → Json

  pub data Items : Type 0 where
    nil : Items
    cons : Json → Items → Items

  pub data Members : Type 0 where
    end : Members
    member : Text → Json → Members → Members
