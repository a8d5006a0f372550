-- ===== src/Json/Value.antt =====
-- A JSON value. A number keeps its literal, which `Unmarshal` reads when it meets an `int` field.
use mathlib.Core.Bool.{Bool}
use rook_servicechannel_gate.Base.Text.{Bytes}

mutual
  pub data Json : Type 0 where
    null : Json
    bool : Bool → Json
    num : Bytes → Json
    str : Bytes → Json
    arr : Items → Json
    obj : Members → Json

  pub data Items : Type 0 where
    nil : Items
    cons : Json → Items → Items

  pub data Members : Type 0 where
    end : Members
    member : Bytes → Json → Members → Members
