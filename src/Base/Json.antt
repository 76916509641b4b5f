-- ===== src/Base/Json.antt =====
-- JSON values as `json.loads` returns them. Numbers are kept as the text that was read.
use mathlib.Core.Bool.{Bool}
use mathlib.Core.Option.{Option}
use bo_thesis.Base.Text.{Str}

mutual
  pub data Json : Type 0 where
    null : Json
    boolean : Bool → Json
    integer : Str → Json
    number : Str → Json
    string : Str → Json
    array : Items → Json
    object : Fields → Json

  pub data Items : Type 0 where
    nil : Items
    cons : Json → Items → Items

  pub data Fields : Type 0 where
    end : Fields
    field : Str → Json → Fields → Fields

-- `json.loads`; `none` stands for `JSONDecodeError`.
abbrev pub Loads : Type 0
Loads = Str → Option Json
