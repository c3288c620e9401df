-- ===== src/Json/Defs.antt =====
-- JSON values.
use getarp.Base.Int.{ℤ}
use getarp.Base.{String, Bool, Option}

-- A float is known by the integer that it equals, if there is one, and by its `repr`.
mutual
  pub data Value : Type 0 where
    null : Value
    bool : Bool → Value
    int : ℤ → Value
    float : Option ℤ → String → Value
    str : String → Value
    arr : Items → Value
    obj : Fields → Value

  pub data Items : Type 0 where
    cons : Value → Items → Items
    nil : Items

  pub data Fields : Type 0 where
    field : String → Value → Fields → Fields
    end : Fields
