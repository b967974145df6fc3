-- ===== src/Store/Json.antt =====
-- The JSON values that kelso/lib/store.py writes and reads.
use kelso.Common.{ℕ, Bool, eq_nat, eq_list}
use kelso.Common.Text.{Text}

-- A missing value is read as null. Numbers are whole, and minus one is the only one below zero.
mutual
  pub data Json : Type 0 where
    null minus_one : Json
    boolean : Bool → Json
    number : ℕ → Json
    text : Text → Json
    array : Items → Json
    object : Fields → Json

  pub data Items : Type 0 where
    no_items : Items
    item : Json → Items → Items

  pub data Fields : Type 0 where
    no_fields : Fields
    field : Text → Json → Fields → Fields
