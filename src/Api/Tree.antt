-- ===== src/Api/Tree.antt =====
-- `serde_json::Value`, as far as the handlers make it.
use tpi_bmcd.Base.{ℕ, Bool, String, List, [], ◌∷◌}

mutual
  pub data Value : Type 0 where
    number : ℕ → Value
    string : String → Value
    flag : Bool → Value
    array : Items → Value
    map : Fields → Value

  pub data Items : Type 0 where
    nil : Items
    cons : Value → Items → Items

  pub data Fields : Type 0 where
    end : Fields
    field : String → Value → Fields → Fields

abbrev pub items : List Value → Items
items [] = nil
items (v ∷ vs) = cons v (items vs)

abbrev pub fields : List (String × Value) → Fields
fields [] = end
fields ((k, v) ∷ kvs) = field k v (fields kvs)
