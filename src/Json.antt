-- ===== src/Json.antt =====
-- The dynamic values of a checkpoint: what `orjson` reads and writes, and Python's dictionaries
-- with text keys, in insertion order.
use agent_backend.Prelude.{ℕ, String, Bool, true, false, ℤ, str_eq, if◌then◌else◌}

-- A float is its 64-bit pattern. `opaque` is a Python object that JSON cannot hold.
mutual
  pub data Value : Type 0 where
    null : Value
    bool : Bool → Value
    int : ℤ → Value
    float : ℕ → Value
    str : String → Value
    arr : Items → Value
    obj : Fields → Value
    opaque : ℕ → Value

  pub data Items : Type 0 where
    nil : Items
    cons : Value → Items → Items

  pub data Fields : Type 0 where
    end : Fields
    field : String → Value → Fields → Fields

-- `raw.get(key, default)`.
abbrev pub get_or : Fields → String → Value → Value
get_or end k d = d
get_or (field j v fs) k d = if str_eq j k then v else get_or fs k d

-- `raw.get(key)`: a missing key reads as `None`.
abbrev pub get : Fields → String → Value
get fs k = get_or fs k null

-- `isinstance(value, str) and bool(value)`.
abbrev pub is_non_empty_str : Value → Bool
is_non_empty_str (str s) = if str_eq s "" then false else true
is_non_empty_str _ = false
