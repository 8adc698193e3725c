-- ===== src/Config/Value.antt =====
-- What YAML decodes into `any`, and Go's type assertions on it.
use capo_shell_mcp.Prelude.{ℤ, String, Bool, Option, none, some, ◌==◌, if◌then◌else◌}

-- A `float64` is given by the integer that `int(n)` makes of it, the only use of one. An object
-- has its keys in the order in which Go's iteration over the map would meet them.
mutual
  pub data Value : Type 0 where
    null : Value
    text : String → Value
    int : ℤ → Value
    float : ℤ → Value
    boolean : Bool → Value
    array : Values → Value
    object : Fields → Value

  pub data Values : Type 0 where
    nil : Values
    cons : Value → Values → Values

  pub data Fields : Type 0 where
    end : Fields
    field : String → Value → Fields → Fields

-- raw[key]: nil for a key that is not there.
unfoldable pub get : Fields → String → Value
get end key = null
get (field k v fs) key = if k == key then v else get fs key

abbrev pub as_text : Value → Option String
as_text (text s) = some s
as_text _ = none

abbrev pub as_object : Value → Option Fields
as_object (object fs) = some fs
as_object _ = none

abbrev pub as_array : Value → Option Values
as_array (array vs) = some vs
as_array _ = none

-- toInt
abbrev pub to_int : Value → Option ℤ
to_int (int n) = some n
to_int (float n) = some n
to_int _ = none
