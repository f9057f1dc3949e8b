-- ===== src/Domain/Json.antt =====
-- The values of a `dict[str, Any]`: JSON without floats.
use account_pool.Base.{
  String, Bool, true, false, not, Option, none, some, str_eq, ◌==◌, if◌then◌else◌,
}
use account_pool.Base.Int.{ℤ, pos, negsuc}

mutual
  pub data Json : Type 0 where
    null : Json
    bool : Bool → Json
    num : ℤ → Json
    text : String → Json
    arr : Items → Json
    obj : Fields → Json

  pub data Items : Type 0 where
    nil : Items
    cons : Json → Items → Items

  pub data Fields : Type 0 where
    end : Fields
    field : String → Json → Fields → Fields

-- `d.get(key)`
abbrev pub get_field : String → Fields → Option Json
get_field k end = none
get_field k (field j v rest) = if str_eq j k then some v else get_field k rest

-- `bool(value)`
abbrev pub truthy : Json → Bool
truthy null = false
truthy (bool b) = b
truthy (num (pos n)) = not (n == 0)
truthy (num (negsuc n)) = true
truthy (text s) = not (str_eq s "")
truthy (arr nil) = false
truthy (arr (cons x xs)) = true
truthy (obj end) = false
truthy (obj (field k v fs)) = true

-- `if overrides.get(key)`
abbrev pub truthy_field : String → Fields → Bool
truthy_field k fs = elim (get_field k fs) [ none ↦ false | some v ↦ truthy v ]

-- A value that Python can compare with an int: an int, or a bool, which is one. Any other value
-- raises `TypeError` where it is compared.
abbrev pub as_int : Json → Option ℤ
as_int (num z) = some z
as_int (bool true) = some (pos 1)
as_int (bool false) = some (pos 0)
as_int _ = none
