-- ===== src/Common/Json.antt =====
-- A decoded JSON value, and the accesses that the source makes of one. A number is kept as the
-- text that Python's `str` gives for it.
use mathlib.Core.Bool.{Bool, true, false, not, ◌||◌}
use mathlib.Core.Option.{Option, none, some}
use Prim.Native.String.{String}
use package.text.Mathlib.Text.{◌==◌}
use tresqu_api.Common.Tests.{if◌then◌else◌}

mutual
  pub data Json : Type 0 where
    null : Json
    boolean : Bool → Json
    number : String → Json
    text : String → Json
    array : Items → Json
    object : Fields → Json

  pub data Items : Type 0 where
    nil : Items
    cons : Json → Items → Items

  pub data Fields : Type 0 where
    end : Fields
    field : String → Json → Fields → Fields

unfoldable pub get_field : String → Fields → Option Json
get_field k end = none
get_field k (field j v fs) = if j == k then some v else get_field k fs

-- `payload.get(key)` where `payload` is a dict
unfoldable pub json_get : String → Json → Option Json
unfolding get_field
json_get k (object fs) = get_field k fs
json_get k _ = none

-- Python's truth value
unfoldable pub truthy : Json → Bool
truthy null = false
truthy (boolean b) = b
truthy (number s) = not (s == "0" || s == "0.0" || s == "-0.0")
truthy (text s) = not (s == "")
truthy (array nil) = false
truthy (array _) = true
truthy (object end) = false
truthy (object _) = true

-- `isinstance(value, str) and value`
unfoldable pub as_text : Option Json → Option String
as_text (some (text s)) = if s == "" then none else some s
as_text _ = none
