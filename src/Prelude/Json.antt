-- ===== src/Prelude/Json.antt =====
-- A value that JSON.parse returns. Numbers are natural, as every number that the source writes is;
-- the fields of an object have distinct names.
use Prim.Native.Nat.{ℕ}
use mathlib.Core.Bool.{Bool}
use mathlib.Core.List.{List, [], ◌∷◌}
use mathlib.Core.Option.{Option, none, some}
use evirion_engineering_memo.Prelude.Tests.{if◌then◌else◌}
use evirion_engineering_memo.Prelude.Strings.{Text, text_eq}

mutual
  pub data Json : Type 0 where
    null : Json
    boolean : Bool → Json
    number : ℕ → Json
    text : Text → Json
    array : Elements → Json
    object : Fields → Json

  pub data Elements : Type 0 where
    no_elements : Elements
    element : Json → Elements → Elements

  pub data Fields : Type 0 where
    no_fields : Fields
    field : Text → Json → Fields → Fields

-- `object[name]`; `none` is undefined.
unfoldable pub get_field : Text → Fields → Option Json
get_field name no_fields = none
get_field name (field n v fs) = if text_eq n name then some v else get_field name fs

-- `value[name]` of a value that `typeof value === "object" && value !== null` has let through; an
-- array has no field of a name that the source reads.
unfoldable pub get : Text → Json → Option Json
get name (object fs) = get_field name fs
get name _ = none

-- The names of the fields, `Object.keys`.
unfoldable pub keys : Fields → List Text
keys no_fields = []
keys (field n v fs) = n ∷ keys fs
