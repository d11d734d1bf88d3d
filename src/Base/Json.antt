-- ===== src/Base/Json.antt =====
-- JSON values as `JSON.parse` returns them, and the stored texts that hold them.
use Prim.Native.Nat.{ℕ}
use Prim.Native.String.{String}
use mathlib.Core.Bool.{Bool}
use mathlib.Core.Option.{Option, none, some}
use text.Mathlib.Text.{◌==◌}
use mira_bridge.Base.Tests.{if◌then◌else◌}

mutual
  pub data Json : Type 0 where
    null : Json
    bool : Bool → Json
    num : ℕ → Json
    str : String → Json
    arr : Items → Json
    obj : Fields → Json

  pub data Items : Type 0 where
    nil : Items
    cons : Json → Items → Items

  pub data Fields : Type 0 where
    end : Fields
    field : String → Json → Fields → Fields

-- A text column that is read by `JSON.parse`: the value it returns, an empty text, which `if (!text)` sees
-- first, or another text that it refuses.
pub data StoredJson : Type 0 where
  parsed : Json → StoredJson
  corrupt : StoredJson
  blank : StoredJson

unfoldable pub lookup_field : String → Fields → Option Json
lookup_field k end = none
lookup_field k (field j v fs) = if j == k then some v else lookup_field k fs

-- `value.name` where the value is not null: `none` is undefined.
unfoldable pub property : String → Json → Option Json
unfolding lookup_field
property k (obj fs) = lookup_field k fs
property k null = none
property k _ = none

-- `typeof x === "string"`, with the string.
abbrev pub as_text : Option Json → Option String
as_text (some (str s)) = some s
as_text none = none
as_text _ = none

abbrev pub as_number : Option Json → Option ℕ
as_number (some (num n)) = some n
as_number none = none
as_number _ = none
