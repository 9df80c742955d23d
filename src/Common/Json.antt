-- ===== src/Common/Json.antt =====
-- The values of type `unknown` that the API returns, and how a template prints them.
use Prim.Native.String.{String}
use mathlib.Core.Bool.{Bool, true, false, not, ◌||◌}
use mathlib.Core.Option.{Option, none, some}
use morphia.Common.Tests.{if◌then◌else◌}
use morphia.Common.Text.{◌==◌, ◌<>◌, is_empty}

-- A number is kept as the text that it prints as.
mutual
  pub data Json : Type 0 where
    null : Json
    bool : Bool → Json
    number : String → Json
    string : String → Json
    array : Items → Json
    object : Fields → Json

  pub data Items : Type 0 where
    nil : Items
    cons : Json → Items → Items

  pub data Fields : Type 0 where
    end : Fields
    field : String → Json → Fields → Fields

-- `o.k`; a missing field is `undefined`.
unfoldable pub get : Fields → String → Option Json
get end k = none
get (field j v fs) k = if j == k then some v else get fs k

-- What `a ?? b` takes `a` for: null counts as absent.
abbrev pub non_null : Json → Option Json
non_null null = none
non_null v = some v

-- `o?.k ?? …`
unfoldable pub get_non_null : Option Fields → String → Option Json
unfolding get
get_non_null none k = none
get_non_null (some fs) k = elim (get fs k) [ none ↦ none | some v ↦ non_null v ]

-- `b ? … : …` on a value: what JavaScript takes for true.
unfoldable pub is_truthy : Json → Bool
is_truthy null = false
is_truthy (bool b) = b
is_truthy (number n) = not (n == "0" || n == "NaN")
is_truthy (string s) = not (is_empty s)
is_truthy (array vs) = true
is_truthy (object fs) = true

-- `v.k || d`, where `v` is not null; only an object has fields of its own.
unfoldable pub field_or : Json → String → Json → Json
unfolding get is_truthy
field_or (object fs) k d = elim (get fs k) [ none ↦ d | some v ↦ if is_truthy v then v else d ]
field_or _ k d = d

-- `String(v)`; an array prints its items with commas, and null within an array as nothing.
unfoldable mutual
  pub print : Json → String
  print null = "null"
  print (bool true) = "true"
  print (bool false) = "false"
  print (number n) = n
  print (string s) = s
  print (array vs) = print_items vs
  print (object fs) = "[object Object]"

  pub print_item : Json → String
  print_item null = ""
  print_item (bool true) = "true"
  print_item (bool false) = "false"
  print_item (number n) = n
  print_item (string s) = s
  print_item (array vs) = print_items vs
  print_item (object fs) = "[object Object]"

  pub print_items : Items → String
  print_items nil = ""
  print_items (cons v nil) = print_item v
  print_items (cons v (cons w vs)) = print_item v <> "," <> print_items (cons w vs)
