-- ===== src/Base/Json.antt =====
-- JSON values, and the parts of Python's standard library whose definition stays open.
use mathlib.Core.Bool.{Bool, true, false, not}
use mathlib.Core.Option.{Option, none, some}
use mathlib.Core.List.{List, [], ◌∷◌}
use hermes_pi_manager.Base.Tests.{if◌then◌else◌}
use hermes_pi_manager.Base.Texts.{Text, text_eq}

mutual
  pub data Json : Type 0 where
    null : Json
    bool : Bool → Json
    number : Text → Json
    str : Text → Json
    arr : Items → Json
    obj : Members → Json

  pub data Items : Type 0 where
    nil : Items
    cons : Json → Items → Items

  pub data Members : Type 0 where
    end : Members
    member : Text → Json → Members → Members

-- `str.lower`; `json.loads`, where `none` is its ValueError; `json.dumps`; `str` of a value that is
-- no string; whether a number is 0; and `==` on two JSON values.
pub record Python : Type 0 where
  pub lower : Text → Text
  pub loads : Text → Option Json
  pub dumps : Json → Text
  pub repr : Json → Text
  pub number_is_zero : Text → Bool
  pub splitlines : Text → List Text
  pub same_json : Json → Json → Bool

-- `d.get(k)`.
unfoldable pub get_member : Text → Members → Option Json
get_member k end = none
get_member k (member j v ms) = if text_eq j k then some v else get_member k ms

-- The characters of a text, and the keys of an object, as `list` gives them.
abbrev chars_of : Text → Items
chars_of [] = nil
chars_of (c ∷ s) = cons (str (c ∷ [])) (chars_of s)

abbrev keys_of : Members → Items
keys_of end = nil
keys_of (member k v ms) = cons (str k) (keys_of ms)

-- `list(value)`; `none` is its TypeError.
abbrev pub list_of : Json → Option Items
list_of (arr js) = some js
list_of (str s) = some (chars_of s)
list_of (obj ms) = some (keys_of ms)
list_of null = none
list_of (bool b) = none
list_of (number n) = none

-- `str(value)`.
abbrev pub str_of : Python → Json → Text
str_of py (str s) = s
str_of py null = py.repr null
str_of py (bool b) = py.repr (bool b)
str_of py (number n) = py.repr (number n)
str_of py (arr js) = py.repr (arr js)
str_of py (obj ms) = py.repr (obj ms)

-- Whether Python reads a value as true.
abbrev pub truthy : Python → Json → Bool
truthy py null = false
truthy py (bool b) = b
truthy py (number n) = not (py.number_is_zero n)
truthy py (str []) = false
truthy py (str (c ∷ s)) = true
truthy py (arr nil) = false
truthy py (arr (cons j js)) = true
truthy py (obj end) = false
truthy py (obj (member k v ms)) = true
