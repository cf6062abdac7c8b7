-- ===== src/Outbox/Errors.antt =====
-- outbox.py: the classification of delivery errors.

use hermes_pi_manager.Registry.Tasks.{bound_text, max_summary_chars}
use hermes_pi_manager.Base.Json.{
  null, bool, number, str, arr, obj, Json, Members, Python, get_member, str_of, truthy,
}
use hermes_pi_manager.Base.{
  Bool, List, Option, Text, [], any, false, if◌then◌else◌, is_empty, none, not, some, text, true,
  ◌&&◌, ◌==◌, ◌||◌, ◌∷◌,
}

abbrev pub starts_with : Text → Text → Bool
starts_with [] s = true
starts_with (c ∷ p) [] = false
starts_with (c ∷ p) (d ∷ s) = (c == d) && starts_with p s

-- `sub in s`.
unfoldable pub contains : Text → Text → Bool
contains sub [] = is_empty sub
contains sub (c ∷ s) = starts_with sub (c ∷ s) || contains sub s

abbrev pub permanent_error_signatures : List Text
permanent_error_signatures =
    text "unknown platform"
    ∷ text "no chat specified"
    ∷ text "no home channel"
    ∷ text "invalid target"
    ∷ text "cannot resolve"
    ∷ text "unresolvable"
    ∷ []

unfoldable pub classify_transient : Python → Text → Bool
classify_transient py error =
    let s = py.lower error in not (any (λ sig. contains sig s) permanent_error_signatures)

-- The `error` member of a result, if it is there and reads as true.
abbrev error_member : Python → Members → Option Text
error_member py ms = elim (get_member (text "error") ms) [
  | none ↦ none
  | some e ↦ if truthy py e then some (bound_text (str_of py e) max_summary_chars) else none
]

-- A result that is a text: an object with an error, any other JSON, or prose.
abbrev text_error : Python → Text → Option Text
text_error py s = elim (py.loads s) [
  | none ↦ some (bound_text s max_summary_chars)
  | some (obj ms) ↦ error_member py ms
  | some _ ↦ none
]

unfoldable pub extract_tool_error : Python → Json → Option Text
extract_tool_error py (obj ms) = error_member py ms
extract_tool_error py null = none
extract_tool_error py (str []) = none
extract_tool_error py (str (c ∷ s)) = text_error py (c ∷ s)
extract_tool_error py (bool b) = text_error py (py.repr (bool b))
extract_tool_error py (number n) = text_error py (py.repr (number n))
extract_tool_error py (arr js) = text_error py (py.repr (arr js))
