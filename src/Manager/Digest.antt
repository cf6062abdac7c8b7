-- ===== src/Manager/Digest.antt =====
-- core.py: `_first_text` and `digest`, what a delegate did, from the lines of its session file.
use hermes_pi_manager.Registry.Tasks.{bound_text, get_task}
use hermes_pi_manager.Outbox.Target.{strip}
use hermes_pi_manager.Manager.Recovery.{given}
use hermes_pi_manager.Registry.Rows.{Registry, Task}
use hermes_pi_manager.Manager.Events.{text_member}
use hermes_pi_manager.Manager.State.{Derived, derived_state}
use hermes_pi_manager.Base.Json.{
  Items, Json, Members, Python, arr, cons, get_member, nil, obj, str, str_of, truthy,
}
use hermes_pi_manager.Base.{
  ltb, Bool, List, Option, Text, [], false, get_or, if◌then◌else◌, is_empty, keep, leb, none, not,
  some, sort_by, suc, text, text_eq, ℕ, ◌&&◌, ◌++◌, ◌+◌, ◌∷◌,
}
use hermes_pi_manager.Messages.{join}
pub mod Totals
use mathlib.Core.Option

-- One line of the transcript: passed over, one that the code cannot read on (an AttributeError), or
-- a message with its role and its parts.
pub data Spoken : Type 0 where
  passed_over : Spoken
  unreadable : Spoken
  message_of : Text → Items → Spoken

abbrev is_text : Text → Option Json → Bool
is_text s (some (str v)) = text_eq v s
is_text s _ = false

abbrev parts_of : Members → Option Json → Spoken
parts_of ms (some (arr parts)) = message_of (get_or (text_member (text "role") ms) []) parts
parts_of ms _ = passed_over

-- `entry.get("message") or {}`: a false value reads as `{}`, which has no parts.
abbrev message_value : Python → Option Json → Spoken
message_value py none = passed_over
message_value py (some (obj ms)) = parts_of ms (get_member (text "content") ms)
message_value py (some v) = if truthy py v then unreadable else passed_over

abbrev entry_value : Python → Option Json → Spoken
entry_value py none = passed_over
entry_value py (some (obj ms)) =
    if is_text (text "message") (get_member (text "type") ms)
    then message_value py (get_member (text "message") ms)
    else passed_over
entry_value py (some v) = unreadable

unfoldable pub read_entry : Python → Text → Spoken
read_entry py line = entry_value py (py.loads line)

-- `str(part.get("text") or "")`.
abbrev text_value : Python → Option Json → Text
text_value py none = []
text_value py (some v) = if truthy py v then str_of py v else []

abbrev chunk_of : Python → Json → List Text
chunk_of py (obj ms) =
    if is_text (text "text") (get_member (text "type") ms)
    then text_value py (get_member (text "text") ms) ∷ []
    else []
chunk_of py _ = []

abbrev chunks : Python → Items → List Text
chunks py nil = []
chunks py (cons part parts) = chunk_of py part ++ chunks py parts

unfoldable pub first_text : Python → Items → ℕ → Text
first_text py parts limit =
    bound_text (strip (join (text " ") (keep (λ c. not (is_empty c)) (chunks py parts)))) limit

abbrev named : Python → Option Json → Text
named py none = text "?"
named py (some v) = if truthy py v then str_of py v else text "?"

-- The name of the tool that a part calls.
abbrev pub call_of : Python → Json → Option Text
call_of py (obj ms) =
    if is_text (text "toolCall") (get_member (text "type") ms)
    then some (named py (get_member (text "name") ms))
    else none
call_of py _ = none

pub record Count : Type 0 where
  pub tool : Text
  pub calls : ℕ

-- `counts[name] = counts.get(name, 0) + 1`.
unfoldable pub bump : Text → List Count → List Count
bump name [] = record { tool = name; calls = 1 } ∷ []
bump name (c ∷ cs) =
    if text_eq c.tool name then record c { calls = suc c.calls } ∷ cs else c ∷ bump name cs

unfoldable pub count_calls : Python → Items → List Count → List Count
count_calls py nil cs = cs
count_calls py (cons part parts) cs = elim (call_of py part) [
  | none ↦ count_calls py parts cs
  | some name ↦ count_calls py parts (bump name cs)
]

-- What the loop gathers.
pub record Work : Type 0 where
  pub prompt : Text
  pub summary : Text
  pub assistant_turns : ℕ
  pub counts : List Count

abbrev pub no_work : Work
no_work = record { prompt = []; summary = []; assistant_turns = 0; counts = [] }

abbrev pub digest_prompt_chars : ℕ
digest_prompt_chars = 400

abbrev pub digest_final_chars : ℕ
digest_final_chars = 1200

abbrev pub answer_with : Python → Items → Work → Work
answer_with py parts w =
    let said = first_text py parts digest_final_chars in
    record w {
      assistant_turns = suc w.assistant_turns;
      summary = if is_empty said then w.summary else said;
      counts = count_calls py parts w.counts;
    }

unfoldable pub hear : Python → Text → Items → Work → Work
hear py role parts w =
    if text_eq role (text "user") && is_empty w.prompt
    then record w { prompt = first_text py parts digest_prompt_chars }
    else if text_eq role (text "assistant")
    then answer_with py parts w
    else w

-- `none` is the AttributeError.
unfoldable pub read_session : Python → List Text → Work → Option Work
read_session py [] w = some w
read_session py (line ∷ lines) w = elim (read_entry py line) [
  | passed_over ↦ read_session py lines w
  | unreadable ↦ none
  | message_of role parts ↦ read_session py lines (hear py role parts w)
]

abbrev pub sum_calls : List Count → ℕ
sum_calls [] = 0
sum_calls (c ∷ cs) = c.calls + sum_calls cs

-- Sorting by falling count: an earlier tool stays before a later one with as many calls.
abbrev pub more_calls : Count → Count → Bool
more_calls c d = ltb d.calls c.calls

pub record Digest : Type 0 where
  pub state : Derived
  pub cwd : Option Text
  pub work : Option Work
  pub tool_calls_total : ℕ
  pub last_error : Option Text

abbrev without_work : Task → Digest
without_work t = record {
  state = derived_state t.execution_state t.verification_state;
  cwd = t.cwd;
  work = none;
  tool_calls_total = 0;
  last_error = none;
}

abbrev with_work : Task → Work → Digest
with_work t w = record {
  state = derived_state t.execution_state t.verification_state;
  cwd = t.cwd;
  work = some (record w { counts = sort_by more_calls w.counts });
  tool_calls_total = sum_calls w.counts;
  last_error = if given t.last_error then t.last_error else none;
}

abbrev pub digest_row : Python → (Text → Option (List Text)) → Task → Option Text → Option Digest
digest_row py read t (some (c ∷ s)) = elim (read (c ∷ s)) [
  | none ↦ some (without_work t)
  | some lines ↦ Option.map (with_work t) (read_session py lines no_work)
]
digest_row py read t _ = some (without_work t)

-- `read` has the lines of a file, `none` for one that is not there or not readable: the digest then
-- has an error in place of the work. `none` is an exception, the KeyError among them.
unfoldable pub digest : Python → (Text → Option (List Text)) → Text → Registry → Option Digest
digest py read tid r = elim (get_task tid r) [
  | none ↦ none
  | some t ↦ digest_row py read t t.session_file
]
