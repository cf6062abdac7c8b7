-- ===== src/Manager/Events.antt =====
-- core.py: `_on_event`, what an RPC event does to a task, and `_on_settled`.
-- A member of an event that is no string reads as missing where a name or an id is expected.

use hermes_pi_manager.Messages.{state_text}
pub mod Finality
pub mod Settling
use hermes_pi_manager.Manager.Notices.{signature_of, type_name}
use hermes_pi_manager.Registry.Tasks.{
  Fields, get_task, same_exec, transition_task_state, update_task,
}
use hermes_pi_manager.Registry.Events.{append_event}
use hermes_pi_manager.Manager.State.{
  Manager, Runtime, prune, rt_of, set_rt, spawn, verify, with_registry,
}
use hermes_pi_manager.Base.{
  Bool, List, Option, Text, [], false, get_or, if◌then◌else◌, is_none, min, none, not, some, text,
  text_eq, true, ℕ, ◌&&◌, ◌+◌, ◌∷◌,
}
use hermes_pi_manager.Registry.Rows.{
  EventType, Execution, Registry, Task, Verification, agent_end, agent_settled, agent_start,
  compaction_end, compaction_start, diagnostic_snapshot, entry_appended, is_final, message_start,
  message_update, queue_update, tool_execution_end, tool_execution_start, tool_execution_update,
}
use hermes_pi_manager.Base.Int.{ℤ}
use hermes_pi_manager.Base.Json.{Json, Members, get_member, obj, str}

abbrev pub text_member : Text → Members → Option Text
text_member k ev = elim (get_member k ev) [ some (str s) ↦ some s | _ ↦ none ]

-- `a or b`.
abbrev pub or_text : Option Text → Option Text → Option Text
or_text (some (c ∷ s)) b = some (c ∷ s)
or_text _ b = b

-- `event.get("type") or event.get("event") or "unknown"`, and the constructor of a name.
abbrev pub event_name : Members → Text
event_name ev =
    get_or
      (or_text (or_text (text_member (text "type") ev) (text_member (text "event") ev))
        (some (text "unknown")))
      []

abbrev named_types : List EventType
named_types =
    agent_settled ∷ agent_end ∷ agent_start ∷ message_start ∷ message_update ∷ compaction_start
    ∷ compaction_end ∷ tool_execution_start ∷ tool_execution_update ∷ tool_execution_end
    ∷ entry_appended ∷ queue_update ∷ diagnostic_snapshot ∷ []

abbrev find_type : Text → List EventType → EventType
find_type s [] = EventType.other s
find_type s (t ∷ ts) = if text_eq (type_name t) s then t else find_type s ts

unfoldable pub type_of : Members → EventType
type_of ev = find_type (event_name ev) named_types

-- `before_for_recover`.
abbrev pub recover_from : Execution → Option Runtime → Execution
recover_from Execution.unresponsive none = Execution.running
recover_from Execution.unresponsive (some rt) = get_or rt.pre_unresponsive_state Execution.running
recover_from s rt = s

abbrev pub heal : Execution → Execution
heal Execution.stalled = Execution.running
heal Execution.waiting = Execution.running
heal Execution.unresponsive = Execution.running
heal s = s

-- `new_state`, from the event's type and `before_for_recover`.
abbrev pub next_state : EventType → Execution → Execution
next_state agent_start s = Execution.running
next_state tool_execution_start s = Execution.tool_running
next_state tool_execution_update s = Execution.tool_running
next_state tool_execution_end s = Execution.running
next_state agent_settled s = Execution.settled
next_state _ s = heal s

abbrev nested_id : Option Json → Option Text
nested_id (some (obj ms)) = text_member (text "id") ms
nested_id _ = none

abbrev entry_id : Members → Option Text
entry_id ev =
    or_text (nested_id (get_member (text "entry") ev))
      (or_text (text_member (text "entryId") ev) (text_member (text "id") ev))

abbrev has_verifier : Option Runtime → Bool
has_verifier none = false
has_verifier (some rt) = not (is_none rt.verifier)

-- The columns of the type's own branch.
abbrev put_entry : Option Text → Task → Task
put_entry (some (c ∷ s)) t = record t { last_entry_id = some (c ∷ s) }
put_entry _ t = t

abbrev pub put_by_type : EventType → Members → Option Runtime → ℕ → Task → Task
put_by_type tool_execution_start ev rt now t = record t {
  active_tool = or_text (text_member (text "tool") ev) (text_member (text "toolName") ev);
  active_request_id =
      or_text (text_member (text "toolCallId") ev) (text_member (text "requestId") ev);
}
put_by_type tool_execution_end ev rt now t = record t {
  active_tool = none;
  active_request_id = none;
}
put_by_type agent_settled ev rt now t = record t {
  settled_at = some now;
  verification_state = if has_verifier rt then Verification.pending else Verification.not_run;
}
put_by_type entry_appended ev rt now t = put_entry (entry_id ev) t
put_by_type _ ev rt now t = t

-- The metrics: `live` is that the state before the event was not final.
abbrev stream : Bool → Task → Task
stream live t = if live then record t { is_streaming = some true } else t

abbrev max_message_count : ℕ
max_message_count = 1000000

-- `seen` is the count in the row that the handler read.
abbrev pub put_metrics : EventType → Bool → Option ℕ → Task → Task
put_metrics message_start live seen t =
    stream live (record t { message_count = some (min (get_or seen 0 + 1) max_message_count) })
put_metrics agent_start live seen t = stream live t
put_metrics message_update live seen t = stream live t
put_metrics tool_execution_start live seen t = stream live t
put_metrics tool_execution_update live seen t = stream live t
put_metrics compaction_start live seen t = record t { is_compacting = some true }
put_metrics compaction_end live seen t = record t { is_compacting = some false }
put_metrics agent_end live seen t = record t { is_streaming = some false }
put_metrics agent_settled live seen t = record t {
  is_streaming = some false;
  is_compacting = some false;
}
put_metrics _ live seen t = t

abbrev pub put_seen : EventType → ℕ → Task → Task
put_seen etype now t = record t {
  last_event_at = some now;
  last_event_type = some etype;
  last_progress_at = some now;
}

-- `updates`.
abbrev pub event_fields : EventType → Members → Option Runtime → ℕ → Task → Fields
event_fields etype ev rt now row =
    put_seen etype now
    ∷ put_by_type etype ev rt now
    ∷ put_metrics etype (not (is_final row.execution_state)) row.message_count
    ∷ []

-- What the handler writes to the registry, with the row that it read.
abbrev pub write_event :
    Text → Text → EventType → Members → Text → Option Runtime → ℕ → ℕ → Task → Registry → Registry
write_event tid source etype ev summary rt now wall row r =
    let before = row.execution_state in
    let new_state = next_state etype (recover_from before rt) in
    let moves = not (is_final before) && not (same_exec new_state before) in
    let r' = if moves then (transition_task_state tid new_state (some now) wall r).0 else r in
    append_event tid source etype (some (state_text before))
      (some (state_text (if is_final before then before else new_state))) (some summary) none wall
      (update_task tid (event_fields etype ev rt now row) wall r')

abbrev pub clear_grace : Runtime → Runtime
clear_grace rt = record rt { stall_grace_started_at = none; pre_unresponsive_state = none }

-- The baseline of the progress notices moves along with the boot's own `agent_start`.
abbrev pub rebaseline : EventType → Option Task → Runtime → Runtime
rebaseline agent_start (some t) rt =
    if is_none rt.last_progress_notified_at && not (is_none rt.last_progress_notified_sig)
    then record rt { last_progress_notified_sig = some (signature_of t) }
    else rt
rebaseline _ row rt = rt

abbrev pub put_exit : Option ℤ → Task → Task
put_exit code t = record t { exit_code = code }

abbrev record_exit : Text → Option ℤ → ℕ → Manager → Manager
record_exit tid none wall m = m
record_exit tid (some code) wall m =
    with_registry (update_task tid (put_exit (some code) ∷ []) wall) m

-- `_on_settled`: the watchdog stops, the process is disposed of, and two threads start. `disposed`
-- is the exit code when there was a live process to stop and it ended.
unfoldable pub on_settled : Text → Option ℤ → ℕ → Manager → Manager
on_settled tid disposed wall m =
    let stopped = set_rt tid (λ rt. record rt { stop_watchdog = true }) m in
    spawn (verify tid) (spawn prune (record_exit tid disposed wall stopped))

module _ (summarise : Members → Text) (disposed : Option ℤ) where
  abbrev pub event_for : Text → Text → Members → ℕ → ℕ → Option Task → Manager → Manager
  event_for tid source ev now wall none m = m
  event_for tid source ev now wall (some row) m =
      let etype = type_of ev in
      let written =
        with_registry (write_event tid source etype ev (summarise ev) (rt_of tid m) now wall row)
          m in
      let cleared = set_rt tid clear_grace written in
      let based = set_rt tid (rebaseline etype (get_task tid written.registry)) cleared in
      elim etype [ agent_settled ↦ on_settled tid disposed wall based | _ ↦ based ]

  unfoldable pub on_event : Text → Text → Members → ℕ → ℕ → Manager → Manager
  on_event tid source ev now wall m = event_for tid source ev now wall (get_task tid m.registry) m
