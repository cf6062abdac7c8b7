-- ===== src/Manager/Watchdog/Stalls.antt =====
-- core.py: the diagnostic snapshot, the request to abort, and the grace that ends in STALLED.
use hermes_pi_manager.Registry.Tasks.{bound_text, max_summary_chars}
use hermes_pi_manager.Registry.Rows.{
  Event, EventType, Execution, Kind, Registry, diagnostic_snapshot,
}
use hermes_pi_manager.Manager.Notices.{
  enqueue_notification, opt_eq, request_terminal_wake, type_name,
}
use hermes_pi_manager.Base.Json.{
  Items, Json, Members, Python, arr, bool, cons, get_member, member, nil, null, number, obj, str,
}
use hermes_pi_manager.Manager.State.{Manager, Runtime, set_execution_state, set_rt, with_registry}
use hermes_pi_manager.Registry.Events.{append_event, recent_events}
use hermes_pi_manager.Base.{
  Bool, List, Option, Text, [], false, get_or, if◌then◌else◌, is_none, keep, leb, ltb, none, not,
  show, some, take, text, text_eq, true, ℕ, ◌&&◌, ◌+◌, ◌∷◌,
}

-- `send_abort` returned whether it was sent, or raised something that it does not catch.
pub data AbortAnswer : Type 0 where
  returned : Bool → AbortAnswer
  threw : Text → AbortAnswer

abbrev event_items : List Event → Items
event_items [] = nil
event_items (e ∷ es) =
    cons
      (obj (
        member (text "type") (str (type_name e.event_type))
          (member (text "ts") (number (show e.ts)) Members.end)))
      (event_items es)

abbrev type_items : List Event → Items
type_items [] = nil
type_items (e ∷ es) = cons (str (type_name e.event_type)) (type_items es)

abbrev member_or_null : Text → Members → Json
member_or_null k state = get_or (get_member k state) null

abbrev is_snapshot : EventType → Bool
is_snapshot diagnostic_snapshot = true
is_snapshot _ = false

abbrev state_part : Members → Json
state_part payload = obj (
    member (text "isStreaming") (member_or_null (text "isStreaming") payload) (
      member (text "isCompacting") (member_or_null (text "isCompacting") payload) (
        member (text "messageCount") (member_or_null (text "messageCount") payload) (
          member (text "pendingMessageCount") (member_or_null (text "pendingMessageCount") payload)
            Members.end))))

-- The text that is compared; its keys are in the order of the alphabet.
abbrev snapshot_sig : Python → List Event → Members → Bool → Text
snapshot_sig py events payload alive = py.dumps (
    obj (
      member (text "process_alive") (bool alive) (
        member (text "recent") (arr (type_items events)) (
          member (text "state")
            (obj (
              member (text "isCompacting") (member_or_null (text "isCompacting") payload) (
                member (text "isStreaming") (member_or_null (text "isStreaming") payload) (
                  member (text "messageCount") (member_or_null (text "messageCount") payload) (
                    member (text "pendingMessageCount")
                      (member_or_null (text "pendingMessageCount") payload) Members.end)))))
            Members.end))))

abbrev repeat_part : Bool → Members
repeat_part false = Members.end
repeat_part true = member (text "repeat") (bool true) Members.end

abbrev snapshot_summary : Python → List Event → Members → Bool → Bool → Text
snapshot_summary py events payload alive repeats = py.dumps (
    obj (
      member (text "recent_events") (arr (event_items events)) (
        member (text "state") (state_part payload)
          (member (text "process_alive") (bool alive) (repeat_part repeats)))))

abbrev is_within : ℕ → ℕ → Option ℕ → Bool
is_within window now none = false
is_within window now (some at) = ltb now (at + window)

abbrev put_snapshot_seen : Text → ℕ → Runtime → Runtime
put_snapshot_seen sig now rt = record rt {
  last_snapshot_sig = some sig;
  last_snapshot_at = some now;
}

-- An unchanged snapshot is suppressed within the window.
unfoldable pub diagnostic_snapshot_step :
    Python → Text → Runtime → Members → Bool → ℕ → ℕ → Manager → Manager
diagnostic_snapshot_step py tid rt payload alive now wall m =
    let events =
      take 10 (keep (λ e. not (is_snapshot e.event_type)) (recent_events tid 40 m.registry)) in
    let process_alive = rt.attached && alive in
    let sig = snapshot_sig py events payload process_alive in
    let same = opt_eq text_eq (some sig) rt.last_snapshot_sig in
    if same && is_within rt.thresholds.snapshot_repeat now rt.last_snapshot_at
    then m
    else with_registry
        (append_event tid (text "watchdog") diagnostic_snapshot none none
          (some (snapshot_summary py events payload process_alive same)) none wall)
        (set_rt tid (put_snapshot_seen sig now) m)

abbrev grace_note : Text
grace_note =
    text
      "RPC abort requested; settling during the grace preserves the true result, ignoring it finalizes STALLED"

-- The answer `False` is not looked at.
unfoldable pub send_stall_abort : Python → Text → Runtime → AbortAnswer → ℕ → Registry → Registry
send_stall_abort py tid rt (threw exc) wall r =
    if rt.attached
    then append_event tid (text "watchdog") (EventType.other (text "stall_abort_failed")) none none
        (some (bound_text exc max_summary_chars)) none wall r
    else r
send_stall_abort py tid rt (returned was_sent) wall r =
    if rt.attached
    then append_event tid (text "watchdog") (EventType.other (text "stall_abort_sent")) none none
        (some (
          py.dumps (
            obj (
              member (text "grace_seconds") (number (show rt.thresholds.stall_grace))
                (member (text "note") (str grace_note) Members.end)))))
        none wall r
    else r

abbrev put_grace : ℕ → Runtime → Runtime
put_grace at rt = record rt { stall_grace_started_at = some at }

abbrev pub is_stalled : Execution → Bool
is_stalled Execution.stalled = true
is_stalled _ = false

abbrev pub note_stall : Text → Execution → Text → ℕ → Registry → Registry
note_stall tid current descendants wall r =
    if is_stalled current
    then r
    else append_event tid (text "watchdog") (EventType.other (text "stall_diagnosis")) none none
        (some descendants) none wall r

abbrev pub stall : Python → Text → Execution → Text → ℕ → ℕ → Registry → Registry
stall py tid current descendants now wall r = request_terminal_wake py tid now wall (
    enqueue_notification py tid Kind.stalled now wall (
      set_execution_state tid Execution.stalled [] now wall
        (note_stall tid current descendants wall r)))

abbrev pub ask_once : Python → Text → Runtime → AbortAnswer → ℕ → Registry → Registry
ask_once py tid rt answer wall r =
    if is_none rt.stall_grace_started_at then send_stall_abort py tid rt answer wall r else r

-- The grace starts with a request to abort; when it is over, the task is STALLED.
unfoldable pub stall_step :
    Python → Text → Runtime → Execution → AbortAnswer → Text → ℕ → ℕ → Manager → Manager
stall_step py tid rt current answer descendants now wall m =
    let started = get_or rt.stall_grace_started_at now in
    let asked = with_registry (ask_once py tid rt answer wall) (set_rt tid (put_grace started) m) in
    if leb (started + rt.thresholds.stall_grace) now
    then with_registry (stall py tid current descendants now wall) asked
    else if is_stalled current
    then asked
    else with_registry (set_execution_state tid Execution.waiting [] now wall) asked
