-- ===== src/Manager/Watchdog/Heartbeats.antt =====
-- core.py: the `get_state` heartbeat and what it changes: `compute_state_hash`,
-- `_apply_state_snapshot`, `_heartbeat`, `_mark_unresponsive` and `_apply_changed_heartbeat`.
use hermes_pi_manager.Registry.Rows.{EventType, Execution, Registry, Task}
use hermes_pi_manager.Manager.Notices.{opt_eq}
use hermes_pi_manager.Base.Json.{Json, Members, Python, get_member, member, number, obj, truthy}
use hermes_pi_manager.Manager.State.{Manager, Runtime, set_execution_state, set_rt, with_registry}
use hermes_pi_manager.Registry.Events.{append_event}
use hermes_pi_manager.Base.{
  Bool, List, Option, Text, [], false, get_or, if◌then◌else◌, is_none, leb, none, not, some, text,
  text_eq, true, ℕ, ◌&&◌, ◌*◌, ◌+◌, ◌-◌, ◌∷◌,
}
use hermes_pi_manager.Registry.Tasks.{get_task, update_task}

-- `get_state` returned a state, or raised.
pub data Heartbeat : Type 0 where
  state_read : Members → Heartbeat
  state_error : Text → Heartbeat

-- The result of `_heartbeat`.
pub data Beat : Type 0 where
  dead changed : Beat
  unchanged : Members → Beat

abbrev keep_member : Text → Members → Members → Members
keep_member k state rest = elim (get_member k state) [ none ↦ rest | some v ↦ member k v rest ]

abbrev keep_members : List Text → Members → Members
keep_members [] state = Members.end
keep_members (k ∷ ks) state = keep_member k state (keep_members ks state)

abbrev progress_fields : List Text
progress_fields =
    text "messageCount"
    ∷ text "pendingMessageCount"
    ∷ text "isStreaming"
    ∷ text "isCompacting"
    ∷ text "activeTool"
    ∷ text "activeRequestId"
    ∷ []

-- `digest` is the SHA-256 of the canonical JSON text.
unfoldable pub compute_state_hash : (Json → Text) → Members → Text
compute_state_hash digest state = digest (obj (keep_members progress_fields state))

abbrev digits : ℕ → Text → Option ℕ
digits n [] = some n
digits n (c ∷ cs) = if leb b'0' c && leb c b'9' then digits (n * 10 + (c - b'0')) cs else none

-- The count column; a value that is no natural number is left out.
abbrev count_member : Members → Option ℕ
count_member state = elim (get_member (text "messageCount") state) [
  | some (number (c ∷ cs)) ↦ digits 0 (c ∷ cs)
  | _ ↦ none
]

abbrev flag_member : Python → Text → Members → Bool
flag_member py k state = elim (get_member k state) [ none ↦ false | some v ↦ truthy py v ]

abbrev pub put_snapshot : Python → Text → Members → ℕ → Task → Task
put_snapshot py hash state now t = record t {
  last_state_at = some now;
  last_state_hash = some hash;
  message_count = count_member state;
  is_streaming = some (flag_member py (text "isStreaming") state);
  is_compacting = some (flag_member py (text "isCompacting") state);
}

abbrev pub put_news : Bool → ℕ → Task → Task
put_news moved now t =
    if moved then record t { last_state_changed_at = some now; last_progress_at = some now } else t

abbrev pub is_new_hash : Text → Option Task → Bool
is_new_hash hash none = true
is_new_hash hash (some t) = not (opt_eq text_eq (some hash) t.last_state_hash)

unfoldable pub apply_state_snapshot :
    Python → (Json → Text) → Text → Members → ℕ → ℕ → Registry → Registry × Bool
apply_state_snapshot py digest tid state now wall r =
    let hash = compute_state_hash digest state in
    let moved = is_new_hash hash (get_task tid r) in
    (update_task tid (put_snapshot py hash state now ∷ put_news moved now ∷ []) wall r, moved)

unfoldable pub heartbeat :
    Python → (Json → Text) → Text → Runtime → Heartbeat → ℕ → ℕ → Manager → Manager × Beat
heartbeat py digest tid rt (state_read state) now wall m =
    let (r, moved) = apply_state_snapshot py digest tid state now wall m.registry in
    if rt.attached
    then (record m { registry = r }, if moved then changed else unchanged state)
    else (m, dead)
heartbeat py digest tid rt (state_error exc) now wall m =
    if rt.attached
    then (
      with_registry
          (append_event tid (text "watchdog") (EventType.other (text "heartbeat_failed")) none none
            (some exc) none wall)
          m,
      dead,
    )
    else (m, dead)

abbrev pub remember : Execution → Runtime → Runtime
remember current rt =
    if is_none rt.pre_unresponsive_state
    then record rt { pre_unresponsive_state = some current }
    else rt

unfoldable pub mark_unresponsive : Text → Execution → ℕ → ℕ → Manager → Manager
mark_unresponsive tid current now wall m =
    with_registry (set_execution_state tid Execution.unresponsive [] now wall)
      (set_rt tid (remember current) m)

abbrev pub clear_start : Runtime → Runtime
clear_start rt = record rt { stall_grace_started_at = none }

abbrev pub forget : Runtime → Runtime
forget rt = record rt { stall_grace_started_at = none; pre_unresponsive_state = none }

unfoldable pub apply_changed_heartbeat : Text → Runtime → Execution → ℕ → ℕ → Manager → Manager
apply_changed_heartbeat tid rt Execution.waiting now wall m =
    with_registry (set_execution_state tid Execution.running [] now wall) (set_rt tid clear_start m)
apply_changed_heartbeat tid rt Execution.stalled now wall m =
    with_registry (set_execution_state tid Execution.running [] now wall) (set_rt tid clear_start m)
apply_changed_heartbeat tid rt Execution.unresponsive now wall m =
    with_registry
      (set_execution_state tid (get_or rt.pre_unresponsive_state Execution.running) [] now wall)
      (set_rt tid forget m)
apply_changed_heartbeat tid rt _ now wall m = set_rt tid clear_start m
