-- ===== src/Manager/Recovery.antt =====
-- core.py: recovery after a restart, of one task: `recover_task`, with its check of the session's
-- identity, and `_recover_settled_verification`. The file, the process and its answers are
-- parameters; an id or a path that is no string reads as missing.
use hermes_pi_manager.Manager.State.{
  Manager, Runtime, Thresholds, VerifierSpec, rt_of, set_execution_state, set_rt,
}
pub mod Reattach
pub mod Identity
pub mod Writes
pub mod Keys
pub mod Elsewhere
pub mod Sweep
pub mod Decided
pub mod Lost
use mathlib.Core.Option
use hermes_pi_manager.Messages.{state_text}
use hermes_pi_manager.Registry.Events.{append_event}
use hermes_pi_manager.Registry.Tasks.{bound_text, max_summary_chars, update_task}
use hermes_pi_manager.Registry.Rows.{
  EventType, Execution, Kind, Registry, Task, Verification, verifier,
}
use hermes_pi_manager.Manager.Notices.{
  enqueue_notification, opt_eq, request_terminal_wake, signature_of,
}
use hermes_pi_manager.Manager.Events.{text_member}
use hermes_pi_manager.Manager.Watchdog.Heartbeats.{Heartbeat}
use hermes_pi_manager.Base.Json.{
  Json, Members, Python, bool, get_member, member, null, number, obj, str,
}
use hermes_pi_manager.Base.{
  Bool, List, Option, Text, [], false, if◌then◌else◌, is_empty, is_none, none, not, some, text,
  text_eq, true, ℕ, ◌&&◌, ◌++◌, ◌||◌, ◌∷◌,
}

-- What recovery finds: whether the session file is there and not empty, whether the spawn raised,
-- the answer to `get_state`, and the replayed entries with their ids, or the error of `get_entries`.
pub record Probe : Type 0 where
  pub file_ok : Bool
  pub spawn_error : Option Text
  pub pid : Option ℕ
  pub answer : Heartbeat
  pub entries_error : Option Text
  pub entries : List Text
  pub leaf : Option Text

pub data Recovered : Type 0 where
  rejected : Text → Recovered
  reattached : ℕ → Recovered
  reverified : Verification → Recovered
  left_alone : Recovered

abbrev pub given : Option Text → Bool
given none = false
given (some s) = not (is_empty s)

abbrev pub same_text : Option Text → Option Text → Bool
same_text = opt_eq text_eq

-- `messageCount in (None, 0)`, where False is 0 too.
abbrev no_messages : Python → Option Json → Bool
no_messages py none = true
no_messages py (some null) = true
no_messages py (some (bool b)) = not b
no_messages py (some (number n)) = py.number_is_zero n
no_messages py _ = false

-- `actual_id is None`.
abbrev is_missing : Option Json → Bool
is_missing none = true
is_missing (some null) = true
is_missing _ = false

-- `identity_ok`; a session id that is no string is not the expected one. `canonical` is the canonical form of a path.
unfoldable pub identity_ok : Python → (Text → Text) → Task → Members → Bool
identity_ok py canonical row state =
    let actual_id = text_member (text "sessionId") state in
    let actual_file = text_member (text "sessionFile") state in
    let expected_id = row.expected_session_id in
    let expected_file = row.expected_session_file in
    let id_ok = not (given expected_id) || same_text actual_id expected_id in
    let file_ok =
      not (given expected_file)
      || (given actual_file
          && same_text (Option.map canonical actual_file) (Option.map canonical expected_file)) in
    let is_new =
      is_missing (get_member (text "sessionId") state)
      || (no_messages py (get_member (text "messageCount") state) && not (given expected_id)) in
    id_ok && (file_ok && not (is_new && not (given expected_id)))

abbrev pub put_last_error : Text → Task → Task
put_last_error reason t = record t { last_error = some (bound_text reason max_summary_chars) }

abbrev pub reason_summary : Python → Text → Text
reason_summary py reason = py.dumps (obj (member (text "reason") (str reason) Members.end))

-- `_reject`.
unfoldable pub reject : Python → Text → Text → Execution → ℕ → ℕ → Registry → Registry
reject py tid reason before now wall r = request_terminal_wake py tid now wall (
    enqueue_notification py tid Kind.failed now wall (
      append_event tid (text "recovery") (EventType.other (text "recovery_rejected"))
        (some (state_text before)) (some (state_text Execution.aborted))
        (some (reason_summary py reason)) none wall
        (set_execution_state tid Execution.aborted (put_last_error reason ∷ []) now wall r)))

abbrev pub fresh_runtime : Text → Thresholds → Option VerifierSpec → Bool → Runtime
fresh_runtime tid limits gate attached = record {
  task_id = tid;
  attached = attached;
  thresholds = limits;
  verifier = gate;
  stall_grace_started_at = none;
  pre_unresponsive_state = none;
  stop_watchdog = false;
  watched = false;
  last_snapshot_sig = none;
  last_snapshot_at = none;
  last_progress_notified_at = none;
  last_progress_notified_sig = none;
}

-- `self._runtimes[task_id] = rt`.
abbrev pub put_runtime : Text → Runtime → Manager → Manager
put_runtime tid rt m =
    if is_none (rt_of tid m)
    then record m { runtimes = m.runtimes ++ rt ∷ [] }
    else set_rt tid (λ old. rt) m

-- `_seed_progress_baseline`.
abbrev pub seed : Option Task → Runtime → Runtime
seed none rt = rt
seed (some t) rt =
    if is_none rt.last_progress_notified_sig
    then record rt { last_progress_notified_sig = some (signature_of t) }
    else rt

abbrev pub put_session : Option ℕ → Members → Task → Task
put_session pid state t = record t {
  pid = pid;
  session_id = text_member (text "sessionId") state;
  session_file = text_member (text "sessionFile") state;
}

abbrev pub put_leaf : Text → Task → Task
put_leaf leaf t = record t { last_entry_id = some leaf }

abbrev pub put_progress_at : ℕ → Task → Task
put_progress_at now t = record t { last_progress_at = some now }

unfoldable pub replay : Python → Text → List Text → ℕ → Registry → Registry
replay py tid [] wall r = r
replay py tid (id ∷ ids) wall r = replay py tid ids wall (
    append_event tid (text "recovery_replay") (EventType.other (text "entry_replayed")) none none
      (some (py.dumps (obj (member (text "entry_id") (str id) Members.end)))) none wall r)

abbrev pub note_verifier : Text → Option Text → ℕ → Registry → Registry
note_verifier tid none wall r = r
note_verifier tid (some argv) wall r =
    append_event tid (text "recovery") (EventType.other (text "verifier_restored")) none none
      (some argv) none wall r

abbrev pub move_leaf : Text → Option Text → ℕ → Registry → Registry
move_leaf tid (some (c ∷ s)) wall r = update_task tid (put_leaf (c ∷ s) ∷ []) wall r
move_leaf tid _ wall r = r

abbrev pub replay_entries : Python → Text → Probe → ℕ → Registry → Registry
replay_entries py tid probe wall r = elim probe.entries_error [
  | none ↦ move_leaf tid probe.leaf wall (replay py tid probe.entries wall r)
  | some exc ↦
      append_event tid (text "recovery") (EventType.other (text "get_entries_failed")) none none
        (some exc) none wall r
]
