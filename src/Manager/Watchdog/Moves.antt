-- ===== src/Manager/Watchdog/Moves.antt =====
-- Where a tick of the watchdog moves the execution state of its task: each part's own move, and
-- that of the whole tick.
pub mod Tick
pub mod Policy
use hermes_pi_manager.Manager.Notices.Passive.{finish-state}
use hermes_pi_manager.Registry.Tasks.{get_task}
use hermes_pi_manager.Registry.Events.{append_event}
use hermes_pi_manager.Base.Json.{Json, Members, Python}
use hermes_pi_manager.Manager.State.Reads.{
  get_task-append_event, set_execution_state-state, update_task-state,
}
use hermes_pi_manager.Registry.Rows.{stalled, EventType, Execution, Kind, Registry, Task}
use hermes_pi_manager.Manager.Watchdog.Stalls.{
  ask_once, is_stalled, note_stall, AbortAnswer, diagnostic_snapshot_step, returned,
  send_stall_abort, stall_step, threw,
}
use hermes_pi_manager.Manager.State.{Manager, Runtime, state_of}
use hermes_pi_manager.Manager.Watchdog.Heartbeats.{
  Beat, Heartbeat, apply_changed_heartbeat, apply_state_snapshot, changed, compute_state_hash, dead,
  heartbeat, is_new_hash, mark_unresponsive, put_news, put_snapshot, state_error, state_read,
  unchanged,
}
use hermes_pi_manager.Base.{
  Bool, Option, Text, [], arith, get_or, if◌then◌else◌, leb, none, refl, some, text, text_eq, ℕ,
  ◌+◌, ◌∷◌, ◌≡◌,
}
use mathlib.Core.Option

abbrev pub states : Text → Manager → Option Execution
states j m = state_of (get_task j m.registry)

-- A state after a move of the task `tid`, where `none` is no move.
abbrev pub moved_to : Text → Text → Option Execution → Option Execution → Option Execution
moved_to j tid none x = x
moved_to j tid (some s) x = if text_eq j tid then Option.map (λ _. s) x else x

abbrev pub heal_move : Runtime → Execution → Option Execution
heal_move rt Execution.waiting = some Execution.running
heal_move rt Execution.stalled = some Execution.running
heal_move rt Execution.unresponsive = some (get_or rt.pre_unresponsive_state Execution.running)
heal_move rt _ = none

pub mark_unresponsive-moves :
    (j tid : Text) (current : Execution) (now wall : ℕ) (m : Manager)
    → states j (mark_unresponsive tid current now wall m)
      ≡ moved_to j tid (some Execution.unresponsive) (states j m)
unfolding mark_unresponsive
mark_unresponsive-moves j tid current now wall m =
    set_execution_state-state j tid Execution.unresponsive [] now wall m.registry (λ _. refl)
      (λ _. refl)

pub apply_changed_heartbeat-moves :
    (j tid : Text) (rt : Runtime) (current : Execution) (now wall : ℕ) (m : Manager)
    → states j (apply_changed_heartbeat tid rt current now wall m)
      ≡ moved_to j tid (heal_move rt current) (states j m)
unfolding apply_changed_heartbeat
apply_changed_heartbeat-moves j tid rt current now wall m =
    let to = get_or rt.pre_unresponsive_state Execution.running in
    ground (
      arith,
      set_execution_state-state j tid Execution.running [] now wall m.registry (λ _. refl)
          (λ _. refl),
      set_execution_state-state j tid to [] now wall m.registry (λ _. refl) (λ _. refl),
    )

-- What `_heartbeat` finds, with the row that it reads.
abbrev pub beat_of : (Json → Text) → Runtime → Heartbeat → Option Task → Beat
beat_of digest rt (state_error exc) row = dead
beat_of digest rt (state_read state) row =
    if rt.attached
    then (if is_new_hash (compute_state_hash digest state) row then changed else unchanged state)
    else dead

pub heartbeat-moves :
    (py : Python) (digest : Json → Text) (j tid : Text) (rt : Runtime) (answer : Heartbeat)
    (now wall : ℕ) (m : Manager)
    → let (m', b) = heartbeat py digest tid rt answer now wall m in
      (states j m' ≡ states j m) × (b ≡ beat_of digest rt answer (get_task tid m.registry))
unfolding heartbeat apply_state_snapshot
heartbeat-moves py digest j tid rt (state_error exc) now wall m = ground (
  arith,
  get_task-append_event j tid (text "watchdog") (EventType.other (text "heartbeat_failed")) none
      none (some exc) none wall m.registry,
)
heartbeat-moves py digest j tid rt (state_read state) now wall m =
    let hash = compute_state_hash digest state in
    let news = is_new_hash hash (get_task tid m.registry) in
    ground (
      arith,
      update_task-state j tid (put_snapshot py hash state now) (put_news news now ∷ []) wall
          m.registry (λ t. ground arith) (λ t. ground arith),
    )

pub diagnostic_snapshot_step-moves :
    (py : Python) (j tid : Text) (rt : Runtime) (payload : Members) (alive : Bool) (now wall : ℕ)
    (m : Manager)
    → states j (diagnostic_snapshot_step py tid rt payload alive now wall m) ≡ states j m
unfolding diagnostic_snapshot_step append_event get_task
diagnostic_snapshot_step-moves py j tid rt payload alive now wall m = ground arith

-- Whether the grace is over, for a grace that may start now.
abbrev pub grace_over : Runtime → ℕ → Bool
grace_over rt now = leb (get_or rt.stall_grace_started_at now + rt.thresholds.stall_grace) now

abbrev pub stall_move : Runtime → Execution → ℕ → Option Execution
stall_move rt current now =
    if grace_over rt now
    then some Execution.stalled
    else if is_stalled current
    then none
    else some Execution.waiting

send_stall_abort-tasks :
    (py : Python) (j tid : Text) (rt : Runtime) (answer : AbortAnswer) (wall : ℕ) (r : Registry)
    → get_task j (send_stall_abort py tid rt answer wall r) ≡ get_task j r
unfolding send_stall_abort append_event get_task
send_stall_abort-tasks py j tid rt (returned b) wall r = ground arith
send_stall_abort-tasks py j tid rt (threw exc) wall r = ground arith

note_stall-tasks :
    (j tid : Text) (current : Execution) (descendants : Text) (wall : ℕ) (r : Registry)
    → get_task j (note_stall tid current descendants wall r) ≡ get_task j r
unfolding append_event get_task
note_stall-tasks j tid current descendants wall r = ground arith

pub stall_step-moves :
    (py : Python) (j tid : Text) (rt : Runtime) (current : Execution) (answer : AbortAnswer)
    (descendants : Text) (now wall : ℕ) (m : Manager)
    → states j (stall_step py tid rt current answer descendants now wall m)
      ≡ moved_to j tid (stall_move rt current now) (states j m)
unfolding stall_step
stall_step-moves py j tid rt current answer descendants now wall m =
    let asked = ask_once py tid rt answer wall m.registry in
    let noted = note_stall tid current descendants wall asked in
    ground (
      arith,
      send_stall_abort-tasks py j tid rt answer wall m.registry,
      note_stall-tasks j tid current descendants wall asked,
      set_execution_state-state j tid Execution.waiting [] now wall asked (λ _. refl) (λ _. refl),
      finish-state py j tid Kind.stalled Execution.stalled [] now wall noted (λ _. refl)
          (λ _. refl),
    )
