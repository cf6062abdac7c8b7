-- ===== src/Manager/Watchdog.antt =====
-- core.py: `watchdog_tick` and its parts. What the process answers in one tick is a parameter.
pub mod Loop
pub mod Moves
pub mod Evidence
use hermes_pi_manager.Base.Int.{ℤ}
use hermes_pi_manager.Manager.Notices.{enqueue_notification, request_terminal_wake}
use hermes_pi_manager.Manager.Watchdog.Heartbeats.{
  heartbeat, Beat, Heartbeat, apply_changed_heartbeat, changed, dead, mark_unresponsive, unchanged,
}
use hermes_pi_manager.Base.Json.{Json, Members, Python}
use hermes_pi_manager.Manager.State.{
  Manager, Runtime, rt_of, set_execution_state, set_rt, with_registry,
}
use hermes_pi_manager.Registry.Events.{append_event}
use hermes_pi_manager.Manager.Watchdog.Stalls.{AbortAnswer, diagnostic_snapshot_step, stall_step}
use hermes_pi_manager.Registry.Rows.{EventType, Execution, Kind, Registry, Task, is_final, sent}
use hermes_pi_manager.Base.{
  Bool, Option, Text, [], false, if◌then◌else◌, is_none, leb, ltb, none, or_time, some, text, true,
  ℕ, ◌++◌, ◌+◌, ◌∷◌,
}
use hermes_pi_manager.Manager.Aborts.{abort_row, polled}
use hermes_pi_manager.Messages.{show_ℤ}
use hermes_pi_manager.Registry.Tasks.{bound_text, get_task, max_summary_chars, update_task}
pub mod Heartbeats
pub mod Stalls

-- `poll()`, the tail of its stderr, and the findings on the process tree, as their JSON texts.
pub record Observed : Type 0 where
  pub poll : Option ℤ
  pub stderr : Text
  pub heartbeat : Heartbeat
  pub activity : Option Text
  pub abort_answer : AbortAnswer
  pub descendants : Text
  pub exit_after_abort : Option ℤ

module _ (py : Python) (digest : Json → Text) (obs : Observed) (now wall : ℕ) where
  abbrev pub put_crash : ℤ → Task → Task
  put_crash code t = record t {
    exit_code = some code;
    last_error = some (
        bound_text (text "process exited before settlement (rc=" ++ (show_ℤ code ++ text ")"))
          max_summary_chars);
    stderr_tail = some (bound_text obs.stderr max_summary_chars);
  }

  abbrev pub crash : Text → ℤ → Registry → Registry
  crash tid code r = request_terminal_wake py tid now wall (
      enqueue_notification py tid Kind.failed now wall
        (set_execution_state tid Execution.crashed (put_crash code ∷ []) now wall r))

  abbrev pub put_progress : Task → Task
  put_progress t = record t { last_progress_at = some now }

  -- A tool's process tree that used the CPU renews the lease of progress.
  abbrev pub renew : Text → Text → Manager → Manager
  renew tid activity m =
      set_rt tid (λ rt. record rt { stall_grace_started_at = none })
        (with_registry
          (λ r.
            append_event tid (text "watchdog") (EventType.other (text "tool_activity_observed"))
              none none (some activity) none wall (update_task tid (put_progress ∷ []) wall r))
          m)

  abbrev pub active_tool_of : Execution → Option Text
  active_tool_of Execution.tool_running = obs.activity
  active_tool_of _ = none

  -- The heartbeat succeeded and changed nothing, after the quiet threshold.
  abbrev pub quiet : Text → Runtime → Task → Members → Manager → Manager
  quiet tid rt row payload m = elim (active_tool_of row.execution_state) [
    | some activity ↦ renew tid activity m
    | none ↦
        stall_step py tid rt row.execution_state obs.abort_answer obs.descendants now wall
          (diagnostic_snapshot_step py tid rt payload (is_none obs.poll) now wall m)
  ]

  abbrev pub after_beat :
      Text → Runtime → Execution → (Members → Manager → Manager) → Manager × Beat → Manager
  after_beat tid rt current k (m, dead) = mark_unresponsive tid current now wall m
  after_beat tid rt current k (m, changed) = apply_changed_heartbeat tid rt current now wall m
  after_beat tid rt current k (m, unchanged payload) = k payload m

  abbrev pub quiet_threshold : Runtime → Execution → ℕ
  quiet_threshold rt Execution.tool_running = rt.thresholds.tool_stall
  quiet_threshold rt _ = rt.thresholds.soft_stall

  abbrev pub is_resting : Execution → Bool
  is_resting Execution.running = true
  is_resting Execution.waiting = true
  is_resting _ = false

  abbrev pub beat : Text → Runtime → Manager → Manager × Beat
  beat tid rt m = heartbeat py digest tid rt obs.heartbeat now wall m

  -- `known` is the payload of an unchanged heartbeat of this tick. `idle < d` is `now < last + d`.
  abbrev pub by_idle : Text → Runtime → Task → Option Members → Manager → Manager
  by_idle tid rt row known m =
      let last = or_time row.last_progress_at now in
      let current = row.execution_state in
      if ltb now (last + rt.thresholds.waiting)
      then m
      else if ltb now (last + quiet_threshold rt current)
      then (if is_resting current
          then with_registry (set_execution_state tid Execution.waiting [] now wall) m
          else m)
      else elim known [
        | some payload ↦ quiet tid rt row payload m
        | none ↦ after_beat tid rt current (quiet tid rt row) (beat tid rt m)
      ]

  abbrev pub is_heartbeat_due : Runtime → Task → Bool
  is_heartbeat_due rt row = leb (or_time row.last_state_at now + rt.thresholds.heartbeat) now

  abbrev pub by_heartbeat : Text → Runtime → Task → Manager → Manager
  by_heartbeat tid rt row m =
      if is_heartbeat_due rt row
      then after_beat tid rt row.execution_state (λ payload. by_idle tid rt row (some payload))
          (beat tid rt m)
      else by_idle tid rt row none m

  abbrev pub is_capped : Option ℕ → Task → Bool
  is_capped none row = false
  is_capped (some cap) row = leb (or_time row.started_at now + cap) now

  -- `_emergency_cap_abort` is `abort_task` with a reason of its own.
  abbrev pub tick_row : Text → Runtime → Task → Manager → Manager
  tick_row tid rt row m =
      if is_final row.execution_state
      then m
      else if is_capped rt.thresholds.emergency_cap row
      then abort_row py tid (text "EMERGENCY_CAP_EXCEEDED") obs.exit_after_abort now wall row m
      else elim (polled (some rt) obs.poll) [
        | some code ↦ with_registry (crash tid code) m
        | none ↦ by_heartbeat tid rt row m
      ]

  abbrev pub tick_for : Text → Option Runtime → Option Task → Manager → Manager
  tick_for tid (some rt) (some row) m = tick_row tid rt row m
  tick_for tid _ _ m = m

  unfoldable pub watchdog_tick : Text → Manager → Manager
  watchdog_tick tid m = tick_for tid (rt_of tid m) (get_task tid m.registry) m
