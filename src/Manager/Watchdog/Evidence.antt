-- ===== src/Manager/Watchdog/Evidence.antt =====
-- The evidence that each verdict of the watchdog needs.
use hermes_pi_manager.Manager.Watchdog.Stalls.{is_stalled}
use hermes_pi_manager.Base.Json.{Json, Python}
use hermes_pi_manager.Manager.Events.{recover_from}
use hermes_pi_manager.Manager.Watchdog.Heartbeats.{
  apply_changed_heartbeat, mark_unresponsive, remember, Beat, dead, unchanged,
}
use hermes_pi_manager.Registry.Rows.{Execution, Task, is_final}
use hermes_pi_manager.Manager.Watchdog.Moves.{
  apply_changed_heartbeat-moves, mark_unresponsive-moves, grace_over, beat_of, states,
}
use hermes_pi_manager.Manager.State.{runtime_key, Manager, Runtime, rt_of}
use hermes_pi_manager.Manager.Watchdog.{
  Observed, active_tool_of, is_capped, quiet_threshold, watchdog_tick,
}
use hermes_pi_manager.Manager.Watchdog.Moves.Policy.{tick_move, watchdog_tick-moves}
use hermes_pi_manager.Manager.Aborts.{polled}
use hermes_pi_manager.Registry.Tasks.{get_task}
use hermes_pi_manager.Base.{
  select-update_where, Bool, Option, Text, arith, false, get_or, is_none, none, or_time, some,
  text_eq_iff, true, ℕ, ◌+◌, ◌↔◌, ◌≡◌, ◌≢◌, ◌≤◌,
}

abbrev pub is_unchanged : Beat → Bool
is_unchanged (unchanged payload) = true
is_unchanged _ = false

module _ (py : Python) (digest : Json → Text) (obs : Observed) (now wall : ℕ) (tid : Text)
    (rt : Runtime) (row : Task) (m : Manager) (has_rt : rt_of tid m ≡ some rt)
    (has_row : get_task tid m.registry ≡ some row)
    (is_live : is_final row.execution_state ≡ false) where
  abbrev after : Option Execution
  after = states tid (watchdog_tick py digest obs now wall tid m)

  -- The state that a healing returns to is the remembered one.
  abbrev heals_to : Execution
  heals_to = recover_from row.execution_state (some rt)

  after-move : after ≡ some (get_or (tick_move py digest obs now wall rt row) row.execution_state)
  after-move = ground (
    arith,
    text_eq_iff tid tid,
    watchdog_tick-moves py digest obs now wall tid tid rt row m has_rt has_row,
  )

  -- A tick leaves a task in ABORTED exactly when it has an emergency cap and its age has reached it,
  -- and never leaves it SETTLED, as long as the state that a healing returns to is not final.
  pub tick_aborts_by_cap :
      is_final heals_to ≡ false
      → ((after ≡ some Execution.aborted)
          ↔ (is_capped py digest obs now wall rt.thresholds.emergency_cap row ≡ true))
        × (after ≢ some Execution.settled)
  tick_aborts_by_cap live = ground (arith, after-move)

  -- A tick of a task that is not capped leaves it CRASHED exactly when it has a transport whose
  -- process has ended, as long as the state that a healing returns to is not final.
  pub tick_crashes_on_exit :
      is_final heals_to ≡ false
      → is_capped py digest obs now wall rt.thresholds.emergency_cap row ≡ false
      → (after ≡ some Execution.crashed) ↔ (is_none (polled (some rt) obs.poll) ≡ false)
  tick_crashes_on_exit live free = ground (arith, after-move)

  -- A task that is not STALLED, and would not be healed to that, is found STALLED by a tick only if
  -- its quiet threshold has passed since the last progress, the grace is over, the process runs, its
  -- answer to `get_state` has an unchanged hash, and no tool of a running tool's process tree works.
  pub tick_stalls_on_evidence :
      is_stalled row.execution_state ≡ false
      → is_stalled heals_to ≡ false
      → after ≡ some Execution.stalled
      → let current = row.execution_state in
        (or_time row.last_progress_at now + quiet_threshold py digest obs now wall rt current ≤ now)
        × (grace_over rt now ≡ true)
        × (polled (some rt) obs.poll ≡ none)
        × (is_unchanged (beat_of digest rt obs.heartbeat (some row)) ≡ true)
        × (active_tool_of py digest obs now wall current ≡ none)
  tick_stalls_on_evidence fresh heals e = ground (arith, after-move)

  -- A tick finds a responsive task UNRESPONSIVE only if its heartbeat failed.
  pub tick_unresponsive_on_failure :
      heals_to ≢ Execution.unresponsive
      → row.execution_state ≢ Execution.unresponsive
      → after ≡ some Execution.unresponsive
      → beat_of digest rt obs.heartbeat (some row) ≡ dead
  tick_unresponsive_on_failure f n e = ground (arith, after-move)

mark_unresponsive-runtime :
    (tid : Text) (rt : Runtime) (current : Execution) (now wall : ℕ) (m : Manager)
    → rt_of tid m ≡ some rt
    → rt_of tid (mark_unresponsive tid current now wall m) ≡ some (remember current rt)
unfolding mark_unresponsive
mark_unresponsive-runtime tid rt current now wall m e = ground (
  arith,
  text_eq_iff tid tid,
  select-update_where runtime_key tid tid (λ _. true) (remember current) m.runtimes
      (λ x. ground arith),
)

-- A heartbeat that fails and a later one with a changed hash bring a task back to the state that it
-- had before, whatever that is, STALLED too, if no other state was remembered.
pub heartbeat_heals_back :
    (tid : Text) (rt : Runtime) (current : Execution) (now later wall : ℕ) (m : Manager)
    → rt_of tid m ≡ some rt
    → rt.pre_unresponsive_state ≡ none
    → states tid m ≡ some current
    → let m' = mark_unresponsive tid current now wall m in
      let rt' = get_or (rt_of tid m') rt in
      (states tid m' ≡ some Execution.unresponsive)
      × (states tid (apply_changed_heartbeat tid rt' Execution.unresponsive later wall m')
          ≡ some current)
heartbeat_heals_back tid rt current now later wall m e n s =
    let m' = mark_unresponsive tid current now wall m in
    let rt' = get_or (rt_of tid m') rt in
    ground (
      arith,
      text_eq_iff tid tid,
      mark_unresponsive-runtime tid rt current now wall m e,
      mark_unresponsive-moves tid tid current now wall m,
      apply_changed_heartbeat-moves tid tid rt' Execution.unresponsive later wall m',
    )
