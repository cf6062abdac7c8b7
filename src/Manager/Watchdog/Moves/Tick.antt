-- ===== src/Manager/Watchdog/Moves/Tick.antt =====
-- Where a whole tick moves the execution state of its task.
use hermes_pi_manager.Registry.Tasks.{get_task, update_task}
use hermes_pi_manager.Base.Json.{Json, Members, Python}
use hermes_pi_manager.Manager.State.Reads.{
  get_task-append_event, set_execution_state-state, update_task-state,
}
use hermes_pi_manager.Manager.Watchdog.Moves.{
  apply_changed_heartbeat-moves, beat_of, diagnostic_snapshot_step-moves, heal_move,
  heartbeat-moves, mark_unresponsive-moves, moved_to, stall_move, stall_step-moves, states,
}
use hermes_pi_manager.Manager.Watchdog.Stalls.{diagnostic_snapshot_step}
use hermes_pi_manager.Manager.Watchdog.{
  Observed, active_tool_of, after_beat, beat, by_idle, is_resting, put_progress, quiet,
  quiet_threshold, renew,
}
use hermes_pi_manager.Base.{
  Option, Option-cases, Text, [], ap, arith, if◌then◌else◌, inl, inr, is_none, ltb, none, or_time,
  refl, some, text, ℕ, ◌+◌, ◌∙◌, ◌∷◌, ◌≡◌,
}
use hermes_pi_manager.Manager.Watchdog.Heartbeats.{Beat, changed, dead, heartbeat, unchanged}
use hermes_pi_manager.Manager.State.{Manager, Runtime, state_of}
use hermes_pi_manager.Registry.Rows.{EventType, Execution, Task}

module _ (py : Python) (digest : Json → Text) (obs : Observed) (now wall : ℕ) where
  renew-moves :
      (j tid activity : Text) (m : Manager)
      → states j (renew py digest obs now wall tid activity m) ≡ states j m
  renew-moves j tid activity m =
      let put = update_task tid (put_progress py digest obs now wall ∷ []) wall m.registry in
      ap state_of (
        get_task-append_event j tid (text "watchdog")
          (EventType.other (text "tool_activity_observed")) none none (some activity) none wall put)
      ∙ update_task-state j tid (put_progress py digest obs now wall) [] wall m.registry (λ _. refl)
          (λ _. refl)

  abbrev pub quiet_move : Runtime → Execution → Option Execution
  quiet_move rt current = elim (active_tool_of py digest obs now wall current) [
    | some activity ↦ none
    | none ↦ stall_move rt current now
  ]

  pub quiet-moves :
      (j tid : Text) (rt : Runtime) (row : Task) (payload : Members) (m : Manager)
      → states j (quiet py digest obs now wall tid rt row payload m)
        ≡ moved_to j tid (quiet_move rt row.execution_state) (states j m)
  quiet-moves j tid rt row payload m =
      let snapped = diagnostic_snapshot_step py tid rt payload (is_none obs.poll) now wall m in
      elim (Option-cases (active_tool_of py digest obs now wall row.execution_state)) [
        | inl e ↦ ground (
          arith,
          diagnostic_snapshot_step-moves py j tid rt payload (is_none obs.poll) now wall m,
          stall_step-moves py j tid rt row.execution_state obs.abort_answer obs.descendants now wall
              snapped,
        )
        | inr (a, e) ↦ ground (arith, renew-moves j tid a m)
      ]

  -- The move after a heartbeat, where `next` is the move of an unchanged one.
  abbrev pub beat_move : Runtime → Execution → Beat → Option Execution → Option Execution
  beat_move rt current dead next = some Execution.unresponsive
  beat_move rt current changed next = heal_move rt current
  beat_move rt current (unchanged payload) next = next

  after_beat-moves :
      (j tid : Text) (rt : Runtime) (current : Execution) (k : Members → Manager → Manager)
      (next : Option Execution) (m m' : Manager) (b : Beat)
      → states j m' ≡ states j m
      → ((payload : Members) (n : Manager)
          → states j (k payload n) ≡ moved_to j tid next (states j n))
      → states j (after_beat py digest obs now wall tid rt current k (m', b))
        ≡ moved_to j tid (beat_move rt current b next) (states j m)
  after_beat-moves j tid rt current k next m m' dead e h =
      mark_unresponsive-moves j tid current now wall m'
      ∙ ap (moved_to j tid (some Execution.unresponsive)) e
  after_beat-moves j tid rt current k next m m' changed e h =
      apply_changed_heartbeat-moves j tid rt current now wall m'
      ∙ ap (moved_to j tid (heal_move rt current)) e
  after_beat-moves j tid rt current k next m m' (unchanged payload) e h =
      h payload m' ∙ ap (moved_to j tid next) e

  pub beaten-moves :
      (j tid : Text) (rt : Runtime) (current : Execution) (k : Members → Manager → Manager)
      (next : Option Execution) (m : Manager)
      → ((payload : Members) (n : Manager)
          → states j (k payload n) ≡ moved_to j tid next (states j n))
      → states j (
          after_beat py digest obs now wall tid rt current k (beat py digest obs now wall tid rt m))
        ≡ moved_to j tid
            (beat_move rt current (beat_of digest rt obs.heartbeat (get_task tid m.registry)) next)
            (states j m)
  beaten-moves j tid rt current k next m h =
      let (m', b) = heartbeat py digest tid rt obs.heartbeat now wall m in
      let (e, f) = heartbeat-moves py digest j tid rt obs.heartbeat now wall m in
      after_beat-moves j tid rt current k next m m' b e h
      ∙ ap (λ x. moved_to j tid (beat_move rt current x next) (states j m)) f

  -- Of a tick that has sent no heartbeat yet, where the heartbeat would find `b`.
  abbrev pub idle_move : Runtime → Task → Option Beat → Option Execution
  idle_move rt row b =
      let last = or_time row.last_progress_at now in
      let current = row.execution_state in
      if ltb now (last + rt.thresholds.waiting)
      then none
      else if ltb now (last + quiet_threshold py digest obs now wall rt current)
      then (if is_resting py digest obs now wall current then some Execution.waiting else none)
      else elim b [
        | none ↦ quiet_move rt current
        | some x ↦ beat_move rt current x (quiet_move rt current)
      ]

  pub by_idle-known :
      (j tid : Text) (rt : Runtime) (row : Task) (payload : Members) (m : Manager)
      → states j (by_idle py digest obs now wall tid rt row (some payload) m)
        ≡ moved_to j tid (idle_move rt row none) (states j m)
  by_idle-known j tid rt row payload m = ground (
    arith,
    set_execution_state-state j tid Execution.waiting [] now wall m.registry (λ _. refl)
        (λ _. refl),
    quiet-moves j tid rt row payload m,
  )

  pub by_idle-none :
      (j tid : Text) (rt : Runtime) (row : Task) (m : Manager)
      → states j (by_idle py digest obs now wall tid rt row none m)
        ≡ moved_to j tid
            (idle_move rt row (some (beat_of digest rt obs.heartbeat (get_task tid m.registry))))
            (states j m)
  by_idle-none j tid rt row m =
      let current = row.execution_state in
      ground (
        arith,
        set_execution_state-state j tid Execution.waiting [] now wall m.registry (λ _. refl)
            (λ _. refl),
        beaten-moves j tid rt current (quiet py digest obs now wall tid rt row)
            (quiet_move rt current) m (quiet-moves j tid rt row),
      )
