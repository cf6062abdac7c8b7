-- ===== src/Manager/Watchdog/Moves/Policy.antt =====
-- The policy of the watchdog: which evidence each verdict of a tick needs.
use hermes_pi_manager.Manager.Notices.Passive.{finish-state}
use hermes_pi_manager.Registry.Tasks.{get_task}
use hermes_pi_manager.Manager.Aborts.{polled}
use hermes_pi_manager.Manager.Aborts.Kill.{abort_row-moves}
use hermes_pi_manager.Manager.Watchdog.Moves.Tick.{
  beat_move, beaten-moves, by_idle-known, by_idle-none, idle_move,
}
use hermes_pi_manager.Manager.State.{Manager, Runtime, rt_of, state_of}
use hermes_pi_manager.Manager.Watchdog.Moves.{beat_of, moved_to, states}
use hermes_pi_manager.Base.Int.{ℤ}
use hermes_pi_manager.Manager.Watchdog.{
  Observed, by_idle, crash, is_capped, is_heartbeat_due, put_crash, tick_row, watchdog_tick,
}
use hermes_pi_manager.Base.{
  Option, Option-cases, Text, [], arith, if◌then◌else◌, inl, inr, none, refl, some, text, ℕ, ◌∷◌,
  ◌≡◌,
}
use hermes_pi_manager.Registry.Rows.{Execution, Kind, Registry, Task, is_final}
use hermes_pi_manager.Base.Json.{Json, Python}

module _ (py : Python) (digest : Json → Text) (obs : Observed) (now wall : ℕ) where
  -- The move of a tick, of a task with this runtime and row.
  abbrev pub tick_move : Runtime → Task → Option Execution
  tick_move rt row =
      let current = row.execution_state in
      let b = beat_of digest rt obs.heartbeat (some row) in
      if is_final current
      then none
      else if is_capped py digest obs now wall rt.thresholds.emergency_cap row
      then some Execution.aborted
      else elim (polled (some rt) obs.poll) [
        | some code ↦ some Execution.crashed
        | none ↦
            if is_heartbeat_due py digest obs now wall rt row
            then beat_move py digest obs now wall rt current b
                (idle_move py digest obs now wall rt row none)
            else idle_move py digest obs now wall rt row (some b)
      ]

  crash-moves :
      (j tid : Text) (code : ℤ) (r : Registry)
      → state_of (get_task j (crash py digest obs now wall tid code r))
        ≡ moved_to j tid (some Execution.crashed) (state_of (get_task j r))
  crash-moves j tid code r =
      finish-state py j tid Kind.failed Execution.crashed
        (put_crash py digest obs now wall code ∷ []) now wall r (λ _. refl) (λ _. refl)

  tick_row-moves :
      (j tid : Text) (rt : Runtime) (row : Task) (m : Manager)
      → get_task tid m.registry ≡ some row
      → states j (tick_row py digest obs now wall tid rt row m)
        ≡ moved_to j tid (tick_move rt row) (states j m)
  tick_row-moves j tid rt row m e =
      let current = row.execution_state in
      let known = idle_move py digest obs now wall rt row none in
      elim (Option-cases (polled (some rt) obs.poll)) [
        | inr (code, p) ↦ ground (
          arith,
          crash-moves j tid code m.registry,
          abort_row-moves py j tid (text "EMERGENCY_CAP_EXCEEDED") obs.exit_after_abort now wall row
              m,
        )
        | inl p ↦ ground (
          arith,
          abort_row-moves py j tid (text "EMERGENCY_CAP_EXCEEDED") obs.exit_after_abort now wall row
              m,
          by_idle-none py digest obs now wall j tid rt row m,
          beaten-moves py digest obs now wall j tid rt current
              (λ payload. by_idle py digest obs now wall tid rt row (some payload)) known m
              (by_idle-known py digest obs now wall j tid rt row),
        )
      ]

  pub watchdog_tick-moves :
      (j tid : Text) (rt : Runtime) (row : Task) (m : Manager)
      → rt_of tid m ≡ some rt
      → get_task tid m.registry ≡ some row
      → states j (watchdog_tick py digest obs now wall tid m)
        ≡ moved_to j tid (tick_move rt row) (states j m)
  unfolding watchdog_tick
  watchdog_tick-moves j tid rt row m e f = ground (arith, tick_row-moves j tid rt row m f)
