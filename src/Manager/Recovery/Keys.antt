-- ===== src/Manager/Recovery/Keys.antt =====
-- core.py: a recovery keeps the ids of the tasks distinct.
use hermes_pi_manager.Manager.Watchdog.Heartbeats.{apply_state_snapshot}
use hermes_pi_manager.Manager.Finish.Announced.{verified-TasksDistinct}
use hermes_pi_manager.Manager.Verifier.{run_verifier_now, verified}
use hermes_pi_manager.Registry.Tasks.Cas.{TasksDistinct, update_task-TasksDistinct}
use hermes_pi_manager.Registry.Events.{append_event}
use hermes_pi_manager.Manager.State.Reads.{start_watchdog-registry}
use hermes_pi_manager.Registry.Tasks.{get_task, update_task}
use hermes_pi_manager.Manager.State.{Manager, VerifierSpec}
use hermes_pi_manager.Manager.Recovery.Identity.{Heartbeat-cases}
use hermes_pi_manager.Base.Json.{Members, Python}
use hermes_pi_manager.Manager.Recovery.{
  Probe, note_verifier, put_progress_at, put_session, replay_entries,
}
use hermes_pi_manager.Manager.Recovery.Writes.{
  apply_state_snapshot-TasksDistinct, note_verifier-TasksDistinct, notify_done-TasksDistinct,
  reject-TasksDistinct, replay_entries-TasksDistinct, set_execution_state-TasksDistinct,
}
use hermes_pi_manager.Registry.Rows.{Execution, Task}
use hermes_pi_manager.Manager.Recovery.Reattach.{
  Tools, argv_note, attach, attach_session, by_session, load_verifier_spec, recover_each,
  recover_one, recover_task, run_gate,
}
use hermes_pi_manager.Base.{
  List, Option, Option-cases, Text, [], arith, inl, inr, some, text, ℕ, ◌++◌, ◌∷◌, refl,
}

module _ (py : Python) (tools : Tools) (now wall : ℕ) where
  attach-TasksDistinct :
      (tid : Text) (gate : Option VerifierSpec) (row : Task) (probe : Probe) (state : Members)
      (m : Manager)
      → TasksDistinct m.registry
      → TasksDistinct (attach py tools now wall tid gate row probe state m).registry
  unfolding append_event
  attach-TasksDistinct tid gate row probe state m d =
      let argv = argv_note py tools now wall gate in
      let r1 = update_task tid (put_session probe.pid state ∷ []) wall m.registry in
      let d1 =
        update_task-TasksDistinct tid (put_session probe.pid state) [] wall m.registry (λ _. refl)
          d in
      let noted = note_verifier tid argv wall r1 in
      let r2 = replay_entries py tid probe wall noted in
      let d2 =
        replay_entries-TasksDistinct py tid probe wall noted
          (note_verifier-TasksDistinct tid argv wall r1 d1) in
      let r3 = (apply_state_snapshot py tools.digest tid state now wall r2).0 in
      let d3 = apply_state_snapshot-TasksDistinct py tools.digest tid state now wall r2 d2 in
      let d4 =
        set_execution_state-TasksDistinct tid Execution.waiting (put_progress_at now) now wall r3
          (λ _. refl) (λ _. refl) d3 in
      ground (
        arith,
        d4,
        start_watchdog-registry tid (attach_session py tools now wall tid gate row probe state m),
      )

  by_session-TasksDistinct :
      (tid : Text) (gate : Option VerifierSpec) (row : Task) (probe : Probe) (m : Manager)
      → TasksDistinct m.registry
      → TasksDistinct (by_session py tools now wall tid gate row probe m).0.registry
  by_session-TasksDistinct tid gate row probe m d =
      let refused = λ (reason : Text).
        reject-TasksDistinct py tid reason row.execution_state now wall m.registry d in
      let absent = refused (text "recovery_missing_session: no session_file on record") in
      let empty = refused (text "recovery_missing_session: session file absent or empty") in
      elim (Option-cases probe.spawn_error) [
        | inr (exc, e) ↦
            ground (arith, absent, empty, refused (text "recovery_spawn_failed: " ++ exc))
        | inl e ↦ elim (Heartbeat-cases probe.answer) [
          | inl (exc, h) ↦
              ground (arith, absent, empty, refused (text "recovery_get_state_failed: " ++ exc))
          | inr (state, h) ↦ ground (
            arith,
            absent,
            empty,
            refused (tools.mismatch row state),
            attach-TasksDistinct tid gate row probe state m d,
          )
        ]
      ]

  run_gate-TasksDistinct :
      (tid : Text) (spec : VerifierSpec) (m : Manager)
      → TasksDistinct m.registry
      → TasksDistinct (run_gate py tools now wall tid spec m).0.registry
  unfolding run_verifier_now
  run_gate-TasksDistinct tid spec m d =
      let argv = some (tools.argv_text spec) in
      let noted = note_verifier tid argv wall m.registry in
      let d1 = note_verifier-TasksDistinct tid argv wall m.registry d in
      elim (Option-cases (get_task tid noted)) [
        | inl h ↦ ground (arith, d1)
        | inr (row, h) ↦
            let ran =
              verified py tools.describe tools.dump tid spec (tools.run spec) row wall noted in
            ground (
              arith,
              d1,
              notify_done-TasksDistinct py tid now wall ran (
                  verified-TasksDistinct py tools.describe tools.dump tid spec (tools.run spec) row
                    wall noted d1),
            )
      ]

  pub recover_one-TasksDistinct :
      (probe_of : Text → Probe) (tid : Text) (m : Manager)
      → TasksDistinct m.registry
      → TasksDistinct (recover_one py tools now wall probe_of tid m).registry
  unfolding recover_task
  recover_one-TasksDistinct probe_of tid m d = elim (Option-cases (get_task tid m.registry)) [
    | inl h ↦ ground arith
    | inr (row, h) ↦
        let gate = load_verifier_spec py tools.seconds row.verifier_spec in
        elim (Option-cases gate) [
          | inl g ↦ ground (arith, by_session-TasksDistinct tid gate row (probe_of tid) m d)
          | inr (spec, g) ↦ ground (
            arith,
            by_session-TasksDistinct tid gate row (probe_of tid) m d,
            run_gate-TasksDistinct tid spec m d,
          )
        ]
  ]

  -- The loop over the resumable rows keeps the ids distinct.
  pub recover_each-TasksDistinct :
      (probe_of : Text → Probe) (rows : List Task) (m : Manager)
      → TasksDistinct m.registry
      → TasksDistinct (recover_each py tools now wall probe_of rows m).registry
  unfolding recover_each
  recover_each-TasksDistinct probe_of [] m d = d
  recover_each-TasksDistinct probe_of (row ∷ rows) m d =
      recover_each-TasksDistinct probe_of rows
        (recover_one py tools now wall probe_of row.task_id m)
        (recover_one-TasksDistinct probe_of row.task_id m d)
