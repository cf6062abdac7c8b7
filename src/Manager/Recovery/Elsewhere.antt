-- ===== src/Manager/Recovery/Elsewhere.antt =====
-- core.py: the recovery of one task leaves the row of every other task as it is.
use hermes_pi_manager.Registry.Tasks.Cas.{get_task-update_task}
use hermes_pi_manager.Messages.{state_text}
use hermes_pi_manager.Base.Json.{Json, Members, Python}
use hermes_pi_manager.Registry.Wakes.{
  begin_terminal_wake, disable_wake, is_eligible, is_unopened, open_wake,
}
use hermes_pi_manager.Manager.Recovery.Reattach.{
  Tools, argv_note, attach, attach_session, by_session, load_verifier_spec, recover_one,
  recover_task, run_gate,
}
use hermes_pi_manager.Manager.Recovery.Identity.{Heartbeat-cases, note_verifier-tasks, replay-tasks}
use hermes_pi_manager.Registry.Tasks.{Fields, assign, get_task, task_key, update_task}
use hermes_pi_manager.Manager.Notices.Passive.{get_task-enqueue_notification}
use hermes_pi_manager.Registry.Events.{append_event}
use hermes_pi_manager.Manager.State.Reads.{get_task-append_event, start_watchdog-registry}
use hermes_pi_manager.Manager.Verifier.{run_verifier_now, verified}
use hermes_pi_manager.Manager.Notices.{
  enqueue_notification, kind_of_row, notify_done, request_terminal_wake,
}
use hermes_pi_manager.Manager.Recovery.{
  Probe, move_leaf, note_verifier, put_last_error, put_leaf, put_progress_at, put_session,
  reason_summary, reject, replay, replay_entries,
}
use hermes_pi_manager.Registry.Rows.{EventType, Execution, Kind, Registry, Task}
use hermes_pi_manager.Manager.Verifier.Outcome.{get_task-verified}
use hermes_pi_manager.Manager.Watchdog.Heartbeats.{
  apply_state_snapshot, compute_state_hash, is_new_hash, put_news, put_snapshot,
}
use hermes_pi_manager.Manager.State.{
  Manager, VerifierSpec, name_of, put_changed, put_state, set_execution_state, state_transition,
}
use hermes_pi_manager.Base.{
  KeepsKey, Option, Option-cases, Text, [], ap, arith, false, none, select-update_where, some, text,
  text_eq, ℕ, ◌++◌, ◌∙◌, ◌∷◌, refl, ◌≡◌, inl, inr,
}

module _ (j tid : Text) (other : text_eq j tid ≡ false) where
  update_task-elsewhere :
      (f : Task → Task) (fs : Fields) (wall : ℕ) (r : Registry)
      → KeepsKey task_key (assign (f ∷ fs))
      → get_task j (update_task tid (f ∷ fs) wall r) ≡ get_task j r
  update_task-elsewhere f fs wall r h = ground (arith, get_task-update_task j tid f fs wall r h)

  set_execution_state-elsewhere :
      (s : Execution) (f : Task → Task) (now wall : ℕ) (r : Registry)
      → KeepsKey task_key (assign (put_state s ∷ put_changed now ∷ f ∷ []))
      → KeepsKey task_key (assign (put_state s ∷ f ∷ []))
      → get_task j (set_execution_state tid s (f ∷ []) now wall r) ≡ get_task j r
  unfolding set_execution_state
  set_execution_state-elsewhere s f now wall r changes keeps = ground (
    arith,
    update_task-elsewhere (put_state s) (put_changed now ∷ f ∷ []) wall r changes,
    update_task-elsewhere (put_state s) (f ∷ []) wall r keeps,
    get_task-append_event j tid (text "manager") state_transition (name_of (get_task tid r))
        (some (state_text s)) none none wall
        (update_task tid (put_state s ∷ put_changed now ∷ f ∷ []) wall r),
  )

  begin_terminal_wake-elsewhere :
      (now wall : ℕ) (r : Registry)
      → get_task j (begin_terminal_wake tid now wall r).0 ≡ get_task j r
  unfolding begin_terminal_wake get_task
  begin_terminal_wake-elsewhere now wall r = ground (
    arith,
    select-update_where task_key j tid is_eligible (open_wake now wall) r.tasks (λ _. refl),
    select-update_where task_key j tid is_unopened (disable_wake wall) r.tasks (λ _. refl),
  )

  pub request_terminal_wake-elsewhere :
      (py : Python) (now wall : ℕ) (r : Registry)
      → get_task j (request_terminal_wake py tid now wall r) ≡ get_task j r
  unfolding request_terminal_wake append_event get_task
  request_terminal_wake-elsewhere py now wall r =
      ground (arith, begin_terminal_wake-elsewhere now wall r)

  notify_done-elsewhere :
      (py : Python) (now wall : ℕ) (r : Registry)
      → get_task j (notify_done py tid now wall r) ≡ get_task j r
  unfolding notify_done
  notify_done-elsewhere py now wall r =
      let kind = kind_of_row (get_task tid r) in
      request_terminal_wake-elsewhere py now wall (enqueue_notification py tid kind now wall r)
      ∙ get_task-enqueue_notification py j tid kind now wall r

  reject-elsewhere :
      (py : Python) (reason : Text) (before : Execution) (now wall : ℕ) (r : Registry)
      → get_task j (reject py tid reason before now wall r) ≡ get_task j r
  unfolding reject
  reject-elsewhere py reason before now wall r =
      let put = set_execution_state tid Execution.aborted (put_last_error reason ∷ []) now wall r in
      let etype = EventType.other (text "recovery_rejected") in
      let from = some (state_text before) in
      let to = some (state_text Execution.aborted) in
      let why = some (reason_summary py reason) in
      let noted = append_event tid (text "recovery") etype from to why none wall put in
      request_terminal_wake-elsewhere py now wall
        (enqueue_notification py tid Kind.failed now wall noted)
      ∙ get_task-enqueue_notification py j tid Kind.failed now wall noted
      ∙ get_task-append_event j tid (text "recovery") etype from to why none wall put
      ∙ set_execution_state-elsewhere Execution.aborted (put_last_error reason) now wall r
          (λ _. refl) (λ _. refl)

  move_leaf-elsewhere :
      (leaf : Option Text) (wall : ℕ) (r : Registry)
      → get_task j (move_leaf tid leaf wall r) ≡ get_task j r
  move_leaf-elsewhere none wall r = refl
  move_leaf-elsewhere (some []) wall r = refl
  move_leaf-elsewhere (some (c ∷ s)) wall r =
      update_task-elsewhere (put_leaf (c ∷ s)) [] wall r (λ _. refl)

  replay_entries-elsewhere :
      (py : Python) (probe : Probe) (wall : ℕ) (r : Registry)
      → get_task j (replay_entries py tid probe wall r) ≡ get_task j r
  unfolding append_event get_task
  replay_entries-elsewhere py probe wall r = ground (
    arith,
    move_leaf-elsewhere probe.leaf wall (replay py tid probe.entries wall r),
    replay-tasks py j tid probe.entries wall r,
  )

  apply_state_snapshot-elsewhere :
      (py : Python) (hasher : Json → Text) (state : Members) (now wall : ℕ) (r : Registry)
      → get_task j (apply_state_snapshot py hasher tid state now wall r).0 ≡ get_task j r
  unfolding apply_state_snapshot
  apply_state_snapshot-elsewhere py hasher state now wall r =
      let hash = compute_state_hash hasher state in
      let news = is_new_hash hash (get_task tid r) in
      update_task-elsewhere (put_snapshot py hash state now) (put_news news now ∷ []) wall r
        (λ t. ground arith)

  module _ (py : Python) (tools : Tools) (now wall : ℕ) where
    attach-elsewhere :
        (gate : Option VerifierSpec) (row : Task) (probe : Probe) (state : Members) (m : Manager)
        → get_task j (attach py tools now wall tid gate row probe state m).registry
          ≡ get_task j m.registry
    attach-elsewhere gate row probe state m =
        let argv = argv_note py tools now wall gate in
        let r1 = update_task tid (put_session probe.pid state ∷ []) wall m.registry in
        let noted = note_verifier tid argv wall r1 in
        let r2 = replay_entries py tid probe wall noted in
        let r3 = (apply_state_snapshot py tools.digest tid state now wall r2).0 in
        let r4 = set_execution_state tid Execution.waiting (put_progress_at now ∷ []) now wall r3 in
        ap (get_task j) (
          start_watchdog-registry tid (attach_session py tools now wall tid gate row probe state m))
        ∙ get_task-append_event j tid (text "recovery") (EventType.other (text "recovery_attached"))
            (some (state_text row.execution_state)) (some (state_text Execution.waiting))
            (some (tools.attached_text state)) none wall r4
        ∙ set_execution_state-elsewhere Execution.waiting (put_progress_at now) now wall r3
            (λ _. refl) (λ _. refl)
        ∙ apply_state_snapshot-elsewhere py tools.digest state now wall r2
        ∙ replay_entries-elsewhere py probe wall noted
        ∙ note_verifier-tasks j tid argv wall r1
        ∙ update_task-elsewhere (put_session probe.pid state) [] wall m.registry (λ _. refl)

    by_session-elsewhere :
        (gate : Option VerifierSpec) (row : Task) (probe : Probe) (m : Manager)
        → get_task j (by_session py tools now wall tid gate row probe m).0.registry
          ≡ get_task j m.registry
    by_session-elsewhere gate row probe m =
        let refused =
          λ (reason : Text). reject-elsewhere py reason row.execution_state now wall m.registry in
        let absent = refused (text "recovery_missing_session: no session_file on record") in
        let empty = refused (text "recovery_missing_session: session file absent or empty") in
        elim (Option-cases probe.spawn_error) [
          | inr (exc, e) ↦
              ground (arith, absent, empty, refused (text "recovery_spawn_failed: " ++ exc))
          | inl e ↦ elim (Heartbeat-cases probe.answer) [
            | inl (exc, h) ↦
                ground (arith, absent, empty, refused (text "recovery_get_state_failed: " ++ exc))
            | inr (state, h) ↦ ground (
              arith,
              absent,
              empty,
              refused (tools.mismatch row state),
              attach-elsewhere gate row probe state m,
            )
          ]
        ]

    run_gate-elsewhere :
        (spec : VerifierSpec) (m : Manager)
        → get_task j (run_gate py tools now wall tid spec m).0.registry ≡ get_task j m.registry
    unfolding run_verifier_now
    run_gate-elsewhere spec m =
        let argv = some (tools.argv_text spec) in
        let noted = note_verifier tid argv wall m.registry in
        let same = note_verifier-tasks j tid argv wall m.registry in
        elim (Option-cases (get_task tid noted)) [
          | inl h ↦ ground (arith, same)
          | inr (row, h) ↦
              let ran =
                verified py tools.describe tools.dump tid spec (tools.run spec) row wall noted in
              ground (
                arith,
                same,
                notify_done-elsewhere py now wall ran,
                get_task-verified py tools.describe tools.dump j tid spec (tools.run spec) row wall
                    noted,
              )
        ]

    -- A recovery changes the row of its own task only.
    pub recover_one-elsewhere :
        (probe_of : Text → Probe) (m : Manager)
        → get_task j (recover_one py tools now wall probe_of tid m).registry ≡ get_task j m.registry
    unfolding recover_task
    recover_one-elsewhere probe_of m = elim (Option-cases (get_task tid m.registry)) [
      | inl h ↦ ground arith
      | inr (row, h) ↦
          let gate = load_verifier_spec py tools.seconds row.verifier_spec in
          elim (Option-cases gate) [
            | inl g ↦ ground (arith, by_session-elsewhere gate row (probe_of tid) m)
            | inr (spec, g) ↦
                ground
                  (arith, by_session-elsewhere gate row (probe_of tid) m, run_gate-elsewhere spec m)
          ]
    ]
