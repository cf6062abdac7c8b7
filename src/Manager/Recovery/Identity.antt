-- ===== src/Manager/Recovery/Identity.antt =====
-- A task is resumed only on a proven identity of its session.
use hermes_pi_manager.Messages.{state_text}
use hermes_pi_manager.Registry.Tasks.{same_exec, get_task, update_task}
use hermes_pi_manager.Manager.Notices.Passive.{
  get_task-enqueue_notification, request_terminal_wake-state,
}
use hermes_pi_manager.Manager.Notices.{enqueue_notification}
use hermes_pi_manager.Manager.Recovery.Reattach.{
  attach_session, by_session, load_verifier_spec, recover_task, Tools, argv_note, attach,
}
use hermes_pi_manager.Registry.Events.{append_event}
use hermes_pi_manager.Base.Json.{Json, Members, Python, member, obj, str}
use hermes_pi_manager.Registry.Rows.{EventType, Execution, Kind, Registry, Task}
use hermes_pi_manager.Manager.State.Reads.{
  start_watchdog-registry, get_task-append_event, set_execution_state-state, update_task-state,
}
use hermes_pi_manager.Manager.State.{Manager, VerifierSpec, set_execution_state, state_of}
use hermes_pi_manager.Manager.Recovery.{
  given, Probe, Recovered, identity_ok, move_leaf, note_verifier, put_last_error, put_leaf,
  put_progress_at, put_session, reason_summary, reattached, reject, replay, replay_entries,
}
use hermes_pi_manager.Base.{
  get_or, is_none, text_eq_iff, ◌&&◌, ◌++◌, ◌⊎◌, Bool, List, Option, Option-cases, Text, [], ap,
  arith, false, if◌then◌else◌, inl, inr, none, refl, some, text, text_eq, true, ℕ, ◌∙◌, ◌∷◌, ◌≡◌,
}
use hermes_pi_manager.Manager.Watchdog.Heartbeats.{
  Heartbeat, apply_state_snapshot, compute_state_hash, is_new_hash, put_news, put_snapshot,
  state_error, state_read,
}
use mathlib.Core.Option

pub replay-tasks :
    (py : Python) (j tid : Text) (ids : List Text) (wall : ℕ) (r : Registry)
    → get_task j (replay py tid ids wall r) ≡ get_task j r
unfolding replay
replay-tasks py j tid [] wall r = refl
replay-tasks py j tid (id ∷ ids) wall r =
    let summary = some (py.dumps (obj (member (text "entry_id") (str id) Members.end))) in
    let put =
      append_event tid (text "recovery_replay") (EventType.other (text "entry_replayed")) none none
        summary none wall r in
    replay-tasks py j tid ids wall put
    ∙ get_task-append_event j tid (text "recovery_replay") (EventType.other (text "entry_replayed"))
        none none summary none wall r

pub note_verifier-tasks :
    (j tid : Text) (argv : Option Text) (wall : ℕ) (r : Registry)
    → get_task j (note_verifier tid argv wall r) ≡ get_task j r
note_verifier-tasks j tid none wall r = refl
note_verifier-tasks j tid (some argv) wall r =
    get_task-append_event j tid (text "recovery") (EventType.other (text "verifier_restored")) none
      none (some argv) none wall r

move_leaf-state :
    (j tid : Text) (leaf : Option Text) (wall : ℕ) (r : Registry)
    → state_of (get_task j (move_leaf tid leaf wall r)) ≡ state_of (get_task j r)
move_leaf-state j tid none wall r = refl
move_leaf-state j tid (some []) wall r = refl
move_leaf-state j tid (some (c ∷ s)) wall r =
    update_task-state j tid (put_leaf (c ∷ s)) [] wall r (λ _. refl) (λ _. refl)

replay_entries-state :
    (py : Python) (j tid : Text) (probe : Probe) (wall : ℕ) (r : Registry)
    → state_of (get_task j (replay_entries py tid probe wall r)) ≡ state_of (get_task j r)
replay_entries-state py j tid probe wall r = elim (Option-cases probe.entries_error) [
  | inl e ↦ ground (
    arith,
    move_leaf-state j tid probe.leaf wall (replay py tid probe.entries wall r),
    replay-tasks py j tid probe.entries wall r,
  )
  | inr (exc, e) ↦ ground (
    arith,
    get_task-append_event j tid (text "recovery") (EventType.other (text "get_entries_failed")) none
        none (some exc) none wall r,
  )
]

pub apply_state_snapshot-state :
    (py : Python) (digest : Json → Text) (j tid : Text) (state : Members) (now wall : ℕ)
    (r : Registry)
    → state_of (get_task j (apply_state_snapshot py digest tid state now wall r).0)
      ≡ state_of (get_task j r)
unfolding apply_state_snapshot
apply_state_snapshot-state py digest j tid state now wall r =
    let hash = compute_state_hash digest state in
    let news = is_new_hash hash (get_task tid r) in
    update_task-state j tid (put_snapshot py hash state now) (put_news news now ∷ []) wall r
      (λ t. ground arith) (λ t. ground arith)

reject-state :
    (py : Python) (j tid reason : Text) (before : Execution) (now wall : ℕ) (r : Registry)
    → state_of (get_task j (reject py tid reason before now wall r)) ≡ (
        if text_eq j tid
        then Option.map (λ _. Execution.aborted) (state_of (get_task j r))
        else state_of (get_task j r))
unfolding reject
reject-state py j tid reason before now wall r =
    let put = set_execution_state tid Execution.aborted (put_last_error reason ∷ []) now wall r in
    let noted =
      append_event tid (text "recovery") (EventType.other (text "recovery_rejected"))
        (some (state_text before)) (some (state_text Execution.aborted))
        (some (reason_summary py reason)) none wall put in
    request_terminal_wake-state py j tid now wall
      (enqueue_notification py tid Kind.failed now wall noted)
    ∙ ap state_of (get_task-enqueue_notification py j tid Kind.failed now wall noted)
    ∙ ap state_of (
        get_task-append_event j tid (text "recovery") (EventType.other (text "recovery_rejected"))
          (some (state_text before)) (some (state_text Execution.aborted))
          (some (reason_summary py reason)) none wall put)
    ∙ set_execution_state-state j tid Execution.aborted (put_last_error reason ∷ []) now wall r
        (λ _. refl) (λ _. refl)

pub Heartbeat-cases :
    (h : Heartbeat)
    → ((exc : Text) × (h ≡ state_error exc)) ⊎ ((state : Members) × (h ≡ state_read state))
Heartbeat-cases (state_error exc) = inl (exc, refl)
Heartbeat-cases (state_read state) = inr (state, refl)

-- Whether the answer to `get_state` proves the identity.
abbrev pub proves_identity : Python → (Text → Text) → Task → Heartbeat → Bool
proves_identity py canonical row (state_error exc) = false
proves_identity py canonical row (state_read state) = identity_ok py canonical row state

abbrev pub is_reattached : Recovered → Bool
is_reattached (reattached n) = true
is_reattached _ = false

module _ (py : Python) (tools : Tools) (now wall : ℕ) where
  attach_session-state :
      (j tid : Text) (gate : Option VerifierSpec) (row : Task) (probe : Probe) (state : Members)
      (m : Manager)
      → state_of (get_task j (attach_session py tools now wall tid gate row probe state m).registry)
        ≡ (if text_eq j tid
            then Option.map (λ _. Execution.waiting) (state_of (get_task j m.registry))
            else state_of (get_task j m.registry))
  attach_session-state j tid gate row probe state m =
      let r1 = update_task tid (put_session probe.pid state ∷ []) wall m.registry in
      let noted = note_verifier tid (argv_note py tools now wall gate) wall r1 in
      let r2 = replay_entries py tid probe wall noted in
      let r3 = (apply_state_snapshot py tools.digest tid state now wall r2).0 in
      let r4 = set_execution_state tid Execution.waiting (put_progress_at now ∷ []) now wall r3 in
      ground (
        arith,
        get_task-append_event j tid (text "recovery") (EventType.other (text "recovery_attached"))
            (some (state_text row.execution_state)) (some (state_text Execution.waiting))
            (some (tools.attached_text state)) none wall r4,
        set_execution_state-state j tid Execution.waiting (put_progress_at now ∷ []) now wall r3
            (λ _. refl) (λ _. refl),
        apply_state_snapshot-state py tools.digest j tid state now wall r2,
        replay_entries-state py j tid probe wall noted,
        note_verifier-tasks j tid (argv_note py tools now wall gate) wall r1,
        update_task-state j tid (put_session probe.pid state) [] wall m.registry (λ _. refl)
            (λ _. refl),
      )

  attach-state :
      (j tid : Text) (gate : Option VerifierSpec) (row : Task) (probe : Probe) (state : Members)
      (m : Manager)
      → state_of (get_task j (attach py tools now wall tid gate row probe state m).registry) ≡ (
          if text_eq j tid
          then Option.map (λ _. Execution.waiting) (state_of (get_task j m.registry))
          else state_of (get_task j m.registry))
  attach-state j tid gate row probe state m =
      ap (λ r. state_of (get_task j r))
        (start_watchdog-registry tid (attach_session py tools now wall tid gate row probe state m))
      ∙ attach_session-state j tid gate row probe state m

  -- The conditions of a resumption: a session file that is on record and not empty, a process that
  -- starts, and an answer that proves the identity.
  abbrev pub is_proven : Task → Probe → Bool
  is_proven row probe =
      given row.session_file
      && (probe.file_ok
          && (is_none probe.spawn_error && proves_identity py tools.canonical row probe.answer))

  pub by_session-state :
      (j tid : Text) (gate : Option VerifierSpec) (row : Task) (probe : Probe) (m : Manager)
      → let (m', out) = by_session py tools now wall tid gate row probe m in
        (is_reattached out ≡ is_proven row probe)
        × (state_of (get_task j m'.registry) ≡ (
            if text_eq j tid
            then Option.map
                (λ _. if is_proven row probe then Execution.waiting else Execution.aborted)
                (state_of (get_task j m.registry))
            else state_of (get_task j m.registry)))
  by_session-state j tid gate row probe m =
      let refused =
        λ (reason : Text). reject-state py j tid reason row.execution_state now wall m.registry in
      let absent = refused (text "recovery_missing_session: no session_file on record") in
      let empty = refused (text "recovery_missing_session: session file absent or empty") in
      elim (Option-cases probe.spawn_error) [
        | inr (exc, e) ↦
            ground (arith, absent, empty, refused (text "recovery_spawn_failed: " ++ exc))
        | inl e ↦ elim (Heartbeat-cases probe.answer) [
          | inl (exc, h) ↦
              ground (arith, absent, empty, refused (text "recovery_get_state_failed: " ++ exc))
          | inr (state, h) ↦ ground (
            arith,
            absent,
            empty,
            refused (tools.mismatch row state),
            attach-state j tid gate row probe state m,
          )
        ]
      ]

  -- Recovery of a task that is not SETTLED resumes it, in state WAITING, exactly when its session file
  -- is on record and not empty, the process starts, and the answer to `get_state` proves the identity
  -- of the session. Otherwise it records the task as ABORTED. No other task changes its state.
  pub recover_task_proves_identity :
      (j tid : Text) (probe : Probe) (m : Manager) (row : Task)
      → get_task tid m.registry ≡ some row
      → same_exec row.execution_state Execution.settled ≡ false
      → let result = recover_task py tools now wall tid probe m in
        let proven = is_proven row probe in
        (Option.map (λ x. is_reattached x.1) result ≡ some proven)
        × (state_of (get_task j (get_or (Option.map (λ x. x.0) result) m).registry) ≡ (
            if text_eq j tid
            then some (if proven then Execution.waiting else Execution.aborted)
            else state_of (get_task j m.registry)))
  unfolding recover_task
  recover_task_proves_identity j tid probe m row e live =
      let gate = load_verifier_spec py tools.seconds row.verifier_spec in
      let (f, g) = by_session-state j tid gate row probe m in
      ground (arith, text_eq_iff j tid, f, g)
