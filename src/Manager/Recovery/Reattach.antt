-- ===== src/Manager/Recovery/Reattach.antt =====
-- core.py: `recover_task` and `_recover_settled_verification`, composed of the parts.
use hermes_pi_manager.Manager.Notices.{request_terminal_wake, notify_done}
use hermes_pi_manager.Manager.Watchdog.Heartbeats.{apply_state_snapshot, state_error, state_read}
use hermes_pi_manager.Base.Json.{Json, Members, Python}
use hermes_pi_manager.Manager.State.{
  start_watchdog, prune, spawn, Manager, VerifierSpec, default_thresholds, set_execution_state,
  with_registry,
}
use hermes_pi_manager.Manager.Verifier.{Run, Summary, persisted_argv, run_verifier_now}
use hermes_pi_manager.Registry.Events.{append_event}
use hermes_pi_manager.Base.{
  is_none, ◌&&◌, ◌||◌, Bool, List, Option, Text, [], false, get_or, if◌then◌else◌, length, none,
  not, some, text, true, ℕ, ◌++◌, ◌∷◌,
}
use hermes_pi_manager.Registry.Tasks.{list_tasks, get_task, same_exec, update_task}
use hermes_pi_manager.Manager.Recovery.{
  put_progress_at, seed, replay_entries, put_session, note_verifier, reverified, Probe, Recovered,
  fresh_runtime, given, identity_ok, left_alone, put_runtime, reattached, reject, rejected,
}
use hermes_pi_manager.Messages.{state_text}
use hermes_pi_manager.Registry.Rows.{EventType, Execution, Task, Verification}
use mathlib.Core.Option

-- `seconds` reads the time-out of a persisted spec, 120 s if there is none; the directory of the
-- command is not persisted. A spec that `start_task` cannot have written, for which the source raises
-- (JSON but no object, or a command or a time-out that `list` or `float` refuses), reads as none.
unfoldable pub load_verifier_spec : Python → (Text → ℕ) → Option Text → Option VerifierSpec
load_verifier_spec py seconds raw =
    Option.map (λ argv. record { argv = argv; timeout = seconds (get_or raw []); cwd = none })
      (persisted_argv py raw)

-- What the steps of recovery do not decide: the digest of a state, the canonical form of a path, the
-- texts of summaries and of a mismatch, and the run of the verifier.
pub record Tools : Type 0 where
  pub digest : Json → Text
  pub canonical : Text → Text
  pub seconds : Text → ℕ
  pub mismatch : Task → Members → Text
  pub argv_text : VerifierSpec → Text
  pub attached_text : Members → Text
  pub describe : List Task → Text
  pub dump : Summary → Text
  pub run : VerifierSpec → Run

abbrev is_verdict : Verification → Bool
is_verdict Verification.pass = true
is_verdict Verification.fail = true
is_verdict Verification.unrunnable = true
is_verdict _ = false

abbrev is_never_run : Verification → Bool
is_never_run Verification.not_run = true
is_never_run _ = false

module _ (py : Python) (tools : Tools) (now wall : ℕ) where
  abbrev pub argv_note : Option VerifierSpec → Option Text
  argv_note gate = Option.map tools.argv_text gate

  abbrev pub attach_session :
      Text → Option VerifierSpec → Task → Probe → Members → Manager → Manager
  attach_session tid gate row probe state m =
      let r1 = update_task tid (put_session probe.pid state ∷ []) wall m.registry in
      let r2 = replay_entries py tid probe wall (note_verifier tid (argv_note gate) wall r1) in
      let r3 = (apply_state_snapshot py tools.digest tid state now wall r2).0 in
      let rt = seed (get_task tid r3) (fresh_runtime tid default_thresholds gate true) in
      let r4 = set_execution_state tid Execution.waiting (put_progress_at now ∷ []) now wall r3 in
      let r5 =
        append_event tid (text "recovery") (EventType.other (text "recovery_attached"))
          (some (state_text row.execution_state)) (some (state_text Execution.waiting))
          (some (tools.attached_text state)) none wall r4 in
      record (put_runtime tid rt m) { registry = r5 }

  abbrev pub attach : Text → Option VerifierSpec → Task → Probe → Members → Manager → Manager
  attach tid gate row probe state m = start_watchdog tid (attach_session tid gate row probe state m)

  abbrev pub refuse : Text → Task → Text → Manager → Manager × Recovered
  refuse tid row reason m =
      (with_registry (reject py tid reason row.execution_state now wall) m, rejected reason)

  abbrev pub by_state : Text → Option VerifierSpec → Task → Probe → Manager → Manager × Recovered
  by_state tid gate row probe m = elim probe.answer [
    | state_error exc ↦ refuse tid row (text "recovery_get_state_failed: " ++ exc) m
    | state_read state ↦
        if identity_ok py tools.canonical row state
        then (attach tid gate row probe state m, reattached (length probe.entries))
        else refuse tid row (tools.mismatch row state) m
  ]

  abbrev pub by_session : Text → Option VerifierSpec → Task → Probe → Manager → Manager × Recovered
  by_session tid gate row probe m =
      if not (given row.session_file)
      then refuse tid row (text "recovery_missing_session: no session_file on record") m
      else if not probe.file_ok
      then refuse tid row (text "recovery_missing_session: session file absent or empty") m
      else elim probe.spawn_error [
        | some exc ↦ refuse tid row (text "recovery_spawn_failed: " ++ exc) m
        | none ↦ by_state tid gate row probe m
      ]

  abbrev pub is_unresolved : Verification → Bool
  is_unresolved Verification.pending = true
  is_unresolved Verification.not_run = true
  is_unresolved _ = false

  abbrev pub run_gate : Text → VerifierSpec → Manager → Manager × Recovered
  run_gate tid spec m =
      let rt = fresh_runtime tid default_thresholds (some spec) false in
      let noted = note_verifier tid (some (tools.argv_text spec)) wall m.registry in
      elim (run_verifier_now py tools.describe tools.dump tid spec (tools.run spec) wall noted) [
        | none ↦ (record (put_runtime tid rt m) { registry = noted }, left_alone)
        | some (r, v) ↦ (
          record (put_runtime tid rt m) { registry = notify_done py tid now wall r },
          reverified v,
        )
      ]

  abbrev pub recover_settled_verification :
      Text → Option VerifierSpec → Task → Manager → Manager × Recovered
  recover_settled_verification tid none row m = (m, left_alone)
  recover_settled_verification tid (some spec) row m =
      if is_unresolved row.verification_state then run_gate tid spec m else (m, left_alone)

  abbrev pub recover_row : Text → Probe → Task → Manager → Manager × Recovered
  recover_row tid probe row m =
      let gate = load_verifier_spec py tools.seconds row.verifier_spec in
      if same_exec row.execution_state Execution.settled
      then recover_settled_verification tid gate row m
      else by_session tid gate row probe m

  -- `none` is the KeyError.
  unfoldable pub recover_task : Text → Probe → Manager → Option (Manager × Recovered)
  recover_task tid probe m =
      Option.map (λ row. recover_row tid probe row m) (get_task tid m.registry)

  abbrev pub recover_one : (Text → Probe) → Text → Manager → Manager
  recover_one probe_of tid m = get_or (Option.map (λ x. x.0) (recover_task tid (probe_of tid) m)) m

  unfoldable pub recover_each : (Text → Probe) → List Task → Manager → Manager
  recover_each probe_of [] m = m
  recover_each probe_of (row ∷ rows) m =
      recover_each probe_of rows (recover_one probe_of row.task_id m)

  abbrev pub is_resolved : Task → Bool
  is_resolved t =
      is_verdict t.verification_state
      || (is_never_run t.verification_state && not (given t.verifier_spec))

  -- A settled row with an open gate is recovered; one with a resolved gate and no wake gets its wake.
  abbrev pub sweep_row : (Text → Probe) → Task → Manager → Manager
  sweep_row probe_of row m =
      if is_unresolved row.verification_state && given row.verifier_spec
      then recover_one probe_of row.task_id m
      else if is_resolved row && is_none row.wake_state
      then with_registry (request_terminal_wake py row.task_id now wall) m
      else m

  unfoldable pub recover_settled : (Text → Probe) → List Task → Manager → Manager
  recover_settled probe_of [] m = m
  recover_settled probe_of (row ∷ rows) m = recover_settled probe_of rows (sweep_row probe_of row m)

  abbrev pub resumable_states : List Execution
  resumable_states =
      Execution.starting ∷ Execution.running ∷ Execution.tool_running ∷ Execution.waiting
      ∷ Execution.stalled ∷ Execution.unresponsive ∷ []

  unfoldable pub recover_all : (Text → Probe) → Manager → Manager
  recover_all probe_of m =
      let pruning = spawn prune m in
      let live = recover_each probe_of (list_tasks (some resumable_states) m.registry) pruning in
      recover_settled probe_of (list_tasks (some (Execution.settled ∷ [])) live.registry) live
