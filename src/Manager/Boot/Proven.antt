-- ===== src/Manager/Boot/Proven.antt =====
-- core.py, `_boot_and_run`: the prompt goes to proven sessions only.
use hermes_pi_manager.Registry.Events.{append_event}
use hermes_pi_manager.Manager.Recovery.Identity.{apply_state_snapshot-state}
use hermes_pi_manager.Messages.{state_text}
use hermes_pi_manager.Manager.Recovery.{put_last_error, put_progress_at}
use hermes_pi_manager.Manager.State.Reads.{
  get_task-append_event, set_execution_state-state, start_watchdog-registry, update_task-state,
}
use hermes_pi_manager.Manager.Aborts.{put_error, handle_early_failure}
use hermes_pi_manager.Base.Json.{Members, member, obj, str, Json, Python, get_member}
use hermes_pi_manager.Manager.Watchdog.Heartbeats.{
  apply_state_snapshot, Heartbeat, state_error, state_read,
}
use hermes_pi_manager.Manager.State.{
  Manager, Runtime, rt_of, set_execution_state, set_rt, with_registry, state_of,
}
use hermes_pi_manager.Registry.Tasks.{bound_text, max_summary_chars, update_task, get_task}
use hermes_pi_manager.Registry.Rows.{EventType, Execution, Kind}
use hermes_pi_manager.Manager.Boot.{
  Boot, attach_transport, boot_and_run, by_answer, by_identity, by_process, establish, fail_boot,
  put_identity, put_pid, reject_identity, run_prompt, text_of, Spawned, boot_identity_error,
  spawn_failed, spawned,
}
use hermes_pi_manager.Base.{
  Option-cases, [], ap, inl, inr, none, some, ◌&&◌, ◌++◌, ◌∙◌, ◌∷◌, Bool, Option, Text, false,
  if◌then◌else◌, is_none, refl, text, text_eq, true, ℕ, ◌≡◌,
}
use hermes_pi_manager.Manager.Notices.Passive.{finish-state}
use mathlib.Core.Option

-- Whether the process runs and its answer proves that it owns the allocated session.
abbrev pub owns : Python → (Text → Text) → Text → Heartbeat → Bool
owns py canonical allocated (state_error exc) = false
owns py canonical allocated (state_read state) = is_none (
    boot_identity_error py canonical (get_member (text "sessionId") state)
      (get_member (text "sessionFile") state) allocated)

abbrev pub is_spawned : Spawned → Bool
is_spawned (spawn_failed exc) = false
is_spawned (spawned pid) = true

abbrev pub shown : Text → Manager → Option Execution
shown j m = state_of (get_task j m.registry)

-- The states after a write of `s` to the task.
abbrev pub shift : Text → Text → Execution → Option Execution → Option Execution
shift j tid s o = if text_eq j tid then Option.map (λ _. s) o else o

abbrev pub ending : Bool → Execution
ending b = if b then Execution.running else Execution.crashed

module _ (py : Python) (digest : Json → Text) (canonical : Text → Text) (now wall : ℕ) where
  fail_boot-state :
      (j tid message : Text) (boot : Boot) (m : Manager)
      → shown j (fail_boot py digest canonical now wall tid message boot m)
        ≡ shift j tid Execution.crashed (shown j m)
  unfolding handle_early_failure
  fail_boot-state j tid message boot m =
      finish-state py j tid Kind.failed Execution.crashed (put_error py message boot.stderr ∷ [])
        now wall m.registry (λ _. refl) (λ _. refl)

  reject_identity-state :
      (j tid reason : Text) (boot : Boot) (m : Manager)
      → shown j (reject_identity py digest canonical now wall tid reason boot m)
        ≡ shift j tid Execution.crashed (shown j m)
  reject_identity-state j tid reason boot m =
      let summary = some (
        py.dumps
          (obj (member (text "reason") (str (bound_text reason max_summary_chars)) Members.end))) in
      let etype = EventType.other (text "session_identity_rejected") in
      let noted =
        with_registry (append_event tid (text "manager") etype none none summary none wall) m in
      fail_boot-state j tid (text "startup session identity rejected: " ++ reason) boot noted
      ∙ ap (λ o. shift j tid Execution.crashed (state_of o))
          (get_task-append_event j tid (text "manager") etype none none summary none wall
            m.registry)

  establish-state :
      (j tid : Text) (state : Members) (m : Manager)
      → shown j (establish py digest canonical now wall tid state m) ≡ shown j m
  establish-state j tid state m =
      let id = text_of py (get_member (text "sessionId") state) in
      let r1 = update_task tid (put_identity id ∷ []) wall m.registry in
      let r2 = (apply_state_snapshot py digest tid state now wall r1).0 in
      let at_start = some (state_text Execution.starting) in
      ap state_of (
        get_task-append_event j tid (text "manager") (EventType.other (text "identity_established"))
          at_start at_start
          (some (py.dumps (obj (member (text "session_id") (str id) Members.end)))) none wall r2)
      ∙ apply_state_snapshot-state py digest j tid state now wall r1
      ∙ update_task-state j tid (put_identity id) [] wall m.registry (λ _. refl) (λ _. refl)

  run_prompt-state :
      (j tid : Text) (boot : Boot) (m : Manager)
      → shown j (run_prompt py digest canonical now wall tid boot m)
        ≡ shift j tid (ending (is_none boot.prompt_error)) (shown j m)
  run_prompt-state j tid boot m = elim (Option-cases boot.prompt_error) [
    | inl e ↦
        let write = set_execution_state tid Execution.running (put_progress_at now ∷ []) now wall in
        rw e (
          ap (λ r. state_of (get_task j r)) (start_watchdog-registry tid (with_registry write m))
          ∙ set_execution_state-state j tid Execution.running (put_progress_at now ∷ []) now wall
              m.registry (λ _. refl) (λ _. refl))
    | inr (exc, e) ↦ rw e (fail_boot-state j tid (text "prompt not accepted: " ++ exc) boot m)
  ]

  by_identity-state :
      (j tid : Text) (boot : Boot) (state : Members) (e : Option Text) (m : Manager)
      → let result = by_identity py digest canonical now wall tid boot state e m in
        (shown j result.0
          ≡ shift j tid (ending (is_none e && is_none boot.prompt_error)) (shown j m))
        × (result.1 ≡ is_none e)
  by_identity-state j tid boot state (some reason) m =
      (reject_identity-state j tid reason boot m, refl)
  by_identity-state j tid boot state none m =
      let m' = establish py digest canonical now wall tid state m in
      (
        run_prompt-state j tid boot m'
            ∙ ap (shift j tid (ending (is_none boot.prompt_error))) (establish-state j tid state m),
        refl,
      )

  by_answer-state :
      (j tid allocated : Text) (boot : Boot) (answer : Heartbeat) (m : Manager)
      → let result = by_answer py digest canonical now wall tid allocated boot answer m in
        let good = owns py canonical allocated answer in
        (shown j result.0 ≡ shift j tid (ending (good && is_none boot.prompt_error)) (shown j m))
        × (result.1 ≡ good)
  by_answer-state j tid allocated boot (state_error exc) m =
      (fail_boot-state j tid (text "initial get_state failed: " ++ exc) boot m, refl)
  by_answer-state j tid allocated boot (state_read state) m =
      by_identity-state j tid boot state
        (boot_identity_error py canonical (get_member (text "sessionId") state)
          (get_member (text "sessionFile") state) allocated)
        m

  by_process-state :
      (j tid allocated : Text) (boot : Boot) (process : Spawned) (m : Manager)
      → let result = by_process py digest canonical now wall tid allocated boot process m in
        let good = is_spawned process && owns py canonical allocated boot.answer in
        (shown j result.0 ≡ shift j tid (ending (good && is_none boot.prompt_error)) (shown j m))
        × (result.1 ≡ good)
  by_process-state j tid allocated boot (spawn_failed exc) m = (
    set_execution_state-state j tid Execution.crashed
        (put_last_error (text "spawn failed: " ++ exc) ∷ []) now wall m.registry (λ _. refl)
        (λ _. refl),
    refl,
  )
  by_process-state j tid allocated boot (spawned pid) m =
      let write = update_task tid (put_pid pid ∷ []) wall in
      let m' = with_registry write (set_rt tid attach_transport m) in
      let (a, b) = by_answer-state j tid allocated boot boot.answer m' in
      let good = owns py canonical allocated boot.answer in
      (
        a
            ∙ ap (shift j tid (ending (good && is_none boot.prompt_error)))
                (update_task-state j tid (put_pid pid) [] wall m.registry (λ _. refl) (λ _. refl)),
        b,
      )

  -- The boot of a task with a runtime sends the prompt exactly if the process starts and its first
  -- answer proves the allocated session; the task is then RUNNING if the prompt is accepted, and
  -- CRASHED in every other case. No other task's state changes.
  pub boot_and_run_lem :
      (j tid allocated : Text) (boot : Boot) (m : Manager) (rt : Runtime)
      → rt_of tid m ≡ some rt
      → let result = boot_and_run py digest canonical now wall tid allocated boot m in
        let good = is_spawned boot.process && owns py canonical allocated boot.answer in
        (shown j result.0 ≡ shift j tid (ending (good && is_none boot.prompt_error)) (shown j m))
        × (result.1 ≡ good)
  unfolding boot_and_run
  boot_and_run_lem j tid allocated boot m rt h =
      rw h (by_process-state j tid allocated boot boot.process m)
