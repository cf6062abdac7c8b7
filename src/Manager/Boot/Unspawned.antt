-- ===== src/Manager/Boot/Unspawned.antt =====
-- core.py, `_boot_and_run`: what the failure to spawn a process leaves.
use hermes_pi_manager.Messages.{state_text}
use hermes_pi_manager.Manager.State.Reads.{get_task-append_event, set_execution_state-state}
use hermes_pi_manager.Registry.Tasks.Cas.{get_task-update_task}
use hermes_pi_manager.Registry.Events.{append_event}
use hermes_pi_manager.Manager.Recovery.{put_last_error}
use hermes_pi_manager.Manager.Watchdog.{quiet}
use hermes_pi_manager.Registry.Tasks.{
  Fields, assign, bound_text, get_task, max_summary_chars, task_key, update_task,
}
use hermes_pi_manager.Manager.State.{
  Manager, is_change, name_of, put_changed, put_state, rt_of, set_execution_state, state_transition,
}
use hermes_pi_manager.Manager.Settlement.Late.{wake_of}
use hermes_pi_manager.Registry.Rows.{EventType, Execution, Registry, Task}
use hermes_pi_manager.Base.Json.{Json, Python}
use hermes_pi_manager.Manager.Boot.Proven.{shown}
use hermes_pi_manager.Manager.Boot.{Boot, boot_and_run, spawn_failed}
use hermes_pi_manager.Base.{
  Bool-cases, KeepsKey, Option, Option-cases, Text, [], ap, arith, false, if◌then◌else◌, inl, inr,
  is_none, none, some, text, text_eq, text_eq_iff, ℕ, ◌++◌, ◌∙◌, ◌∷◌, ◌≡◌, refl,
}
use mathlib.Core.Option

abbrev pub error_of : Option Task → Option (Option Text)
error_of o = Option.map (λ t. t.last_error) o

module _ (py : Python) (digest : Json → Text) (canonical : Text → Text) (now wall : ℕ) where
  write_log-notifications :
      (tid : Text) (f : Task → Task) (fs : Fields) (etype : EventType) (before after : Option Text)
      (r : Registry)
      → ((append_event tid
            (text "manager")
            etype
            before
            after
            none
            none
            wall
            (update_task tid (f ∷ fs) wall r)).notifications
          ≡ r.notifications)
        × ((update_task tid (f ∷ fs) wall r).notifications ≡ r.notifications)
  unfolding append_event update_task
  write_log-notifications tid f fs etype before after r = ground arith

  update_task-wake :
      (tid : Text) (f : Task → Task) (fs : Fields) (r : Registry)
      → KeepsKey task_key (assign (f ∷ fs))
      → ((t : Task) → (assign (f ∷ fs) t).wake_state ≡ t.wake_state)
      → wake_of (get_task tid (update_task tid (f ∷ fs) wall r)) ≡ wake_of (get_task tid r)
  update_task-wake tid f fs r h k = elim (Option-cases (get_task tid r)) [
    | inl e ↦ ground (arith, get_task-update_task tid tid f fs wall r h)
    | inr (t, e) ↦ ground (arith, k t, get_task-update_task tid tid f fs wall r h)
  ]

  set_crashed-error :
      (tid : Text) (error : Text) (r : Registry) (t : Task)
      → get_task tid r ≡ some t
      → error_of (
          get_task tid
            (set_execution_state tid Execution.crashed (put_last_error error ∷ []) now wall r))
        ≡ some (some (bound_text error max_summary_chars))
  unfolding set_execution_state
  set_crashed-error tid error r t e =
      let put = put_state Execution.crashed in
      let errors = put_last_error error ∷ [] in
      ground (
        arith,
        text_eq_iff tid tid,
        get_task-update_task tid tid put errors wall r (λ _. refl),
        get_task-update_task tid tid put (put_changed now ∷ errors) wall r (λ _. refl),
        get_task-append_event tid tid (text "manager") state_transition (name_of (get_task tid r))
            (some (state_text Execution.crashed)) none none wall
            (update_task tid (put ∷ put_changed now ∷ errors) wall r),
      )

  set_crashed-silent :
      (tid : Text) (error : Text) (r : Registry)
      → let r' = set_execution_state tid Execution.crashed (put_last_error error ∷ []) now wall r in
        (r'.notifications ≡ r.notifications)
        × (wake_of (get_task tid r') ≡ wake_of (get_task tid r))
  unfolding set_execution_state
  set_crashed-silent tid error r =
      let name = name_of (get_task tid r) in
      let after = some (state_text Execution.crashed) in
      let put = put_state Execution.crashed in
      let error_put = put_last_error error ∷ [] in
      let changed = put_changed now ∷ error_put in
      let logged = write_log-notifications tid put changed state_transition name after r in
      let (a, b) = write_log-notifications tid put error_put state_transition name after r in
      let row = update_task-wake tid put error_put r (λ _. refl) (λ _. refl) in
      let row' = update_task-wake tid put changed r (λ _. refl) (λ _. refl) in
      let event =
        get_task-append_event tid tid (text "manager") state_transition name after none none wall
          (update_task tid (put ∷ changed) wall r) in
      elim (Bool-cases (is_change (get_task tid r) Execution.crashed)) [
        | inl new ↦ rw new (logged.0, ap wake_of event ∙ row')
        | inr same ↦ rw same (b, row)
      ]

  -- A process that cannot be spawned crashes its task, with the error on the row and no other state
  -- changed, but without a notice and without a wake: the notifications and the task's wake state stay
  -- as they were, and no prompt is sent.
  pub spawn_failed-silent :
      (j tid allocated exc : Text) (boot : Boot) (m : Manager) (t : Task)
      → boot.process ≡ spawn_failed exc
      → is_none (rt_of tid m) ≡ false
      → get_task tid m.registry ≡ some t
      → let (m', prompted) = boot_and_run py digest canonical now wall tid allocated boot m in
        (prompted ≡ false)
        × (shown j m' ≡ (if text_eq j tid then some Execution.crashed else shown j m))
        × (error_of (get_task tid m'.registry)
            ≡ some (some (bound_text (text "spawn failed: " ++ exc) max_summary_chars)))
        × (m'.registry.notifications ≡ m.registry.notifications)
        × (wake_of (get_task tid m'.registry) ≡ some t.wake_state)
  unfolding boot_and_run
  spawn_failed-silent j tid allocated exc boot m t h there e =
      let error = text "spawn failed: " ++ exc in
      let (quiet, asleep) = set_crashed-silent tid error m.registry in
      let states =
        set_execution_state-state j tid Execution.crashed (put_last_error error ∷ []) now wall
          m.registry (λ _. refl) (λ _. refl) in
      rw (there, h)
        (
          refl,
          ground (arith, states, text_eq_iff j tid, e),
          set_crashed-error tid error m.registry t e,
          quiet,
          asleep ∙ ap wake_of e,
        )
