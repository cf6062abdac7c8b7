-- ===== src/Manager/Boot.antt =====
-- core.py: `_boot_and_run`, the thread that boots a started task, with `_boot_identity_error`. What
-- the process does is a parameter. An id that is no string is stored as its text.
use hermes_pi_manager.Outbox.Target.{strip}
use hermes_pi_manager.Manager.Recovery.{put_last_error, put_progress_at, seed}
use hermes_pi_manager.Registry.Rows.{EventType, Execution, Task}
use hermes_pi_manager.Registry.Events.{append_event}
use hermes_pi_manager.Messages.{state_text}
use hermes_pi_manager.Manager.Aborts.{handle_early_failure}
use hermes_pi_manager.Registry.Tasks.{bound_text, get_task, max_summary_chars, update_task}
use hermes_pi_manager.Manager.State.{
  Manager, Runtime, rt_of, set_execution_state, set_rt, start_watchdog, with_registry,
}
use hermes_pi_manager.Manager.Watchdog.Heartbeats.{
  Heartbeat, apply_state_snapshot, state_error, state_read,
}
use hermes_pi_manager.Base.{
  Bool, Option, Text, [], false, if◌then◌else◌, is_empty, is_none, none, not, some, text, text_eq,
  true, ℕ, ◌++◌, ◌∷◌,
}
use hermes_pi_manager.Base.Json.{
  Json, Members, Python, get_member, member, null, obj, str, str_of, truthy,
}
use hermes_pi_manager.Manager.Notices.{opt_eq}
pub mod Proven
pub mod Unspawned
pub mod Spawn
use mathlib.Core.Option

pub data Spawned : Type 0 where
  spawn_failed : Text → Spawned
  spawned : Option ℕ → Spawned

-- What the boot finds: the process, the answer to the first `get_state`, the error of the prompt if
-- it was not accepted, and the tail of the error output.
pub record Boot : Type 0 where
  pub process : Spawned
  pub answer : Heartbeat
  pub prompt_error : Option Text
  pub stderr : Text

-- `value is None or not str(value).strip()`.
abbrev is_blank : Python → Option Json → Bool
is_blank py none = true
is_blank py (some null) = true
is_blank py (some v) = is_empty (strip (str_of py v))

-- `_canonical_path`, where `canonical` resolves a path.
abbrev canonical_path : (Text → Text) → Text → Option Text
canonical_path canonical [] = none
canonical_path canonical (c ∷ s) = some (canonical (c ∷ s))

abbrev mismatch_text : Text → Text → Text
mismatch_text reported allocated =
    text "session_file_mismatch: initial get_state reported "
    ++ (bound_text reported max_summary_chars
        ++ (text " but the task was allocated " ++ bound_text allocated max_summary_chars))

abbrev file_error : Python → (Text → Text) → Option Json → Text → Option Text
file_error py canonical none allocated =
    some (text "missing_session_file: initial get_state reported no sessionFile")
file_error py canonical (some v) allocated =
    if not (truthy py v)
    then some (text "missing_session_file: initial get_state reported no sessionFile")
    else if opt_eq text_eq (canonical_path canonical (str_of py v))
        (canonical_path canonical allocated)
    then none
    else some (mismatch_text (str_of py v) allocated)

unfoldable pub boot_identity_error :
    Python → (Text → Text) → Option Json → Option Json → Text → Option Text
boot_identity_error py canonical session_id reported allocated =
    if is_blank py session_id
    then some (text "missing_session_id: initial get_state reported no non-empty sessionId")
    else file_error py canonical reported allocated

abbrev pub put_pid : Option ℕ → Task → Task
put_pid pid t = record t { pid = pid }

abbrev pub put_identity : Text → Task → Task
put_identity id t = record t { session_id = some id; expected_session_id = some id }

abbrev pub attach_transport : Runtime → Runtime
attach_transport rt = record rt { attached = true }

abbrev pub text_of : Python → Option Json → Text
text_of py none = []
text_of py (some v) = str_of py v

module _ (py : Python) (digest : Json → Text) (canonical : Text → Text) (now wall : ℕ) where
  abbrev pub identity_error : Members → Text → Option Text
  identity_error state allocated =
      boot_identity_error py canonical (get_member (text "sessionId") state)
        (get_member (text "sessionFile") state) allocated

  abbrev pub fail_boot : Text → Text → Boot → Manager → Manager
  fail_boot tid message boot m =
      with_registry (handle_early_failure py tid message boot.stderr now wall) m

  abbrev pub reject_identity : Text → Text → Boot → Manager → Manager
  reject_identity tid reason boot m =
      fail_boot tid (text "startup session identity rejected: " ++ reason) boot (
        with_registry
          (append_event tid (text "manager") (EventType.other (text "session_identity_rejected"))
            none none
            (some (
              py.dumps (
                obj (
                  member (text "reason") (str (bound_text reason max_summary_chars)) Members.end))))
            none wall)
          m)

  -- What is written once the identity is proven.
  abbrev pub establish : Text → Members → Manager → Manager
  establish tid state m =
      let id = text_of py (get_member (text "sessionId") state) in
      let r1 = update_task tid (put_identity id ∷ []) wall m.registry in
      let r2 = (apply_state_snapshot py digest tid state now wall r1).0 in
      let r3 =
        append_event tid (text "manager") (EventType.other (text "identity_established"))
          (some (state_text Execution.starting)) (some (state_text Execution.starting))
          (some (py.dumps (obj (member (text "session_id") (str id) Members.end)))) none wall r2 in
      record (set_rt tid (seed (get_task tid r2)) m) { registry = r3 }

  abbrev pub run_prompt : Text → Boot → Manager → Manager
  run_prompt tid boot m = elim boot.prompt_error [
    | some exc ↦ fail_boot tid (text "prompt not accepted: " ++ exc) boot m
    | none ↦ start_watchdog tid (
        with_registry
          (set_execution_state tid Execution.running (put_progress_at now ∷ []) now wall) m)
  ]

  abbrev pub by_identity : Text → Boot → Members → Option Text → Manager → Manager × Bool
  by_identity tid boot state (some reason) m = (reject_identity tid reason boot m, false)
  by_identity tid boot state none m = (run_prompt tid boot (establish tid state m), true)

  abbrev pub by_answer : Text → Text → Boot → Heartbeat → Manager → Manager × Bool
  by_answer tid allocated boot (state_error exc) m =
      (fail_boot tid (text "initial get_state failed: " ++ exc) boot m, false)
  by_answer tid allocated boot (state_read state) m =
      by_identity tid boot state (identity_error state allocated) m

  abbrev pub by_process : Text → Text → Boot → Spawned → Manager → Manager × Bool
  by_process tid allocated boot (spawn_failed exc) m = (
    with_registry
        (set_execution_state tid Execution.crashed
          (put_last_error (text "spawn failed: " ++ exc) ∷ []) now wall)
        m,
    false,
  )
  by_process tid allocated boot (spawned pid) m =
      by_answer tid allocated boot boot.answer
        (with_registry (update_task tid (put_pid pid ∷ []) wall) (set_rt tid attach_transport m))

  -- The manager after the boot, and whether the prompt was sent.
  unfoldable pub boot_and_run : Text → Text → Boot → Manager → Manager × Bool
  boot_and_run tid allocated boot m =
      if is_none (rt_of tid m) then (m, false) else by_process tid allocated boot boot.process m
