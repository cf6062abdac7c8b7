-- ===== src/WakeWorker.antt =====
-- wake_worker.py: one pass of `TerminalWakeWorker`. What the host's `inject_message` answers is a
-- parameter.

pub mod Passes
use hermes_pi_manager.Outbox.Target.{parse_origin}
use hermes_pi_manager.Registry.Events.{append_event}
use hermes_pi_manager.Messages.{
  continuation_id_for, format_terminal_wake_message, state_text, verification_text,
}
use hermes_pi_manager.Registry.Tasks.{get_task}
use hermes_pi_manager.Registry.Wakes.{
  claim_terminal_wake, list_wake_pending, mark_wake_accepted, mark_wake_exhausted, mark_wake_retry,
  settle_stale_wake_dispatching,
}
use hermes_pi_manager.Base.Json.{
  Json, Members, Python, get_member, member, number, obj, str, truthy,
}
use hermes_pi_manager.Registry.Rows.{EventType, Registry, Task}
use hermes_pi_manager.Base.{
  Bool, List, Option, Text, [], false, get_or, if◌then◌else◌, length, ltb, none, show, some, suc,
  text, true, zero, ℕ, ◌++◌, ◌+◌, ◌-◌, ◌==◌, ◌∷◌,
}

pub record WakeConfig : Type 0 where
  pub max_attempts : ℕ
  pub retry_backoff : List ℕ
  pub max_per_tick : ℕ

-- The defaults: 5 attempts, and 30, 120, 600 and 1800 seconds between them.
abbrev pub default_config : WakeConfig
default_config = record {
  max_attempts = 5;
  retry_backoff = 30000 ∷ 120000 ∷ 600000 ∷ 1800000 ∷ [];
  max_per_tick = 8;
}

-- `inject_message` returned, or raised.
pub data Injection : Type 0 where
  answered : Bool → Injection
  raised : Text → Injection

-- `backoff[min(n, len(backoff) - 1)]`.
abbrev pub backoff_at : List ℕ → ℕ → ℕ
backoff_at [] n = 0
backoff_at (d ∷ []) n = d
backoff_at (d ∷ e ∷ ds) zero = d
backoff_at (d ∷ e ∷ ds) (suc n) = backoff_at (e ∷ ds) n

abbrev wake_event : Python → Text → EventType → Json → ℕ → Registry → Registry
wake_event py tid etype summary =
    append_event tid (text "wake") etype none none (some (py.dumps summary)) none

abbrev not_accepted : Text
not_accepted =
    text
      "inject_message returned False: gateway did not accept (no live gateway, missing session_key, or the allow_gateway_injection grant is not set)"

-- Whether the host accepted, and the error otherwise.
abbrev pub injection_error : Injection → Option Text
injection_error (answered true) = none
injection_error (answered false) = some not_accepted
injection_error (raised exc) = some (text "inject_message raised: " ++ exc)

-- The session key of an origin, if it reads as true.
abbrev pub session_key_of : Python → Option Text → Option Json
session_key_of py origin = elim (get_member (text "session_key") (parse_origin py origin)) [
  | none ↦ none
  | some key ↦ if truthy py key then some key else none
]

abbrev accepted_summary : Text → Task → Json
accepted_summary tid fresh = obj (
    member (text "continuation_id") (str (continuation_id_for tid)) (
      member (text "execution_state") (str (state_text fresh.execution_state)) (
        member (text "verification_state") (str (verification_text fresh.verification_state))
          Members.end)))

abbrev retry_summary : ℕ → ℕ → Text → Json
retry_summary attempts next_retry error = obj (
    member (text "attempts") (number (show attempts)) (
      member (text "next_retry_at") (number (show next_retry))
        (member (text "error") (str error) Members.end)))

abbrev exhausted_summary : ℕ → Text → Json
exhausted_summary attempts error = obj (
    member (text "attempts") (number (show attempts))
      (member (text "error") (str error) Members.end))

-- What the pass records of an injection. The claim has counted the attempt already, so it is at
-- least 1; an index of -1 would be the last entry.
unfoldable pub record_injection :
    Python → WakeConfig → Text → Task → Option Text → ℕ → ℕ → Registry → Registry
record_injection py cfg tid fresh none now wall r =
    wake_event py tid (EventType.other (text "wake_accepted")) (accepted_summary tid fresh) wall
      (mark_wake_accepted tid now wall r)
record_injection py cfg tid fresh (some error) now wall r =
    let attempts = fresh.wake_attempts in
    let delay =
      backoff_at cfg.retry_backoff
        (if attempts == 0 then length cfg.retry_backoff else attempts - 1) in
    if ltb attempts cfg.max_attempts
    then wake_event py tid (EventType.other (text "wake_retry"))
        (retry_summary attempts (now + delay) error) wall
        (mark_wake_retry tid (now + delay) error wall r)
    else wake_event py tid (EventType.other (text "wake_exhausted"))
        (exhausted_summary attempts error) wall (mark_wake_exhausted tid error wall r)

module _ (py : Python) (inject : Text → Option Json → Injection) (cfg : WakeConfig)
    (now wall : ℕ) where
  unfoldable pub dispatch_one : Task → Registry → Registry
  dispatch_one row r =
      let tid = row.task_id in
      let fresh = get_or (get_task tid r) row in
      let answer =
        inject (format_terminal_wake_message tid fresh) (session_key_of py fresh.origin) in
      record_injection py cfg tid fresh (injection_error answer) now wall r

  unfoldable pub wake_rows : List Task → Registry → Registry × ℕ
  wake_rows [] r = (r, 0)
  wake_rows (row ∷ rows) r =
      let (r', won) = claim_terminal_wake row.task_id wall r in
      let (r'', n) = wake_rows rows (if won then dispatch_one row r' else r') in
      (r'', if won then suc n else n)

  abbrev uncertain_note : Json
  uncertain_note = obj (
      member (text "note")
        (str
          (text "dispatching at plugin load; not retried to avoid a duplicate orchestrator turn"))
        Members.end)

  unfoldable pub note_uncertain : List Text → Registry → Registry
  note_uncertain [] r = r
  note_uncertain (tid ∷ tids) r =
      note_uncertain tids
        (wake_event py tid (EventType.other (text "wake_uncertain")) uncertain_note wall r)

  unfoldable pub run_wakes : Registry → Registry × ℕ
  run_wakes r =
      let (r', stale) = settle_stale_wake_dispatching wall r in
      let r'' = note_uncertain stale r' in
      wake_rows (list_wake_pending now cfg.max_per_tick r'') r''
