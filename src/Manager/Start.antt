-- ===== src/Manager/Start.antt =====
-- core.py: `start_task` up to the start of its boot thread, and the check of the booted session's
-- identity. The new session file's path and the ids of new tasks are the caller's.
pub mod Persisted
use hermes_pi_manager.Outbox.Target.{safe_ref}
use hermes_pi_manager.Manager.Recovery.{fresh_runtime, put_runtime}
use hermes_pi_manager.Manager.State.{Manager, Thresholds, VerifierSpec}
use hermes_pi_manager.Registry.Events.{append_event}
use hermes_pi_manager.Registry.Tasks.{bound_text, create_task, get_task, new_task}
use hermes_pi_manager.Messages.{state_text}
use hermes_pi_manager.Registry.Tasks.Cas.{TasksDistinct, create_task_lem}
use hermes_pi_manager.Registry.Rows.{EventType, Execution, Registry, Task, Verification}
use hermes_pi_manager.Base.Json.{
  Json, Items, Members, Python, arr, bool, cons, get_member, member, nil, number, obj, str, truthy,
}
use hermes_pi_manager.Base.{
  Bool, List, Option, Option-cases, Text, [], arith, false, get_or, if◌then◌else◌, inl, inr,
  is_none, none, not, refl, some, text, text_eq, ℕ, ◌&&◌, ◌∷◌, ◌≡◌,
}
use mathlib.Core.Option

-- The origin of the dispatch, as the JSON object it is.
abbrev pub origin_text : Python → Members → Option Text
origin_text py Members.end = none
origin_text py (member k v ms) = some (bound_text (py.dumps (obj (member k v ms))) 2000)

abbrev pub spec_json : (ℕ → Text) → VerifierSpec → Json
spec_json seconds_text spec = obj (
    member (text "argv") (arr spec.argv)
      (member (text "timeout_seconds") (number (seconds_text spec.timeout)) Members.end))

abbrev pub spec_text : Python → (ℕ → Text) → VerifierSpec → Text
spec_text py seconds_text spec = py.dumps (spec_json seconds_text spec)

-- The columns that `start_task` gives `create_task`; the other ones have their defaults, and the time
-- stamps are all the manager's clock.
abbrev pub started :
    Python → (ℕ → Text) → Text → Text → Option VerifierSpec → Members → ℕ → Task → Task
started py seconds_text cwd session_file gate origin now t = record t {
  cwd = some cwd;
  verifier_spec = Option.map (spec_text py seconds_text) gate;
  session_file = some session_file;
  expected_session_file = some session_file;
  created_at = some now;
  updated_at = some now;
  started_at = some now;
  last_event_at = some now;
  last_state_at = some now;
  last_progress_at = some now;
  last_state_changed_at = some now;
  origin = origin_text py origin;
  continuation_enabled = not (is_none (safe_ref py (get_member (text "session_key") origin)));
}

abbrev has_chat : Python → Option Json → Bool
has_chat py none = false
has_chat py (some v) = truthy py v

abbrev created_summary : Python → Text → Text → Bool → Members → Text
created_summary py cwd session_file gated origin = py.dumps (
    obj (
      member (text "cwd") (str cwd) (
        member (text "session_file") (str session_file) (
          member (text "verifier") (bool gated) (
            member (text "origin_platform") (get_or (get_member (text "platform") origin) (str []))
              (member (text "has_origin_chat_id")
                (bool (has_chat py (get_member (text "chat_id") origin))) Members.end))))))

abbrev absent_note : Text
absent_note = text "no verifier_argv: task can only reach verification_state=NOT_RUN"

abbrev note_absent : Python → Text → Option VerifierSpec → ℕ → Registry → Registry
note_absent py tid (some spec) wall r = r
note_absent py tid none wall r =
    append_event tid (text "manager") (EventType.other (text "verifier_absent")) none none
      (some (py.dumps (obj (member (text "note") (str absent_note) Members.end)))) none wall r

abbrev pub start_events :
    Python → Text → Text → Text → Option VerifierSpec → Members → ℕ → Registry → Registry
start_events py tid cwd session_file gate origin wall r = note_absent py tid gate wall (
    append_event tid (text "manager") (EventType.other (text "task_created")) none
      (some (state_text Execution.starting))
      (some (created_summary py cwd session_file (not (is_none gate)) origin)) none wall r)

-- `none` is the IntegrityError of a task id that is taken.
unfoldable pub start_task :
    Python
    → (ℕ → Text)
    → Text
    → Text
    → Text
    → Thresholds
    → Option VerifierSpec
    → Members
    → ℕ
    → ℕ
    → Manager
    → Option Manager
start_task py seconds_text tid cwd session_file limits gate origin now wall m =
    let rt = fresh_runtime tid limits gate false in
    Option.map
      (λ r. record (put_runtime tid rt m) {
        registry = start_events py tid cwd session_file gate origin wall r;
      })
      (create_task tid (started py seconds_text cwd session_file gate origin now ∷ []) wall
        m.registry)

start_events-tasks :
    (py : Python) (j tid cwd session_file : Text) (gate : Option VerifierSpec) (origin : Members)
    (wall : ℕ) (r : Registry)
    → get_task j (start_events py tid cwd session_file gate origin wall r) ≡ get_task j r
unfolding get_task append_event
start_events-tasks py j tid cwd session_file none origin wall r = ground arith
start_events-tasks py j tid cwd session_file (some spec) origin wall r = ground arith

-- A new task is STARTING and NOT_RUN, keeps the allocated session file as the expected one, and may
-- be continued exactly when its origin has a usable session key. Starting fails exactly for an id
-- that is taken, and changes no other task.
pub start_task_lem :
    (py : Python) (seconds_text : ℕ → Text) (j tid cwd session_file : Text) (limits : Thresholds)
    (gate : Option VerifierSpec) (origin : Members) (now wall : ℕ) (m : Manager)
    → TasksDistinct m.registry
    → m.registry.closed ≡ false
    → let result = start_task py seconds_text tid cwd session_file limits gate origin now wall m in
      let fresh = is_none (get_task tid m.registry) in
      let row = started py seconds_text cwd session_file gate origin now (new_task tid wall) in
      (is_none result ≡ not fresh)
      × (get_task j (get_or result m).registry
          ≡ (if text_eq j tid && fresh then some row else get_task j m.registry))
      × (row.execution_state ≡ Execution.starting)
      × (row.verification_state ≡ Verification.not_run)
      × (row.expected_session_file ≡ some session_file)
unfolding start_task
start_task_lem py seconds_text j tid cwd session_file limits gate origin now wall m d up =
    let fields = started py seconds_text cwd session_file gate origin now ∷ [] in
    let made = create_task tid fields wall m.registry in
    let (a, b, c) = create_task_lem j tid fields wall m.registry (λ _. refl) d up in
    elim (Option-cases made) [
      | inl e ↦ ground (arith, a, c)
      | inr (r, e) ↦
          ground (arith, a, c, start_events-tasks py j tid cwd session_file gate origin wall r)
    ]
