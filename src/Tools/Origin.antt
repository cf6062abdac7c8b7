-- ===== src/Tools/Origin.antt =====
-- tools.py: `_capture_routing`, `handle_pi_task`, and whether the tools are offered.
pub mod Routing
pub mod Dispatch
use hermes_pi_manager.Transport.{put_member}
use hermes_pi_manager.Manager.Start.{start_task}
use hermes_pi_manager.Base.Json.{truthy, Json, Members, Python, get_member, null, str}
use hermes_pi_manager.Manager.State.{Manager, Thresholds, VerifierSpec, default_thresholds}
use hermes_pi_manager.Base.{
  Bool, List, Option, Text, [], false, get_or, if◌then◌else◌, is_empty, is_none, mem_text, none,
  not, some, text, true, ℕ, ◌++◌, ◌||◌, ◌∷◌,
}
use hermes_pi_manager.Tools.{Handled, argv_arg, escaped, outcome, problem, spec_arg, text_arg}
use mathlib.Core.Option

-- The keys of an origin with the session variables they are read from.
abbrev pub routing_keys : List (Text × Text)
routing_keys =
    (text "platform", text "HERMES_SESSION_PLATFORM")
    ∷ (text "chat_id", text "HERMES_SESSION_CHAT_ID")
    ∷ (text "thread_id", text "HERMES_SESSION_THREAD_ID")
    ∷ (text "message_id", text "HERMES_SESSION_MESSAGE_ID")
    ∷ (text "session_key", text "HERMES_SESSION_KEY")
    ∷ (text "scope_id", text "HERMES_SESSION_SCOPE_ID")
    ∷ (text "user_id", text "HERMES_SESSION_USER_ID")
    ∷ (text "user_name", text "HERMES_SESSION_USER_NAME")
    ∷ (text "session_id", text "HERMES_SESSION_ID")
    ∷ (text "ui_session_id", text "HERMES_UI_SESSION_ID")
    ∷ []

abbrev pub put_given : Text → Text → Members → Members
put_given k v out = if is_empty v then out else put_member k (str v) out

-- `get` reads a session variable; `none` is an exception, which ends the loop.
unfoldable pub read_routing : (Text → Option Text) → List (Text × Text) → Members → Members
read_routing get [] out = out
read_routing get ((k, env) ∷ keys) out = elim (get env) [
  | none ↦ out
  | some v ↦ read_routing get keys (put_given k v out)
]

abbrev has_text : Option Json → Bool
has_text (some (str (c ∷ s))) = true
has_text _ = false

abbrev pub fill_platform : Text → Members → Members
fill_platform platform out =
    if has_text (get_member (text "platform") out)
    then out
    else put_given (text "platform") platform out

-- `platform` is HERMES_PLATFORM of the process's environment, empty if it is not set.
unfoldable pub capture_routing : (Text → Option Text) → Text → Members
capture_routing get platform = fill_platform platform (read_routing get routing_keys Members.end)

-- `_pi_binary_available`, with its cache; `found` is whether the search finds the binary.
unfoldable pub pi_binary_available : Option Bool → Bool → Option Text → Bool × Option Bool
pi_binary_available (some known) assumed found = (known, some known)
pi_binary_available none assumed found =
    (assumed || not (is_none found), some (assumed || not (is_none found)))

-- What a host offers as `inject_message`: nothing that can be called, a callable with the names of
-- its parameters, or one that cannot be inspected.
pub data Inject : Type 0 where
  not_callable : Inject
  with_parameters : List Text → Inject
  opaque_callable : Inject

unfoldable pub gateway_injection_supported : Inject → Bool
gateway_injection_supported not_callable = false
gateway_injection_supported (with_parameters names) = mem_text (text "session_key") names
gateway_injection_supported opaque_callable = true

abbrev pub incomplete : Text
incomplete = text "prompt and cwd are required"

abbrev pub no_directory : Text → Text
no_directory d = text "cwd is not an existing directory: " ++ d

-- `stored` is the text that SQLite stores for a task id that is no string; `none` is its exception.
module _ (py : Python) (seconds_text : ℕ → Text) (to_millis : Json → Option ℕ)
    (stored : Json → Option Text) where
  abbrev id_from : Text → Json → Option Text
  id_from fresh (str s) = some s
  id_from fresh v = stored v

  -- `args.get("task_id") or fresh`.
  unfoldable pub id_arg : Members → Text → Option Text
  id_arg args fresh = elim (get_member (text "task_id") args) [
    | none ↦ some fresh
    | some v ↦ if truthy py v then id_from fresh v else some fresh
  ]

  -- `none` is an exception of `float`; a cap of null is none.
  abbrev pub cap_of : Option Json → Option ℕ → Option (Option ℕ)
  cap_of none cap = some cap
  cap_of (some null) cap = some none
  cap_of (some v) cap = Option.map some (to_millis v)

  unfoldable pub limits_of : Members → Option Thresholds
  limits_of args =
      Option.map (λ cap. record default_thresholds { emergency_cap = cap })
        (cap_of (get_member (text "emergency_cap_seconds") args) default_thresholds.emergency_cap)

  -- No verifier, one, or (the outer `none`) an exception of `list` or `float`.
  abbrev gate_from : Members → Option Json → Option (Option VerifierSpec)
  gate_from args none = some none
  gate_from args (some argv) = Option.map some (spec_arg py to_millis args argv)

  unfoldable pub gate_of : Members → Option (Option VerifierSpec)
  gate_of args = gate_from args (argv_arg py args)

  abbrev pub started_as : Text → Option Manager → Manager → Handled Text
  started_as tid none m = (escaped, m)
  started_as tid (some m') m = (outcome tid, m')

  abbrev pub start_for :
      Option Text
      → Option (Option VerifierSpec)
      → Option Thresholds
      → Text
      → Text
      → Members
      → ℕ
      → ℕ
      → Manager
      → Handled Text
  start_for (some tid) (some gate) (some limits) cwd session_file origin now wall m =
      started_as tid (start_task py seconds_text tid cwd session_file limits gate origin now wall m)
        m
  start_for tid gate limits cwd session_file origin now wall m = (escaped, m)

  -- `fresh` and `session_file` are the id for a task without one and the path of its session file.
  abbrev pub task_with :
      Members
      → Option Text
      → Option Text
      → (Text → Bool)
      → (Text → Text)
      → Text
      → Text
      → Members
      → ℕ
      → ℕ
      → Manager
      → Handled Text
  task_with args (some prompt) (some cwd) is_dir expand fresh session_file origin now wall m =
      if is_dir (expand cwd)
      then start_for (id_arg args fresh) (gate_of args) (limits_of args) (expand cwd) session_file
          origin now wall m
      else (problem (no_directory (expand cwd)), m)
  task_with args prompt cwd is_dir expand fresh session_file origin now wall m =
      (problem incomplete, m)

  unfoldable pub handle_pi_task :
      Members
      → (Text → Bool)
      → (Text → Text)
      → Text
      → Text
      → Members
      → ℕ
      → ℕ
      → Manager
      → Handled Text
  handle_pi_task args is_dir expand fresh session_file origin now wall m =
      task_with args (text_arg py (text "prompt") args) (text_arg py (text "cwd") args) is_dir
        expand fresh session_file origin now wall m
