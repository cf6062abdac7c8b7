-- ===== src/Tools/Origin/Dispatch.antt =====
-- tools.py, `handle_pi_task`: when a dispatch starts a task.
use hermes_pi_manager.Manager.Start.{started, start_task, start_task_lem}
use hermes_pi_manager.Registry.Tasks.Cas.{TasksDistinct}
use hermes_pi_manager.Tools.Refusals.{is_outcome, is_problem}
use hermes_pi_manager.Registry.Tasks.{new_task, get_task}
use hermes_pi_manager.Tools.{outcome, problem, text_arg, Handled}
use hermes_pi_manager.Manager.State.{Thresholds, VerifierSpec, Manager}
use hermes_pi_manager.Registry.Rows.{Registry}
use hermes_pi_manager.Tools.Origin.{
  incomplete, no_directory, id_arg, gate_of, handle_pi_task, limits_of, start_for, started_as,
  task_with,
}
use hermes_pi_manager.Base.{
  Option-cases, Bool-cases, get_or, inl, inr, true, Bool, false, is_none, not, ℕ, ◌&&◌, Option,
  Text, [], arith, if◌then◌else◌, none, refl, some, text, text_eq, ◌≡◌,
}
use hermes_pi_manager.Base.Json.{Python, Json, Members}

abbrev pub is_free : Text → Registry → Bool
is_free tid r = is_none (get_task tid r)

-- Whether the arguments are complete and name a directory.
abbrev pub is_startable : Option Text → Option Text → (Text → Bool) → (Text → Text) → Bool
is_startable (some prompt) (some cwd) is_dir expand = is_dir (expand cwd)
is_startable prompt cwd is_dir expand = false

-- What `pi_task` has done to task `j`: by the id, the verifier and the limits that were read, and
-- whether the arguments are complete.
abbrev pub Dispatches :
    Python
    → (ℕ → Text)
    → Text
    → Text
    → Text
    → Members
    → ℕ
    → ℕ
    → Bool
    → Option Text
    → Option (Option VerifierSpec)
    → Option Thresholds
    → Manager
    → Handled Text
    → Type 0
Dispatches py seconds_text j cwd file origin now wall good (some tid) (some gate) (some limits) m
      h =
    let starts = good && is_free tid m.registry in
    (is_problem h.0 ≡ not good)
    × (is_outcome h.0 ≡ starts)
    × (h.0 ≡ (if starts then outcome tid else h.0))
    × (get_task j h.1.registry ≡ (
        if text_eq j tid && starts
        then some (started py seconds_text cwd file gate origin now (new_task tid wall))
        else get_task j m.registry))
    × (h.1 ≡ (if starts then h.1 else m))
Dispatches py seconds_text j cwd file origin now wall good tid gate limits m h =
    (is_problem h.0 ≡ not good) × (is_outcome h.0 ≡ false) × (h.1 ≡ m)

module _ (py : Python) (seconds_text : ℕ → Text) (to_millis : Json → Option ℕ)
    (stored : Json → Option Text) (j session_file : Text) (origin : Members) (now wall : ℕ)
    (m : Manager) where
  started_as-Dispatches :
      (tid cwd : Text) (gate : Option VerifierSpec) (limits : Thresholds)
      → TasksDistinct m.registry
      → m.registry.closed ≡ false
      → Dispatches py seconds_text j cwd session_file origin now wall true
          (some tid)
          (some gate)
          (some limits)
          m
          (started_as py seconds_text to_millis stored tid
            (start_task py seconds_text tid cwd session_file limits gate origin now wall m)
            m)
  started_as-Dispatches tid cwd gate limits d up =
      let lem =
        start_task_lem py seconds_text j tid cwd session_file limits gate origin now wall m d up in
      elim (Option-cases
        (start_task py seconds_text tid cwd session_file limits gate origin now wall m)) [
          | inl e ↦ ground (arith, lem, e)
          | inr (m', e) ↦ ground (arith, lem, e)
        ]

  start_for-Dispatches :
      (tid : Option Text) (cwd : Text) (gate : Option (Option VerifierSpec))
      (limits : Option Thresholds)
      → TasksDistinct m.registry
      → m.registry.closed ≡ false
      → Dispatches py seconds_text j cwd session_file origin now wall true tid gate limits m (
          start_for py seconds_text to_millis stored tid gate limits cwd session_file origin now
            wall m)
  start_for-Dispatches none cwd gate limits d up = (refl, refl, refl)
  start_for-Dispatches (some tid) cwd none limits d up = (refl, refl, refl)
  start_for-Dispatches (some tid) cwd (some gate) none d up = (refl, refl, refl)
  start_for-Dispatches (some tid) cwd (some gate) (some limits) d up =
      started_as-Dispatches tid cwd gate limits d up

  refused-Dispatches :
      (tid : Option Text) (cwd : Text) (gate : Option (Option VerifierSpec))
      (limits : Option Thresholds) (why : Text)
      → Dispatches py seconds_text j cwd session_file origin now wall false tid gate limits m
          (problem why, m)
  refused-Dispatches none cwd gate limits why = (refl, refl, refl)
  refused-Dispatches (some tid) cwd none limits why = (refl, refl, refl)
  refused-Dispatches (some tid) cwd (some gate) none why = (refl, refl, refl)
  refused-Dispatches (some tid) cwd (some gate) (some limits) why = ground arith

  task_with-Dispatches :
      (args : Members) (prompt cwd : Option Text) (is_dir : Text → Bool) (expand : Text → Text)
      (fresh : Text)
      → TasksDistinct m.registry
      → m.registry.closed ≡ false
      → Dispatches py seconds_text j
          (expand (get_or cwd []))
          session_file
          origin
          now
          wall
          (is_startable prompt cwd is_dir expand)
          (id_arg py seconds_text to_millis stored args fresh)
          (gate_of py seconds_text to_millis stored args)
          (limits_of py seconds_text to_millis stored args)
          m
          (task_with py seconds_text to_millis stored args prompt cwd is_dir expand fresh
            session_file origin now wall m)
  task_with-Dispatches args none cwd is_dir expand fresh d up =
      refused-Dispatches (id_arg py seconds_text to_millis stored args fresh)
        (expand (get_or cwd [])) (gate_of py seconds_text to_millis stored args)
        (limits_of py seconds_text to_millis stored args) incomplete
  task_with-Dispatches args (some prompt) none is_dir expand fresh d up =
      refused-Dispatches (id_arg py seconds_text to_millis stored args fresh) (expand [])
        (gate_of py seconds_text to_millis stored args)
        (limits_of py seconds_text to_millis stored args) incomplete
  task_with-Dispatches args (some prompt) (some cwd) is_dir expand fresh d up =
      let tid = id_arg py seconds_text to_millis stored args fresh in
      let gate = gate_of py seconds_text to_millis stored args in
      let limits = limits_of py seconds_text to_millis stored args in
      elim (Bool-cases (is_dir (expand cwd))) [
        | inl there ↦ rw there (start_for-Dispatches tid (expand cwd) gate limits d up)
        | inr gone ↦
            rw gone (refused-Dispatches tid (expand cwd) gate limits (no_directory (expand cwd)))
      ]

  -- In an open registry with one row per task, `pi_task` answers with an error exactly if the prompt
  -- or the directory is missing or the directory is not there. Otherwise, if the command can be listed,
  -- the time-out and the cap can be read and the task id can be stored, it starts the task exactly if
  -- its id is free: it answers with that id, the row of the task is the new one with its verifier and
  -- its session file, and no other row changes. In every other case an exception leaves the handler;
  -- the manager stays as it was whenever no task is started.
  pub handle_pi_task_lem :
      (args : Members) (is_dir : Text → Bool) (expand : Text → Text) (fresh : Text)
      → TasksDistinct m.registry
      → m.registry.closed ≡ false
      → let cwd = text_arg py (text "cwd") args in
        Dispatches py seconds_text j
          (expand (get_or cwd []))
          session_file
          origin
          now
          wall
          (is_startable (text_arg py (text "prompt") args) cwd is_dir expand)
          (id_arg py seconds_text to_millis stored args fresh)
          (gate_of py seconds_text to_millis stored args)
          (limits_of py seconds_text to_millis stored args)
          m
          (handle_pi_task py seconds_text to_millis stored args is_dir expand fresh session_file
            origin now wall m)
  unfolding handle_pi_task
  handle_pi_task_lem args is_dir expand fresh d up =
      task_with-Dispatches args (text_arg py (text "prompt") args) (text_arg py (text "cwd") args)
        is_dir expand fresh d up
