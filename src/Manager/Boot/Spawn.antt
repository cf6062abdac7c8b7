-- ===== src/Manager/Boot/Spawn.antt =====
-- core.py: `_resolve_system_prompt_file` and `_spawn_process`, the command line of a managed task.
use hermes_pi_manager.Base.{◌≡◌, Bool, List, Option, Text, none, some, text, ℕ, ◌∷◌}
use hermes_pi_manager.Transport.Argv.{build_rpc_argv, options, value_of, value_of-build_rpc_argv}

-- `packaged` is the path of the packaged prompt, if it is a file.
unfoldable pub resolve_system_prompt_file : Option Text → Option Text → Option Text
resolve_system_prompt_file (some (c ∷ s)) packaged = some (c ∷ s)
resolve_system_prompt_file override packaged = packaged

unfoldable pub spawn_argv :
    Text → Text → Text → Text → Option Text → Bool → Option Text → Option Text → List Text
spawn_argv pi_bin provider model thinking session_file no_session override packaged =
    build_rpc_argv pi_bin provider model thinking session_file none no_session
      (resolve_system_prompt_file override packaged)

-- A managed task is started on its own session file and under no session id, whatever else is asked.
pub spawn_argv-session :
    (pi_bin provider model thinking : Text) (c : ℕ) (file : Text) (no_session : Bool)
    (override packaged : Option Text)
    → let argv = options (
        spawn_argv pi_bin provider model thinking (some (c ∷ file)) no_session override packaged) in
      (value_of (text "--session") argv ≡ some (c ∷ file))
      × (value_of (text "--session-id") argv ≡ none)
unfolding spawn_argv
spawn_argv-session pi_bin provider model thinking c file no_session override packaged =
    let (mode, p, m, t, session, id, prompt) =
      value_of-build_rpc_argv pi_bin provider model thinking (some (c ∷ file)) none
        (resolve_system_prompt_file override packaged) no_session in
    (session, id)
