-- ===== src/Transport/Argv.antt =====
-- rpc_transport.py, `find_pi_binary` and `build_rpc_argv`.

use hermes_pi_manager.Base.{
  refl, Bool, List, Option, Text, [], false, if◌then◌else◌, is_none, none, some, text, text_eq,
  true, ◌++◌, ◌∷◌, ◌≡◌,
}

abbrev chosen : Option Text → List Text
chosen none = []
chosen (some []) = []
chosen (some (c ∷ s)) = (c ∷ s) ∷ []

abbrev first_file : (Text → Bool) → (Text → Text) → List Text → Option Text
first_file is_file expand [] = none
first_file is_file expand (x ∷ xs) =
    if is_file (expand x) then some (expand x) else first_file is_file expand xs

-- The value of PI_BIN, what `shutil.which` finds, and the file system are parameters; `none` is the
-- FileNotFoundError.
unfoldable find_pi_binary : Option Text → Option Text → (Text → Bool) → (Text → Text) → Option Text
find_pi_binary configured discovered is_file expand =
    first_file is_file expand
      (chosen configured ++ (chosen discovered ++ text "/opt/homebrew/bin/pi" ∷ []))

abbrev session_args : Option Text → Option Text → Bool → List Text
session_args (some (c ∷ s)) id no_session = text "--session" ∷ (c ∷ s) ∷ []
session_args file (some (c ∷ s)) no_session = text "--session-id" ∷ (c ∷ s) ∷ []
session_args file id true = text "--no-session" ∷ []
session_args file id false = []

abbrev prompt_args : Option Text → List Text
prompt_args none = []
prompt_args (some []) = []
prompt_args (some (c ∷ s)) = text "--append-system-prompt" ∷ (c ∷ s) ∷ []

unfoldable pub build_rpc_argv :
    Text → Text → Text → Text → Option Text → Option Text → Bool → Option Text → List Text
build_rpc_argv pi_bin provider model thinking session_file session_id no_session prompt_file =
    pi_bin
    ∷ text "--mode"
    ∷ text "rpc"
    ∷ text "--provider"
    ∷ provider
    ∷ text "--model"
    ∷ model
    ∷ text "--thinking"
    ∷ thinking
    ∷ (session_args session_file session_id no_session ++ prompt_args prompt_file)

-- The options of a command line as a reader from left to right finds them: `--no-session` stands
-- alone, every other option has the next word as its value.
abbrev pub value_of : Text → List Text → Option Text
value_of flag [] = none
value_of flag (x ∷ []) = none
value_of flag (x ∷ v ∷ rest) =
    if text_eq x (text "--no-session")
    then value_of flag (v ∷ rest)
    else if text_eq x flag
    then some v
    else value_of flag rest

-- A text that is there and not empty.
abbrev pub nonempty : Option Text → Option Text
nonempty (some (c ∷ s)) = some (c ∷ s)
nonempty _ = none

abbrev pub options : List Text → List Text
options [] = []
options (x ∷ xs) = xs

prompt_option :
    (prompt_file : Option Text)
    → (value_of (text "--session") (prompt_args prompt_file) ≡ none)
      × (value_of (text "--session-id") (prompt_args prompt_file) ≡ none)
      × (value_of (text "--append-system-prompt") (prompt_args prompt_file) ≡ nonempty prompt_file)
unfolding text_eq
prompt_option none = (refl, refl, refl)
prompt_option (some []) = (refl, refl, refl)
prompt_option (some (c ∷ s)) = (refl, refl, refl)

session_options :
    (file id prompt_file : Option Text) (no_session : Bool)
    → let argv = session_args file id no_session ++ prompt_args prompt_file in
      (value_of (text "--session") argv ≡ nonempty file)
      × (value_of (text "--session-id") argv
          ≡ (if is_none (nonempty file) then nonempty id else none))
      × (value_of (text "--append-system-prompt") argv ≡ nonempty prompt_file)
unfolding text_eq
session_options (some (c ∷ s)) id p b = let (x, y, z) = prompt_option p in (refl, y, z)
session_options none (some (c ∷ s)) p b = let (x, y, z) = prompt_option p in (x, refl, z)
session_options (some []) (some (c ∷ s)) p b = let (x, y, z) = prompt_option p in (x, refl, z)
session_options file id p false = prompt_option p
session_options file id none true = (refl, refl, refl)
session_options file id (some []) true = (refl, refl, refl)
session_options file id (some (c ∷ s)) true = (refl, refl, refl)

-- The command line reads back: model, provider and system prompt as given, the session file if there
-- is one, and the session id only if there is no session file.
pub value_of-build_rpc_argv :
    (pi_bin provider model thinking : Text) (session_file session_id prompt_file : Option Text)
    (no_session : Bool)
    → let argv = options (
        build_rpc_argv pi_bin provider model thinking session_file session_id no_session
          prompt_file) in
      (value_of (text "--mode") argv ≡ some (text "rpc"))
      × (value_of (text "--provider") argv ≡ some provider)
      × (value_of (text "--model") argv ≡ some model)
      × (value_of (text "--thinking") argv ≡ some thinking)
      × (value_of (text "--session") argv ≡ nonempty session_file)
      × (value_of (text "--session-id") argv
          ≡ (if is_none (nonempty session_file) then nonempty session_id else none))
      × (value_of (text "--append-system-prompt") argv ≡ nonempty prompt_file)
unfolding build_rpc_argv text_eq
value_of-build_rpc_argv pi_bin provider model thinking file id prompt_file no_session =
    let (x, y, z) = session_options file id prompt_file no_session in
    (refl, refl, refl, refl, x, y, z)
