-- ===== src/Tools/Origin/Routing.antt =====
-- tools.py, `_capture_routing`: the origin that a dispatch captures.
use hermes_pi_manager.Transport.Commands.{get_member-put_member}
use hermes_pi_manager.Base.Json.{Json, Members, get_member, str}
use hermes_pi_manager.Tools.Origin.{
  capture_routing, fill_platform, put_given, read_routing, routing_keys,
}
use hermes_pi_manager.Base.{
  List, Option, Text, [], ap, arith, false, if◌then◌else◌, is_empty, none, some, text, text_eq, ◌∙◌,
  ◌∷◌, ◌≡◌, refl,
}

abbrev pub given_text : Text → Option Json → Option Json
given_text v o = if is_empty v then o else some (str v)

-- The value of a key by the variables that are read for it, behind an earlier one.
abbrev routed : Text → (Text → Text) → List (Text × Text) → Option Json → Option Json
routed j get [] o = o
routed j get ((k, env) ∷ keys) o =
    routed j get keys (if text_eq k j then given_text (get env) o else o)

get_member-put_given :
    (j k v : Text) (out : Members)
    → get_member j (put_given k v out)
      ≡ (if text_eq k j then given_text v (get_member j out) else get_member j out)
get_member-put_given j k v out = ground (arith, get_member-put_member j k (str v) out)

get_member-read_routing :
    (j : Text) (get : Text → Text) (keys : List (Text × Text)) (out : Members)
    → get_member j (read_routing (λ env. some (get env)) keys out)
      ≡ routed j get keys (get_member j out)
unfolding read_routing
get_member-read_routing j get [] out = refl
get_member-read_routing j get ((k, env) ∷ keys) out =
    get_member-read_routing j get keys (put_given k (get env) out)
    ∙ ap (routed j get keys) (get_member-put_given j k (get env) out)

fill_platform-platform :
    (v platform : Text) (out : Members)
    → get_member (text "platform") out ≡ given_text v none
    → get_member (text "platform") (fill_platform platform out)
      ≡ given_text v (given_text platform none)
unfolding text_eq
fill_platform-platform [] platform out h =
    rw h (get_member-put_given (text "platform") (text "platform") platform out ∙ rw h refl)
fill_platform-platform (c ∷ s) platform out h = rw h h

fill_platform-other :
    (j platform : Text) (out : Members)
    → text_eq (text "platform") j ≡ false
    → get_member j (fill_platform platform out) ≡ get_member j out
fill_platform-other j platform out h =
    ground (arith, get_member-put_given j (text "platform") platform out)

captured :
    (get : Text → Text) (j v platform : Text)
    → text_eq (text "platform") j ≡ false
    → routed j get routing_keys none ≡ given_text v none
    → get_member j (capture_routing (λ env. some (get env)) platform) ≡ given_text v none
unfolding capture_routing get_member
captured get j v platform apart h =
    let out = read_routing (λ env. some (get env)) routing_keys Members.end in
    fill_platform-other j platform out apart
    ∙ get_member-read_routing j get routing_keys Members.end
    ∙ h

-- When every session variable can be read, the origin has the session's platform or, without one,
-- that of the process, and the session's key, chat and thread; an empty value is left out.
capture_routing_lem :
    (get : Text → Text) (platform : Text)
    → let origin = capture_routing (λ env. some (get env)) platform in
      (get_member (text "platform") origin
        ≡ given_text (get (text "HERMES_SESSION_PLATFORM")) (given_text platform none))
      × (get_member (text "session_key") origin ≡ given_text (get (text "HERMES_SESSION_KEY")) none)
      × (get_member (text "chat_id") origin ≡ given_text (get (text "HERMES_SESSION_CHAT_ID")) none)
      × (get_member (text "thread_id") origin
          ≡ given_text (get (text "HERMES_SESSION_THREAD_ID")) none)
unfolding capture_routing text_eq get_member
capture_routing_lem get platform =
    let out = read_routing (λ env. some (get env)) routing_keys Members.end in
    (
      fill_platform-platform (get (text "HERMES_SESSION_PLATFORM")) platform out
          (get_member-read_routing (text "platform") get routing_keys Members.end),
      captured get (text "session_key") (get (text "HERMES_SESSION_KEY")) platform refl refl,
      captured get (text "chat_id") (get (text "HERMES_SESSION_CHAT_ID")) platform refl refl,
      captured get (text "thread_id") (get (text "HERMES_SESSION_THREAD_ID")) platform refl refl,
    )
