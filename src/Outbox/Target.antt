-- ===== src/Outbox/Target.antt =====
-- outbox.py: the target of a message, and the stable ids of notifications.
use hermes_pi_manager.Base.Json.{null, str, obj, Json, Members, Python, str_of}
use hermes_pi_manager.Registry.Rows.{Kind}
use hermes_pi_manager.Base.{
  reverse, Bool, Option, Text, [], all, any, false, if◌then◌else◌, is_empty, leb, length, ltb, none,
  not, show, some, text, true, ℕ, ◌&&◌, ◌++◌, ◌==◌, ◌||◌, ◌∷◌,
}

-- `str.isspace` of one character.
abbrev pub is_space : ℕ → Bool
is_space c =
    (leb 9 c && leb c 13)
    || ((leb 28 c && leb c 32)
        || ((c == 133)
            || ((c == 160)
                || ((c == 5760)
                    || ((leb 8192 c && leb c 8202)
                        || ((c == 8232)
                            || ((c == 8233) || ((c == 8239) || ((c == 8287) || (c == 12288))))))))))

drop_spaces : Text → Text
drop_spaces [] = []
drop_spaces (c ∷ s) = if is_space c then drop_spaces s else c ∷ s

-- `str.strip`.
unfoldable pub strip : Text → Text
unfolding drop_spaces
strip s = reverse (drop_spaces (reverse (drop_spaces s)))

abbrev pub max_ref_chars : ℕ
max_ref_chars = 200

abbrev is_bad_ref : ℕ → Bool
is_bad_ref c = is_space c || ltb c 0x20

unfoldable pub safe_ref : Python → Option Json → Option Text
safe_ref py none = none
safe_ref py (some null) = none
safe_ref py (some value) =
    let v = strip (str_of py value) in
    if is_empty v || ltb max_ref_chars (length v)
    then none
    else if any is_bad_ref v
    then none
    else some v

-- `$` in a pattern also matches before a line feed that ends the text.
unfoldable pub chomp : Text → Text
chomp [] = []
chomp (c ∷ []) = if c == 10 then [] else c ∷ []
chomp (c ∷ d ∷ s) = c ∷ chomp (d ∷ s)

abbrev is_lower : ℕ → Bool
is_lower c = leb b'a' c && leb c b'z'

abbrev is_platform_char : ℕ → Bool
is_platform_char c = is_lower c || ((leb b'0' c && leb c b'9') || ((c == b'_') || (c == b'-')))

abbrev platform_chars : Text → Bool
platform_chars [] = false
platform_chars (c ∷ s) = is_lower c && (all is_platform_char s && leb (length s) 63)

-- _PLATFORM_RE.match.
unfoldable pub matches_platform : Text → Bool
matches_platform s = platform_chars (chomp s)

abbrev is_thread_char : ℕ → Bool
is_thread_char c = not (is_space c) && not (c == b':')

-- The pattern for a thread id: 1 to 64 characters, none of them a space or a colon.
unfoldable pub matches_thread : Text → Bool
matches_thread s =
    let t = chomp s in all is_thread_char t && (leb 1 (length t) && leb (length t) 64)

-- `thread_id not in (None, "")`.
abbrev pub is_given : Option Json → Bool
is_given none = false
is_given (some null) = false
is_given (some (str [])) = false
is_given (some _) = true

-- A colon and the thread id behind the target, if a thread is given; `none` refuses the target.
unfoldable pub add_thread : Python → Text → Option Json → Option Text
add_thread py target thread =
    if is_given thread
    then elim (safe_ref py thread) [
      | none ↦ none
      | some t ↦ if matches_thread t then some (target ++ (b':' ∷ t)) else none
    ]
    else some target

abbrev pub max_target_chars : ℕ
max_target_chars = 300

abbrev within_target : Option Text → Option Text
within_target none = none
within_target (some t) = if leb (length t) max_target_chars then some t else none

unfoldable pub build_target : Python → Option Json → Option Json → Option Json → Option Text
build_target py platform chat thread = elim (safe_ref py platform) [
  | none ↦ none
  | some p ↦
      if matches_platform (py.lower p)
      then elim (safe_ref py chat) [
        | none ↦ none
        | some c ↦ within_target (add_thread py (py.lower p ++ (b':' ∷ c)) thread)
      ]
      else none
]

-- The text of a kind, as the column holds it.
abbrev pub kind_text : Kind → Text
kind_text Kind.settled = text "settled"
kind_text Kind.verifier = text "verifier"
kind_text Kind.failed = text "failed"
kind_text Kind.stalled = text "stalled"
kind_text Kind.progress = text "progress"

unfoldable pub terminal_notification_id : Text → Kind → Text
terminal_notification_id tid kind = text "term:" ++ (tid ++ (b':' ∷ kind_text kind))

unfoldable pub progress_notification_id : Text → ℕ → Text
progress_notification_id tid seq = text "prog:" ++ (tid ++ (b':' ∷ show seq))

abbrev pub members_of : Option Json → Members
members_of (some (obj ms)) = ms
members_of _ = Members.end

-- A missing or empty snapshot, text that is no JSON, and JSON that is no object read as `{}`.
unfoldable pub parse_origin : Python → Option Text → Members
parse_origin py none = Members.end
parse_origin py (some []) = Members.end
parse_origin py (some (c ∷ s)) = members_of (py.loads (c ∷ s))
