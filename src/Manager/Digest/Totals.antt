-- ===== src/Manager/Digest/Totals.antt =====
-- core.py, what `digest` adds up and which words it keeps.

use hermes_pi_manager.Base.Json.{Items, Python, cons, nil}
use hermes_pi_manager.Manager.Digest.{
  Spoken, no_work, passed_over, unreadable, Work, hear, read_session, Count, bump, call_of,
  count_calls, digest_final_chars, digest_prompt_chars, first_text, message_of, read_entry,
  sum_calls,
}
use hermes_pi_manager.Base.{
  text_eq_iff, ◌⊎◌, keep, length, some, Bool, List, Option-cases, Text, [], arith, if◌then◌else◌,
  inl, inr, is_empty, is_none, not, refl, suc, text, text_eq, ℕ, ◌&&◌, ◌+◌, ◌∙◌, ◌∷◌, ◌≡◌,
}

pub record Message : Type 0 where
  pub role : Text
  pub parts : Items

-- The messages of a transcript.
abbrev pub messages : Python → List Text → List Message
messages py [] = []
messages py (line ∷ lines) = elim (read_entry py line) [
  | message_of role parts ↦ record { role = role; parts = parts } ∷ messages py lines
  | _ ↦ messages py lines
]

abbrev pub is_assistant : Message → Bool
is_assistant m = text_eq m.role (text "assistant")

abbrev is_user : Message → Bool
is_user m = text_eq m.role (text "user")

-- The calls of tools among the parts, and among the assistant's messages.
abbrev calls_in : Python → Items → ℕ
calls_in py nil = 0
calls_in py (cons part parts) = (if is_none (call_of py part) then 0 else 1) + calls_in py parts

abbrev pub calls_of : Python → List Message → ℕ
calls_of py [] = 0
calls_of py (m ∷ ms) = (if is_assistant m then calls_in py m.parts else 0) + calls_of py ms

-- The last text of the assistant that is not empty, behind an earlier one.
abbrev pub closing_words : Python → Text → List Message → Text
closing_words py last [] = last
closing_words py last (m ∷ ms) =
    if is_assistant m && not (is_empty (first_text py m.parts digest_final_chars))
    then closing_words py (first_text py m.parts digest_final_chars) ms
    else closing_words py last ms

-- The first text of the user that is not empty.
abbrev pub opening_words : Python → List Message → Text
opening_words py [] = []
opening_words py (m ∷ ms) =
    if is_user m && not (is_empty (first_text py m.parts digest_prompt_chars))
    then first_text py m.parts digest_prompt_chars
    else opening_words py ms

sum_calls-bump : (name : Text) (cs : List Count) → sum_calls (bump name cs) ≡ suc (sum_calls cs)
unfolding bump
sum_calls-bump name [] = refl
sum_calls-bump name (c ∷ cs) = ground (arith, sum_calls-bump name cs)

sum_calls-count_calls :
    (py : Python) (parts : Items) (cs : List Count)
    → sum_calls (count_calls py parts cs) ≡ sum_calls cs + calls_in py parts
unfolding count_calls
sum_calls-count_calls py nil cs = omega arith
sum_calls-count_calls py (cons part parts) cs = elim (Option-cases (call_of py part)) [
  | inl e ↦ rw (e, count_calls) (sum_calls-count_calls py parts cs ∙ omega arith)
  | inr (name, e) ↦
      rw (e, count_calls)
        (sum_calls-count_calls py parts (bump name cs) ∙ ground (arith, sum_calls-bump name cs))
]

abbrev turns_of : List Message → ℕ
turns_of ms = length (keep is_assistant ms)

abbrev opened_with : Text → Text → Text
opened_with prompt later = if is_empty prompt then later else prompt

-- What the messages add to what was gathered before.
abbrev Gathers : Python → List Message → Work → Work → Type 0
Gathers py ms w v =
    (v.assistant_turns ≡ w.assistant_turns + turns_of ms)
    × (sum_calls v.counts ≡ sum_calls w.counts + calls_of py ms)
    × (v.summary ≡ closing_words py w.summary ms)
    × (v.prompt ≡ opened_with w.prompt (opening_words py ms))

Gathers-hear :
    (py : Python) (m : Message) (ms : List Message) (w v : Work)
    → Gathers py ms (hear py m.role m.parts w) v
    → Gathers py (m ∷ ms) w v
unfolding hear keep
Gathers-hear py m ms w v (a, b, c, d) = ground (
  arith,
  text_eq_iff m.role (text "user"),
  text_eq_iff m.role (text "assistant"),
  sum_calls-count_calls py m.parts w.counts,
)

Spoken-cases :
    (s : Spoken)
    → ((s ≡ passed_over) ⊎ (s ≡ unreadable))
      ⊎ ((role : Text) × ((parts : Items) × (s ≡ message_of role parts)))
Spoken-cases passed_over = inl (inl refl)
Spoken-cases unreadable = inl (inr refl)
Spoken-cases (message_of role parts) = inr (role, (parts, refl))

Gathers-read_session :
    (py : Python) (lines : List Text) (w v : Work)
    → read_session py lines w ≡ some v
    → Gathers py (messages py lines) w v
unfolding read_session keep
Gathers-read_session py [] w v h = ground arith
Gathers-read_session py (line ∷ lines) w v h = elim (Spoken-cases (read_entry py line)) [
  | inl (inl e) ↦
      let rest : read_session py lines w ≡ some v = ground arith in
      rw (e, messages) (Gathers-read_session py lines w v rest)
  | inl (inr e) ↦ absurd (ground arith)
  | inr (role, (parts, e)) ↦
      let rest : read_session py lines (hear py role parts w) ≡ some v = ground arith in
      rw (e, messages)
        (Gathers-hear py (record { role = role; parts = parts }) (messages py lines) w v
          (Gathers-read_session py lines (hear py role parts w) v rest))
]

-- The work that a digest reports: every message of the assistant is a turn, the total of the calls is
-- the number of all their tool calls, the summary is the last text of the assistant that is
-- not empty, and the prompt the first text of the user that is not empty.
pub read_session_lem :
    (py : Python) (lines : List Text) (w : Work)
    → read_session py lines no_work ≡ some w
    → let ms = messages py lines in
      (w.assistant_turns ≡ length (keep is_assistant ms))
      × (sum_calls w.counts ≡ calls_of py ms)
      × (w.summary ≡ closing_words py [] ms)
      × (w.prompt ≡ opening_words py ms)
read_session_lem py lines w h =
    let (a, b, c, d) = Gathers-read_session py lines no_work w h in
    (a ∙ omega arith, b ∙ omega arith, c, d)
