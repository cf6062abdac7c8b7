-- ===== src/Transport/Answers.antt =====
-- rpc_transport.py, the answers that `send_command` ends with.
use hermes_pi_manager.Transport.Steps.{
  Action, act, act_all, arrive, begin, finish, hang_up, new_entry, select-wake_up,
}
use hermes_pi_manager.Base.Json.{get_member, Members, Python}
use hermes_pi_manager.Transport.{
  req_id_of, is_true, begin_command, drop_entry, Entry, Parsed, Transport, answer_of, blank_line,
  broken_line, close_reader, end_command, entry_key, fill, is_fatal, overdue, parse_line,
  plain_event, read_loop, receive, reply, unhashable,
}
use hermes_pi_manager.Base.{
  select-append, ◌++◌, Bool, Bool-cases, Option-cases, ap, inl, inr, keep, sym, text, ◌∙◌, List,
  Option, Text, [], arith, false, if◌then◌else◌, is_none, none, refl, select, select-update_where,
  some, text_eq, text_eq_iff, true, ◌∷◌, ◌≡◌, ◌≢◌,
}

abbrev replied : Text → Parsed → Option Members → Option Members
replied k (reply j ms) o = if text_eq j k then some ms else o
replied k p o = o

-- The last response with an id among the lines that the reader reads, behind an earlier one.
abbrev pub latest : Python → Text → List Text → Option Members → Option Members
latest py k [] o = o
latest py k (line ∷ lines) o =
    if is_fatal (parse_line py line)
    then o
    else latest py k lines (replied k (parse_line py line) o)

abbrev box_of : Option Entry → Option Members
box_of none = none
box_of (some e) = e.response

select-receive :
    (k : Text) (p : Parsed) (t : Transport) (e : Entry)
    → select entry_key k t.table ≡ some e
    → (is_none (select entry_key k (receive p t).table) ≡ false)
      × (box_of (select entry_key k (receive p t).table) ≡ replied k p e.response)
unfolding receive
select-receive k blank_line t e h = ground (arith)
select-receive k (broken_line s) t e h = ground (arith)
select-receive k unhashable t e h = ground (arith)
select-receive k (plain_event ms) t e h = ground (arith)
select-receive k (reply j ms) t e h = ground (
  arith,
  text_eq_iff k j,
  text_eq_iff j k,
  select-update_where entry_key k j (λ _. true) (fill ms) t.table (λ _. refl),
)

select-close_reader :
    (py : Python) (k : Text) (t : Transport) (e : Entry)
    → select entry_key k t.table ≡ some e
    → (end_command py k (close_reader t)).0 ≡ answer_of py e.response
unfolding close_reader end_command
select-close_reader py k t e h = ground (arith, select-wake_up k t.table)

answer_of_loop :
    (py : Python) (k : Text) (lines : List Text) (t : Transport) (e : Entry)
    → select entry_key k t.table ≡ some e
    → (end_command py k (read_loop py lines t)).0 ≡ answer_of py (latest py k lines e.response)
unfolding read_loop
answer_of_loop py k [] t e h = select-close_reader py k t e h
answer_of_loop py k (line ∷ lines) t e h =
    let p = parse_line py line in
    let (there, box) = select-receive k p t e h in
    elim (Bool-cases (is_fatal p)) [
      | inl broken ↦ rw (broken, read_loop) (select-close_reader py k t e h)
      | inr alive ↦ elim (Option-cases (select entry_key k (receive p t).table)) [
        | inl absent ↦ absurd (ground arith)
        | inr (e', s') ↦
            let same : e'.response ≡ replied k p e.response = ground arith in
            rw (alive, read_loop)
              (answer_of_loop py k lines (receive p t) e' s'
                ∙ ap (λ o. answer_of py (latest py k lines o)) same)
      ]
    ]

answer_of-overdue : (py : Python) (o : Option Members) → answer_of py o ≢ overdue
answer_of-overdue py none h = ground arith
answer_of-overdue py (some ms) h = elim (Bool-cases (is_true py (get_member (text "success") ms))) [
  | inl good ↦ ground arith
  | inr bad ↦ ground arith
]

-- A command that is pending when the reader reads on to the end of the output ends with the answer of
-- the last response to its id, or with a RuntimeError if none came; it never waits for its timeout.
pub end_command-read_loop :
    (py : Python) (k : Text) (lines : List Text) (t : Transport) (e : Entry)
    → select entry_key k t.table ≡ some e
    → ((end_command py k (read_loop py lines t)).0 ≡ answer_of py (latest py k lines e.response))
      × ((end_command py k (read_loop py lines t)).0 ≢ overdue)
end_command-read_loop py k lines t e h =
    let same = answer_of_loop py k lines t e h in
    (same, λ late. answer_of-overdue py (latest py k lines e.response) (sym same ∙ late))

abbrev is_woken : Option Entry → Bool
is_woken none = false
is_woken (some e) = e.is_set

-- The reader has ended, and the command with the id has not been woken.
abbrev IsUnheard : Text → Transport → Type 0
IsUnheard k t = (t.closed ≡ true) × (is_woken (select entry_key k t.table) ≡ false)

dropped : (k : Text) (es : List Entry) → select entry_key k (drop_entry k es) ≡ none
unfolding select keep
dropped k [] = refl
dropped k (e ∷ es) = ground (arith, dropped k es)

select-drop_entry :
    (k j : Text) (es : List Entry)
    → is_woken (select entry_key k es) ≡ false
    → is_woken (select entry_key k (drop_entry j es)) ≡ false
unfolding select keep
select-drop_entry k j [] h = refl
select-drop_entry k j (e ∷ es) h =
    ground (
      arith,
      text_eq_iff e.req_id j,
      text_eq_iff e.req_id k,
      dropped k es,
      select-drop_entry k j es,
    )

select-add :
    (k j : Text) (es : List Entry)
    → is_woken (select entry_key k es) ≡ false
    → is_woken (select entry_key k (es ++ new_entry j ∷ [])) ≡ false
unfolding select
select-add k j es h = ground (arith, select-append entry_key k es (new_entry j ∷ []))

act-IsUnheard :
    (py : Python) (a : Action) (k : Text) (t : Transport) → IsUnheard k t → IsUnheard k (act py a t)
unfolding begin_command end_command
act-IsUnheard py (begin c params uuid (some rc) writable) k t h = h
act-IsUnheard py (begin c params uuid none true) k t (up, h) =
    (up, select-add k (req_id_of t.next_number uuid) t.table h)
act-IsUnheard py (begin c params uuid none false) k t (up, h) =
    let j = req_id_of t.next_number uuid in
    (up, select-drop_entry k j (t.table ++ new_entry j ∷ []) (select-add k j t.table h))
act-IsUnheard py (arrive line) k t h = ground arith
act-IsUnheard py hang_up k t h = ground arith
act-IsUnheard py (finish j) k t (up, h) = (up, select-drop_entry k j t.table h)

act_all-IsUnheard :
    (py : Python) (as' : List Action) (k : Text) (t : Transport)
    → IsUnheard k t
    → IsUnheard k (act_all py as' t)
unfolding act_all
act_all-IsUnheard py [] k t h = h
act_all-IsUnheard py (a ∷ as') k t h =
    act_all-IsUnheard py as' k (act py a t) (act-IsUnheard py a k t h)

-- A command that is sent after the reader's end to a process that still seems alive waits for its
-- timeout, whatever happens meanwhile: `send_command` does not look at `_closed`.
pub end_command-closed :
    (py : Python) (c : Text) (params : Members) (uuid : Text) (as' : List Action) (t : Transport)
    → t.closed ≡ true
    → select entry_key (req_id_of t.next_number uuid) t.table ≡ none
    → let k = req_id_of t.next_number uuid in
      let sent_to = (begin_command py c params uuid none true t).1 in
      ((begin_command py c params uuid none true t).0 ≡ some k)
      × ((end_command py k (act_all py as' sent_to)).0 ≡ overdue)
unfolding begin_command end_command
end_command-closed py c params uuid as' t up new =
    let k = req_id_of t.next_number uuid in
    let t' = (begin_command py c params uuid none true t).1 in
    let (still, unheard) =
      act_all-IsUnheard py as' k t' (up, select-add k k t.table (ground arith)) in
    (refl, ground arith)
