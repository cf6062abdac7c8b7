-- ===== src/Transport/Correlation.antt =====
-- rpc_transport.py, the correlation of commands with responses over any sequence of its steps.
use hermes_pi_manager.Transport.Ids.{req_id_of-injective}
use hermes_pi_manager.Outbox.Target.{strip}
use hermes_pi_manager.Base.Json.{Json, Members, Python, get_member, obj, str}
use hermes_pi_manager.Base.Int.{ℤ}
use hermes_pi_manager.Transport.Steps.{
  Action, All-snoc, All-update_where, All-wake_up, Distinct-wake_up, act, act_all, arrive, begin,
  finish, hang_up, new_entry, read_one,
}
use hermes_pi_manager.Transport.{
  parse_value, Entry, Parsed, Transport, begin_command, blank_line, broken_line, close_reader,
  end_command, entry_key, fill, is_response, new_transport, parse_line, plain_event, receive, reply,
  req_id_of, unhashable,
}
use hermes_pi_manager.Base.{
  All, All-keep, Bool, Bool-cases, Distinct, Distinct-insert, Distinct-keep, Distinct-update_where,
  List, Option, Text, [], arith, false, has_key, if◌then◌else◌, inl, inr, is_none, none, not, refl,
  select, some, suc, sym, text, text_eq, text_eq_iff, true, ℕ, ◌++◌, ◌<◌, ◌∙◌, ◌∷◌, ◌≡◌,
}

-- The box is empty, or holds a response with the entry's id.
abbrev pub IsOwn : Text → Option Members → Type 0
IsOwn k none = Unit
IsOwn k (some ms) =
    (get_member (text "id") ms ≡ some (str k)) × (is_response (get_member (text "type") ms) ≡ true)

abbrev pub IsMatched : Entry → Type 0
IsMatched e = IsOwn e.req_id e.response

-- The entry's id has a number below `n`.
abbrev IsNumbered : ℕ → Entry → Type 0
IsNumbered n e = (m : ℕ) × ((u : Text) × ((e.req_id ≡ req_id_of m u) × (m < n)))

abbrev IsCorrelated : Transport → Type 0
IsCorrelated t =
    Distinct entry_key t.table × All IsMatched t.table × All (IsNumbered t.next_number) t.table

select_fresh :
    (n : ℕ) (u : Text) (es : List Entry)
    → All (IsNumbered n) es
    → select entry_key (req_id_of n u) es ≡ none
unfolding select
select_fresh n u [] h = refl
select_fresh n u (e ∷ es) (h, hs) =
    let (m, (v, (same, below))) = h in
    elim (Bool-cases (text_eq e.req_id (req_id_of n u))) [
      | inl hit ↦
          let number : m ≡ n =
            req_id_of-injective m n v u (sym same ∙ (text_eq_iff e.req_id (req_id_of n u)).0 hit) in
          absurd (omega arith)
      | inr miss ↦ rw miss (select_fresh n u es hs)
    ]

IsNumbered-suc : (n : ℕ) (es : List Entry) → All (IsNumbered n) es → All (IsNumbered (suc n)) es
IsNumbered-suc n [] h = tt
IsNumbered-suc n (e ∷ es) (h, hs) =
    let (m, (v, (same, below))) = h in ((m, (v, (same, omega arith))), IsNumbered-suc n es hs)

close_reader-IsCorrelated : (t : Transport) → IsCorrelated t → IsCorrelated (close_reader t)
unfolding close_reader
close_reader-IsCorrelated t (d, own, num) = (
  Distinct-wake_up t.table d,
  All-wake_up IsMatched t.table (λ e h. h) own,
  All-wake_up (IsNumbered t.next_number) t.table (λ e h. h) num,
)

abbrev IsReply : Text → Members → Type 0
IsReply k ms =
    (get_member (text "id") ms ≡ some (str k)) × (is_response (get_member (text "type") ms) ≡ true)

parse_value-reply :
    (line k : Text) (o : Option Json) (ms : Members)
    → parse_value line o ≡ reply k ms
    → IsReply k ms
parse_value-reply line k none ms h = ground arith
parse_value-reply line k (some (obj ns)) ms h =
    ground (arith, get_member (text "id") ns, get_member (text "type") ns)
parse_value-reply line k (some v) ms h = ground arith

parse_line-reply :
    (py : Python) (line k : Text) (ms : Members)
    → parse_line py line ≡ reply k ms
    → (get_member (text "id") ms ≡ some (str k))
      × (is_response (get_member (text "type") ms) ≡ true)
unfolding parse_line
parse_line-reply py line k ms h =
    ground (arith, parse_value-reply (strip line) k (py.loads (strip line)) ms)

receive-IsCorrelated :
    (py : Python) (line : Text) (p : Parsed) (t : Transport)
    → parse_line py line ≡ p
    → IsCorrelated t
    → IsCorrelated (receive p t)
unfolding receive
receive-IsCorrelated py line blank_line t h c = c
receive-IsCorrelated py line (broken_line s) t h c = c
receive-IsCorrelated py line unhashable t h c = c
receive-IsCorrelated py line (plain_event ms) t h c = c
receive-IsCorrelated py line (reply k ms) t h (d, own, num) =
    elim (Bool-cases (is_none (select entry_key k t.table))) [
      | inl absent ↦ rw absent (d, own, num)
      | inr there ↦ rw there (
        Distinct-update_where entry_key (has_key entry_key k (λ _. true)) (fill ms) t.table
            (λ e. refl) d,
        All-update_where IsMatched (has_key entry_key k (λ _. true)) (fill ms) t.table
            (λ e hit old. ground (arith, text_eq_iff e.req_id k, parse_line-reply py line k ms h))
            own,
        All-update_where (IsNumbered t.next_number) (has_key entry_key k (λ _. true)) (fill ms)
            t.table (λ e hit old. old) num,
      )
    ]

end_command-IsCorrelated :
    (py : Python) (k : Text) (t : Transport) → IsCorrelated t → IsCorrelated (end_command py k t).1
unfolding end_command
end_command-IsCorrelated py k t (d, own, num) =
    let others = λ (e : Entry). not (text_eq e.req_id k) in
    (
      Distinct-keep entry_key others t.table d,
      All-keep IsMatched others t.table own,
      All-keep (IsNumbered t.next_number) others t.table num,
    )

add_entry :
    (n : ℕ) (uuid : Text) (es : List Entry)
    → Distinct entry_key es × All IsMatched es × All (IsNumbered n) es
    → let more = es ++ new_entry (req_id_of n uuid) ∷ [] in
      Distinct entry_key more × All IsMatched more × All (IsNumbered (suc n)) more
add_entry n uuid es (d, own, num) =
    let e = new_entry (req_id_of n uuid) in
    (
      Distinct-insert entry_key es e d (select_fresh n uuid es num),
      All-snoc IsMatched es e own tt,
      All-snoc (IsNumbered (suc n)) es e (IsNumbered-suc n es num) (n, (uuid, (refl, omega arith))),
    )

begin_command-IsCorrelated :
    (py : Python) (c : Text) (params : Members) (uuid : Text) (rc : Option ℤ) (writable : Bool)
    (t : Transport)
    → IsCorrelated t
    → IsCorrelated (begin_command py c params uuid rc writable t).1
unfolding begin_command
begin_command-IsCorrelated py c params uuid (some rc) writable t h = h
begin_command-IsCorrelated py c params uuid none true t h = add_entry t.next_number uuid t.table h
begin_command-IsCorrelated py c params uuid none false t h =
    let k = req_id_of t.next_number uuid in
    let (d, own, num) = add_entry t.next_number uuid t.table h in
    let others = λ (e : Entry). not (text_eq e.req_id k) in
    let table = t.table ++ new_entry k ∷ [] in
    (
      Distinct-keep entry_key others table d,
      All-keep IsMatched others table own,
      All-keep (IsNumbered (suc t.next_number)) others table num,
    )

read_one-IsCorrelated :
    (py : Python) (line : Text) (p : Parsed) (t : Transport)
    → parse_line py line ≡ p
    → IsCorrelated t
    → IsCorrelated (read_one p t)
read_one-IsCorrelated py line unhashable t e h = close_reader-IsCorrelated t h
read_one-IsCorrelated py line p t e h = receive-IsCorrelated py line p t e h

unless_closed :
    (t u : Transport)
    → IsCorrelated t
    → IsCorrelated u
    → (b : Bool) → IsCorrelated (if b then t else u)
unless_closed t u h i true = h
unless_closed t u h i false = i

act-IsCorrelated :
    (py : Python) (a : Action) (t : Transport) → IsCorrelated t → IsCorrelated (act py a t)
act-IsCorrelated py (begin c params uuid rc writable) t h =
    begin_command-IsCorrelated py c params uuid rc writable t h
act-IsCorrelated py (arrive line) t h =
    unless_closed t (read_one (parse_line py line) t) h
      (read_one-IsCorrelated py line (parse_line py line) t refl h) t.closed
act-IsCorrelated py hang_up t h =
    unless_closed t (close_reader t) h (close_reader-IsCorrelated t h) t.closed
act-IsCorrelated py (finish k) t h = end_command-IsCorrelated py k t h

act_all-IsCorrelated :
    (py : Python) (as' : List Action) (t : Transport)
    → IsCorrelated t
    → IsCorrelated (act_all py as' t)
unfolding act_all
act_all-IsCorrelated py [] t h = h
act_all-IsCorrelated py (a ∷ as') t h =
    act_all-IsCorrelated py as' (act py a t) (act-IsCorrelated py a t h)

-- Whatever the order of commands, lines, the end of the output and finished waits, the pending ids
-- are distinct, and the box of a pending command is empty or holds a response with its own id.
pub act_all-Matched :
    (py : Python) (as' : List Action)
    → Distinct entry_key (act_all py as' new_transport).table
      × All IsMatched (act_all py as' new_transport).table
act_all-Matched py as' =
    let (d, own, num) = act_all-IsCorrelated py as' new_transport (tt, tt, tt) in (d, own)

-- The next id is not pending.
pub act_all-fresh :
    (py : Python) (as' : List Action) (uuid : Text)
    → let t = act_all py as' new_transport in
      select entry_key (req_id_of t.next_number uuid) t.table ≡ none
act_all-fresh py as' uuid =
    let t = act_all py as' new_transport in
    let (d, own, num) = act_all-IsCorrelated py as' new_transport (tt, tt, tt) in
    select_fresh t.next_number uuid t.table num
