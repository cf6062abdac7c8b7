-- ===== src/Transport/Commands.antt =====
-- rpc_transport.py, the first half of `send_command`: what it writes and what a failure leaves.
use hermes_pi_manager.Transport.Correlation.{act_all-fresh}
use hermes_pi_manager.Transport.Steps.{Action, act_all, new_entry}
use hermes_pi_manager.Base.Int.{ℤ}
use hermes_pi_manager.Base.Json.{Json, Members, Python, get_member, member, str}
use hermes_pi_manager.Base.{
  List, Text, [], arith, false, if◌then◌else◌, keep, none, refl, select, select-append, some, text,
  text_eq, text_eq_iff, text_eq_refl, true, ◌++◌, ◌∷◌, ◌≡◌,
}
use hermes_pi_manager.Transport.{
  Entry, begin_command, drop_entry, entry_key, new_transport, payload, put_member, req_id_of,
  update_members,
}

-- `put_member` on a key, seen through `get_member`.
pub get_member-put_member :
    (j k : Text) (v : Json) (ms : Members)
    → get_member j (put_member k v ms) ≡ (if text_eq k j then some v else get_member j ms)
unfolding get_member put_member
get_member-put_member j k v Members.end = refl
get_member-put_member j k v (member i u ms) =
    ground
      (arith, text_eq_iff i k, text_eq_iff i j, text_eq_iff k j, get_member-put_member j k v ms)

get_member-update_members :
    (j : Text) (ps ms : Members)
    → get_member j ps ≡ none
    → get_member j (update_members ms ps) ≡ get_member j ms
unfolding get_member update_members
get_member-update_members j Members.end ms h = refl
get_member-update_members j (member k v ps) ms h = ground (
  arith,
  text_eq_iff k j,
  get_member-put_member j k v ms,
  get_member-update_members j ps (put_member k v ms),
)

-- A command whose parameters set neither `type` nor `id` goes out with its own name and id.
pub payload-keys :
    (c k : Text) (params : Members)
    → get_member (text "type") params ≡ none
    → get_member (text "id") params ≡ none
    → (get_member (text "type") (payload c k params) ≡ some (str c))
      × (get_member (text "id") (payload c k params) ≡ some (str k))
unfolding get_member text_eq
payload-keys c k params ht hi =
    let base = member (text "type") (str c) (member (text "id") (str k) Members.end) in
    (
      get_member-update_members (text "type") params base ht,
      get_member-update_members (text "id") params base hi,
    )

drop_entry-fresh :
    (k : Text) (es : List Entry)
    → select entry_key k es ≡ none
    → drop_entry k (es ++ new_entry k ∷ []) ≡ es
unfolding select keep
drop_entry-fresh k [] h = ground (arith, text_eq_refl k)
drop_entry-fresh k (e ∷ es) h = ground (arith, drop_entry-fresh k es)

select_self : (k : Text) → select entry_key k (new_entry k ∷ []) ≡ some (new_entry k)
unfolding select
select_self k = ground (arith, text_eq_refl k)

-- After any steps, a command to a process that has exited, or one that cannot be written, fails and
-- leaves the pending table as it was; one that is written waits under a new id with an empty box.
pub begin_command_lem :
    (py : Python) (as' : List Action) (c : Text) (params : Members) (uuid : Text) (rc : ℤ)
    → let t = act_all py as' new_transport in
      let k = req_id_of t.next_number uuid in
      (begin_command py c params uuid (some rc) true t ≡ (none, t))
      × ((begin_command py c params uuid none false t).0 ≡ none)
      × ((begin_command py c params uuid none false t).1.table ≡ t.table)
      × (select entry_key k t.table ≡ none)
      × (select entry_key k (begin_command py c params uuid none true t).1.table
          ≡ some (new_entry k))
unfolding begin_command
begin_command_lem py as' c params uuid rc =
    let t = act_all py as' new_transport in
    let k = req_id_of t.next_number uuid in
    let new = act_all-fresh py as' uuid in
    (
      refl,
      refl,
      drop_entry-fresh k t.table new,
      new,
      ground (
        arith,
        text_eq_refl k,
        select-append entry_key k t.table (new_entry k ∷ []),
        select_self k,
      ),
    )
