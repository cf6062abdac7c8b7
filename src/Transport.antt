-- ===== src/Transport.antt =====
-- rpc_transport.py, `PiRpcTransport`: the table of pending commands, the two halves of
-- `send_command` around its wait, and the reader of Pi's output. The process is a parameter.
use hermes_pi_manager.Outbox.Target.{strip}
use hermes_pi_manager.Base.Int.{ℤ}
use hermes_pi_manager.Base.{
  Bool, List, Option, Text, [], false, get_or, has_key, if◌then◌else◌, is_empty, is_none, keep, map,
  none, not, select, show, some, suc, text, text_eq, true, update_where, ℕ, ◌++◌, ◌∷◌,
}
use hermes_pi_manager.Base.Json.{
  Json, Members, Python, arr, get_member, member, null, obj, str, truthy,
}
pub mod Argv
pub mod Stderr
pub mod Ids
pub mod Steps
pub mod Commands
pub mod Correlation
pub mod Answers

-- One pending command: its event, and the response in its box.
pub record Entry : Type 0 where
  pub req_id : Text
  pub is_set : Bool
  pub response : Option Members

-- `written` has the lines written to stdin, `events` and `malformed` the calls of the two callbacks.
pub record Transport : Type 0 where
  pub table : List Entry
  pub next_number : ℕ
  pub closed : Bool
  pub written : List Text
  pub events : List Members
  pub malformed : List Text

-- `__init__`.
abbrev pub new_transport : Transport
new_transport = record {
  table = [];
  next_number = 1;
  closed = false;
  written = [];
  events = [];
  malformed = [];
}

abbrev pub entry_key : Entry → Text
entry_key e = e.req_id

-- `_next_id`; `uuid` is the eight hexadecimal digits.
unfoldable pub req_id_of : ℕ → Text → Text
req_id_of n uuid = text "req-" ++ (show n ++ (text "-" ++ uuid))

-- `d[k] = v` on a dict in the order of its keys.
unfoldable pub put_member : Text → Json → Members → Members
put_member k v Members.end = member k v Members.end
put_member k v (member j u ms) =
    if text_eq j k then member j v ms else member j u (put_member k v ms)

-- `payload.update(params)`.
unfoldable pub update_members : Members → Members → Members
update_members ms Members.end = ms
update_members ms (member k v ps) = update_members (put_member k v ms) ps

abbrev pub payload : Text → Text → Members → Members
payload command req_id params =
    update_members
      (member (text "type") (str command) (member (text "id") (str req_id) Members.end)) params

-- What `send_command` returns or raises: the data, a RuntimeError, an RpcTimeoutError, and an
-- RpcTransportClosed with its text.
pub data Answer : Type 0 where
  succeeded : Json → Answer
  denied : Text → Answer
  overdue : Answer
  unsent : Text → Answer

abbrev pub drop_entry : Text → List Entry → List Entry
drop_entry k es = keep (λ (e : Entry). not (text_eq e.req_id k)) es

-- The first half of `send_command`, up to its wait: the id to wait for, or the error. `rc` is what
-- `poll` answers, `writable` whether the write succeeds.
unfoldable pub begin_command :
    Python → Text → Members → Text → Option ℤ → Bool → Transport → Option Text × Transport
begin_command py command params uuid (some rc) writable t = (none, t)
begin_command py command params uuid none writable t =
    let k = req_id_of t.next_number uuid in
    let entry : Entry = record { req_id = k; is_set = false; response = none } in
    let line = py.dumps (obj (payload command k params)) ++ text "\n" in
    if writable
    then (
      some k,
      record t {
        table = t.table ++ entry ∷ [];
        next_number = suc t.next_number;
        written = t.written ++ line ∷ [];
      },
    )
    else (
      none,
      record t { table = drop_entry k (t.table ++ entry ∷ []); next_number = suc t.next_number },
    )

-- `response.get("data") or {}`.
abbrev data_of : Python → Option Json → Json
data_of py none = obj Members.end
data_of py (some v) = if truthy py v then v else obj Members.end

abbrev is_true : Python → Option Json → Bool
is_true py none = false
is_true py (some v) = truthy py v

-- The answer that a box gives; an empty box reads as `{}`.
abbrev pub answer_of : Python → Option Members → Answer
answer_of py none = denied (py.repr null)
answer_of py (some ms) =
    if is_true py (get_member (text "success") ms)
    then succeeded (data_of py (get_member (text "data") ms))
    else denied (py.repr (get_or (get_member (text "error") ms) null))

abbrev answer_entry : Python → Option Entry → Answer
answer_entry py none = overdue
answer_entry py (some e) = if e.is_set then answer_of py e.response else overdue

-- The second half, when the wait is over: by the event, or without it by the timeout.
unfoldable pub end_command : Python → Text → Transport → Answer × Transport
end_command py k t =
    (answer_entry py (select entry_key k t.table), record t { table = drop_entry k t.table })

-- What the reader makes of a line before it looks at the table.
pub data Parsed : Type 0 where
  blank_line : Parsed
  broken_line : Text → Parsed
  reply : Text → Members → Parsed
  unhashable : Parsed
  plain_event : Members → Parsed

abbrev pub is_response : Option Json → Bool
is_response (some (str s)) = text_eq s (text "response")
is_response _ = false

-- `_pending` has text keys only: a number or a Boolean is in no table, a list or an object cannot be
-- looked up at all.
abbrev reply_to : Members → Option Json → Parsed
reply_to ms (some (str k)) = reply k ms
reply_to ms (some (arr js)) = unhashable
reply_to ms (some (obj ns)) = unhashable
reply_to ms _ = plain_event ms

abbrev parse_value : Text → Option Json → Parsed
parse_value line (some (obj ms)) =
    if is_response (get_member (text "type") ms)
    then reply_to ms (get_member (text "id") ms)
    else plain_event ms
parse_value line _ = broken_line line

unfoldable pub parse_line : Python → Text → Parsed
parse_line py line =
    if is_empty (strip line) then blank_line else parse_value (strip line) (py.loads (strip line))

abbrev pub fill : Members → Entry → Entry
fill ms e = record e { is_set = true; response = some ms }

abbrev pub note_event : Members → Transport → Transport
note_event ms t = record t { events = t.events ++ ms ∷ [] }

-- One line, as long as the reader goes on; `on_malformed` is given.
unfoldable pub receive : Parsed → Transport → Transport
receive blank_line t = t
receive (broken_line line) t = record t { malformed = t.malformed ++ line ∷ [] }
receive (reply k ms) t =
    if is_none (select entry_key k t.table)
    then note_event ms t
    else record t { table = update_where (has_key entry_key k (λ _. true)) (fill ms) t.table }
receive unhashable t = t
receive (plain_event ms) t = note_event ms t

abbrev pub wake_up : Entry → Entry
wake_up e = record e { is_set = true }

-- The reader's end: it wakes every command that waits.
unfoldable pub close_reader : Transport → Transport
close_reader t = record t { closed = true; table = map wake_up t.table }

-- A TypeError at a reply's id ends the loop.
abbrev pub is_fatal : Parsed → Bool
is_fatal unhashable = true
is_fatal _ = false

-- `_read_loop`, on the lines up to the end of the output.
unfoldable pub read_loop : Python → List Text → Transport → Transport
read_loop py [] t = close_reader t
read_loop py (line ∷ lines) t = elim (is_fatal (parse_line py line)) [
  | true ↦ close_reader t
  | false ↦ read_loop py lines (receive (parse_line py line) t)
]

-- `send_abort`.
abbrev pub was_accepted : Answer → Bool
was_accepted (succeeded j) = true
was_accepted _ = false

abbrev pub message_params : Text → Members
message_params message = member (text "message") (str message) Members.end

-- The parameters of `get_entries`.
abbrev pub since_params : Option Text → Members
since_params none = Members.end
since_params (some []) = Members.end
since_params (some (c ∷ s)) = member (text "since") (str (c ∷ s)) Members.end
