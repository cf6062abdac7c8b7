-- ===== src/Scenarios/Transport.antt =====
-- Examples of the theorems on the transport: one reply, and commands around it.

use hermes_pi_manager.Transport.Correlation.{IsMatched, act_all-Matched}
use hermes_pi_manager.Transport.Steps.{Action, act_all, arrive, begin, hang_up, new_entry}
use hermes_pi_manager.Outbox.Target.{strip}
use hermes_pi_manager.Transport.Commands.{begin_command_lem}
use hermes_pi_manager.Scenarios.{blank}
use hermes_pi_manager.Transport.Argv.{build_rpc_argv, options, value_of, value_of-build_rpc_argv}
use hermes_pi_manager.Transport.Answers.{end_command-closed, end_command-read_loop, latest}
use hermes_pi_manager.Base.Json.{get_member, Members, Python, bool, member, obj, str}
use hermes_pi_manager.Transport.{
  Transport, answer_of, begin_command, close_reader, end_command, entry_key, message_params,
  new_transport, overdue, parse_line, read_loop, receive, req_id_of, succeeded,
}
use hermes_pi_manager.Base.{
  show, update_where, All, Distinct, List, [], false, if◌then◌else◌, none, refl, select, some, text,
  text_eq, true, ◌∷◌, ◌≡◌, ◌≢◌,
}
use hermes_pi_manager.Base.Int.{pos}

abbrev json_reply : Members
json_reply = member (text "type") (str (text "response")) (
    member (text "id") (str (text "req-1-ab"))
      (member (text "success") (bool true) (member (text "data") (str (text "state")) Members.end)))

abbrev wire : Python
wire = record blank { loads = λ s. if text_eq s (text "r") then some (obj json_reply) else none }

-- A command, its reply, a broken line, and the end of the output.
abbrev steps : List Action
steps =
    begin (text "get_state") Members.end (text "ab") none true
    ∷ arrive (text "r")
    ∷ arrive (text "x")
    ∷ hang_up
    ∷ []

act_all-Matched_example :
    Distinct entry_key (act_all wire steps new_transport).table
    × All IsMatched (act_all wire steps new_transport).table
act_all-Matched_example = act_all-Matched wire steps

abbrev waiting_one : Transport
waiting_one =
    (begin_command wire (text "get_state") Members.end (text "ab") none true new_transport).1

waiting_one-pending :
    select entry_key (text "req-1-ab") waiting_one.table ≡ some (new_entry (text "req-1-ab"))
unfolding begin_command select text_eq req_id_of show
waiting_one-pending = refl

end_command-read_loop_example :
    let lines = text "x" ∷ text "r" ∷ [] in
    let answer = (end_command wire (text "req-1-ab") (read_loop wire lines waiting_one)).0 in
    (answer ≡ answer_of wire (latest wire (text "req-1-ab") lines none)) × (answer ≢ overdue)
end_command-read_loop_example =
    end_command-read_loop wire (text "req-1-ab") (text "x" ∷ text "r" ∷ []) waiting_one
      (new_entry (text "req-1-ab")) waiting_one-pending

-- The answer of that run.
answer_of_run :
    (end_command wire (text "req-1-ab") (read_loop wire (text "x" ∷ text "r" ∷ []) waiting_one)).0
    ≡ succeeded (str (text "state"))
unfolding begin_command end_command read_loop receive close_reader parse_line select text_eq strip
    get_member req_id_of show update_where
answer_of_run = refl

abbrev ended : Transport
ended = record new_transport { closed = true }

ended-empty : select entry_key (req_id_of ended.next_number (text "cd")) ended.table ≡ none
unfolding select
ended-empty = refl

end_command-closed_example :
    let k = req_id_of 1 (text "cd") in
    let asked = begin_command wire (text "abort") Members.end (text "cd") none true ended in
    (asked.0 ≡ some k)
    × ((end_command wire k (act_all wire (arrive (text "r") ∷ hang_up ∷ []) asked.1)).0 ≡ overdue)
end_command-closed_example =
    end_command-closed wire (text "abort") Members.end (text "cd")
      (arrive (text "r") ∷ hang_up ∷ []) ended refl ended-empty

begin_command_lem_example :
    let t = act_all wire steps new_transport in
    let k = req_id_of t.next_number (text "cd") in
    let params = message_params (text "go") in
    let c = text "steer" in
    (begin_command wire c params (text "cd") (some (pos 1)) true t ≡ (none, t))
    × ((begin_command wire c params (text "cd") none false t).0 ≡ none)
    × ((begin_command wire c params (text "cd") none false t).1.table ≡ t.table)
    × (select entry_key k t.table ≡ none)
    × (select entry_key k (begin_command wire c params (text "cd") none true t).1.table
        ≡ some (new_entry k))
begin_command_lem_example =
    begin_command_lem wire steps (text "steer") (message_params (text "go")) (text "cd") (pos 1)

value_of-build_rpc_argv_example :
    let argv = options (
      build_rpc_argv
        (text "pi")
        (text "p")
        (text "m")
        (text "high")
        (some (text "s.jsonl"))
        none
        false
        none) in
    (value_of (text "--mode") argv ≡ some (text "rpc"))
    × (value_of (text "--provider") argv ≡ some (text "p"))
    × (value_of (text "--model") argv ≡ some (text "m"))
    × (value_of (text "--thinking") argv ≡ some (text "high"))
    × (value_of (text "--session") argv ≡ some (text "s.jsonl"))
    × (value_of (text "--session-id") argv ≡ none)
    × (value_of (text "--append-system-prompt") argv ≡ none)
value_of-build_rpc_argv_example =
    value_of-build_rpc_argv (text "pi") (text "p") (text "m") (text "high") (some (text "s.jsonl"))
      none none false
