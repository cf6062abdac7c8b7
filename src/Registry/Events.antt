-- ===== src/Registry/Events.antt =====
-- registry_db.py: the append-only event log and its retention.
pub mod Retention
use hermes_pi_manager.Base.{
  ℕ, suc, ◌+◌, ◌++◌, Bool, true, false, not, ◌&&◌, List, [], ◌∷◌, Option, Text, text_eq, ltb,
  if◌then◌else◌, length, take, keep, get_or,
}
use mathlib.Core.List.{reverse}
use hermes_pi_manager.Registry.Rows.{
  Execution, EventType, Event, Registry, message_update, tool_execution_update, diagnostic_snapshot,
  queue_update,
}
use hermes_pi_manager.Registry.Tasks.{bound, max_summary_chars}

-- `event_type in HIGH_VOLUME_EVENTS`.
abbrev pub is_high_volume : EventType → Bool
is_high_volume message_update = true
is_high_volume tool_execution_update = true
is_high_volume diagnostic_snapshot = true
is_high_volume queue_update = true
is_high_volume _ = false

-- PRUNE_MIN_AGE_SECONDS, in milliseconds.
abbrev pub prune_min_age : ℕ
prune_min_age = 7200000

-- The row that `append_event` inserts. `summary` is the text that `json.dumps` made of a summary
-- that was no string; a missing `ts` is the wall clock's.
abbrev pub event_row :
    Text
    → Text
    → EventType
    → Option Text
    → Option Text
    → Option Text
    → Option ℕ
    → ℕ
    → Registry
    → Event
event_row tid source event_type before after summary ts wall r = record {
  id = suc r.last_event_id;
  task_id = tid;
  ts = get_or ts wall;
  source = source;
  event_type = event_type;
  state_before = before;
  state_after = after;
  summary = bound summary max_summary_chars;
}

unfoldable pub append_event :
    Text
    → Text
    → EventType
    → Option Text
    → Option Text
    → Option Text
    → Option ℕ
    → ℕ
    → Registry
    → Registry
append_event tid source event_type before after summary ts wall r =
    if r.closed then r else record r {
      last_event_id = suc r.last_event_id;
      events = r.events ++ event_row tid source event_type before after summary ts wall r ∷ [];
    }

-- The rows are in the order of their ids, so `ORDER BY id DESC LIMIT` reads from the end.
unfoldable pub recent_events : Text → ℕ → Registry → List Event
recent_events tid limit r =
    if r.closed
    then []
    else reverse (take limit (reverse (keep (λ e. text_eq e.task_id tid) r.events)))

-- `event_type IN (…) AND ts < now - min_age`; the age is added to the other side, since the
-- cut-off may lie before 0.
abbrev pub is_prunable : ℕ → ℕ → Event → Bool
is_prunable min_age now e = is_high_volume e.event_type && ltb (e.ts + min_age) now

unfoldable pub prune_events : ℕ → Option ℕ → ℕ → Registry → Registry × ℕ
prune_events min_age now wall r =
    let at = get_or now wall in
    if r.closed then (r, 0) else (
      record r { events = keep (λ e. not (is_prunable min_age at e)) r.events },
      length (keep (is_prunable min_age at) r.events),
    )
