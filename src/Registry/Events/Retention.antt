-- ===== src/Registry/Events/Retention.antt =====
-- What pruning keeps, and the ids of the event log.

use hermes_pi_manager.Registry.Rows.{Event, EventType, Registry}
use hermes_pi_manager.Registry.Events.{
  event_row, append_event, is_high_volume, is_prunable, prune_events,
}
use hermes_pi_manager.Base.{
  leb, All, Bool, List, Option, Text, [], arith, false, get_or, keep, length, not, refl, some, suc,
  true, ℕ, ◌++◌, ◌+◌, ◌<◌, ◌∷◌, ◌≡◌, ◌≤◌,
}

abbrev pub is_structural : Event → Bool
is_structural e = not (is_high_volume e.event_type)

-- A kept high-volume row is younger than the window.
abbrev pub IsRecent : ℕ → ℕ → Event → Type 0
IsRecent min_age now e = is_high_volume e.event_type ≡ true → now ≤ e.ts + min_age

-- An event that is not older than the window.
abbrev pub is_young : ℕ → ℕ → Event → Bool
is_young min_age now e = leb now (e.ts + min_age)

module _ (min_age now : ℕ) where
  abbrev stays : Event → Bool
  stays e = not (is_prunable min_age now e)

  keep_structural : (es : List Event) → keep is_structural (keep stays es) ≡ keep is_structural es
  unfolding keep
  keep_structural [] = refl
  keep_structural (e ∷ es) = ground (arith, keep_structural es)

  keep_young :
      (es : List Event)
      → keep (is_young min_age now) (keep stays es) ≡ keep (is_young min_age now) es
  unfolding keep
  keep_young [] = refl
  keep_young (e ∷ es) = ground (arith, keep_young es)

  kept-IsRecent : (es : List Event) → All (IsRecent min_age now) (keep stays es)
  unfolding keep
  kept-IsRecent [] = tt
  kept-IsRecent (e ∷ es) = ground (arith, kept-IsRecent es)

  kept_count :
      (es : List Event)
      → length (keep stays es) + length (keep (is_prunable min_age now) es) ≡ length es
  unfolding keep
  kept_count [] = refl
  kept_count (e ∷ es) = ground (arith, kept_count es)

  none_left : (es : List Event) → keep (is_prunable min_age now) (keep stays es) ≡ []
  unfolding keep
  none_left [] = refl
  none_left (e ∷ es) = ground (arith, none_left es)

  -- In an open registry a prune keeps every structural event, and every event of the window, in its
  -- place, leaves no high-volume event older than the window, returns how many it dropped, and a
  -- second one drops none.
  pub prune_events_lem :
      (wall : ℕ) (r : Registry)
      → r.closed ≡ false
      → let (r', dropped) = prune_events min_age (some now) wall r in
        (keep is_structural r'.events ≡ keep is_structural r.events)
        × (keep (is_young min_age now) r'.events ≡ keep (is_young min_age now) r.events)
        × All (IsRecent min_age now) r'.events
        × (length r'.events + dropped ≡ length r.events)
        × ((prune_events min_age (some now) wall r').1 ≡ 0)
        × (r'.tasks ≡ r.tasks)
  unfolding prune_events
  prune_events_lem wall r up = (
    ground (arith, keep_structural r.events),
    ground (arith, keep_young r.events),
    ground (arith, kept-IsRecent r.events),
    ground (arith, kept_count r.events),
    ground (arith, none_left r.events),
    ground arith,
  )

-- The ids grow along the log and stay at most the last one that was given out.
abbrev pub Ascending : ℕ → List Event → ℕ → Type 0
Ascending low [] top = low ≤ top
Ascending low (e ∷ es) top = (low < e.id) × Ascending e.id es top

abbrev pub IdsAscend : Registry → Type 0
IdsAscend r = Ascending 0 r.events r.last_event_id

Ascending-append :
    (low : ℕ) (es : List Event) (top : ℕ) (e : Event)
    → Ascending low es top
    → e.id ≡ suc top
    → Ascending low (es ++ e ∷ []) (suc top)
Ascending-append low [] top e h i = omega arith
Ascending-append low (x ∷ xs) top e h i = (h.0, Ascending-append x.id xs top e h.1 i)

Ascending-lower :
    (low low' : ℕ) (es : List Event) (top : ℕ)
    → low' ≤ low
    → Ascending low es top
    → Ascending low' es top
Ascending-lower low low' [] top l h = omega arith
Ascending-lower low low' (e ∷ es) top l h = (omega arith, h.1)

Ascending-keep :
    (p : Event → Bool) (low : ℕ) (es : List Event) (top : ℕ)
    → Ascending low es top
    → Ascending low (keep p es) top
unfolding keep
Ascending-keep p low [] top h = h
Ascending-keep p low (e ∷ es) top h =
    ground (arith, Ascending-keep p e.id es top, Ascending-lower e.id low (keep p es) top)

-- Appending an event and pruning keep the ids of the log in order and never reuse one.
pub events-IdsAscend :
    (tid source : Text) (etype : EventType) (before after : Option Text) (summary : Option Text)
    (ts now : Option ℕ) (min_age wall : ℕ) (r : Registry)
    → IdsAscend r
    → IdsAscend (append_event tid source etype before after summary ts wall r)
      × IdsAscend (prune_events min_age now wall r).0
unfolding append_event prune_events
events-IdsAscend tid source etype before after summary ts now min_age wall r h = (
  ground (
    arith,
    Ascending-append 0 r.events r.last_event_id
        (event_row tid source etype before after summary ts wall r) h refl,
  ),
  ground (
    arith,
    Ascending-keep (λ e. not (is_prunable min_age (get_or now wall) e)) 0 r.events r.last_event_id
        h,
  ),
)
