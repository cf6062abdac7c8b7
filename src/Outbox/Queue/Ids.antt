-- ===== src/Outbox/Queue/Ids.antt =====
-- The ids of notifications: a second enqueue of a terminal kind is dropped, and the ids of progress
-- notices never collide.
use hermes_pi_manager.Outbox.Queue.{next_id}
use hermes_pi_manager.Registry.Notifications.{is_progress, note_key, progress_seq}
use hermes_pi_manager.Registry.Rows.{Notification, Registry, Kind}
use hermes_pi_manager.Outbox.Target.{kind_text, progress_notification_id, terminal_notification_id}
use hermes_pi_manager.Base.{
  Bool, Bool-cases, List, count_where, if◌then◌else◌, inl, inr, none, select, sym, true, ◌+◌, ◌<◌,
  Text, [], arith, colon-injective, false, has_colon, refl, show, show-colon, show-injective, text,
  ℕ, ◌++◌, ◌∷◌, ◌≡◌, ◌≢◌,
}

kind_text-colon : (k : Kind) → has_colon (kind_text k) ≡ false
unfolding has_colon
kind_text-colon Kind.settled = refl
kind_text-colon Kind.verifier = refl
kind_text-colon Kind.failed = refl
kind_text-colon Kind.stalled = refl
kind_text-colon Kind.progress = refl

kind_text-injective : (k l : Kind) → kind_text k ≡ kind_text l → k ≡ l
kind_text-injective k l h = ground arith

append_cancel : (p a b : Text) → p ++ a ≡ p ++ b → a ≡ b
append_cancel [] a b h = h
append_cancel (c ∷ p) a b h = append_cancel p a b (ground arith)

-- Two terminal ids are equal only for the same task and the same kind.
pub terminal_notification_id-injective :
    (t u : Text) (k l : Kind)
    → terminal_notification_id t k ≡ terminal_notification_id u l
    → (t ≡ u) × (k ≡ l)
unfolding terminal_notification_id
terminal_notification_id-injective t u k l h = (parts.0, kind_text-injective k l parts.1)
  where
    parts : (t ≡ u) × (kind_text k ≡ kind_text l)
    parts =
        colon-injective t u (kind_text k) (kind_text l) (kind_text-colon k) (kind_text-colon l)
          (append_cancel (text "term:") _ _ h)

-- Two progress ids are equal only for the same task and the same number.
pub progress_notification_id-injective :
    (t u : Text) (m n : ℕ)
    → progress_notification_id t m ≡ progress_notification_id u n
    → (t ≡ u) × (m ≡ n)
unfolding progress_notification_id
progress_notification_id-injective t u m n h = (parts.0, show-injective m n parts.1)
  where
    parts : (t ≡ u) × (show m ≡ show n)
    parts =
        colon-injective t u (show m) (show n) (show-colon m) (show-colon n)
          (append_cancel (text "prog:") _ _ h)

progress_ne_terminal :
    (t u : Text) (m : ℕ) (k : Kind) → progress_notification_id t m ≢ terminal_notification_id u k
unfolding progress_notification_id terminal_notification_id
progress_ne_terminal t u m k h = ground arith

-- The ids of a task's progress notices that are yet to come are not taken.
abbrev pub IsFresh : Text → Registry → Type 0
IsFresh tid r =
    (m : ℕ)
    → progress_seq tid r < m
    → select note_key (progress_notification_id tid m) r.notifications ≡ none

pub count_where-append :
    (p : Notification → Bool) (rows : List Notification) (n : Notification)
    → count_where p (rows ++ n ∷ []) ≡ count_where p rows + (if p n then 1 else 0)
unfolding count_where
count_where-append p [] n = ground arith
count_where-append p (x ∷ xs) n = ground (arith, count_where-append p xs n)

pub next_id-fresh :
    (tid u : Text) (kind : Kind) (m : ℕ) (r : Registry)
    → next_id u kind r ≡ progress_notification_id tid m
    → (u ≡ tid) × (is_progress kind ≡ true) × (m ≡ progress_seq u r + 1)
unfolding next_id
next_id-fresh tid u kind m r h = elim (Bool-cases (is_progress kind)) [
  | inl e ↦
      let same : (u ≡ tid) × (progress_seq u r + 1 ≡ m) =
        progress_notification_id-injective u tid (progress_seq u r + 1) m (rw e at h) in
      (same.0, e, sym same.1)
  | inr e ↦ absurd (progress_ne_terminal tid u m kind (sym (rw e at h)))
]
