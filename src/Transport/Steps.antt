-- ===== src/Transport/Steps.antt =====
-- rpc_transport.py: the steps that the threads of the transport interleave.
use hermes_pi_manager.Base.Json.{Members, Python}
use hermes_pi_manager.Base.Int.{ℤ}
use hermes_pi_manager.Base.{
  All, Bool, Bool-cases, Distinct, List, Option, Text, [], arith, false, if◌then◌else◌, inl, inr,
  map, none, refl, select, true, update_where, ◌++◌, ◌∷◌, ◌≡◌,
}
use hermes_pi_manager.Transport.{
  Entry, Parsed, Transport, begin_command, close_reader, end_command, entry_key, is_fatal,
  parse_line, receive, wake_up,
}
use mathlib.Core.Option

-- The steps that the threads of the transport interleave: the first half of a command, a line read,
-- the end of the output, and the second half of the command with an id.
pub data Action : Type 0 where
  begin : Text → Members → Text → Option ℤ → Bool → Action
  arrive : Text → Action
  hang_up : Action
  finish : Text → Action

abbrev pub read_one : Parsed → Transport → Transport
read_one p t = if is_fatal p then close_reader t else receive p t

-- Past its end the reader reads nothing.
abbrev pub act : Python → Action → Transport → Transport
act py (begin c params uuid rc writable) t = (begin_command py c params uuid rc writable t).1
act py (arrive line) t = if t.closed then t else read_one (parse_line py line) t
act py hang_up t = if t.closed then t else close_reader t
act py (finish k) t = (end_command py k t).1

unfoldable pub act_all : Python → List Action → Transport → Transport
act_all py [] t = t
act_all py (a ∷ as') t = act_all py as' (act py a t)

module _ {ℓ} {A : Type ℓ} where
  pub All-snoc {κ} : (P : A → Type κ) (xs : List A) (x : A) → All P xs → P x → All P (xs ++ x ∷ [])
  All-snoc P [] x h hx = (hx, tt)
  All-snoc P (y ∷ xs) x (h, hs) hx = (h, All-snoc P xs x hs hx)

-- A step on every entry, or on those that a test meets, that keeps a property of them.
pub All-update_where {κ} :
    (P : Entry → Type κ) (p : Entry → Bool) (f : Entry → Entry) (es : List Entry)
    → ((e : Entry) → p e ≡ true → P e → P (f e))
    → All P es
    → All P (update_where p f es)
unfolding update_where
All-update_where P p f [] step h = tt
All-update_where P p f (e ∷ es) step (h, hs) = elim (Bool-cases (p e)) [
  | inl hit ↦ rw hit (step e hit h, All-update_where P p f es step hs)
  | inr miss ↦ rw miss (h, All-update_where P p f es step hs)
]

pub All-wake_up {κ} :
    (P : Entry → Type κ) (es : List Entry)
    → ((e : Entry) → P e → P (wake_up e))
    → All P es
    → All P (map wake_up es)
All-wake_up P [] step h = tt
All-wake_up P (e ∷ es) step (h, hs) = (step e h, All-wake_up P es step hs)

pub select-wake_up :
    (k : Text) (es : List Entry)
    → select entry_key k (map wake_up es) ≡ Option.map wake_up (select entry_key k es)
unfolding select
select-wake_up k [] = refl
select-wake_up k (e ∷ es) = ground (arith, select-wake_up k es)

pub Distinct-wake_up :
    (es : List Entry) → Distinct entry_key es → Distinct entry_key (map wake_up es)
Distinct-wake_up [] d = tt
Distinct-wake_up (e ∷ es) (d, ds) =
    (rw (select-wake_up e.req_id es, d) refl, Distinct-wake_up es ds)

abbrev pub new_entry : Text → Entry
new_entry k = record { req_id = k; is_set = false; response = none }
