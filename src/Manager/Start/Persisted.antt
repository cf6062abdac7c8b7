-- ===== src/Manager/Start/Persisted.antt =====
-- core.py: what `start_task` persists, read back after a restart.
use hermes_pi_manager.Registry.Tasks.{bound_text}
use hermes_pi_manager.Outbox.Target.{members_of, parse_origin}
use hermes_pi_manager.Manager.Recovery.Reattach.{load_verifier_spec}
use hermes_pi_manager.Manager.State.{VerifierSpec}
use hermes_pi_manager.Manager.Verifier.{persisted_argv, spec_argv}
use hermes_pi_manager.Manager.Start.{origin_text, spec_json, spec_text}
use hermes_pi_manager.Base.{
  length, ◌≤◌, Option, Text, [], ap, arith, false, is_empty, none, refl, some, text_eq, ℕ, ◌∙◌, ◌∷◌,
  ◌≡◌,
}
use hermes_pi_manager.Base.Json.{Items, cons, Members, member, obj, Json, Python, get_member}
use mathlib.Core.Option

persisted_argv-some :
    (py : Python) (raw : Text) (v : Json)
    → is_empty raw ≡ false
    → py.loads raw ≡ some v
    → persisted_argv py (some raw) ≡ spec_argv py (some v)
unfolding persisted_argv
persisted_argv-some py [] v h e = absurd (ground arith)
persisted_argv-some py (c ∷ s) v h e = ap (spec_argv py) e

-- A verifier that `start_task` persists is read back with its command, if the JSON text of the spec
-- reads back; its working directory is lost, and its time-out is what is read from that text.
pub load_verifier_spec-spec_text :
    (py : Python) (seconds_text : ℕ → Text) (seconds : Text → ℕ) (arg : Json) (args : Items)
    (timeout : ℕ) (cwd : Option Text)
    → let spec : VerifierSpec = record { argv = cons arg args; timeout = timeout; cwd = cwd } in
      let raw = spec_text py seconds_text spec in
      is_empty raw ≡ false
      → py.loads raw ≡ some (spec_json seconds_text spec)
      → load_verifier_spec py seconds (some raw)
        ≡ some (record { argv = cons arg args; timeout = seconds raw; cwd = none })
unfolding load_verifier_spec get_member text_eq
load_verifier_spec-spec_text py seconds_text seconds arg args timeout cwd full back =
    let spec : VerifierSpec = record { argv = cons arg args; timeout = timeout; cwd = cwd } in
    let raw = spec_text py seconds_text spec in
    let v = spec_json seconds_text spec in
    let argv : persisted_argv py (some raw) ≡ some (cons arg args) =
      persisted_argv-some py raw v full back in
    ap (Option.map (λ xs. record { argv = xs; timeout = seconds raw; cwd = none })) argv

parse_origin-some :
    (py : Python) (raw : Text) (ms : Members)
    → is_empty raw ≡ false
    → py.loads raw ≡ some (obj ms)
    → parse_origin py (some raw) ≡ ms
unfolding parse_origin
parse_origin-some py [] ms h e = absurd (ground arith)
parse_origin-some py (c ∷ s) ms h e = ap members_of e

bound_text-within : (s : Text) (limit : ℕ) → length s ≤ limit → bound_text s limit ≡ s
bound_text-within s limit h = ground arith

-- The origin of a dispatch is read back by the notifier as it was given, if its JSON text reads back
-- and has at most 2000 characters; a longer text is cut off before it is stored.
parse_origin-origin_text :
    (py : Python) (origin : Members)
    → is_empty (py.dumps (obj origin)) ≡ false
    → py.loads (py.dumps (obj origin)) ≡ some (obj origin)
    → length (py.dumps (obj origin)) ≤ 2000
    → parse_origin py (origin_text py origin) ≡ origin
unfolding parse_origin
parse_origin-origin_text py Members.end full back short = refl
parse_origin-origin_text py (member k v ms) full back short =
    let raw = py.dumps (obj (member k v ms)) in
    ap (λ s. parse_origin py (some s)) (bound_text-within raw 2000 short)
    ∙ parse_origin-some py raw (member k v ms) full back
