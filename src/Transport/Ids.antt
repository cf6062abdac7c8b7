-- ===== src/Transport/Ids.antt =====
-- rpc_transport.py, `_next_id`: ids of different numbers differ.
use hermes_pi_manager.Transport.{req_id_of}
use hermes_pi_manager.Base.{
  Bool, Text, [], any, ap, arith, false, if◌then◌else◌, refl, show, show-dash, show-injective, sym,
  ℕ, ◌++◌, ◌==◌, ◌∙◌, ◌∷◌, ◌≡◌,
}

abbrev pub has_dash : Text → Bool
has_dash s = any (λ c. c == b'-') s

-- The part before the first dash.
before_dash : Text → Text
before_dash [] = []
before_dash (c ∷ s) = if c == b'-' then [] else c ∷ before_dash s

before_dash-append : (s u : Text) → has_dash s ≡ false → before_dash (s ++ (b'-' ∷ u)) ≡ s
unfolding before_dash any
before_dash-append [] u h = refl
before_dash-append (c ∷ s) u h = ground (arith, before_dash-append s u)

-- What follows "req-".
after_prefix : Text → Text
after_prefix (a ∷ b ∷ c ∷ d ∷ s) = s
after_prefix _ = []

-- Ids with the same text have the same number.
pub req_id_of-injective : (m n : ℕ) (u v : Text) → req_id_of m u ≡ req_id_of n v → m ≡ n
unfolding req_id_of after_prefix
req_id_of-injective m n u v h = show-injective m n (
    sym (before_dash-append (show m) u (show-dash m))
    ∙ ap (λ s. before_dash (after_prefix s)) h
    ∙ before_dash-append (show n) v (show-dash n))
