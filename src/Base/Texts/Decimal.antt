-- ===== src/Base/Texts/Decimal.antt =====
-- Decimal numerals read back, and the split of a text at its last colon.
use Prim.Native.Nat.{ℕ, zero, suc, ◌+◌, ◌-◌, ◌*◌, ◌/◌, ◌%◌, ◌<◌}
use mathlib.Core.Path.{◌≡◌, refl, ap, sym, ◌∙◌}
use mathlib.Core.Bool.{Bool, false, ◌||◌}
use mathlib.Core.Option.{Option, none, some}
use mathlib.Core.List.{[], ◌∷◌, ◌++◌}
use mathlib.Core.Logic.{inl, inr}
use native.Mathlib.Omega.{arith}
use hermes_pi_manager.Base.Tests.{◌==◌, ltb, if◌then◌else◌, Bool-cases}
use hermes_pi_manager.Base.Texts.{Text, show_digits, show}
use hermes_pi_manager.Base.Lists.{any}

-- The number that a run of digits stands for, behind the value `acc` of those before it.
read_digits : ℕ → Text → ℕ
read_digits acc [] = acc
read_digits acc (c ∷ s) = read_digits (acc * 10 + (c - b'0')) s

read-show_digits :
    (f n : ℕ) (acc : Text) → n < f → read_digits 0 (show_digits f n acc) ≡ read_digits n acc
unfolding show_digits read_digits
read-show_digits zero n acc h = absurd (omega arith)
read-show_digits (suc f) n acc h = elim (Bool-cases (ltb n 10)) [
  | inl small ↦ rw (small, show_digits) (ap (λ (m : ℕ). read_digits m acc) (omega arith))
  | inr big ↦
      rw (big, show_digits)
        (read-show_digits f (n / 10) ((b'0' + n % 10) ∷ acc) (ground arith)
          ∙ ap (λ (m : ℕ). read_digits m acc) (omega arith))
]

-- Two numbers that are printed alike are equal.
pub show-injective : (m n : ℕ) → show m ≡ show n → m ≡ n
unfolding show read_digits
show-injective m n h =
    sym (read-show_digits (suc m) m [] (omega arith))
    ∙ ap (read_digits 0) h
    ∙ read-show_digits (suc n) n [] (omega arith)

unfoldable pub has_colon : Text → Bool
has_colon [] = false
has_colon (c ∷ s) = (c == b':') || has_colon s

show_digits-colon :
    (f n : ℕ) (acc : Text) → has_colon acc ≡ false → has_colon (show_digits f n acc) ≡ false
unfolding show_digits has_colon
show_digits-colon zero n acc h = h
show_digits-colon (suc f) n acc h = elim (Bool-cases (ltb n 10)) [
  | inl small ↦ rw (small, show_digits) (ground arith)
  | inr big ↦
      rw (big, show_digits) (show_digits-colon f (n / 10) ((b'0' + n % 10) ∷ acc) (ground arith))
]

pub show-colon : (n : ℕ) → has_colon (show n) ≡ false
unfolding show has_colon
show-colon n = show_digits-colon (suc n) n [] refl

unfoldable pub split_last : Text → Option (Text × Text)
split_last [] = none
split_last (c ∷ s) = elim (split_last s) [
  | none ↦ if c == b':' then some ([], s) else none
  | some (a, b) ↦ some (c ∷ a, b)
]

split_last-none : (s : Text) → has_colon s ≡ false → split_last s ≡ none
unfolding split_last has_colon
split_last-none [] h = refl
split_last-none (c ∷ s) h = ground (arith, split_last-none s)

pub split_last-colon :
    (a s : Text) → has_colon s ≡ false → split_last (a ++ (b':' ∷ s)) ≡ some (a, s)
unfolding split_last has_colon
split_last-colon [] s h = ground (arith, split_last-none s h)
split_last-colon (c ∷ a) s h = ground (arith, split_last-colon a s h)

-- A text with a colon falls apart in one way only, if no further colon stands behind it.
pub colon-injective :
    (a b s t : Text)
    → has_colon s ≡ false
    → has_colon t ≡ false
    → a ++ (b':' ∷ s) ≡ b ++ (b':' ∷ t)
    → (a ≡ b) × (s ≡ t)
colon-injective a b s t hs ht e = (
  cc (split_last-colon a s hs, split_last-colon b t ht),
  cc (split_last-colon a s hs, split_last-colon b t ht),
)

show_digits-dash :
    (f n : ℕ) (acc : Text)
    → any (λ c. c == b'-') acc ≡ false
    → any (λ c. c == b'-') (show_digits f n acc) ≡ false
unfolding show_digits any
show_digits-dash zero n acc h = h
show_digits-dash (suc f) n acc h = elim (Bool-cases (ltb n 10)) [
  | inl small ↦ rw (small, show_digits) (ground arith)
  | inr big ↦
      rw (big, show_digits) (show_digits-dash f (n / 10) ((b'0' + n % 10) ∷ acc) (ground arith))
]

pub show-dash : (n : ℕ) → any (λ c. c == b'-') (show n) ≡ false
unfolding show any
show-dash n = show_digits-dash (suc n) n [] refl
