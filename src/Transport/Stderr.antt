-- ===== src/Transport/Stderr.antt =====
-- rpc_transport.py, `_drain_stderr` and `stderr_tail`.
use hermes_pi_manager.Messages.{join}
use hermes_pi_manager.Base.{
  Bool-cases, inl, inr, length-append, map, sym, List, Text, [], ap, arith, if◌then◌else◌, length,
  ltb, refl, reverse, suc, text, zero, ℕ, ◌++◌, ◌+◌, ◌-◌, ◌==◌, ◌∙◌, ◌∷◌, ◌≡◌, ◌≤◌,
}

abbrev drop_newlines : Text → Text
drop_newlines [] = []
drop_newlines (c ∷ s) = if c == 10 then drop_newlines s else c ∷ s

-- `line.rstrip("\n")`.
abbrev pub chomped : Text → Text
chomped s = reverse (drop_newlines (reverse s))

module _ {ℓ} {A : Type ℓ} where
  abbrev drop : ℕ → List A → List A
  drop zero xs = xs
  drop (suc n) [] = []
  drop (suc n) (x ∷ xs) = drop n xs

  -- `xs[-n:]`.
  abbrev pub last_n : ℕ → List A → List A
  last_n n xs = drop (length xs - n) xs

  drop-append : (k : ℕ) (xs ys : List A) → k ≤ length xs → drop k (xs ++ ys) ≡ drop k xs ++ ys
  drop-append zero xs ys h = refl
  drop-append (suc k) [] ys h = absurd (omega arith)
  drop-append (suc k) (x ∷ xs) ys h = drop-append k xs ys (omega arith)

  drop-nil : (k : ℕ) → drop k [] ≡ []
  drop-nil zero = refl
  drop-nil (suc k) = refl

  drop-drop : (j k : ℕ) (xs : List A) → drop j (drop k xs) ≡ drop (k + j) xs
  drop-drop j zero xs = ap (λ n. drop n xs) (omega arith)
  drop-drop j (suc k) [] = drop-nil j ∙ sym (drop-nil (suc k + j))
  drop-drop j (suc k) (x ∷ xs) =
      let sum : suc (k + j) ≡ suc k + j = omega arith in
      drop-drop j k xs ∙ ap (λ n. drop n (x ∷ xs)) sum

  length-drop : (k : ℕ) (xs : List A) → length (drop k xs) ≡ length xs - k
  length-drop zero xs = omega arith
  length-drop (suc k) [] = omega arith
  length-drop (suc k) (x ∷ xs) = omega (arith, length-drop k xs)

  -- Appending to the last `n` and keeping the last `n` again is keeping the last `n` of all.
  last_n-append :
      (n : ℕ) (xs : List A) (x : A) → last_n n (last_n n xs ++ x ∷ []) ≡ last_n n (xs ++ x ∷ [])
  last_n-append n xs x =
      let d = length xs - n in
      let more = xs ++ x ∷ [] in
      let same : d + (length (drop d more) - n) ≡ length more - n =
        omega (arith, length-drop d more, length-append xs (x ∷ [])) in
      rw (sym (drop-append d xs (x ∷ []) (omega arith)))
        (drop-drop (length (drop d more) - n) d more ∙ ap (λ k. drop k more) same)

abbrev pub max_lines : ℕ
max_lines = 80

abbrev pub max_chars : ℕ
max_chars = 4000

unfoldable pub add_line : Text → List Text → List Text
add_line line tail =
    let more = tail ++ chomped line ∷ [] in
    if ltb max_lines (length more) then last_n max_lines more else more

unfoldable pub drain_stderr : List Text → List Text → List Text
drain_stderr [] tail = tail
drain_stderr (line ∷ lines) tail = drain_stderr lines (add_line line tail)

unfoldable pub stderr_tail : List Text → Text
stderr_tail tail = last_n max_chars (join (text "\n") tail)

last_n-if : (n : ℕ) (xs : List Text) → (if ltb n (length xs) then last_n n xs else xs) ≡ last_n n xs
last_n-if n xs = elim (Bool-cases (ltb n (length xs))) [
  | inl more ↦ rw more refl
  | inr few ↦ let none_left : length xs - n ≡ 0 = ground arith in rw (few, none_left) refl
]

add_line-last_n :
    (line : Text) (seen : List Text)
    → add_line line (last_n max_lines seen) ≡ last_n max_lines (seen ++ chomped line ∷ [])
unfolding add_line
add_line-last_n line seen =
    last_n-if max_lines (last_n max_lines seen ++ chomped line ∷ [])
    ∙ last_n-append max_lines seen (chomped line)

append_line : (seen rest : List Text) (x : Text) → (seen ++ x ∷ []) ++ rest ≡ seen ++ x ∷ rest
append_line [] rest x = refl
append_line (y ∷ seen) rest x = ap (◌∷◌ y) (append_line seen rest x)

append_no_line : (seen : List Text) → seen ++ [] ≡ seen
append_no_line [] = refl
append_no_line (y ∷ seen) = ap (◌∷◌ y) (append_no_line seen)

drain_stderr-append :
    (lines seen : List Text)
    → drain_stderr lines (last_n max_lines seen) ≡ last_n max_lines (seen ++ map chomped lines)
unfolding drain_stderr
drain_stderr-append [] seen = rw (append_no_line seen) refl
drain_stderr-append (line ∷ lines) seen = rw (add_line-last_n line seen) (
    drain_stderr-append lines (seen ++ chomped line ∷ [])
    ∙ ap (last_n max_lines) (append_line seen (map chomped lines) (chomped line)))

-- Draining leaves the last 80 lines of all that were written, without their line feeds, and
-- the tail that is shown has at most 4000 characters.
drain_stderr_lem :
    (lines : List Text)
    → (drain_stderr lines [] ≡ last_n max_lines (map chomped lines))
      × (length (stderr_tail (drain_stderr lines [])) ≤ max_chars)
unfolding stderr_tail
drain_stderr_lem lines =
    let shown = join (text "\n") (drain_stderr lines []) in
    (drain_stderr-append lines [], omega (arith, length-drop (length shown - max_chars) shown))
