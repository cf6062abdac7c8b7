-- ===== src/Messages.antt =====
-- core.py: the texts of notifications and of the terminal wake.
use hermes_pi_manager.Registry.Rows.{Execution, Kind, Task, Verification}
use hermes_pi_manager.Base.Int.{negsuc, pos, ℤ}
use hermes_pi_manager.Outbox.Errors.{starts_with}
use hermes_pi_manager.Registry.Tasks.{bound_text}
use hermes_pi_manager.Base.{
  Bool, List, Option, Text, [], false, get_or, if◌then◌else◌, is_empty, leb, ltb, none, not, show,
  some, suc, text, true, zero, ℕ, ◌%◌, ◌&&◌, ◌++◌, ◌+◌, ◌-◌, ◌/◌, ◌==◌, ◌||◌, ◌∷◌,
}

-- The Polish plural of `krok`.
unfoldable pub krok_word : ℕ → Text
krok_word n =
    if (n % 10 == 1) && not (n % 100 == 11)
    then text "krok"
    else if (leb 2 (n % 10) && leb (n % 10) 4) && not (leb 12 (n % 100) && leb (n % 100) 14)
    then text "kroki"
    else text "kroków"

abbrev verdict_phrase : Verification → Text
verdict_phrase Verification.pass = text "Weryfikacja: PASS."
verdict_phrase Verification.fail = text "Weryfikacja: FAIL — wyniki wymagają przeglądu."
verdict_phrase Verification.unrunnable =
    text "Weryfikacja: UNRUNNABLE — nie wydano werdyktu (to nie jest FAIL)."
verdict_phrase _ =
    text "Weryfikacja: nie uruchomiono (brak weryfikatora) — wynik nie został sprawdzony."

-- `f"{d:.0f}"` of a duration: whole seconds, a half rounded to the even neighbour.
abbrev round_seconds : ℕ → ℕ
round_seconds d =
    if ltb (d % 1000) 500
    then d / 1000
    else if ltb 500 (d % 1000)
    then d / 1000 + 1
    else d / 1000 + d / 1000 % 2

-- A time stamp of 0.0 reads as missing.
abbrev runtime_phrase : Option ℕ → Option ℕ → Text
runtime_phrase (some (suc s)) (some (suc e)) =
    if leb s e then show (round_seconds (e - s)) ++ text " s" else []
runtime_phrase _ _ = []

-- `" ".join(parts)`.
unfoldable pub join : Text → List Text → Text
join sep [] = []
join sep (p ∷ []) = p
join sep (p ∷ q ∷ ps) = p ++ (sep ++ join sep (q ∷ ps))

-- A part that is left out where its text is missing or empty.
abbrev optional : Option Text → (Text → Text) → List Text
optional none f = []
optional (some []) f = []
optional (some (c ∷ s)) f = f (c ∷ s) ∷ []

abbrev steps_part : Option ℕ → List Text
steps_part none = []
steps_part (some zero) = []
steps_part (some (suc n)) =
    (text "Wykonano " ++ (show (suc n) ++ (text " " ++ (krok_word (suc n) ++ text ".")))) ∷ []

unfoldable pub format_completion_message : Text → Task → Text
format_completion_message tid row = join (text " ") (
    (text "Pi zakończył zadanie `" ++ (tid ++ text "`."))
    ∷ verdict_phrase row.verification_state
    ∷ (steps_part row.message_count
        ++ (optional (some (runtime_phrase row.started_at row.settled_at))
              (λ rt. text "Czas: " ++ (rt ++ text "."))
            ++ optional row.last_error
                (λ e. text "Ostatni błąd: " ++ (bound_text e 300 ++ text ".")))))

abbrev pub state_text : Execution → Text
state_text Execution.starting = text "STARTING"
state_text Execution.running = text "RUNNING"
state_text Execution.tool_running = text "TOOL_RUNNING"
state_text Execution.waiting = text "WAITING"
state_text Execution.stalled = text "STALLED"
state_text Execution.unresponsive = text "UNRESPONSIVE"
state_text Execution.settled = text "SETTLED"
state_text Execution.crashed = text "CRASHED"
state_text Execution.aborted = text "ABORTED"

abbrev pub verification_text : Verification → Text
verification_text Verification.not_run = text "NOT_RUN"
verification_text Verification.pending = text "PENDING"
verification_text Verification.pass = text "PASS"
verification_text Verification.fail = text "FAIL"
verification_text Verification.unrunnable = text "UNRUNNABLE"

-- `str` of an exit code.
abbrev pub show_ℤ : ℤ → Text
show_ℤ (pos n) = show n
show_ℤ (negsuc n) = b'-' ∷ show (suc n)

abbrev exit_part : Option ℤ → Text
exit_part none = []
exit_part (some rc) = text ", kod wyjścia " ++ show_ℤ rc

abbrev detail_part : Option Text → Text
detail_part none = []
detail_part (some []) = []
detail_part (some (c ∷ s)) = text " " ++ bound_text (c ∷ s) 300

unfoldable pub format_failed_message : Text → Task → Text
format_failed_message tid row =
    text "Zadanie `"
    ++ (tid
        ++ (text "` zakończyło się z błędem: stan "
            ++ (state_text row.execution_state
                ++ (exit_part row.exit_code
                    ++ (text "."
                        ++ (detail_part row.last_error ++ text " Wyniki wymagają przeglądu."))))))

abbrev stall_cause : Option Text → Option ℕ → Text
stall_cause (some (c ∷ s)) last = text " przy aktywnym narzędziu " ++ bound_text (c ∷ s) 120
stall_cause _ (some (suc t)) = text " bez żadnego zdarzenia w oknie oczekiwania"
stall_cause _ _ = []

unfoldable pub format_stalled_message : Text → Task → Text
format_stalled_message tid row =
    text "Zadanie `"
    ++ (tid
        ++ (text "` jest zawieszone (STALLED): brak postępu do przodu"
            ++ (stall_cause row.active_tool row.last_progress_at
                ++ text ". Najczęstsza przyczyna: zawieszony proces potomny.")))

abbrev activity_part : Option Text → Text
activity_part none = []
activity_part (some []) = []
activity_part (some (c ∷ s)) = text " Ostatnia aktywność: " ++ (bound_text (c ∷ s) 120 ++ text ".")

unfoldable pub format_progress_message : Text → Task → Text
format_progress_message tid row =
    let count = get_or row.message_count 0 in
    text "Pi pracuje nad zadaniem `"
    ++ (tid
        ++ (text "` — wykonano "
            ++ (show count
                ++ (text " "
                    ++ (krok_word count
                        ++ (text "."
                            ++ (activity_part row.active_tool ++ text " Task nadal działa.")))))))

unfoldable pub format_notification_message : Kind → Text → Task → Text
format_notification_message Kind.progress tid row = format_progress_message tid row
format_notification_message Kind.failed tid row = format_failed_message tid row
format_notification_message Kind.stalled tid row = format_stalled_message tid row
format_notification_message Kind.settled tid row = format_completion_message tid row
format_notification_message Kind.verifier tid row = format_completion_message tid row

unfoldable pub continuation_id_for : Text → Text
continuation_id_for tid = text "wake:" ++ tid

abbrev is_not_run : Verification → Bool
is_not_run Verification.not_run = true
is_not_run _ = false

abbrev is_pass : Verification → Bool
is_pass Verification.pass = true
is_pass _ = false

abbrev is_settled : Execution → Bool
is_settled Execution.settled = true
is_settled _ = false

abbrev semantic_part : Option Text → Verification → Option Text → List Text
semantic_part (some (c ∷ s)) v gate = (text "Semantic check: " ++ (c ∷ s)) ∷ []
semantic_part lsp v gate =
    if not (is_not_run v) || not (is_empty (get_or gate []))
    then text "Semantic check: not available for this task." ∷ []
    else []

-- The outcome that needs no follow-up: settled, passed, and no semantic error found.
unfoldable pub is_clean : Task → Bool
is_clean row =
    is_settled row.execution_state
    && (is_pass row.verification_state
        && not (starts_with (text "LSP found") (get_or row.lsp_summary [])))

unfoldable pub format_terminal_wake_message : Text → Task → Text
format_terminal_wake_message tid row = join (text " ") (
    (text "[pi-manager continuation "
      ++ (continuation_id_for tid
          ++ (text "] Task `"
              ++ (tid
                  ++ (text "` reached its terminal state (execution_state="
                      ++ (state_text row.execution_state
                          ++ (text ", verification_state="
                              ++ (verification_text row.verification_state ++ text ")."))))))))
    ∷ (optional row.verifier_summary (λ g. text "Gate: " ++ g)
        ++ (semantic_part row.lsp_summary row.verification_state row.verifier_summary
            ++ ((if is_clean row
                  then text
                      "This is the complete outcome — continue the parent workflow autonomously without re-reading the task. Call pi_digest only if you actually need the account of what it DID."
                  else text
                      "Analyze the result, then continue the parent workflow autonomously (pi_digest for `"
                    ++ (tid
                        ++ text
                            "` has the ~2 KB account of what it did; pi_status has the raw row)."))
                ∷ text
                    "This wake fires once per task, after the verifier resolved. Do not duplicate work that already succeeded; retry or launch a replacement Pi task only when the terminal state, verification result, or available evidence justifies it."
                ∷ []))))
