-- ===== src/Scenarios/Dispatch.antt =====
-- Examples of the theorems on the boot of a task, what it persists, its digest, and the tools.
use hermes_pi_manager.Manager.Boot.Unspawned.{error_of, spawn_failed-silent}
use hermes_pi_manager.Manager.Settlement.Late.{wake_of}
use hermes_pi_manager.Messages.{join}
use hermes_pi_manager.Manager.Recovery.Reattach.{load_verifier_spec}
use hermes_pi_manager.Manager.Watchdog.Heartbeats.{state_read}
use hermes_pi_manager.Manager.State.{Manager, VerifierSpec}
use hermes_pi_manager.Manager.Boot.{Boot, boot_and_run, spawn_failed, spawned}
use hermes_pi_manager.Registry.Tasks.{
  create_task, bound_text, max_summary_chars, get_task, new_task,
}
use hermes_pi_manager.Manager.Start.Persisted.{load_verifier_spec-spec_text}
use hermes_pi_manager.Base.Int.{pos}
use hermes_pi_manager.Manager.Verifier.{Run, exited, outcome_of, run_verifier_now}
use hermes_pi_manager.Tools.Origin.Dispatch.{Dispatches, handle_pi_task_lem, is_startable}
use hermes_pi_manager.Tools.Origin.{gate_of, id_arg, limits_of, handle_pi_task}
use hermes_pi_manager.Manager.Digest.Totals.{
  calls_of, closing_words, is_assistant, messages, opening_words, read_session_lem,
}
use hermes_pi_manager.Base.{
  ap, false, is_none, ◌++◌, Bool, Option, Text, [], get_or, if◌then◌else◌, keep, length, none, refl,
  select, show, some, text, text_eq, true, ℕ, ◌&&◌, ◌∷◌, ◌≡◌,
}
use hermes_pi_manager.Outbox.Target.{strip}
use hermes_pi_manager.Manager.Boot.Proven.{boot_and_run_lem, ending, owns, shift, shown}
use hermes_pi_manager.Registry.Rows.{Execution, Task, Verification}
use hermes_pi_manager.Manager.Digest.{
  Work, bump, count_calls, first_text, hear, no_work, read_entry, read_session,
}
use hermes_pi_manager.Tools.{escaped, argv_arg, handle_pi_verify, outcome, spec_arg, text_arg}
use hermes_pi_manager.Base.Json.{
  Items, bool, number, Json, Members, Python, arr, cons, get_member, member, nil, obj, str,
}
use hermes_pi_manager.Manager.Start.{start_task, spec_json, spec_text}
use hermes_pi_manager.Tools.Refusals.{Verifies, verifier_of, handle_pi_verify_lem, verifiable}
use hermes_pi_manager.Scenarios.{
  with_task-row, blank, dumped, hash, m1, manager_of, manager_of-runtime, runtime1, t1, t2, task1,
  terse, with_task-TasksDistinct,
}

abbrev this_session : Members
this_session =
    member (text "sessionId") (str (text "s1"))
      (member (text "sessionFile") (str (text "/s/1.jsonl")) Members.end)

abbrev healthy : Boot
healthy = record {
  process = spawned (some 42);
  answer = state_read this_session;
  prompt_error = none;
  stderr = [];
}

abbrev starting1 : Task
starting1 = new_task t1 1000

abbrev resolved : Text → Text
resolved p = p

abbrev session1 : Text
session1 = text "/s/1.jsonl"

boot_and_run_lem_example :
    let m = manager_of starting1 runtime1 in
    let handled = boot_and_run blank hash resolved 2000 2000 t1 session1 healthy m in
    let good = true && owns blank resolved session1 (state_read this_session) in
    (shown t1 handled.0 ≡ shift t1 t1 (ending (good && true)) (shown t1 m)) × (handled.1 ≡ good)
boot_and_run_lem_example =
    boot_and_run_lem blank hash resolved 2000 2000 t1 t1 session1 healthy
      (manager_of starting1 runtime1) runtime1 (manager_of-runtime starting1 runtime1)

abbrev no_process : Boot
no_process = record healthy { process = spawn_failed (text "no such file") }

spawn_failed-silent_example :
    let m = manager_of starting1 runtime1 in
    let (m', prompted) = boot_and_run blank hash resolved 2000 2000 t1 session1 no_process m in
    (prompted ≡ false)
    × (shown t1 m' ≡ (if text_eq t1 t1 then some Execution.crashed else shown t1 m))
    × (error_of (get_task t1 m'.registry)
        ≡ some (some (bound_text (text "spawn failed: " ++ text "no such file") max_summary_chars)))
    × (m'.registry.notifications ≡ m.registry.notifications)
    × (wake_of (get_task t1 m'.registry) ≡ some starting1.wake_state)
spawn_failed-silent_example =
    spawn_failed-silent blank hash resolved 2000 2000 t1 t1 session1 (text "no such file")
      no_process (manager_of starting1 runtime1) starting1 refl
      (ap is_none (manager_of-runtime starting1 runtime1)) (with_task-row starting1)

abbrev make_test_argv : Items
make_test_argv = cons (str (text "make")) (cons (str (text "test")) nil)

abbrev gate1 : VerifierSpec
gate1 = record { argv = make_test_argv; timeout = 60; cwd = some (text "/w") }

abbrev plain_seconds : ℕ → Text
plain_seconds n = show n

-- A library that writes one text for everything, and reads the spec or the origin back from it.
abbrev spec_library : Python
spec_library = record blank {
  dumps = λ j. text "j";
  loads = λ s. some (spec_json plain_seconds gate1);
}

abbrev default_seconds : Text → ℕ
default_seconds s = 120

load_verifier_spec-spec_text_example :
    load_verifier_spec spec_library default_seconds
      (some (spec_text spec_library plain_seconds gate1))
    ≡ some (record { argv = make_test_argv; timeout = 120; cwd = none })
load_verifier_spec-spec_text_example =
    load_verifier_spec-spec_text spec_library plain_seconds default_seconds (str (text "make"))
      (cons (str (text "test")) nil) 60 (some (text "/w")) refl refl

-- A message of the assistant with one call of a tool and its words.
abbrev said : Json
said = obj (
    member (text "type") (str (text "message")) (
      member (text "message")
        (obj (
          member (text "role") (str (text "assistant")) (
            member (text "content")
              (arr (
                cons
                  (obj (
                    member (text "type") (str (text "toolCall"))
                      (member (text "name") (str (text "bash")) Members.end)))
                  (cons
                    (obj (
                      member (text "type") (str (text "text"))
                        (member (text "text") (str (text "done")) Members.end)))
                    nil)))
              Members.end)))
        Members.end))

abbrev transcript : Python
transcript = record blank { loads = λ s. if text_eq s (text "m") then some said else none }

abbrev gathered : Work
gathered = record {
  prompt = [];
  summary = text "done";
  assistant_turns = 2;
  counts = record { tool = text "bash"; calls = 2 } ∷ [];
}

gathered-read :
    read_session transcript (text "m" ∷ text "{" ∷ text "m" ∷ []) no_work ≡ some gathered
unfolding read_session read_entry hear text_eq get_member first_text count_calls bump strip keep
    join
gathered-read = refl

read_session_lem_example :
    let ms = messages transcript (text "m" ∷ text "{" ∷ text "m" ∷ []) in
    (2 ≡ length (keep is_assistant ms))
    × (2 ≡ calls_of transcript ms)
    × (text "done" ≡ closing_words transcript [] ms)
    × ([] ≡ opening_words transcript ms)
read_session_lem_example =
    read_session_lem transcript (text "m" ∷ text "{" ∷ text "m" ∷ []) gathered gathered-read

abbrev make_test : Members
make_test =
    member (text "task_id") (str t1)
      (member (text "verifier_argv") (arr (cons (str (text "true")) nil)) Members.end)

abbrev to_minutes : Json → Option ℕ
to_minutes (number n) = some 60000
to_minutes v = none

abbrev as_shown : Json → Option Text
as_shown v = none

abbrev passes : VerifierSpec → Run
passes spec = exited (pos 0) [] []

abbrev settled1 : Manager
settled1 = manager_of (record task1 { execution_state = Execution.settled }) runtime1

handle_pi_verify_lem_example :
    let tid = text_arg blank (text "task_id") make_test in
    let argv = argv_arg blank make_test in
    Verifies blank passes 5000 t1
      (get_or tid [])
      (verifiable tid argv settled1.registry)
      (verifier_of blank to_minutes make_test argv)
      settled1
      (handle_pi_verify blank terse dumped to_minutes make_test passes 5000 settled1)
handle_pi_verify_lem_example =
    handle_pi_verify_lem blank terse dumped to_minutes passes 5000 t1 make_test settled1

-- The reply of that run.
verified_reply :
    (handle_pi_verify blank terse dumped to_minutes make_test passes 5000 settled1).0
    ≡ outcome Verification.pass
unfolding handle_pi_verify run_verifier_now outcome_of text_arg argv_arg spec_arg get_member
    get_task select text_eq
verified_reply = refl

-- A true value that cannot be listed is no refusal: the exception leaves the handler.
abbrev unlistable : Members
unlistable =
    member (text "task_id") (str t1) (member (text "verifier_argv") (bool true) Members.end)

unlistable_reply :
    handle_pi_verify blank terse dumped to_minutes unlistable passes 5000 settled1
    ≡ (escaped, settled1)
unfolding handle_pi_verify run_verifier_now outcome_of text_arg argv_arg spec_arg get_member
    get_task select text_eq
unlistable_reply = refl

abbrev new_work : Members
new_work =
    member (text "prompt") (str (text "fix it")) (member (text "cwd") (str (text "/w")) Members.end)

abbrev every_dir : Text → Bool
every_dir d = true

handle_pi_task_lem_example :
    let cwd = text_arg blank (text "cwd") new_work in
    Dispatches blank plain_seconds t2
      (resolved (get_or cwd []))
      session1
      Members.end
      7000
      7000
      (is_startable (text_arg blank (text "prompt") new_work) cwd every_dir resolved)
      (id_arg blank plain_seconds to_minutes as_shown new_work t2)
      (gate_of blank plain_seconds to_minutes as_shown new_work)
      (limits_of blank plain_seconds to_minutes as_shown new_work)
      m1
      (handle_pi_task blank plain_seconds to_minutes as_shown new_work every_dir resolved t2
        session1 Members.end 7000 7000 m1)
handle_pi_task_lem_example =
    handle_pi_task_lem blank plain_seconds to_minutes as_shown t2 session1 Members.end 7000 7000 m1
      new_work every_dir resolved t2 (with_task-TasksDistinct task1) refl

-- That run starts the task.
task_started :
    (handle_pi_task blank plain_seconds to_minutes as_shown new_work every_dir resolved t2 session1
      Members.end 7000 7000 m1).0
    ≡ outcome t2
unfolding handle_pi_task text_arg id_arg argv_arg gate_of limits_of spec_arg get_member start_task
    create_task text_eq select get_task
task_started = refl
