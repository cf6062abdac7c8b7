-- ===== src/Lib.antt =====
-- Verification of hermes-pi-manager, a plugin that runs Pi agents as tasks: it keeps a registry of
-- tasks in SQLite, follows each task's RPC events and heartbeats, verifies finished work, and tells
-- the chat and the session that ordered the task.
--
-- The parts, the files that model them, and the code:
--   Registry      registry_db.py. Rows has the three tables, one record per row, with the states of
--                 their columns. Tasks, Events, Notifications and Wakes have one function per method
--                 of `Registry`, under the method's name. The lock makes a method atomic, so a method
--                 is a function from a registry to a registry and a result; a closed registry
--                 answers each method with its default.
--   Outbox        outbox.py. Target has the routing target and the stable ids, Errors the classes of
--                 errors, Queue `enqueue` and `mark_failed`, Worker one drain pass.
--   Messages      core.py, the texts of the notifications and of the continuation message.
--   WakeWorker    wake_worker.py, one pass of `TerminalWakeWorker` and one dispatch.
--   Manager       core.py, `PiManager`. State has the thresholds, the runtime objects and the
--                 plain write of a state; Events `_on_event` and `_on_settled`; Notices the
--                 enqueueing of notices, the request of a wake and the progress notices; Verifier
--                 the verifier's run, Finish the thread that ends a settled task; Aborts
--                 `abort_task`, `_handle_early_failure` and `steer_task`; Watchdog, with
--                 Heartbeats and Stalls, `watchdog_tick`, with Loop `_watchdog_loop`; Processes the
--                 walks over the process table; Report `status`; Digest `digest`; Start
--                 `start_task`, Boot `_boot_and_run`; Shutdown `shutdown`; Recovery, with Reattach,
--                 `recover_task` and `recover_all`, whose sweep Decided and Lost describe.
--   Transport     rpc_transport.py. The two halves of `send_command` around its wait and `_read_loop`;
--                 Steps has the steps that its threads interleave, Argv `build_rpc_argv`, Stderr
--                 `_drain_stderr`.
--   LspCheck      lsp_check.py. `collect_touched_files`; Diagnosis `run`; Line `format_summary`.
--   Tools         tools.py, the handlers of the tools; Origin `_capture_routing` and `handle_pi_task`;
--                 Workers the start, the replacement and the stop of the worker threads.
--   Base          lists, texts, tables, sorting, integers and JSON values that the parts share.
--   Scenarios     concrete inputs.
-- How they interact: the manager and both workers share one registry. The manager writes states,
-- appends events, enqueues notices and opens wakes; the outbox worker claims notices under a lease and
-- records each delivery; the wake worker claims wakes and records each injection. A task's process is
-- spoken to through a transport; the manager takes its answers, and the tools call the manager.
--
-- Conventions. A text is the list of its code points. A time stamp is a natural number of
-- milliseconds, where the code has seconds as a float; a difference that is compared with a bound is
-- written as a sum on the other side, and `max(a - b, 0)` is the subtraction that stops at 0. A time
-- that the code prints into a JSON summary is printed in milliseconds. NULL and None are `none`. `now`
-- is the injectable clock and `wall` is `time.time()`; one operation reads each once. An exception is
-- `none`. A step of the transport is what one of its threads does between two waits: the lookup of
-- a reply and the filling of its box are one step. The printing of numbers recurs on fuel, the
-- number itself plus one, which its digits do not exceed; the walk over the process table on two
-- more rounds than the table has rows, which is proved enough; the watchdog's loop recurs on the
-- list of its rounds.
--
-- Parameters. `Python` has the functions of the standard library whose result stays open (`json`,
-- `str.lower`, `str.splitlines`, `str` of other values, `==` on JSON values). What the host answers
-- (`inject_message`, the adapter's tool), what a process answers (`Observed`, `Run`, `Probe`, `Boot`),
-- the file system with git (`Workspace`), the language service (`Service`), the digest of a state,
-- what `float` reads from an argument of a tool (a finite number of seconds, in milliseconds, a
-- negative one as 0), and what SQLite stores for a task id that is no string are parameters of the
-- functions that use them.
--
-- Not modelled: the SQLite connection and the migration of its schema, the cadence of threads, the
-- signals to a process, the schemas of the tools and their registration, host_adapter.py and the
-- plugin's entry, which only call the host.
pub mod Base
pub mod Registry
pub mod Outbox
pub mod Messages
pub mod WakeWorker
pub mod Manager
pub mod Transport
pub mod LspCheck
pub mod Tools
pub mod Scenarios
