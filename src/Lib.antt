-- ===== src/Lib.antt =====
-- Codex Work Scheduler: a local queue of approved Codex work (codex_work_scheduler/). A controller
-- (service.py) keeps jobs, approvals, leases, runs and an audit chain in SQLite (store.py), decides by
-- a reserve policy over quota snapshots (policy.py) whether work may start, and validates every object
-- that it is given (validation.py). A quota guard (quota_guard.py) stops tasks when the quota runs low
-- and resumes them when a reset is proved.
--
-- Where the code is modelled:
--   * Contracts: the objects that the validators return, as records;
--   * Json: the values that json.loads gives, and dict access on them;
--   * Validation: validation.py, by the names of its functions (`_string` is `text`, `_number` is
--     `number`, and so on), with its proofs in Sound, Current and Identifier;
--   * Policy: policy.py, with its proofs in Eligible and Reasons;
--   * Guard: quota_guard.py. Signal and Decide hold the decisions, down to can_resume, Thread what is
--     read of a task, Sessions the commands create, arm and disarm and the writes to a session of the
--     due cycle and of the helpers; Trip, Resume, Overflow, Raise, Threads, Disarmed and Moves hold
--     the proofs;
--   * Store: store.py. Tables holds its tables as lists of rows, Audit the audit chain, Idempotency
--     the idempotent commands and Lease the service lease; Chain, Replay and Fencing hold the proofs.
--     GuardRows, Guards, GuardWrites and GuardFence are the rows of the quota guard with their queries
--     and writes, with the statements on sessions that service.py makes itself (insert_guard,
--     disarm_rows), and GuardFenced, GuardChanges, GuardSteps and Revisions their proofs;
--   * Service: service.py. Rows holds the statements on rows, Encode the dicts that a JSON column
--     gives back, Queue queue_propose, queue_approve, queue_submit and queue_cancel, Control
--     policy_set, pause, stop and resume, Recovery with its child Loops reconcile and the
--     background commands, Runner the runner of simulations (fake_runner.py) and Tick with its
--     child Pending the command tick; Once, Resumed, Approved, Cancelled, Ready, Commands, Recovered,
--     Reconciled, RecoverySafe, Ticked, Settled, Uninterrupted and TickSafe hold the proofs, and
--     Steps the commands as steps of the tables. `_set_mode` is `set_mode`, and an inner
--     `operation` has a name of its own (`make_ready` in `resume`, `approve` in `queue_approve`).
--     A command that reads outside its transaction takes the tables that it saw as `seen`, which
--     need not be those of the transaction. `tick` is two transactions, tick_start and
--     tick_finish; what other processes do to the tables between them is the parameter `between`;
--   * Notifications: notifications.py, with its proofs in Delivered; its transactions are in
--     Store/Notify;
--   * Common: lists, texts, signed numbers, `sorted(set(...))`, errors and postconditions.
-- An exception is the error side of Result, by its code; inside a transaction it rolls everything
-- back, so a transaction returns the new tables only with a value. Messages, the `retryable` flag and
-- details of errors are left out.
--
-- Numbers. Python's integers are unbounded and so are the model's. A float is a number of units of
-- 10⁻⁹ (of 10⁻¹⁸ for the products of the policy) and is computed with exactly: the rounding of
-- doubles is not modelled. Non-finite floats are a value of their own, which the validators refuse.
-- Where `float` is applied to an integer of a JSON value, as in both functions `_number`, one that is
-- too large for a double raises OverflowError (is_huge).
--
-- Parameters. SHA-256 over canonical JSON (`payload_hash`) is the field of the instance Digest, with
-- no law assumed. Identifiers that `new_id` draws are arguments, and a lemma that needs one to be
-- fresh says so. `pathlib` is the record Paths. Whether the sink of the notifications accepts an event
-- is a function. A JSON column holds the value that was encoded.
--
-- Recursion is structural throughout, so there is no fuel.
--
-- Not modelled: containment, resumption and the due cycle of the quota guard (but for the two
-- writes to a session with which it stops a guard), the other commands of the service (dispatch,
-- the quota probe, the live test, the monitor and the guard commands, and what only reads), the
-- background supervisor, the runners and clients of the app server, the command line, launchd, the
-- file of the notifications, and the file and SQLite plumbing of the store.
pub mod Common
pub mod Contracts
pub mod Policy
pub mod Json
pub mod Validation
pub mod Guard
pub mod Store
pub mod Notifications
pub mod Service
