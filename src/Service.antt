-- ===== src/Service.antt =====
-- The controller (codex_work_scheduler/service.py) over the tables of the store: the configuration,
-- the checks that its commands share, and the policy decision on the current snapshot. A command
-- reads the tables first (`seen`) and runs its transaction on `db`, which another process may have
-- changed in between.
pub mod Encode
pub mod Rows
pub mod Queue
pub mod Once
pub mod Resumed
pub mod Approved
pub mod Cancelled
pub mod Ready
pub mod Commands
pub mod Steps
pub mod Recovery
pub mod Recovered
pub mod Reconciled
pub mod RecoverySafe
pub mod Runner
pub mod Tick
pub mod Ticked
pub mod Settled
pub mod Uninterrupted
pub mod TickSafe
pub mod Samples
pub mod Tests
pub mod RecoveryTests
pub mod TickTests
pub mod Control
use codex_work_scheduler.Common.{
  ℕ, String, Bool, false, not, ◌&&◌, ◌||◌, Option, none, some, List, [], ◌∷◌, ◌++◌, any, find,
  contains, str_eq, leb, if◌then◌else◌, Result, ok, err, ◌>>=◌, ◌>>◌, guard,
}
use codex_work_scheduler.Contracts.{Policy, Usage, Snapshot, Approval}
use codex_work_scheduler.Json.{Fields, str, obj, has_key}
use codex_work_scheduler.Policy.{Decision, evaluate_policy, invalid_signal_decision}
use codex_work_scheduler.Validation.Fields.{validate_identifier}
use codex_work_scheduler.Validation.Snapshots.{validate_snapshot, ensure_profile}
use codex_work_scheduler.Store.Tables.{Db, Mode, Binding, SnapshotRow, Reply, Transaction}
use codex_work_scheduler.Store.Idempotency.{reply_or_run}

-- The fields of the configuration that the commands read.
pub record Config : Type 0 where
  pub profile_key : String
  pub limit_id : String
  pub capabilities : List String
  pub workspace_roots : List String

-- The calls of Python's `pathlib` that the service makes.
pub record Paths : Type 0 where
  pub is_absolute : String → Bool
  pub join : String → String → String
  pub resolve : String → String
  pub is_dir : String → Bool
  pub parents : String → List String

-- `_require_capability`
unfoldable pub require_capability : Config → String → Result (Unit {0})
require_capability config capability =
    guard (contains capability config.capabilities) "CAPABILITY_DENIED"

-- `_actor`
unfoldable pub checked_actor : String → Result String
checked_actor value = validate_identifier (str value)

-- `set_controller` of the store.
abbrev pub set_controller : Mode → Option String → ℕ → Db → Db
set_controller mode reason_code now db = record db {
  controller = record { mode = mode; reason_code = reason_code; updated_at = now };
}

abbrev pub is_used : String → List Approval → Bool
is_used approval_id rows = any (λ row. str_eq row.approval_id approval_id) rows

-- `_insert_approval`: the identifier is the primary key, so that an approval is consumed once.
unfoldable pub insert_approval : Approval → Db → Result Db
insert_approval approval db =
    if is_used approval.approval_id db.approvals
    then err "APPROVAL_ALREADY_USED"
    else ok (record db { approvals = db.approvals ++ approval ∷ [] })

-- `ORDER BY observed_at DESC, rowid DESC`: of two rows the one that comes first.
abbrev pub newer : Option SnapshotRow → SnapshotRow → SnapshotRow
newer none row = row
newer (some best) row = if leb best.observed_at row.observed_at then row else best

unfoldable pub newest : Option SnapshotRow → List SnapshotRow → Option SnapshotRow
newest best [] = best
newest best (row ∷ rows) = newest (some (newer best row)) rows

abbrev pub snapshot_of : Option SnapshotRow → Option Fields
snapshot_of none = none
snapshot_of (some row) = some row.snapshot

-- `latest_snapshot_in`
unfoldable pub latest_snapshot : Db → Option Fields
latest_snapshot db = snapshot_of (newest none db.quota_snapshots)

-- `account_binding_in`
unfoldable pub account_binding : String → Db → Option Binding
account_binding profile_key db =
    find (λ binding. str_eq binding.profile_key profile_key) db.account_bindings

-- The snapshot that passes `validate_snapshot` and `ensure_profile`.
unfoldable pub checked_snapshot : Config → Fields → Result Snapshot
checked_snapshot config snapshot = do
  validated ← validate_snapshot (obj snapshot)
  ensure_profile validated config.profile_key config.limit_id
  ok validated

-- The reason that the handler of the exception gives.
unfoldable pub signal_reason : Fields → String → String
signal_reason snapshot code =
    if not (has_key "account_fingerprint" snapshot) || not (has_key "account_type" snapshot)
    then "ACCOUNT_IDENTITY_UNAVAILABLE"
    else if str_eq code "PROFILE_MISMATCH"
    then "PROFILE_MISMATCH"
    else "SIGNAL_INVALID"

abbrev pub is_bound : Binding → Snapshot → Bool
is_bound binding snapshot =
    str_eq binding.account_fingerprint snapshot.account_fingerprint
    && str_eq binding.account_type snapshot.account_type

-- The decision on a snapshot that passed, by the account that the profile is bound to.
unfoldable pub decide_bound : Option Binding → Snapshot → Policy → ℕ → Option Usage → Decision
decide_bound none snapshot policy now expected_usage =
    invalid_signal_decision "ACCOUNT_IDENTITY_UNAVAILABLE"
decide_bound (some binding) snapshot policy now expected_usage =
    if is_bound binding snapshot
    then evaluate_policy (some snapshot) policy now expected_usage
    else invalid_signal_decision "PROFILE_MISMATCH"

-- The decision by the outcome of the checks. `TypeError` is no SchedulerError and is not caught.
unfoldable pub decide_checked :
    Result Snapshot → Fields → Option Binding → Policy → ℕ → Option Usage → Result Decision
decide_checked (err code) snapshot binding policy now expected_usage =
    if str_eq code "TypeError"
    then err code
    else ok (invalid_signal_decision (signal_reason snapshot code))
decide_checked (ok validated) snapshot binding policy now expected_usage =
    ok (decide_bound binding validated policy now expected_usage)

-- `_evaluate_current_policy`
unfoldable pub evaluate_current_policy :
    Config → Option Fields → Policy → ℕ → Option Usage → Db → Result Decision
evaluate_current_policy config none policy now expected_usage db =
    ok (evaluate_policy none policy now expected_usage)
evaluate_current_policy config (some snapshot) policy now expected_usage db =
    decide_checked (checked_snapshot config snapshot) snapshot
      (account_binding config.profile_key db) policy now expected_usage

-- `any(resolved == root or root in resolved.parents for root in roots)`
abbrev pub is_inside : Paths → String → List String → Bool
is_inside paths resolved roots =
    any (λ root. str_eq resolved root || contains root (paths.parents resolved)) roots

abbrev pub resolve_roots : Paths → List String → List String
resolve_roots paths [] = []
resolve_roots paths (root ∷ roots) = paths.resolve root ∷ resolve_roots paths roots

-- `roots[0] / candidate` for a path that is not absolute; without roots it raises.
abbrev pub candidate : Paths → List String → String → Result String
candidate paths [] cwd = if paths.is_absolute cwd then ok cwd else err "IndexError"
candidate paths (root ∷ roots) cwd = ok (if paths.is_absolute cwd then cwd else paths.join root cwd)

-- `_resolve_workspace_cwd`
unfoldable pub resolve_workspace_cwd : Config → Paths → String → Result String
resolve_workspace_cwd config paths cwd_value = do
  path ← candidate paths (resolve_roots paths config.workspace_roots) cwd_value
  guard (paths.is_dir (paths.resolve path)) "PATH_DENIED"
  guard (is_inside paths (paths.resolve path) (resolve_roots paths config.workspace_roots))
      "PATH_DENIED"
  ok (paths.resolve path)

-- `if replay is not None: return self._with_replay(replay, True)`
abbrev pub replay_or : Option Reply → Transaction (Reply × Bool) → Transaction (Reply × Bool)
replay_or stored run db = reply_or_run stored (run db) db
