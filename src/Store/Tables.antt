-- ===== src/Store/Tables.antt =====
-- The tables of `Store.migrate` (codex_work_scheduler/store.py) as lists of rows in the order of
-- insertion, less the columns that no code reads, and the transaction that works on them. A JSON
-- column holds the value that was encoded.
use codex_work_scheduler.Common.{ℕ, String, Bool, Option, List, Result}
use codex_work_scheduler.Contracts.{Policy, Job, Package, Approval}
use codex_work_scheduler.Json.{Fields}
use codex_work_scheduler.Policy.{Decision}
use codex_work_scheduler.Store.GuardRows.{GuardSession, GuardTarget}

-- `CONTROLLER_MODES`
pub data Mode : Type 0 where
  paused ready stopped blocked : Mode

-- `JOB_STATES`
pub data JobState : Type 0 where
  approved cancelled simulating simulated held_policy held_dependency held_schedule : JobState
  held_capability needs_review running succeeded failed interrupted : JobState

pub data ProposalState : Type 0 where
  proposed approved : ProposalState

pub data LeaseState : Type 0 where
  active expired failed completed completed_overrun : LeaseState

pub record Controller : Type 0 where
  pub mode : Mode
  pub reason_code : Option String
  pub updated_at : ℕ

pub record PolicyRow : Type 0 where
  pub version : ℕ
  pub policy : Policy
  pub policy_hash : String
  pub updated_at : ℕ

-- `snapshot` is what `json.loads(snapshot_json)` gives.
pub record SnapshotRow : Type 0 where
  pub observed_at : ℕ
  pub snapshot : Fields

pub record Binding : Type 0 where
  pub profile_key : String
  pub account_fingerprint : String
  pub account_type : String

pub record JobRow : Type 0 where
  pub job_id : String
  pub work_ref : String
  pub priority : ℕ
  pub state : JobState
  pub manifest : Job
  pub manifest_hash : String
  pub approval_id : String
  pub created_at : ℕ
  pub updated_at : ℕ

pub record ProposalRow : Type 0 where
  pub job_id : String
  pub work_ref : String
  pub priority : ℕ
  pub state : ProposalState
  pub work_package : Package
  pub package_hash : String
  pub created_at : ℕ
  pub updated_at : ℕ
  pub approved_at : Option ℕ

pub record LeaseRow : Type 0 where
  pub lease_id : String
  pub job_id : String
  pub owner : String
  pub state : LeaseState
  pub acquired_at : ℕ
  pub expires_at : ℕ
  pub completed_at : Option ℕ

-- A row of `runs`; its `state` is any text of the runner.
pub record RunRow : Type 0 where
  pub run_id : String
  pub job_id : Option String
  pub kind : String
  pub state : String
  pub started_at : ℕ
  pub updated_at : ℕ
  pub lease_expires_at : ℕ
  pub completed_at : Option ℕ
  pub stop_reason : Option String

-- `details` is what `json.loads(details_json)` gives, nothing if it raises.
pub record AuditRow : Type 0 where
  pub sequence : ℕ
  pub event_id : String
  pub occurred_at : ℕ
  pub event_type : String
  pub actor : String
  pub details : Option Fields
  pub previous_hash : String
  pub event_hash : String

-- The body of an event, which is hashed.
pub record AuditBody : Type 0 where
  pub actor : String
  pub details : Fields
  pub event_id : String
  pub event_type : String
  pub occurred_at : ℕ
  pub previous_hash : String

-- The `request` objects that the commands hash.
pub data Request : Type 0 where
  propose : Package → Request
  approve : Approval → String → String → Request
  submit : Approval → Job → Request
  cancel : String → Request
  set_policy : Approval → Policy → Request
  set_mode : Mode → String → Request
  resume : Approval → Request
  reconcile : Approval → Request
  tick : Request

-- The values that `payload_hash` is applied to. `scope` is the scope object of an action that has
-- no input: the action, and the identifiers that it lists.
pub data Payload : Type 0 where
  job : Job → Payload
  work_package : Package → Payload
  policy : Policy → Payload
  request : Request → Payload
  body : AuditBody → Payload
  scope : String → List String → List String → Payload

-- `payload_hash` (util.py): SHA-256 over the canonical JSON text, both of Python's libraries.
pub record Digest : Type 0 where
  pub payload_hash : Payload → String

-- A job that `tick` passes over, with the reasons.
pub record Denial : Type 0 where
  pub job_id : String
  pub reasons : List String

-- The `result` objects of the commands, which the idempotency table keeps: the values in them that
-- are not constants of the command. `event_id` is the `audit_event_id` of each.
pub data Reply : Type 0 where
  proposed : (event_id job_id package_hash : String) → Reply
  approved : (approval_id event_id job_id : String) → Reply
  submitted : (approval_id event_id job_id : String) → Reply
  cancelled : (event_id job_id : String) → Reply
  policy_set : (approval_id event_id policy_hash : String) (version : ℕ) → Reply
  mode_set : (event_id : String) (from mode : Mode) (reason_code : String) → Reply
  resumed : (approval_id event_id : String) (from : Mode) → Reply
  reconciled :
      (approval_id event_id : String) (controller_mode : Mode) (lease_ids run_ids : List String)
      → Reply
  tick_blocked : (event_id : String) (policy_decision : Decision) → Reply
  tick_idle : (denied_jobs : List Denial) → Reply
  tick_failed : (event_id failure_code job_id lease_id : String) → Reply
  tick_done :
      (event_id job_id lease_id : String) (overrun requires_review : Bool)
      (policy_decision : Decision)
      → Reply

pub record IdempotencyRow : Type 0 where
  pub key : String
  pub command : String
  pub request_hash : String
  pub result : Reply
  pub created_at : ℕ

pub record ServiceLease : Type 0 where
  pub lease_id : String
  pub owner_id : String
  pub is_active : Bool
  pub acquired_at : ℕ
  pub heartbeat_at : ℕ
  pub expires_at : ℕ
  pub released_at : Option ℕ

-- A notification event, less its schema version.
pub record Event : Type 0 where
  pub event_id : String
  pub event_type : String
  pub occurred_at : ℕ
  pub reason_code : Option String
  pub subject_id : Option String
  pub subject_kind : String
  pub details : Fields

pub record NotificationRow : Type 0 where
  pub event : Event
  pub dedupe_key : String
  pub sink_kind : String
  pub delivered_at : Option ℕ

pub record Db : Type 0 where
  pub controller : Controller
  pub policies : PolicyRow
  pub quota_snapshots : List SnapshotRow
  pub account_bindings : List Binding
  pub approvals : List Approval
  pub jobs : List JobRow
  pub proposals : List ProposalRow
  pub leases : List LeaseRow
  pub runs : List RunRow
  pub idempotency : List IdempotencyRow
  pub service_lease : Option ServiceLease
  pub audit_events : List AuditRow
  pub notification_events : List NotificationRow
  pub quota_guard_sessions : List GuardSession
  pub quota_guard_targets : List GuardTarget

-- `with self.transaction() as connection`: the result and the tables that are committed, or the
-- exception on which everything is rolled back.
abbrev pub Transaction : Type 0 → Type 0
Transaction A = Db → Result (A × Db)
