-- ===== src/Store/Tests.antt =====
-- The store on concrete tables (codex_work_scheduler/store.py).
use codex_work_scheduler.Common.{
  ◌≡◌, refl, ◌≢◌, ◌↔◌, ◌⊎◌, inl, inr, true, false, none, some, [], ◌∷◌, String, ok, err, arith,
  eq_iff,
}
use codex_work_scheduler.Json.{str, end, field}
use codex_work_scheduler.Policy.Tests.{sample_policy}
use codex_work_scheduler.Store.Tables.{
  Db, Mode, Digest, Payload, Reply, Request, AuditRow, ServiceLease, Transaction,
}
use codex_work_scheduler.Store.Audit.{
  genesis_hash, last_hash, append_audit, event_row, next_sequence, verify_audit,
}
use codex_work_scheduler.Store.Chain.{
  IsChain, verify_audit-IsChain, append_audit-valid, Collision, contents, verify_audit-contents,
}
use codex_work_scheduler.Store.Idempotency.{
  execute_idempotent, execute_new, insert_key, stored_reply, new_key_row,
}
use codex_work_scheduler.Store.Replay.{execute_idempotent-replay, execute_idempotent-conflict}
use codex_work_scheduler.Store.Lease.{
  new_lease, acquire_service_lease, is_running, renew_service_lease,
}
use codex_work_scheduler.Store.Fencing.{
  acquire_service_lease-excludes, here, next, acquire, renew_service_lease-lost,
}

-- A digest that tells only the kinds of payload apart.
instance abbrev pub kinds : Digest
kinds = record {
  payload_hash = elim [
    | Payload.job j ↦ "job"
    | Payload.work_package p ↦ "package"
    | Payload.policy p ↦ "policy"
    | Payload.request r ↦ "request"
    | Payload.body b ↦ b.event_id
    | Payload.scope a ls rs ↦ "scope"
  ];
}

-- The tables after `bootstrap`.
abbrev pub fresh_db : Db
fresh_db = record {
  controller = record {
    mode = Mode.paused;
    reason_code = some "INITIALIZED_FAIL_CLOSED";
    updated_at = 0;
  };
  policies = record { version = 1; policy = sample_policy; policy_hash = "policy"; updated_at = 0 };
  quota_snapshots = [];
  account_bindings = [];
  approvals = [];
  jobs = [];
  proposals = [];
  leases = [];
  runs = [];
  idempotency = [];
  service_lease = none;
  audit_events = [];
  notification_events = [];
  quota_guard_sessions = [];
  quota_guard_targets = [];
}

abbrev first_event : AuditRow
first_event = record {
  sequence = 1;
  event_id = "evt_1";
  occurred_at = 5;
  event_type = "controller.pause";
  actor = "operator";
  details = some (field "to" (str "PAUSED") end);
  previous_hash = genesis_hash;
  event_hash = "evt_1";
}

abbrev audited_db : Db
audited_db = record fresh_db { audit_events = first_event ∷ [] }

appended :
    append_audit "evt_1" "controller.pause" "operator" (field "to" (str "PAUSED") end) 5 fresh_db
    ≡ ok ("evt_1", audited_db)
unfolding append_audit event_row next_sequence last_hash
appended = refl

fresh_valid : (verify_audit fresh_db).valid ≡ true
unfolding verify_audit
fresh_valid = refl

audited_valid : (verify_audit audited_db).valid ≡ true
unfolding verify_audit
audited_valid = refl

verify_audit-IsChain_example :
    ((verify_audit audited_db).valid ≡ true) ↔ IsChain genesis_hash audited_db.audit_events
verify_audit-IsChain_example = verify_audit-IsChain audited_db

append_audit-valid_example :
    ((verify_audit audited_db).valid ≡ true)
    × ((row : AuditRow) × (audited_db.audit_events ≡ row ∷ [])
        × (row.event_id ≡ "evt_1")
        × (row.event_type ≡ "controller.pause")
        × (row.details ≡ some (field "to" (str "PAUSED") end)))
append_audit-valid_example =
    append_audit-valid "evt_1" "controller.pause" "operator" (field "to" (str "PAUSED") end) 5
      fresh_db appended fresh_valid

verify_audit-contents_example :
    (contents audited_db.audit_events ≡ contents audited_db.audit_events) ⊎ Collision
verify_audit-contents_example =
    verify_audit-contents audited_db audited_db audited_valid audited_valid refl refl

-- An operation that only answers, and one that would change the mode.
abbrev answer : Transaction Reply
answer db = ok (Reply.cancelled "evt_2" "job-1", db)

abbrev meddle : Transaction Reply
meddle db = ok (
  Reply.cancelled "evt_3" "job-1",
  record db { controller = record { mode = Mode.ready; reason_code = none; updated_at = 9 } },
)

abbrev executed_db : Db
executed_db = record fresh_db {
  idempotency =
      new_key_row "key-1" "queue.cancel" (Request.cancel "job-1") 7
        (Reply.cancelled "evt_2" "job-1")
      ∷ [];
}

executed :
    execute_idempotent "key-1" "queue.cancel" (Request.cancel "job-1") 7 answer fresh_db
    ≡ ok ((Reply.cancelled "evt_2" "job-1", false), executed_db)
unfolding execute_idempotent execute_new insert_key stored_reply
executed = refl

execute_idempotent-replay_example :
    execute_idempotent "key-1" "queue.cancel" (Request.cancel "job-1") 8 meddle executed_db
    ≡ ok ((Reply.cancelled "evt_2" "job-1", true), executed_db)
execute_idempotent-replay_example =
    execute_idempotent-replay "key-1" "queue.cancel" (Request.cancel "job-1") 7 8 answer meddle
      fresh_db executed

execute_idempotent-conflict_example :
    execute_idempotent "key-1" "pause" (Request.cancel "job-1") 8 meddle executed_db
    ≡ err "IDEMPOTENCY_CONFLICT"
execute_idempotent-conflict_example =
    execute_idempotent-conflict "key-1" "queue.cancel" "pause" (Request.cancel "job-1")
      (Request.cancel "job-1") 7 8 answer meddle fresh_db executed
      (inl (ground (arith, eq_iff "queue.cancel" "pause")))

abbrev lease : ServiceLease
lease = new_lease "svc_1" "alpha" 0 600

abbrev leased_db : Db
leased_db = record fresh_db { service_lease = some lease }

acquired : acquire_service_lease "svc_1" "alpha" 0 600 fresh_db ≡ ok ((lease, false), leased_db)
unfolding acquire_service_lease
acquired = refl

again : acquire_service_lease "svc_2" "alpha" 5 600 leased_db ≡ ok ((lease, false), leased_db)
unfolding acquire_service_lease
again = refl

acquire_service_lease-excludes_example :
    (is_running 5 leased_db ≡ false)
    ⊎ ((held : ServiceLease) × (leased_db.service_lease ≡ some held)
        × (held.owner_id ≡ "alpha")
        × (lease ≡ held)
        × (leased_db ≡ leased_db))
acquire_service_lease-excludes_example =
    acquire_service_lease-excludes "svc_2" "alpha" 5 600 leased_db again

abbrev released : ServiceLease
released = record lease {
  is_active = false;
  heartbeat_at = 9;
  expires_at = 9;
  released_at = some 9;
}

abbrev released_db : Db
released_db = record fresh_db { service_lease = some released }

abbrev retaken_db : Db
retaken_db = record fresh_db { service_lease = some (new_lease "svc_3" "beta" 10 600) }

retaken :
    acquire_service_lease "svc_3" "beta" 10 600 released_db
    ≡ ok ((new_lease "svc_3" "beta" 10 600, false), retaken_db)
unfolding acquire_service_lease
retaken = refl

other_lease : ◌≢◌ {A = String} "svc_3" "svc_1"
other_lease = ground (arith, eq_iff "svc_3" "svc_1")

renew_service_lease-lost_example :
    renew_service_lease "svc_1" "alpha" 11 600 retaken_db ≡ err "SERVICE_LEASE_LOST"
renew_service_lease-lost_example = renew_service_lease-lost "svc_1" "alpha" 11 600 (inr refl) (
    next here
      (acquire "svc_3" "beta" 10 600 (new_lease "svc_3" "beta" 10 600, false) other_lease retaken))
