-- ===== src/Store/Lease.antt =====
-- The lease of the background supervisor: `acquire_service_lease`, `renew_service_lease`,
-- `release_service_lease` and `service_lease_status` of codex_work_scheduler/store.py.
use codex_work_scheduler.Common.{
  ℕ, ◌+◌, ◌*◌, String, Bool, true, false, ◌&&◌, not, none, some, str_eq, ltb, if◌then◌else◌, ok,
  err,
}
use codex_work_scheduler.Contracts.{unit}
use codex_work_scheduler.Store.Tables.{Db, ServiceLease, Transaction}

-- `row["state"] == "active" and row["expires_at"] > now`
abbrev pub is_live : ℕ → ServiceLease → Bool
is_live now lease = lease.is_active && ltb now lease.expires_at

abbrev pub new_lease : String → String → ℕ → ℕ → ServiceLease
new_lease lease_id owner_id now lease_seconds = record {
  lease_id = lease_id;
  owner_id = owner_id;
  is_active = true;
  acquired_at = now;
  heartbeat_at = now;
  expires_at = now + lease_seconds * unit;
  released_at = none;
}

-- `acquire_service_lease`: the lease, and whether an active lease that had run out was taken over.
-- `lease_id` is the identifier that `new_id("svc")` gives.
unfoldable pub acquire_service_lease : String → String → ℕ → ℕ → Transaction (ServiceLease × Bool)
acquire_service_lease lease_id owner_id now lease_seconds db =
    let fresh = new_lease lease_id owner_id now lease_seconds in
    let taken = record db { service_lease = some fresh } in
    elim db.service_lease [
      | none ↦ ok ((fresh, false), taken)
      | some row ↦
          if is_live now row && not (str_eq row.owner_id owner_id)
          then err "SERVICE_ALREADY_RUNNING"
          else if is_live now row && str_eq row.owner_id owner_id
          then ok ((row, false), db)
          else ok ((fresh, row.is_active), taken)
    ]

-- The WHERE clause that picks the lease by its identifier and owner.
abbrev pub is_lease_of : String → String → ServiceLease → Bool
is_lease_of lease_id owner_id row = str_eq row.lease_id lease_id && str_eq row.owner_id owner_id

-- `renew_service_lease`: the new expiry.
unfoldable pub renew_service_lease : String → String → ℕ → ℕ → Transaction ℕ
renew_service_lease lease_id owner_id now lease_seconds db = elim db.service_lease [
  | none ↦ err "SERVICE_LEASE_LOST"
  | some row ↦
      if is_lease_of lease_id owner_id row && is_live now row
      then ok (
        now + lease_seconds * unit,
        record db {
          service_lease =
              some (record row { heartbeat_at = now; expires_at = now + lease_seconds * unit });
        },
      )
      else err "SERVICE_LEASE_LOST"
]

-- `release_service_lease`: whether a lease was released.
unfoldable pub release_service_lease : String → String → ℕ → Transaction Bool
release_service_lease lease_id owner_id now db = elim db.service_lease [
  | none ↦ ok (false, db)
  | some row ↦
      if is_lease_of lease_id owner_id row && row.is_active
      then ok (
        true,
        record db {
          service_lease = some (record row {
            is_active = false;
            released_at = some now;
            heartbeat_at = now;
            expires_at = now;
          });
        },
      )
      else ok (false, db)
]

-- The fields `present` and `running` of `service_lease_status`.
unfoldable pub is_running : ℕ → Db → Bool
is_running now db = elim db.service_lease [ none ↦ false | some row ↦ is_live now row ]
