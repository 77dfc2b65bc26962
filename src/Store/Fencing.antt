-- ===== src/Store/Fencing.antt =====
-- The service lease excludes other supervisors and fences off a supervisor that lost it
-- (codex_work_scheduler/store.py).
use codex_work_scheduler.Common.{
  ℕ, ◌+◌, ◌*◌, String, ◌≡◌, refl, ◌≢◌, ◌⊎◌, inl, inr, Bool, false, ◌&&◌, Option, none, some, eq_iff,
  arith, ok, err, Option-cases, Bool-cases,
}
use codex_work_scheduler.Contracts.{unit}
use codex_work_scheduler.Store.Tables.{Db, ServiceLease}
use codex_work_scheduler.Store.Lease.{
  is_live, new_lease, acquire_service_lease, is_lease_of, renew_service_lease,
  release_service_lease, is_running,
}

-- A step of any supervisor on the lease. Identifiers are fresh: `old` is not given out again.
pub data Step (old : String) (db db' : Db) : Type 0 where
  acquire :
      (lease_id owner_id : String) (now lease_seconds : ℕ) (got : ServiceLease × Bool)
      → lease_id ≢ old
      → acquire_service_lease lease_id owner_id now lease_seconds db ≡ ok (got, db')
      → Step old db db'
  renew :
      (lease_id owner_id : String) (now lease_seconds expiry : ℕ)
      → renew_service_lease lease_id owner_id now lease_seconds db ≡ ok (expiry, db')
      → Step old db db'
  release :
      (lease_id owner_id : String) (now : ℕ) (done : Bool)
      → release_service_lease lease_id owner_id now db ≡ ok (done, db')
      → Step old db db'

pub data Steps (old : String) (db : Db) : Db → Type 0 where
  here : Steps old db db
  next : {db₁ db₂ : Db} → Steps old db db₁ → Step old db₁ db₂ → Steps old db db₂

-- The lease `old` is not the active one.
abbrev pub IsFencedLease : String → Option ServiceLease → Type 0
IsFencedLease old none = Unit
IsFencedLease old (some lease) = (lease.lease_id ≢ old) ⊎ (lease.is_active ≡ false)

abbrev pub IsFenced : String → Db → Type 0
IsFenced old db = IsFencedLease old db.service_lease

-- An owner acquires the lease only if no lease is live, or if the live lease is its own already, which
-- it then gets back unchanged: while a lease is live, every other owner is refused.
pub acquire_service_lease-excludes :
    (lease_id owner_id : String) (now lease_seconds : ℕ) (db : Db) {got : ServiceLease × Bool}
    {db' : Db}
    → acquire_service_lease lease_id owner_id now lease_seconds db ≡ ok (got, db')
    → (is_running now db ≡ false)
      ⊎ ((lease : ServiceLease) × (db.service_lease ≡ some lease)
          × (lease.owner_id ≡ owner_id)
          × (got.0 ≡ lease)
          × (db' ≡ db))
unfolding acquire_service_lease is_running
acquire_service_lease-excludes lease_id owner_id now lease_seconds db e =
    elim (Option-cases db.service_lease) [
      | inl empty ↦ inl (ground arith)
      | inr (row, held) ↦ elim (Bool-cases (is_live now row)) [
        | inl live ↦ inr (
          row,
          held,
          ground (arith, eq_iff row.owner_id owner_id),
          ground (arith, eq_iff row.owner_id owner_id),
          ground (arith, eq_iff row.owner_id owner_id),
        )
        | inr dead ↦ inl (ground arith)
      ]
    ]

module _ (old : String) (db : Db) (f : IsFenced old db) where
  acquire-IsFenced :
      (lease_id owner_id : String) (now lease_seconds : ℕ) {got : ServiceLease × Bool} {db' : Db}
      → lease_id ≢ old
      → acquire_service_lease lease_id owner_id now lease_seconds db ≡ ok (got, db')
      → IsFenced old db'
  unfolding acquire_service_lease
  acquire-IsFenced lease_id owner_id now lease_seconds {db'} fresh e =
      elim (Option-cases db.service_lease) [
        | inl empty ↦
            let now_held : db'.service_lease
                ≡ some (new_lease lease_id owner_id now lease_seconds) =
              ground arith in
            rw now_held (inl fresh)
        | inr (row, held) ↦ elim (Bool-cases (is_live now row)) [
          | inl live ↦
              let same : db'.service_lease ≡ db.service_lease =
                ground (arith, eq_iff row.owner_id owner_id) in
              rw same f
          | inr dead ↦
              let now_held : db'.service_lease
                  ≡ some (new_lease lease_id owner_id now lease_seconds) =
                ground arith in
              rw now_held (inl fresh)
        ]
      ]

  renew-IsFenced :
      (lease_id owner_id : String) (now lease_seconds : ℕ) {expiry : ℕ} {db' : Db}
      → renew_service_lease lease_id owner_id now lease_seconds db ≡ ok (expiry, db')
      → IsFenced old db'
  unfolding renew_service_lease
  renew-IsFenced lease_id owner_id now lease_seconds {db'} e =
      elim (Option-cases db.service_lease) [
        | inl empty ↦ ground arith
        | inr (row, held) ↦
            let same : db'.service_lease
                ≡ some
                    (record row { heartbeat_at = now; expires_at = now + lease_seconds * unit }) =
              ground arith in
            let g = rw held at f in rw same g
      ]

  release-IsFenced :
      (lease_id owner_id : String) (now : ℕ) {done : Bool} {db' : Db}
      → release_service_lease lease_id owner_id now db ≡ ok (done, db')
      → IsFenced old db'
  unfolding release_service_lease
  release-IsFenced lease_id owner_id now {db'} e = elim (Option-cases db.service_lease) [
    | inl empty ↦ ground arith
    | inr (row, held) ↦ elim (Bool-cases (is_lease_of lease_id owner_id row && row.is_active)) [
      | inl hit ↦
          let same : db'.service_lease
              ≡ some (record row {
                is_active = false;
                released_at = some now;
                heartbeat_at = now;
                expires_at = now;
              }) =
            ground arith in
          rw same (inr refl)
      | inr miss ↦ let same : db'.service_lease ≡ db.service_lease = ground arith in rw same f
    ]
  ]

Step-IsFenced : {old : String} {db db' : Db} → Step old db db' → IsFenced old db → IsFenced old db'
Step-IsFenced {old} {db} (acquire lease_id owner_id now lease_seconds got fresh e) f =
    acquire-IsFenced old db f lease_id owner_id now lease_seconds fresh e
Step-IsFenced {old} {db} (renew lease_id owner_id now lease_seconds expiry e) f =
    renew-IsFenced old db f lease_id owner_id now lease_seconds e
Step-IsFenced {old} {db} (release lease_id owner_id now done e) f =
    release-IsFenced old db f lease_id owner_id now e

Steps-IsFenced :
    {old : String} {db db' : Db} → Steps old db db' → IsFenced old db → IsFenced old db'
Steps-IsFenced here f = f
Steps-IsFenced (next before step) f = Step-IsFenced step (Steps-IsFenced before f)

IsFenced-renew :
    (old owner_id : String) (now lease_seconds : ℕ) (db : Db)
    → IsFenced old db
    → renew_service_lease old owner_id now lease_seconds db ≡ err "SERVICE_LEASE_LOST"
unfolding renew_service_lease
IsFenced-renew old owner_id now lease_seconds db f = elim (Option-cases db.service_lease) [
  | inl empty ↦ ground arith
  | inr (row, held) ↦ let g = rw held at f in ground (arith, eq_iff row.lease_id old)
]

-- A supervisor whose lease has been released or given to another is fenced off for good: after any
-- steps of any supervisors, under fresh lease identifiers, its renewal is refused.
pub renew_service_lease-lost :
    (old owner_id : String) (now lease_seconds : ℕ) {db db' : Db}
    → IsFenced old db
    → Steps old db db'
    → renew_service_lease old owner_id now lease_seconds db' ≡ err "SERVICE_LEASE_LOST"
renew_service_lease-lost old owner_id now lease_seconds {db'} f steps =
    IsFenced-renew old owner_id now lease_seconds db' (Steps-IsFenced steps f)
