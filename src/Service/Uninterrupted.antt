-- ===== src/Service/Uninterrupted.antt =====
-- A claim that nothing interferes with is settled, and one whose process died is recovered
-- (codex_work_scheduler/service.py, `tick` and `background_recover`).
use codex_work_scheduler.Common.Sweep.{any-update_where}
use codex_work_scheduler.Common.{
  ℕ, ◌+◌, ◌*◌, ◌≤◌, ◌≡◌, refl, ap, ◌∙◌, String, Bool, true, false, some, ◌||◌, List, [], ◌∷◌, ◌++◌,
  any, arith, ok, err, sym, str_eq, Bool-cases, ◌>>=◌, Result, ◌⊎◌, inl, inr, is_some,
}
use codex_work_scheduler.Common.Ensures.{
  Raises-passed, Raises-cases, Raises, Raises-bind, Raises-if, Raises-guarded, Raises-after,
  Ensures, Ensures-if,
}
use codex_work_scheduler.Contracts.{unit}
use codex_work_scheduler.Json.{Fields}
use codex_work_scheduler.Store.Tables.{
  Transaction, Mode, Db, LeaseRow, AuditRow, AuditBody, body, Reply, Request, Digest,
}
use codex_work_scheduler.Store.Audit.{
  append_audit, event_row, next_sequence, last_hash, genesis_hash, is_duplicate,
}
use codex_work_scheduler.Store.Idempotency.{record_idempotent, insert_key, is_valid_key, find_key}
use codex_work_scheduler.Service.{Config, set_controller}
use codex_work_scheduler.Service.Rows.{set_job_state}
use codex_work_scheduler.Service.Control.{is_active_lease, is_expired_lease}
use codex_work_scheduler.Service.Runner.{RunnerResult, run_job}
use codex_work_scheduler.Service.Recovery.{
  is_expired_run, expire_at, background_recover, RecoveryReport,
}
use codex_work_scheduler.Service.Recovered.{background_recover-Recovered}
use codex_work_scheduler.Service.Tick.{
  Claim, claimed, new_active_lease, find_lease, is_lease_row_active, tick_start, tick_finish,
  settle, fail_claim, complete_claim, needs_review_after, pause_if, is_overrun, close_lease,
  final_lease_state, final_job_state,
}
use codex_work_scheduler.Service.Ticked.{tick_start-IsClaim, claim-active}

-- A text that the two UNIQUE columns of the audit table hold already.
abbrev pub IsTaken : String → List AuditRow → Type 0
IsTaken event_id rows = any (λ r. str_eq r.event_id event_id) rows ≡ true

expired_last :
    (later : ℕ) (rows : List LeaseRow) (row : LeaseRow)
    → is_active_lease row ≡ true
    → row.expires_at ≤ later
    → any (is_expired_lease later) (rows ++ row ∷ []) ≡ true
expired_last later [] row h late = ground arith
expired_last later (r ∷ rows) row h late = ground (arith, expired_last later rows row h late)

module _ ⦃digest : Digest⦄ where
  -- The digest of an event that the tables would take next is that of an event that is there.
  abbrev pub IsCollision : String → List AuditRow → Type 0
  IsCollision event_id rows =
      (event : AuditBody) × (event.event_id ≡ event_id)
      × (event.previous_hash ≡ last_hash genesis_hash rows)
      × (any (λ r. str_eq r.event_hash (digest.payload_hash (body event))) rows ≡ true)

  -- The clashes with the tables that the last transaction writes to, each with its error.
  abbrev pub IsConflict : String → String → Db → String → Type 0
  IsConflict key event_id db e =
      ((e ≡ "IntegrityError")
        × (IsTaken event_id db.audit_events ⊎ IsCollision event_id db.audit_events))
      ⊎ (((e ≡ "IDEMPOTENCY_REQUIRED") × (is_valid_key key ≡ false))
          ⊎ ((e ≡ "IDEMPOTENCY_CONFLICT") × (is_some (find_key key db.idempotency) ≡ true)))

  is_duplicate-clash :
      (row : AuditRow) (rows : List AuditRow)
      → is_duplicate row rows ≡ true
      → IsTaken row.event_id rows ⊎ (any (λ r. str_eq r.event_hash row.event_hash) rows ≡ true)
  is_duplicate-clash row [] h = cc
  is_duplicate-clash row (r ∷ rows) h = elim (Bool-cases (is_duplicate row rows)) [
    | inl later ↦ ground (arith, is_duplicate-clash row rows later)
    | inr never ↦ ground arith
  ]

  append_audit-Raises :
      (key event_id event_type actor : String) (details : Fields) (now : ℕ) (db : Db)
      → Raises (IsConflict key event_id db) (append_audit event_id event_type actor details now db)
  unfolding append_audit event_row
  append_audit-Raises key event_id event_type actor details now db =
      let E = IsConflict key event_id db in
      let previous = last_hash genesis_hash db.audit_events in
      let row =
        event_row (next_sequence 1 db.audit_events) previous event_id event_type actor details
          now in
      let event : AuditBody = record {
        actor = actor;
        details = details;
        event_id = event_id;
        event_type = event_type;
        occurred_at = now;
        previous_hash = previous;
      } in
      Raises-if E (is_duplicate row db.audit_events) _ _
        (λ h. inl (
          refl,
          elim (is_duplicate-clash row db.audit_events h) [
            | inl taken ↦ inl taken
            | inr hashed ↦ inr (event, refl, refl, hashed)
          ],
        ))
        λ _. tt

  record_idempotent-Raises :
      (key event_id command : String) (r : Request) (now : ℕ) (reply : Reply) (db db' : Db)
      → db'.idempotency ≡ db.idempotency
      → Raises (IsConflict key event_id db) (record_idempotent key command r now reply db')
  unfolding record_idempotent insert_key
  record_idempotent-Raises key event_id command r now reply db db' same =
      let E = IsConflict key event_id db in
      Raises-guarded E (is_valid_key key) "IDEMPOTENCY_REQUIRED" _ (λ bad. inr (inl (refl, bad)))
        (Raises-if E (is_some (find_key key db'.idempotency)) _ _
          (λ used. inr (inr (refl, ap (λ rows. is_some (find_key key rows)) (sym same) ∙ used)))
          λ _. tt)

  append_audit-idempotency :
      (event_id event_type actor : String) (details : Fields) (now : ℕ) (db : Db)
      → Ensures
          (λ r. r.1.idempotency ≡ db.idempotency)
          (append_audit event_id event_type actor details now db)
  unfolding append_audit
  append_audit-idempotency event_id event_type actor details now db =
      let row =
        event_row (next_sequence 1 db.audit_events) (last_hash genesis_hash db.audit_events)
          event_id event_type actor details now in
      Ensures-if (λ (r : String × Db). r.1.idempotency ≡ db.idempotency)
        (is_duplicate row db.audit_events) _ _ (λ _. tt) λ _. refl

  -- The event and the key behind it, as both branches of a settlement write them.
  abbrev log : String → String → String → String → Fields → ℕ → (String → Reply) → Transaction Reply
  log key event_id event_type actor details now reply db = do
    (id, db₁) ← append_audit event_id event_type actor details now db
    db₂ ← record_idempotent key "tick" Request.tick now (reply id) db₁
    ok (reply id, db₂)

  log-Raises :
      (key event_id event_type actor : String) (details : Fields) (now : ℕ) (db : Db)
      (reply : String → Reply)
      → Raises (IsConflict key event_id db) (log key event_id event_type actor details now reply db)
  log-Raises key event_id event_type actor details now db reply =
      let E = IsConflict key event_id db in
      Raises-after (λ (r : String × Db). r.1.idempotency ≡ db.idempotency) E _ _
        (append_audit-Raises key event_id event_type actor details now db)
        (append_audit-idempotency event_id event_type actor details now db)
        λ (id, db₁) same.
          Raises-bind E _ _
            (record_idempotent-Raises key event_id "tick" Request.tick now (reply id) db db₁ same)
            λ db₂. tt

  -- A pause changes none of the two tables.
  paused_log-Raises :
      (paused : Bool) (reason key event_id event_type actor : String) (details : Fields) (now : ℕ)
      (db : Db) (reply : String → Reply)
      → Raises
          (IsConflict key event_id db)
          (log key event_id event_type actor details now reply (pause_if paused reason now db))
  paused_log-Raises true reason key event_id event_type actor details now db reply =
      log-Raises key event_id event_type actor details now
        (set_controller Mode.paused (some reason) now db) reply
  paused_log-Raises false reason key event_id event_type actor details now db reply =
      log-Raises key event_id event_type actor details now db reply

  settle-Raises :
      (outcome : Result RunnerResult) (claim : Claim) (key actor : String) (finished_at : ℕ)
      (event_id : String) (db : Db)
      → Raises (IsConflict key event_id db) (settle outcome claim key actor finished_at event_id db)
  unfolding fail_claim complete_claim
  settle-Raises (err code) claim key actor finished_at event_id db =
      log-Raises key event_id "simulation.failed" actor _ finished_at _
        (λ id. Reply.tick_failed id code claim.job.job_id claim.lease_id)
  settle-Raises (ok result) claim key actor finished_at event_id db =
      let review = needs_review_after result claim in
      let overrun = is_overrun result.actual_usage claim.job.expected_usage in
      paused_log-Raises review "SIMULATION_OVERRUN" key event_id "simulation.completed" actor _
        finished_at
        (record db {
          leases = close_lease (final_lease_state review) finished_at claim.lease_id db.leases;
          jobs = set_job_state (final_job_state review) finished_at claim.job.job_id db.jobs;
        })
        (λ id. Reply.tick_done id claim.job.job_id claim.lease_id overrun review claim.decision)

  -- A claim that no other process interferes with is never lost: its second transaction returns,
  -- unless the key is not valid, the key or the identifier of the event is in the tables that the
  -- claim left already, or the digest of the event is that of an event there.
  pub tick_finish-returns :
      (config : Config) (key actor : String) (now finished_at : ℕ)
      (lease_id event_id event_id' : String) (db : Db) {claim : Claim} {db' : Db}
      → tick_start config key actor now lease_id event_id db ≡ ok (claimed claim, db')
      → ((r : Reply × Db) × (tick_finish claim key actor finished_at event_id' db' ≡ ok r))
        ⊎ ((e : String) × (tick_finish claim key actor finished_at event_id' db' ≡ err e)
            × IsConflict key event_id' db' e)
  unfolding tick_finish
  tick_finish-returns config key actor now finished_at lease_id event_id event_id' db {claim} {db'}
        e =
      let active = is_lease_row_active (find_lease claim.lease_id claim.job.job_id db'.leases) in
      let held =
        claim-active config now actor db claim db'
          (tick_start-IsClaim config key actor now lease_id event_id db e) in
      Raises-cases (IsConflict key event_id' db') _ (
        Raises-passed (IsConflict key event_id' db') active "LEASE_LOST" _ held
          (settle-Raises (run_job claim.job) claim key actor finished_at event_id' db'))

  -- A process that dies between the two transactions of a tick leaves a lease that a recovery, once
  -- the lease has run out, closes: it asks for a review, pauses the controller, and no lease that has
  -- run out stays active.
  pub crash-recovered :
      (config config' : Config) (key actor actor' : String) (now later : ℕ)
      (lease_id event_id event_id' : String) (db : Db) {claim : Claim} {db' : Db}
      {report : RecoveryReport} {db'' : Db}
      → tick_start config key actor now lease_id event_id db ≡ ok (claimed claim, db')
      → now + db.policies.policy.lease_seconds * unit ≤ later
      → background_recover config' actor' later event_id' db' ≡ ok (report, db'')
      → (report.requires_review ≡ true)
        × (db''.controller.mode ≡ Mode.paused)
        × (any (is_expired_lease later) db''.leases ≡ false)
  crash-recovered config config' key actor actor' now later lease_id event_id event_id' db {claim}
        {db'} e late e' =
      let (_, _, _, leases, _, _, _) =
        tick_start-IsClaim config key actor now lease_id event_id db e in
      let (closed, _, asked, paused, _) =
        background_recover-Recovered config' actor' later event_id' db' e' in
      let row =
        new_active_lease claim.lease_id claim.job.job_id actor now
          db.policies.policy.lease_seconds in
      let expired =
        ap (any (is_expired_lease later)) leases ∙ expired_last later db.leases row refl late in
      let review = asked ∙ ap (λ b. b || any (is_expired_run later) db'.runs) expired in
      (
        review,
        paused review,
        ap (any (is_expired_lease later)) closed
            ∙ any-update_where (is_expired_lease later) (expire_at later) db'.leases (λ r. refl),
      )
