-- ===== src/Service/Once.antt =====
-- Commands through `execute_idempotent`: what their operation ensures holds of every run that is
-- not a replay (codex_work_scheduler/service.py and store.py).
use codex_work_scheduler.Store.Audit.{
  event_row, next_sequence, last_hash, genesis_hash, is_duplicate, append_audit,
}
use codex_work_scheduler.Common.{
  refl, ◌++◌, [], ◌∷◌, ℕ, String, ◌≡◌, Bool, false, Option, none, some, List, is_some,
}
use codex_work_scheduler.Common.Ensures.{
  Ensures-if, Ensures, Ensures-bind, Ensures-then, Ensures-guard,
}
use codex_work_scheduler.Store.Tables.{Db, IdempotencyRow, Reply, Request, Digest, Transaction}
use codex_work_scheduler.Store.Idempotency.{
  record_idempotent, is_valid_key, find_key, stored_reply, insert_key, execute_new,
  execute_idempotent,
}
use codex_work_scheduler.Service.{Fields, is_used, insert_approval, Approval, replay_or}

-- A property of the reply and the tables of an operation.
abbrev pub Outcome : Type 1
Outcome = Reply × Db → Type 0

-- It says nothing of the idempotency table.
abbrev pub Stable : Outcome → Type 0
Stable Q =
    (reply : Reply) (db : Db) (rows : List IdempotencyRow)
    → Q (reply, db)
    → Q (reply, record db { idempotency = rows })

-- The outcome of a command, where it is not a replay.
abbrev pub Executed : Outcome → (Reply × Bool) × Db → Type 0
Executed Q ((reply, replayed), db) = replayed ≡ false → Q (reply, db)

-- An approval that is consumed was not consumed before, and only the approvals change.
abbrev pub Consumed : Approval → Db → Db → Type 0
Consumed approval db db' =
    (is_used approval.approval_id db.approvals ≡ false)
    × (db' ≡ record db { approvals = db.approvals ++ approval ∷ [] })

pub insert_approval-Ensures :
    (approval : Approval) (db : Db) → Ensures (Consumed approval db) (insert_approval approval db)
unfolding insert_approval
insert_approval-Ensures approval db =
    Ensures-if (Consumed approval db) (is_used approval.approval_id db.approvals) _ _ (λ used. tt)
      λ unused. (unused, refl)

-- Only the audit table changes.
abbrev pub Appended : Db → String × Db → Type 0
Appended db (id, db') = db' ≡ record db { audit_events = db'.audit_events }

module _ ⦃digest : Digest⦄ where
  -- An event that is appended changes only the audit table.
  pub append_audit-Ensures :
      (event_id event_type actor : String) (details : Fields) (now : ℕ) (db : Db)
      → Ensures (Appended db) (append_audit event_id event_type actor details now db)
  unfolding append_audit
  append_audit-Ensures event_id event_type actor details now db =
      let row =
        event_row (next_sequence 1 db.audit_events) (last_hash genesis_hash db.audit_events)
          event_id event_type actor details now in
      Ensures-if (Appended db) (is_duplicate row db.audit_events) _ _ (λ used. tt) λ unused. refl

  insert_key-Ensures :
      (Q : Outcome) (stable : Stable Q) (error key command : String) (r : Request) (now : ℕ)
      (reply : Reply) (db : Db)
      → Q (reply, db)
      → Ensures (λ db'. Q (reply, db')) (insert_key error key command r now reply db)
  unfolding insert_key
  insert_key-Ensures Q stable error key command r now reply db q =
      Ensures-if (λ db'. Q (reply, db')) (is_some (find_key key db.idempotency)) _ _ (λ used. tt)
        λ unused. stable reply db _ q

  execute_new-Ensures :
      (Q : Outcome) (stable : Stable Q) (key command : String) (r : Request) (now : ℕ)
      (operation : Transaction Reply) (db : Db)
      → Ensures Q (operation db)
      → Ensures (Executed Q) (execute_new key command r now operation db)
  unfolding execute_new
  execute_new-Ensures Q stable key command r now operation db q =
      Ensures-bind Q (Executed Q) (operation db) _ q λ (reply, db₁) q₁.
        Ensures-bind (λ db'. Q (reply, db')) (Executed Q) _ _
          (insert_key-Ensures Q stable "IntegrityError" key command r now reply db₁ q₁)
          λ db₂ q₂ fresh. q₂

  pub replay_or-Ensures :
      (Q : Outcome) (stored : Option Reply) (run : Transaction (Reply × Bool)) (db : Db)
      → Ensures (Executed Q) (run db)
      → Ensures (Executed Q) (replay_or stored run db)
  replay_or-Ensures Q none run db q = q
  replay_or-Ensures Q (some reply) run db q = λ e. cc

  pub execute_idempotent-Ensures :
      (Q : Outcome) (stable : Stable Q) (key command : String) (r : Request) (now : ℕ)
      (operation : Transaction Reply) (db : Db)
      → Ensures Q (operation db)
      → Ensures (Executed Q) (execute_idempotent key command r now operation db)
  unfolding execute_idempotent
  execute_idempotent-Ensures Q stable key command r now operation db q =
      Ensures-guard (Executed Q) (is_valid_key key) "IDEMPOTENCY_REQUIRED" _ λ valid.
        Ensures-then (Executed Q) (stored_reply key command r db) _ λ stored.
          replay_or-Ensures Q stored (execute_new key command r now operation) db
            (execute_new-Ensures Q stable key command r now operation db q)

  -- A property of the tables that holds before, that the operation ensures and that says nothing of
  -- the idempotency table holds after the command, replayed or not.
  abbrev pub Reaches : (Db → Type 0) → {A : Type 0} → A × Db → Type 0
  Reaches R (a, db) = R db

  pub replay_or-Reaches :
      (R : Db → Type 0) (stored : Option Reply) (run : Transaction (Reply × Bool)) (db : Db)
      → R db
      → Ensures (Reaches R) (run db)
      → Ensures (Reaches R) (replay_or stored run db)
  replay_or-Reaches R none run db before q = q
  replay_or-Reaches R (some reply) run db before q = before

  insert_key-Reaches :
      (R : Db → Type 0) (error key command : String) (r : Request) (now : ℕ) (reply : Reply)
      (db : Db)
      → ((rows : List IdempotencyRow) → R (record db { idempotency = rows }))
      → Ensures R (insert_key error key command r now reply db)
  unfolding insert_key
  insert_key-Reaches R error key command r now reply db q =
      Ensures-if R (is_some (find_key key db.idempotency)) _ _ (λ used. tt) λ unused. q _

  execute_new-Reaches :
      (R : Db → Type 0) (key command : String) (r : Request) (now : ℕ)
      (operation : Transaction Reply) (db : Db)
      → ((d : Db) (rows : List IdempotencyRow) → R d → R (record d { idempotency = rows }))
      → Ensures (Reaches R) (operation db)
      → Ensures (Reaches R) (execute_new key command r now operation db)
  unfolding execute_new
  execute_new-Reaches R key command r now operation db stable q =
      let P : (Reply × Bool) × Db → Type 0 = Reaches R in
      let Q : Reply × Db → Type 0 = Reaches R in
      Ensures-bind Q P (operation db) _ q λ (reply, db₁) q₁.
        Ensures-bind R P _ _
          (insert_key-Reaches R "IntegrityError" key command r now reply db₁
            λ rows. stable db₁ rows q₁)
          λ db₂ q₂. q₂

  pub execute_idempotent-Reaches :
      (R : Db → Type 0) (key command : String) (r : Request) (now : ℕ)
      (operation : Transaction Reply) (db : Db)
      → ((d : Db) (rows : List IdempotencyRow) → R d → R (record d { idempotency = rows }))
      → R db
      → Ensures (Reaches R) (operation db)
      → Ensures (Reaches R) (execute_idempotent key command r now operation db)
  unfolding execute_idempotent
  execute_idempotent-Reaches R key command r now operation db stable before q =
      let P : (Reply × Bool) × Db → Type 0 = Reaches R in
      Ensures-guard P (is_valid_key key) "IDEMPOTENCY_REQUIRED" _ λ valid.
        Ensures-then P (stored_reply key command r db) _ λ stored.
          replay_or-Reaches R stored (execute_new key command r now operation) db before
            (execute_new-Reaches R key command r now operation db stable q)

  -- Recording a reply changes only the idempotency table.
  pub record_idempotent-Ensures :
      (key command : String) (r : Request) (now : ℕ) (reply : Reply) (db : Db)
      → Ensures
          (λ db'. db' ≡ record db { idempotency = db'.idempotency })
          (record_idempotent key command r now reply db)
  unfolding record_idempotent insert_key
  record_idempotent-Ensures key command r now reply db =
      let P : Db → Type 0 = λ db'. db' ≡ record db { idempotency = db'.idempotency } in
      Ensures-guard P (is_valid_key key) "IDEMPOTENCY_REQUIRED" _ λ valid.
        Ensures-if P (is_some (find_key key db.idempotency)) _ _ (λ used. tt) λ unused. refl
