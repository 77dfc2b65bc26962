-- ===== src/Guard/Moves.antt =====
-- The writes of coordinators and of the service, and that `disarm` is final among them
-- (codex_work_scheduler/quota_guard.py, codex_work_scheduler/service.py).
use codex_work_scheduler.Common.{
  ℕ, String, ◌≡◌, refl, ap, ◌∙◌, inl, inr, true, false, Option, none, some, List, [], ◌∷◌, any,
  find, if_cases, arith, Result, ok, err, Bool-cases,
}
use codex_work_scheduler.Common.Updates.{any-revised, none-stale, any-update_where-count, find-any}
use codex_work_scheduler.Common.Ensures.{Ensures, Ensures-ok, Ensures-then, Ensures-bind}
use codex_work_scheduler.Json.{Fields}
use codex_work_scheduler.Store.Tables.{Db, Digest}
use codex_work_scheduler.Store.Audit.{append_audit}
use codex_work_scheduler.Store.GuardRows.{SessionState, GuardSession, GuardTarget}
use codex_work_scheduler.Store.Guards.{
  SessionChange, set_reason_code, set_state, is_enabled, is_guard, get_quota_guard_session,
  fits_revision, fits_state, row_or,
}
use codex_work_scheduler.Store.GuardWrites.{
  fits, revise, insert_guard, disarm_rows, update_sessions, update_quota_guard_session,
  transition_quota_guard_session,
}
use codex_work_scheduler.Store.GuardFence.{recover_quota_guard_pending}
use codex_work_scheduler.Store.GuardChanges.{update_sessions-Ensures}
use codex_work_scheduler.Store.Revisions.{IsKey}
use codex_work_scheduler.Guard.Sessions.{
  then_audit, session_details, disarm_found, arm, record_stop, start_stopping, mark_session_review,
  schedule_check, disarm, create,
}
use codex_work_scheduler.Guard.Disarmed.{
  is_enabled_guard, IsDisarmed, Kept, arm-Kept, record_stop-Kept, start_stopping-Kept,
  insert_guard-Kept, disarm_rows-Kept, mark_session_review-Kept, schedule_check-Kept, recover-Kept,
  append_audit-sessions, audited-rows, disarm_found-Kept, create_found-Kept,
}

-- The writes to the sessions, by any coordinator and by the service. What a command read (`seen`), and
-- the session that a helper is given, are those of any time before.
pub data Move ⦃digest : Digest⦄ (db : Db) : Db → Type 0 where
  creating :
      (session : GuardSession) (targets : List GuardTarget) (actor : String) (now : ℕ)
      (event_id : String) (seen : Db)
      → Move db (create session targets actor now event_id seen db).1
  disarming :
      (id actor : String) (now : ℕ) (event_id : String) (seen : Db)
      → Move db (disarm id actor now event_id seen db).1
  arming :
      (id : String) (now : ℕ) (seen : Db) (got : GuardSession) {db' : Db}
      → arm id now seen db ≡ ok (got, db')
      → Move db db'
  reviewing :
      (session : GuardSession) (reason : String) (now : ℕ) (got : GuardSession) {db' : Db}
      → mark_session_review session reason now db ≡ ok (got, db')
      → Move db db'
  scheduling :
      (session : GuardSession) (state : Option SessionState) (reason_code : Option String) (now : ℕ)
      (got : GuardSession) {db' : Db}
      → schedule_check session state reason_code now db ≡ ok (got, db')
      → Move db db'
  recording :
      (session : GuardSession) (snapshot_hash : String) (windows : List String) (now : ℕ)
      (got : GuardSession) {db' : Db}
      → record_stop session snapshot_hash windows now db ≡ ok (got, db')
      → Move db db'
  stopping :
      (session : GuardSession) (reason : String) (now : ℕ) (got : GuardSession) {db' : Db}
      → start_stopping session reason now db ≡ ok (got, db')
      → Move db db'
  recovering :
      (now : ℕ) (reason_code : String) (got : List String) {db' : Db}
      → recover_quota_guard_pending now reason_code db ≡ ok (got, db')
      → Move db db'
  inserting :
      (repeated missing : String) (row : GuardSession) (targets : List GuardTarget) {db' : Db}
      → insert_guard repeated missing row targets db ≡ ok db'
      → Move db db'
  disarming_rows : (id : String) (now : ℕ) → Move db (disarm_rows id now db)
  elsewhere : {db' : Db} → db'.quota_guard_sessions ≡ db.quota_guard_sessions → Move db db'

pub data Moves ⦃digest : Digest⦄ (db : Db) : Db → Type 0 where
  here : Moves db db
  after : {db₁ db₂ : Db} → Moves db db₁ → Move db₁ db₂ → Moves db db₂

module _ ⦃digest : Digest⦄ where
  Move-Kept :
      (guard_id : String) {db db' : Db}
      → Move db db'
      → IsDisarmed guard_id db.quota_guard_sessions
      → IsDisarmed guard_id db'.quota_guard_sessions
  unfolding create disarm
  Move-Kept guard_id {db} (creating session targets actor now event_id seen) off =
      create_found-Kept guard_id (get_quota_guard_session session.guard_id seen) session targets
        actor now event_id db off
  Move-Kept guard_id {db} (disarming id actor now event_id seen) off =
      disarm_found-Kept guard_id (get_quota_guard_session id seen) id actor now event_id db off
  Move-Kept guard_id {db} (arming id now seen got e) off =
      Ensures-ok (Kept guard_id) _ (arm-Kept guard_id db off id now seen) e
  Move-Kept guard_id {db} (reviewing session reason now got e) off =
      Ensures-ok (Kept guard_id) _ (mark_session_review-Kept guard_id db off session reason now) e
  Move-Kept guard_id {db} (scheduling session state reason_code now got e) off =
      Ensures-ok (Kept guard_id) _
        (schedule_check-Kept guard_id db off session state reason_code now) e
  Move-Kept guard_id {db} (recovering now reason_code got e) off =
      Ensures-ok (Kept guard_id) _ (recover-Kept guard_id db off now reason_code) e
  Move-Kept guard_id {db} (recording session snapshot_hash windows now got e) off =
      Ensures-ok (Kept guard_id) _
        (record_stop-Kept guard_id db off session snapshot_hash windows now) e
  Move-Kept guard_id {db} (stopping session reason now got e) off =
      Ensures-ok (Kept guard_id) _ (start_stopping-Kept guard_id db off session reason now) e
  Move-Kept guard_id {db} (inserting repeated missing row targets e) off =
      Ensures-ok (λ db'. IsDisarmed guard_id db'.quota_guard_sessions) _
        (insert_guard-Kept guard_id db off repeated missing row targets) e
  Move-Kept guard_id {db} (disarming_rows id now) off = disarm_rows-Kept guard_id db off id now
  Move-Kept guard_id (elsewhere e) off = rw e off

  Moves-Kept :
      (guard_id : String) {db db' : Db}
      → Moves db db'
      → IsDisarmed guard_id db.quota_guard_sessions
      → IsDisarmed guard_id db'.quota_guard_sessions
  Moves-Kept guard_id here off = off
  Moves-Kept guard_id (after moves move) off =
      Move-Kept guard_id move (Moves-Kept guard_id moves off)

-- An active transition to DISARMED leaves no row of the guard enabled.
disarm_rows-IsDisarmed :
    (guard_id : String) (revision : ℕ) (state : SessionState) (now : ℕ) (db : Db)
    → IsKey db.quota_guard_sessions
    → Ensures (Kept guard_id) (
        transition_quota_guard_session guard_id SessionState.disarmed
          (some revision)
          (some state)
          now
          (set_reason_code (some "OPERATOR_DISARM") ∷ [])
          db)
unfolding transition_quota_guard_session update_quota_guard_session
disarm_rows-IsDisarmed guard_id revision state now db key =
    let changes : List SessionChange =
      set_reason_code (some "OPERATOR_DISARM") ∷ set_state SessionState.disarmed ∷ [] in
    let hit = fits guard_id (some revision) (some state) in
    let Q : Db → Type 0 = λ db'. IsDisarmed guard_id db'.quota_guard_sessions in
    let P : GuardSession × Db → Type 0 = Kept guard_id in
    Ensures-bind Q P (update_sessions guard_id (some revision) (some state) now changes db) _
      (update_sessions-Ensures Q guard_id (some revision) (some state) now changes db λ single one.
        (
          any-revised (is_guard guard_id) hit (revise now changes) (λ row. refl)
                db.quota_guard_sessions
              ∙ any-update_where-count (is_guard guard_id)
                  (λ r. fits_revision (some revision) r.revision)
                  (λ r. fits_state (some state) r.state) db.quota_guard_sessions one,
          none-stale (is_guard guard_id) hit (is_enabled_guard guard_id) (revise now changes)
              (λ row fit. ground arith) (λ row other. ground arith) (λ row fit. ground arith)
              db.quota_guard_sessions (ground (arith, key guard_id)),
        ))
      λ db' q. Ensures-then P (get_quota_guard_session guard_id db') _ λ row. q

-- The row of a disarmed guard is found disarmed.
find-disarmed :
    (guard_id : String) (rows : List GuardSession)
    → any (is_guard guard_id) rows ≡ true
    → any (is_enabled_guard guard_id) rows ≡ false
    → (row : GuardSession) × (find (is_guard guard_id) rows ≡ some row)
      × (is_enabled row.state ≡ false)
find-disarmed guard_id [] there none_on = cc
find-disarmed guard_id (row ∷ rows) there none_on = elim (Bool-cases (is_guard guard_id row)) [
  | inl h ↦ (row, ground arith, ground arith)
  | inr h ↦
      let (other, found, off) = find-disarmed guard_id rows (ground arith) (ground arith) in
      (other, ground arith, off)
]

arm-refused :
    (guard_id : String) (now : ℕ) (seen db : Db)
    → IsDisarmed guard_id seen.quota_guard_sessions
    → arm guard_id now seen db ≡ err "GUARD_DISARMED"
unfolding arm get_quota_guard_session
arm-refused guard_id now seen db (there, none_on) =
    let (row, found, off) = find-disarmed guard_id seen.quota_guard_sessions there none_on in
    rw (found, off) refl

row_or-some :
    {A : Type 0} (found : Option A) (code : String) (row : A)
    → row_or code found ≡ ok row
    → found ≡ some row
row_or-some none code row e = cc
row_or-some (some x) code row e = cc

module _ ⦃digest : Digest⦄ (guard_id : String) where
  then_audit-done :
      (m : Result (GuardSession × Db)) (details : GuardSession → Fields) (event_type actor : String)
      (now : ℕ) (event_id : String) (db : Db) (got : GuardSession)
      → Ensures (Kept guard_id) m
      → (then_audit m details event_type actor now event_id db).0 ≡ ok got
      → Kept guard_id (then_audit m details event_type actor now event_id db)
  then_audit-done (err code) details event_type actor now event_id db got h e = cc
  then_audit-done (ok (session, db')) details event_type actor now event_id db got h e =
      let rows =
        audited-rows guard_id (append_audit event_id event_type actor (details session) now db')
          session db'
          (append_audit-sessions guard_id event_id event_type actor (details session) now db') in
      rw (rows) h

  disarm_found-IsDisarmed :
      (found : Result GuardSession) (actor : String) (now : ℕ) (event_id : String) (seen db : Db)
      (got : GuardSession)
      → IsKey seen.quota_guard_sessions
      → IsKey db.quota_guard_sessions
      → Moves seen db
      → get_quota_guard_session guard_id seen ≡ found
      → (disarm_found found guard_id actor now event_id db).0 ≡ ok got
      → Kept guard_id (disarm_found found guard_id actor now event_id db)
  unfolding get_quota_guard_session
  disarm_found-IsDisarmed (err code) actor now event_id seen db got seen_key key moves e done = cc
  disarm_found-IsDisarmed (ok session) actor now event_id seen db got seen_key key moves e done =
      if_cases (λ (r : Result GuardSession × Db). r.0 ≡ ok got → Kept guard_id r)
        (is_enabled session.state) _ _
        (λ enabled.
          then_audit-done _ session_details "quota_guard.disarmed" actor now event_id db got
            (disarm_rows-IsDisarmed guard_id session.revision session.state now db key))
        (λ off _. Moves-Kept guard_id moves (
          find-any (is_guard guard_id) (λ row. is_enabled row.state) seen.quota_guard_sessions
            session (seen_key guard_id) (row_or-some _ "GUARD_NOT_FOUND" session e) off))
        done

  -- Whatever is written between the read of `disarm` and its transaction, after it returned no write
  -- of any coordinator or of the service, whatever was read before it, enables the guard again:
  -- checks, stops, reviews, a restart, an arming that read the guard while it was enabled and new
  -- guards leave it disarmed, and an arming that reads it then is refused.
  pub disarm-IsDisarmed :
      (actor : String) (now later : ℕ) (event_id : String) (seen db other : Db) {got : GuardSession}
      {db₁ db₂ : Db}
      → IsKey seen.quota_guard_sessions
      → IsKey db.quota_guard_sessions
      → Moves seen db
      → disarm guard_id actor now event_id seen db ≡ (ok got, db₁)
      → Moves db₁ db₂
      → IsDisarmed guard_id db₂.quota_guard_sessions
        × (arm guard_id later db₂ other ≡ err "GUARD_DISARMED")
  unfolding disarm
  disarm-IsDisarmed actor now later event_id seen db other {got} {db₁} {db₂} seen_key key between e
        moves =
      let off =
        disarm_found-IsDisarmed (get_quota_guard_session guard_id seen) actor now event_id seen db
          got seen_key key between refl (ap (λ r. r.0) e) in
      let off₁ : IsDisarmed guard_id db₁.quota_guard_sessions = rw (← ap (λ r. r.1) e) off in
      let off₂ = Moves-Kept guard_id moves off₁ in (off₂, arm-refused guard_id later db₂ other off₂)
