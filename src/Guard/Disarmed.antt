-- ===== src/Guard/Disarmed.antt =====
-- A guard that the operator disarmed stays disarmed (codex_work_scheduler/quota_guard.py).
use codex_work_scheduler.Common.{
  ℕ, String, ◌≡◌, refl, ap, ◌∙◌, Bool, true, false, not, ◌&&◌, Option, none, some, List, [], ◌∷◌,
  ◌++◌, any, str_eq, eq_iff, if_cases, arith, Result, ok, err,
}
use codex_work_scheduler.Common.Updates.{any-append, any-revised, none-revised}
use codex_work_scheduler.Common.Ensures.{
  Ensures, Ensures-then, Ensures-guard, Ensures-if, Ensures-self, Ensures-map,
}
use codex_work_scheduler.Json.{Fields}
use codex_work_scheduler.Store.Tables.{Db, Digest}
use codex_work_scheduler.Store.Audit.{
  append_audit, event_row, next_sequence, last_hash, genesis_hash, is_duplicate,
}
use codex_work_scheduler.Store.GuardRows.{SessionState, GuardSession, GuardTarget}
use codex_work_scheduler.Store.Guards.{
  SessionChange, set_state, is_enabled, same_state, is_guard, get_quota_guard_session,
}
use codex_work_scheduler.Store.GuardWrites.{
  fits, revise, update_sessions, insert_guard, disarm_rows, create_quota_guard_session,
  update_quota_guard_session, transition_quota_guard_session,
}
use codex_work_scheduler.Store.GuardFence.{
  pending_guards, fence_session, recover_quota_guard_pending,
}
use codex_work_scheduler.Store.GuardFenced.{is_fenced_session, recover_quota_guard_pending-fences}
use codex_work_scheduler.Store.GuardChanges.{
  Added, create-Added, insert_guard-Added, update_sessions-Ensures, update-keeps,
  write_all-guard_id,
}
use codex_work_scheduler.Guard.Sessions.{
  then_audit, audited, session_details, created_details, schedule_as, is_under_review, is_armed,
  disarm_found, create_found, arm, record_stop, start_stopping, mark_session_review, schedule_check,
  caught,
}

abbrev pub is_enabled_guard : String → GuardSession → Bool
is_enabled_guard guard_id row = is_guard guard_id row && is_enabled row.state

-- The guard is there, and no row of it is enabled.
abbrev pub IsDisarmed : String → List GuardSession → Type 0
IsDisarmed guard_id rows =
    (any (is_guard guard_id) rows ≡ true) × (any (is_enabled_guard guard_id) rows ≡ false)

same_state-is_enabled :
    (a b : SessionState) → same_state a b ≡ true → is_enabled b ≡ true → is_enabled a ≡ true
same_state-is_enabled SessionState.armed b h g = refl
same_state-is_enabled SessionState.stopping b h g = refl
same_state-is_enabled SessionState.held_quota b h g = refl
same_state-is_enabled SessionState.resuming b h g = refl
same_state-is_enabled SessionState.needs_review b h g = refl
same_state-is_enabled SessionState.disarmed SessionState.armed h g = cc
same_state-is_enabled SessionState.disarmed SessionState.stopping h g = cc
same_state-is_enabled SessionState.disarmed SessionState.held_quota h g = cc
same_state-is_enabled SessionState.disarmed SessionState.resuming h g = cc
same_state-is_enabled SessionState.disarmed SessionState.needs_review h g = cc
same_state-is_enabled SessionState.disarmed SessionState.disarmed h g = cc

-- An update that expects an enabled state leaves a disarmed guard alone.
update_sessions-IsDisarmed :
    (guard_id id : String) (revision : Option ℕ) (state : SessionState) (now : ℕ)
    (changes : List SessionChange) (db : Db)
    → is_enabled state ≡ true
    → IsDisarmed guard_id db.quota_guard_sessions
    → Ensures
        (λ db'. IsDisarmed guard_id db'.quota_guard_sessions)
        (update_sessions id revision (some state) now changes db)
update_sessions-IsDisarmed guard_id id revision state now changes db enabled (there, off) =
    let hit = fits id revision (some state) in
    let P : Db → Type 0 = λ db'. IsDisarmed guard_id db'.quota_guard_sessions in
    update_sessions-Ensures P id revision (some state) now changes db λ single one. (
      any-revised (is_guard guard_id) hit (revise now changes)
            (λ row. ap (λ x. str_eq x guard_id) (write_all-guard_id changes row))
            db.quota_guard_sessions
          ∙ there,
      none-revised (is_enabled_guard guard_id) hit (revise now changes)
          (λ row fit other.
            ground (arith, write_all-guard_id changes row, same_state-is_enabled row.state state))
          db.quota_guard_sessions off,
    )

-- What a call leaves, as to one guard.
abbrev pub Kept : {A : Type 0} → String → A × Db → Type 0
Kept guard_id r = IsDisarmed guard_id r.1.quota_guard_sessions

module _ (guard_id : String) (db : Db) (off : IsDisarmed guard_id db.quota_guard_sessions) where
  update-Kept :
      (id : String) (revision : Option ℕ) (state : SessionState) (now : ℕ)
      (changes : List SessionChange)
      → is_enabled state ≡ true
      → Ensures (Kept guard_id) (update_quota_guard_session id revision (some state) now changes db)
  update-Kept id revision state now changes enabled =
      update-keeps (λ db'. IsDisarmed guard_id db'.quota_guard_sessions) id revision (some state)
        now changes db off
        (λ normalized.
          update_sessions-IsDisarmed guard_id id revision state now normalized db enabled off)

  transition-Kept :
      (id : String) (state' : SessionState) (revision : Option ℕ) (state : SessionState) (now : ℕ)
      (changes : List SessionChange)
      → is_enabled state ≡ true
      → Ensures
          (Kept guard_id)
          (transition_quota_guard_session id state' revision (some state) now changes db)
  unfolding transition_quota_guard_session
  transition-Kept id state' revision state now changes enabled =
      update-Kept id revision state now (changes ++ set_state state' ∷ []) enabled

  pub arm-Kept : (id : String) (now : ℕ) (seen : Db) → Ensures (Kept guard_id) (arm id now seen db)
  unfolding arm
  arm-Kept id now seen =
      let P : GuardSession × Db → Type 0 = Kept guard_id in
      Ensures-then P (get_quota_guard_session id seen) _ λ session.
        Ensures-guard P (is_enabled session.state) "GUARD_DISARMED" _ λ enabled.
          Ensures-guard P (not (is_under_review session.state)) "GUARD_NEEDS_REVIEW" _ λ _.
            Ensures-if P (is_armed session.state) _ _ (λ _. off)
              (λ _. transition-Kept id SessionState.armed _ session.state now _ enabled)

  pub record_stop-Kept :
      (session : GuardSession) (snapshot_hash : String) (windows : List String) (now : ℕ)
      → Ensures (Kept guard_id) (record_stop session snapshot_hash windows now db)
  unfolding record_stop
  record_stop-Kept session snapshot_hash windows now =
      update-Kept session.guard_id _ SessionState.armed now _ refl

  pub start_stopping-Kept :
      (session : GuardSession) (reason : String) (now : ℕ)
      → Ensures (Kept guard_id) (start_stopping session reason now db)
  unfolding start_stopping
  start_stopping-Kept session reason now =
      transition-Kept session.guard_id SessionState.stopping _ SessionState.armed now _ refl

  caught-Kept :
      {A : Type 0} (m other : Result (A × Db))
      → Ensures (Kept guard_id) m
      → Ensures (Kept guard_id) other
      → Ensures (Kept guard_id) (caught m other)
  caught-Kept (ok a) other h g = h
  caught-Kept (err code) other h g =
      Ensures-if (Kept guard_id) (str_eq code "IntegrityError") (err code) other (λ _. tt) (λ _. g)

  pub mark_session_review-Kept :
      (session : GuardSession) (reason : String) (now : ℕ)
      → Ensures (Kept guard_id) (mark_session_review session reason now db)
  unfolding mark_session_review
  mark_session_review-Kept session reason now =
      let P : GuardSession × Db → Type 0 = Kept guard_id in
      Ensures-if P (is_enabled session.state && not (is_under_review session.state)) _ _
        (λ both.
          caught-Kept _ _
            (transition-Kept session.guard_id SessionState.needs_review _ session.state now _
              (ground arith))
            (Ensures-then P (get_quota_guard_session session.guard_id db) _ λ row. off))
        (λ _. off)

  schedule_as-Kept :
      (state : Option SessionState) (session : GuardSession) (reason_code : Option String) (now : ℕ)
      → is_enabled session.state ≡ true
      → Ensures (Kept guard_id) (schedule_as state session reason_code now db)
  schedule_as-Kept none session reason_code now enabled =
      update-Kept session.guard_id _ session.state now _ enabled
  schedule_as-Kept (some state) session reason_code now enabled =
      Ensures-if (Kept guard_id) (same_state state session.state) _ _
        (λ _. update-Kept session.guard_id _ session.state now _ enabled)
        (λ _. transition-Kept session.guard_id state _ session.state now _ enabled)

  pub schedule_check-Kept :
      (session : GuardSession) (state : Option SessionState) (reason_code : Option String) (now : ℕ)
      → Ensures (Kept guard_id) (schedule_check session state reason_code now db)
  unfolding schedule_check
  schedule_check-Kept session state reason_code now =
      Ensures-if (Kept guard_id) (is_enabled session.state) _ _
        (schedule_as-Kept state session reason_code now) (λ _. off)

  pub recover-Kept :
      (now : ℕ) (reason_code : String)
      → Ensures (Kept guard_id) (recover_quota_guard_pending now reason_code db)
  recover-Kept now reason_code = Ensures-self (Kept guard_id) _ λ r e.
      let ids = pending_guards db in
      let hit = is_fenced_session ids in
      let write = fence_session reason_code now in
      let rows = (recover_quota_guard_pending-fences now now reason_code reason_code db e).0.0 in
      let (there, none_on) = off in
      (
        ap (any (is_guard guard_id)) rows
            ∙ any-revised (is_guard guard_id) hit write (λ row. refl) db.quota_guard_sessions
            ∙ there,
        ap (any (is_enabled_guard guard_id)) rows
            ∙ none-revised (is_enabled_guard guard_id) hit write (λ row fit other. ground arith)
                db.quota_guard_sessions none_on,
      )

  pub disarm_rows-Kept :
      (id : String) (now : ℕ) → IsDisarmed guard_id (disarm_rows id now db).quota_guard_sessions
  unfolding disarm_rows
  disarm_rows-Kept id now =
      let (there, none_on) = off in
      (
        any-revised (is_guard guard_id) (is_guard id) _ (λ row. refl) db.quota_guard_sessions
            ∙ there,
        none-revised (is_enabled_guard guard_id) (is_guard id) _ (λ row fit other. ground arith)
            db.quota_guard_sessions none_on,
      )

  Added-Kept : (db' : Db) → Added db db' → IsDisarmed guard_id db'.quota_guard_sessions
  Added-Kept db' (row, unused, single, rows) =
      let (there, none_on) = off in
      (
        ap (any (is_guard guard_id)) rows
            ∙ any-append (is_guard guard_id) db.quota_guard_sessions row
            ∙ ground arith,
        ap (any (is_enabled_guard guard_id)) rows
            ∙ any-append (is_enabled_guard guard_id) db.quota_guard_sessions row
            ∙ ground (arith, eq_iff row.guard_id guard_id),
      )

  pub insert_guard-Kept :
      (repeated missing : String) (row : GuardSession) (targets : List GuardTarget)
      → Ensures
          (λ db'. IsDisarmed guard_id db'.quota_guard_sessions)
          (insert_guard repeated missing row targets db)
  insert_guard-Kept repeated missing row targets =
      Ensures-map (Added db) _ _ Added-Kept (insert_guard-Added repeated missing row targets db)

  create_quota_guard_session-Kept :
      (session : GuardSession) (targets : List GuardTarget)
      → Ensures (Kept guard_id) (create_quota_guard_session session targets db)
  create_quota_guard_session-Kept session targets =
      Ensures-map (λ r. Added db r.1) (Kept guard_id) _ (λ r new. Added-Kept r.1 new)
        (create-Added session targets db)

module _ ⦃digest : Digest⦄ (guard_id : String) where
  -- An audit event leaves the sessions alone.
  pub append_audit-sessions :
      (event_id event_type actor : String) (details : Fields) (now : ℕ) (db : Db)
      → Ensures
          (λ r. r.1.quota_guard_sessions ≡ db.quota_guard_sessions)
          (append_audit event_id event_type actor details now db)
  unfolding append_audit
  append_audit-sessions event_id event_type actor details now db =
      let row =
        event_row (next_sequence 1 db.audit_events) (last_hash genesis_hash db.audit_events)
          event_id event_type actor details now in
      Ensures-if (λ r. r.1.quota_guard_sessions ≡ db.quota_guard_sessions)
        (is_duplicate row db.audit_events) _ _ (λ used. tt) λ unused. refl

  pub audited-rows :
      (m : Result (String × Db)) (session : GuardSession) (db : Db)
      → Ensures (λ r. r.1.quota_guard_sessions ≡ db.quota_guard_sessions) m
      → (audited m session db).1.quota_guard_sessions ≡ db.quota_guard_sessions
  audited-rows (err code) session db h = refl
  audited-rows (ok (id, db')) session db h = h

  then_audit-Kept :
      (P : List GuardSession → Type 0) (m : Result (GuardSession × Db))
      (details : GuardSession → Fields) (event_type actor : String) (now : ℕ) (event_id : String)
      (db : Db)
      → P db.quota_guard_sessions
      → Ensures (λ r. P r.1.quota_guard_sessions) m
      → P (then_audit m details event_type actor now event_id db).1.quota_guard_sessions
  then_audit-Kept P (err code) details event_type actor now event_id db h g = h
  then_audit-Kept P (ok (session, db')) details event_type actor now event_id db h g =
      let rows =
        audited-rows (append_audit event_id event_type actor (details session) now db') session db'
          (append_audit-sessions event_id event_type actor (details session) now db') in
      rw (rows) g

  pub disarm_found-Kept :
      (found : Result GuardSession) (id actor : String) (now : ℕ) (event_id : String) (db : Db)
      → IsDisarmed guard_id db.quota_guard_sessions
      → Kept guard_id (disarm_found found id actor now event_id db)
  disarm_found-Kept (err code) id actor now event_id db off = off
  disarm_found-Kept (ok session) id actor now event_id db off =
      if_cases (Kept guard_id) (is_enabled session.state) _ _
        (λ enabled.
          then_audit-Kept (IsDisarmed guard_id) _ session_details "quota_guard.disarmed" actor now
            event_id db off
            (transition-Kept guard_id db off id SessionState.disarmed _ session.state now _
              enabled))
        (λ _. off)

  pub create_found-Kept :
      (found : Result GuardSession) (session : GuardSession) (targets : List GuardTarget)
      (actor : String) (now : ℕ) (event_id : String) (db : Db)
      → IsDisarmed guard_id db.quota_guard_sessions
      → Kept guard_id (create_found found session targets actor now event_id db)
  create_found-Kept (err code) session targets actor now event_id db off =
      if_cases (Kept guard_id) (str_eq code "GUARD_NOT_FOUND") _ _
        (λ _.
          then_audit-Kept (IsDisarmed guard_id) _ created_details "quota_guard.created" actor now
            event_id db off (create_quota_guard_session-Kept guard_id db off session targets))
        (λ _. off)
  create_found-Kept (ok existing) session targets actor now event_id db off =
      if_cases (Kept guard_id)
        (str_eq existing.plan_hash session.plan_hash
          && str_eq existing.approval_id session.approval_id)
        _ _ (λ _. off) (λ _. off)
