-- ===== src/Store/GuardChanges.antt =====
-- What the writes to the sessions of the quota guard change (codex_work_scheduler/store.py, and the
-- statements of codex_work_scheduler/service.py on its tables).
use codex_work_scheduler.Common.{
  ℕ, suc, String, ◌≡◌, refl, ap, ◌∙◌, Bool, true, false, not, ◌||◌, Option, List, [], ◌∷◌, ◌++◌,
  any, all, update_where, guard, some, ◌≤◌, count_where, str_eq, leb, ◌==◌, arith, ok, err,
  distinct,
}
use codex_work_scheduler.Common.Ensures.{
  Ensures, Ensures-then, Ensures-guard, Ensures-if, Ensures-bind,
}
use codex_work_scheduler.Store.GuardRows.{SessionState, TargetState, GuardSession, GuardTarget}
use codex_work_scheduler.Store.Tables.{Db}
use codex_work_scheduler.Store.Guards.{
  SessionChange, set_state, set_profile_key, set_limit_id, set_approval_id, set_plan_hash,
  set_threshold, set_hysteresis, set_check_interval, set_next_check_at, set_resume_non_goal_threads,
  set_stop_snapshot_hash, set_reason_code, set_tripped_windows, set_last_checked_at, write_session,
  TargetChange, write_all, is_enabled_row, is_guard, is_target, has_single_active, has_approval,
  get_quota_guard_session, get_quota_guard_target,
}
use codex_work_scheduler.Store.GuardWrites.{
  normalize_windows, thread_ids, new_targets, has_target_of, insert_guard, disarm_rows,
  create_quota_guard_session, normalize_changes, refers_to_approval, fits, revise, is_unchanged,
  update_sessions, update_quota_guard_session, fits_target, update_targets,
  update_quota_guard_target,
}
use codex_work_scheduler.Store.GuardFence.{fence_session, hits_session, fence_guard, fence_guards}

-- How a step changes the table of sessions: by a new row with a new key, or by one update of rows that
-- keeps the keys and raises the revisions.
pub data Change (rows : List GuardSession) : List GuardSession → Type 0 where
  same : Change rows rows
  added :
      (row : GuardSession)
      → any (is_guard row.guard_id) rows ≡ false
      → has_single_active (row ∷ rows) ≡ true
      → Change rows (rows ++ row ∷ [])
  revised :
      (hit : GuardSession → Bool) (write : GuardSession → GuardSession) (rows' : List GuardSession)
      → ((row : GuardSession) → (write row).guard_id ≡ row.guard_id)
      → ((row : GuardSession) → (write row).revision ≡ suc row.revision)
      → (has_single_active rows' ≡ true → has_single_active (update_where hit write rows') ≡ true)
      → Change rows rows'
      → Change rows (update_where hit write rows')

-- No change names the key.
pub write_all-guard_id :
    (changes : List SessionChange) (row : GuardSession)
    → (write_all write_session changes row).guard_id ≡ row.guard_id
write_all-guard_id [] row = refl
write_all-guard_id (change ∷ changes) row =
    write_all-guard_id changes (write_session change row) ∙ written change
  where
    written : (change : SessionChange) → (write_session change row).guard_id ≡ row.guard_id
    written (set_state x) = refl
    written (set_profile_key x) = refl
    written (set_limit_id x) = refl
    written (set_approval_id x) = refl
    written (set_plan_hash x) = refl
    written (set_threshold x) = refl
    written (set_hysteresis x) = refl
    written (set_check_interval x) = refl
    written (set_next_check_at x) = refl
    written (set_resume_non_goal_threads x) = refl
    written (set_stop_snapshot_hash x) = refl
    written (set_reason_code x) = refl
    written (set_tripped_windows x) = refl
    written (set_last_checked_at x) = refl

-- A fenced session stays enabled.
count_where-fence :
    (reason_code : String) (now : ℕ) (guard_id : String) (rows : List GuardSession)
    → count_where is_enabled_row
        (update_where (hits_session guard_id) (fence_session reason_code now) rows)
      ≡ count_where is_enabled_row rows
count_where-fence reason_code now guard_id [] = refl
count_where-fence reason_code now guard_id (row ∷ rows) =
    ground (arith, count_where-fence reason_code now guard_id rows)

pub fence_guards-Change :
    (reason_code : String) (now : ℕ) (ids : List String) (rows : List GuardSession) (db : Db)
    → Change rows db.quota_guard_sessions
    → Change rows (fence_guards reason_code now ids db).quota_guard_sessions
unfolding fence_guards
fence_guards-Change reason_code now [] rows db h = h
fence_guards-Change reason_code now (id ∷ ids) rows db h =
    fence_guards-Change reason_code now ids rows (fence_guard reason_code now id db) (
      revised (hits_session id) (fence_session reason_code now) db.quota_guard_sessions
        (λ row. refl) (λ row. refl)
        (λ single.
          ap (λ n. leb n 1) (count_where-fence reason_code now id db.quota_guard_sessions) ∙ single)
        h)

-- What a call leaves of the sessions.
abbrev pub Changed : {A : Type 0} → Db → A × Db → Type 0
Changed db r = Change db.quota_guard_sessions r.1.quota_guard_sessions

-- A new session has a key of its own, and the index allows it.
abbrev pub Added : Db → Db → Type 0
Added db db' =
    (row : GuardSession) × (any (is_guard row.guard_id) db.quota_guard_sessions ≡ false)
    × (has_single_active (row ∷ db.quota_guard_sessions) ≡ true)
    × (db'.quota_guard_sessions ≡ db.quota_guard_sessions ++ row ∷ [])

pub insert_guard-Added :
    (repeated missing : String) (row : GuardSession) (targets : List GuardTarget) (db : Db)
    → Ensures (Added db) (insert_guard repeated missing row targets db)
unfolding insert_guard
insert_guard-Added repeated missing row targets db =
    let P : Db → Type 0 = Added db in
    Ensures-guard P (not (any (is_guard row.guard_id) db.quota_guard_sessions)) repeated _ λ unused.
      Ensures-guard P (has_single_active (row ∷ db.quota_guard_sessions)) repeated _ λ single.
        Ensures-guard P (has_approval row.approval_id db) missing _ λ _.
          Ensures-guard P
            (not (has_target_of row.guard_id (thread_ids targets) db.quota_guard_targets)) repeated
            _
            λ _.
              let done : P (record db {
                quota_guard_sessions = db.quota_guard_sessions ++ row ∷ [];
                quota_guard_targets = db.quota_guard_targets ++ new_targets row targets;
              }) =
                (row, ground arith, single, refl) in
              done

pub create-Added :
    (session : GuardSession) (targets : List GuardTarget) (db : Db)
    → Ensures (λ r. Added db r.1) (create_quota_guard_session session targets db)
unfolding create_quota_guard_session
create-Added session targets db =
    let P : GuardSession × Db → Type 0 = λ r. Added db r.1 in
    Ensures-then P (guard (not (str_eq session.guard_id "")) "STATE_INVALID") _ λ _.
      Ensures-then P (guard (not (str_eq session.profile_key "")) "STATE_INVALID") _ λ _.
        Ensures-then P (guard (not (str_eq session.limit_id "")) "STATE_INVALID") _ λ _.
          Ensures-then P (guard (not (str_eq session.approval_id "")) "STATE_INVALID") _ λ _.
            Ensures-then P (guard (not (str_eq session.plan_hash "")) "STATE_INVALID") _ λ _.
              Ensures-then P (normalize_windows session.tripped_windows) _ λ windows.
                Ensures-guard P (all (λ id. not (str_eq id "")) (thread_ids targets))
                  "STATE_INVALID" _
                  λ _. Ensures-guard P (distinct (thread_ids targets)) "STATE_INVALID" _ λ _.
                    Ensures-bind (Added db) P
                      (insert_guard "GUARD_EXISTS" "STATE_INVALID"
                        (record session { tripped_windows = windows }) targets db)
                      _
                      (insert_guard-Added "GUARD_EXISTS" "STATE_INVALID"
                        (record session { tripped_windows = windows }) targets db)
                      λ db' new.
                        Ensures-then P (get_quota_guard_session session.guard_id db') _ λ row. new

pub Added-Change :
    (db db' : Db) → Added db db' → Change db.quota_guard_sessions db'.quota_guard_sessions
Added-Change db db' (row, unused, single, rows) = rw (rows) (added row unused single)

-- The UPDATE of the service disarms, so that it enables no further row.
count_where-disarm :
    (guard_id : String) (now : ℕ) (rows : List GuardSession)
    → count_where is_enabled_row (
        update_where
          (is_guard guard_id)
          (revise now
            (set_state SessionState.disarmed ∷ set_reason_code (some "OPERATOR_DISARM") ∷ []))
          rows)
      ≤ count_where is_enabled_row rows
count_where-disarm guard_id now [] = ground arith
count_where-disarm guard_id now (row ∷ rows) = ground (arith, count_where-disarm guard_id now rows)

pub disarm_rows-Change :
    (guard_id : String) (now : ℕ) (db : Db)
    → Change db.quota_guard_sessions (disarm_rows guard_id now db).quota_guard_sessions
unfolding disarm_rows
disarm_rows-Change guard_id now db =
    revised (is_guard guard_id) _ db.quota_guard_sessions (λ row. refl) (λ row. refl)
      (λ single. ground (arith, count_where-disarm guard_id now db.quota_guard_sessions)) same

-- An update that is made writes one row, and the index allows it.
pub update_sessions-Ensures :
    (P : Db → Type 0) (guard_id : String) (revision : Option ℕ) (state : Option SessionState)
    (now : ℕ) (changes : List SessionChange) (db : Db)
    → (has_single_active (
            update_where
              (fits guard_id revision state)
              (revise now changes)
              db.quota_guard_sessions)
          ≡ true
        → (count_where (fits guard_id revision state) db.quota_guard_sessions == 1) ≡ true
        → P (record db {
          quota_guard_sessions =
              update_where
                (fits guard_id revision state)
                (revise now changes)
                db.quota_guard_sessions;
        }))
    → Ensures P (update_sessions guard_id revision state now changes db)
unfolding update_sessions
update_sessions-Ensures P guard_id revision state now changes db written =
    let hit = fits guard_id revision state in
    let rows = update_where hit (revise now changes) db.quota_guard_sessions in
    Ensures-guard P (has_single_active rows) "IntegrityError" _ λ single.
      Ensures-guard P (not (any hit db.quota_guard_sessions) || all (refers_to_approval db) changes)
        "IntegrityError" _
        λ _.
          Ensures-if P (count_where hit db.quota_guard_sessions == 1)
            (ok (record db { quota_guard_sessions = rows })) _ (written single)
            (λ _.
              Ensures-if P (any (is_guard guard_id) db.quota_guard_sessions)
                (err "REVISION_CONFLICT") (err "GUARD_NOT_FOUND") (λ _. tt) (λ _. tt))

update_sessions-Change :
    (guard_id : String) (revision : Option ℕ) (state : Option SessionState) (now : ℕ)
    (changes : List SessionChange) (db : Db)
    → Ensures
        (λ db'. Change db.quota_guard_sessions db'.quota_guard_sessions)
        (update_sessions guard_id revision state now changes db)
update_sessions-Change guard_id revision state now changes db =
    update_sessions-Ensures (λ db'. Change db.quota_guard_sessions db'.quota_guard_sessions)
      guard_id revision state now changes db
      λ single one.
        revised (fits guard_id revision state) (revise now changes) db.quota_guard_sessions
          (λ row. write_all-guard_id changes row) (λ row. refl) (λ _. single) same

-- What an update of the table keeps, a call keeps: it changes nothing else.
pub update-keeps :
    (Q : Db → Type 0) (guard_id : String) (revision : Option ℕ) (state : Option SessionState)
    (now : ℕ) (changes : List SessionChange) (db : Db)
    → Q db
    → ((normalized : List SessionChange)
        → Ensures Q (update_sessions guard_id revision state now normalized db))
    → Ensures (λ r. Q r.1) (update_quota_guard_session guard_id revision state now changes db)
unfolding update_quota_guard_session
update-keeps Q guard_id revision state now changes db kept written =
    let P : GuardSession × Db → Type 0 = λ r. Q r.1 in
    Ensures-then P (normalize_changes changes) _ λ normalized.
      Ensures-bind Q P _ _
        (Ensures-if Q (is_unchanged normalized) (ok db)
          (update_sessions guard_id revision state now normalized db) (λ _. kept)
          (λ _. written normalized))
        λ db' h. Ensures-then P (get_quota_guard_session guard_id db') _ λ row. h

pub update-Changed :
    (guard_id : String) (revision : Option ℕ) (state : Option SessionState) (now : ℕ)
    (changes : List SessionChange) (db : Db)
    → Ensures (Changed db) (update_quota_guard_session guard_id revision state now changes db)
update-Changed guard_id revision state now changes db =
    update-keeps (λ db'. Change db.quota_guard_sessions db'.quota_guard_sessions) guard_id revision
      state now changes db same
      (λ normalized. update_sessions-Change guard_id revision state now normalized db)

pub update_target-Changed :
    (guard_id thread_id : String) (revision : Option ℕ) (state : Option TargetState) (now : ℕ)
    (changes : List TargetChange) (db : Db)
    → Ensures
        (Changed db)
        (update_quota_guard_target guard_id thread_id revision state now changes db)
unfolding update_quota_guard_target update_targets
update_target-Changed guard_id thread_id revision state now changes db =
    let P : GuardTarget × Db → Type 0 = Changed db in
    let Q : Db → Type 0 = λ db'. Change db.quota_guard_sessions db'.quota_guard_sessions in
    let hit = fits_target guard_id thread_id revision state in
    Ensures-bind Q P _ _
      (Ensures-if Q (is_unchanged changes) (ok db)
        (update_targets guard_id thread_id revision state now changes db) (λ _. same)
        (λ _.
          Ensures-if Q (count_where hit db.quota_guard_targets == 1) _ _ (λ _. same)
            (λ _.
              Ensures-if Q (any (is_target guard_id thread_id) db.quota_guard_targets)
                (err "REVISION_CONFLICT") (err "GUARD_TARGET_NOT_FOUND") (λ _. tt) (λ _. tt))))
      λ db' h. Ensures-then P (get_quota_guard_target guard_id thread_id db') _ λ row. h
