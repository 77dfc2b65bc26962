-- ===== src/Store/GuardFenced.antt =====
-- What a restart does to the guards that a crash left in the middle of an external call
-- (`recover_quota_guard_pending` of codex_work_scheduler/store.py).
use codex_work_scheduler.Common.{
  ℕ, String, ◌≡◌, refl, ap, ◌∙◌, sym, Bool, true, false, not, ◌&&◌, ◌||◌, List, [], ◌∷◌, ◌++◌, any,
  all, contains, distinct, update_where, eq_iff, arith, ok,
}
use codex_work_scheduler.Common.Updates.{
  update_where-fuse, any-empty, all-contains, contains-append,
}
use codex_work_scheduler.Common.Codes.{sorted_set}
use codex_work_scheduler.Common.Ensures.{Ensures-ok}
use codex_work_scheduler.Common.Sweep.{update_where-none}
use codex_work_scheduler.Store.GuardRows.{SessionState, TargetState, GuardSession, GuardTarget}
use codex_work_scheduler.Store.Tables.{Db}
use codex_work_scheduler.Store.Guards.{is_enabled}
use codex_work_scheduler.Store.GuardFence.{
  is_pending_session, is_pending_target, is_unsettled, pending_sessions, pending_targets, unique,
  pending_guards, fence_target, fence_session, hits_target, hits_session, fence_guard, fence_guards,
  recover_quota_guard_pending,
}

contains-unique : (a : String) (xs : List String) → contains a (unique xs) ≡ contains a xs
contains-unique a [] = refl
contains-unique a (x ∷ xs) = ground (arith, contains-unique a xs, eq_iff a x)

distinct-unique : (xs : List String) → distinct (unique xs) ≡ true
distinct-unique [] = refl
distinct-unique (x ∷ xs) = ground (arith, distinct-unique xs)

-- The rows that the loop over `ids` writes.
abbrev pub is_fenced_target : List String → GuardTarget → Bool
is_fenced_target ids row = contains row.guard_id ids && is_unsettled row.state

abbrev pub is_fenced_session : List String → GuardSession → Bool
is_fenced_session ids row = contains row.guard_id ids && is_enabled row.state

fence_guards-targets :
    (reason_code : String) (now : ℕ) (ids : List String) (db : Db)
    → (fence_guards reason_code now ids db).quota_guard_targets
      ≡ update_where (is_fenced_target ids) (fence_target reason_code now) db.quota_guard_targets
unfolding fence_guards
fence_guards-targets reason_code now [] db = sym (
    update_where-none (is_fenced_target []) (fence_target reason_code now) db.quota_guard_targets
      (any-empty (λ row. is_unsettled row.state) db.quota_guard_targets))
fence_guards-targets reason_code now (id ∷ ids) db =
    fence_guards-targets reason_code now ids (fence_guard reason_code now id db)
    ∙ update_where-fuse (hits_target id) (is_fenced_target ids) (is_fenced_target (id ∷ ids))
        (fence_target reason_code now) db.quota_guard_targets (λ row hit. ground arith)
        (λ row. ground arith)

-- A session is written once only, since no identifier occurs twice.
fence_guards-sessions :
    (reason_code : String) (now : ℕ) (ids : List String) (db : Db)
    → distinct ids ≡ true
    → (fence_guards reason_code now ids db).quota_guard_sessions
      ≡ update_where (is_fenced_session ids) (fence_session reason_code now) db.quota_guard_sessions
unfolding fence_guards
fence_guards-sessions reason_code now [] db once = sym (
    update_where-none (is_fenced_session []) (fence_session reason_code now) db.quota_guard_sessions
      (any-empty (λ row. is_enabled row.state) db.quota_guard_sessions))
fence_guards-sessions reason_code now (id ∷ ids) db once =
    fence_guards-sessions reason_code now ids (fence_guard reason_code now id db) (ground arith)
    ∙ update_where-fuse (hits_session id) (is_fenced_session ids) (is_fenced_session (id ∷ ids))
        (fence_session reason_code now) db.quota_guard_sessions
        (λ row hit. ground (arith, eq_iff row.guard_id id)) (λ row. ground arith)

-- Every pending row is among those that are written.
pending_targets-covered :
    (ids : List String) (rows : List GuardTarget)
    → all (λ id. contains id ids) (pending_targets rows) ≡ true
    → any (λ row. is_pending_target row.state && not (contains row.guard_id ids)) rows ≡ false
pending_targets-covered ids [] h = refl
pending_targets-covered ids (row ∷ rows) h = ground (arith, pending_targets-covered ids rows)

pending_sessions-covered :
    (ids : List String) (rows : List GuardSession)
    → all (λ id. contains id ids) (pending_sessions rows) ≡ true
    → any (λ row. is_pending_session row.state && not (contains row.guard_id ids)) rows ≡ false
pending_sessions-covered ids [] h = refl
pending_sessions-covered ids (row ∷ rows) h = ground (arith, pending_sessions-covered ids rows)

-- Where they are written, none is left.
pending-unsettled :
    (state : TargetState) → is_pending_target state ≡ true → is_unsettled state ≡ true
pending-unsettled TargetState.stopping h = refl
pending-unsettled TargetState.resuming h = refl
pending-unsettled TargetState.monitoring h = cc
pending-unsettled TargetState.held h = cc
pending-unsettled TargetState.resumed h = cc
pending-unsettled TargetState.completed h = cc
pending-unsettled TargetState.needs_review h = cc

pending-enabled : (state : SessionState) → is_pending_session state ≡ true → is_enabled state ≡ true
pending-enabled SessionState.stopping h = refl
pending-enabled SessionState.resuming h = refl
pending-enabled SessionState.armed h = cc
pending-enabled SessionState.held_quota h = cc
pending-enabled SessionState.needs_review h = cc
pending-enabled SessionState.disarmed h = cc

pending_targets-fenced :
    (reason_code : String) (now : ℕ) (ids : List String) (rows : List GuardTarget)
    → any (λ row. is_pending_target row.state && not (contains row.guard_id ids)) rows ≡ false
    → pending_targets (update_where (is_fenced_target ids) (fence_target reason_code now) rows) ≡ []
pending_targets-fenced reason_code now ids [] h = refl
pending_targets-fenced reason_code now ids (row ∷ rows) h =
    ground (arith, pending-unsettled row.state, pending_targets-fenced reason_code now ids rows)

pending_sessions-fenced :
    (reason_code : String) (now : ℕ) (ids : List String) (rows : List GuardSession)
    → any (λ row. is_pending_session row.state && not (contains row.guard_id ids)) rows ≡ false
    → pending_sessions (update_where (is_fenced_session ids) (fence_session reason_code now) rows)
      ≡ []
pending_sessions-fenced reason_code now ids [] h = refl
pending_sessions-fenced reason_code now ids (row ∷ rows) h =
    ground (arith, pending-enabled row.state, pending_sessions-fenced reason_code now ids rows)

contains-pending_guards :
    (a : String) (db : Db)
    → contains a (pending_guards db) ≡ (
        contains a (pending_targets db.quota_guard_targets)
        || contains a (pending_sessions db.quota_guard_sessions))
unfolding pending_guards
contains-pending_guards a db =
    contains-unique a _
    ∙ contains-append a (pending_targets db.quota_guard_targets)
        (pending_sessions db.quota_guard_sessions)

-- The tables that a restart leaves.
abbrev pub Fenced : ℕ → String → Db → Db → Type 0
Fenced now reason_code db db' =
    (db'.quota_guard_sessions
      ≡ update_where (is_fenced_session (pending_guards db)) (fence_session reason_code now)
          db.quota_guard_sessions)
    × (db'.quota_guard_targets
        ≡ update_where (is_fenced_target (pending_guards db)) (fence_target reason_code now)
            db.quota_guard_targets)

fence_guards-Fenced :
    (now : ℕ) (reason_code : String) (db : Db)
    → Fenced now reason_code db (fence_guards reason_code now (pending_guards db) db)
unfolding pending_guards
fence_guards-Fenced now reason_code db = (
  fence_guards-sessions reason_code now (pending_guards db) db (
      distinct-unique
        (pending_targets db.quota_guard_targets ++ pending_sessions db.quota_guard_sessions)),
  fence_guards-targets reason_code now (pending_guards db) db,
)

Fenced-pending_guards :
    (now : ℕ) (reason_code : String) (db db' : Db)
    → Fenced now reason_code db db'
    → pending_guards db' ≡ []
unfolding pending_guards
Fenced-pending_guards now reason_code db db' (sessions, targets) =
    let ids = pending_guards db in
    let no_target =
      ap pending_targets targets
      ∙ pending_targets-fenced reason_code now ids db.quota_guard_targets (
          pending_targets-covered ids db.quota_guard_targets
            (all-contains _ ids λ a h. contains-pending_guards a db ∙ ground arith)) in
    let no_session =
      ap pending_sessions sessions
      ∙ pending_sessions-fenced reason_code now ids db.quota_guard_sessions (
          pending_sessions-covered ids db.quota_guard_sessions
            (all-contains _ ids λ a h. contains-pending_guards a db ∙ ground arith)) in
    ap (λ xs. unique (xs ++ pending_sessions db'.quota_guard_sessions)) no_target
    ∙ ap unique no_session

recover_quota_guard_pending-none :
    (now : ℕ) (reason_code : String) (db : Db)
    → pending_guards db ≡ []
    → recover_quota_guard_pending now reason_code db ≡ ok ([], db)
unfolding recover_quota_guard_pending fence_guards sorted_set
recover_quota_guard_pending-none now reason_code db none =
    ap (λ ids. ok (sorted_set ids, fence_guards reason_code now ids db)) none

-- A restart sets exactly the guards aside that a crash left in an external call: their sessions that
-- are not disarmed and their targets that are not settled need a review, as one update of each table
-- would say. Then none is pending, so that a further restart changes nothing.
pub recover_quota_guard_pending-fences :
    (now later : ℕ) (reason_code reason_code' : String) (db : Db) {ids : List String} {db' : Db}
    → recover_quota_guard_pending now reason_code db ≡ ok (ids, db')
    → Fenced now reason_code db db'
      × (pending_guards db' ≡ [])
      × (recover_quota_guard_pending later reason_code' db' ≡ ok ([], db'))
unfolding recover_quota_guard_pending
recover_quota_guard_pending-fences now later reason_code reason_code' db {ids} {db'} e =
    let P : List String × Db → Type 0 = λ r. Fenced now reason_code db r.1 in
    let fenced = Ensures-ok P _ (fence_guards-Fenced now reason_code db) e in
    let none = Fenced-pending_guards now reason_code db db' fenced in
    (fenced, none, recover_quota_guard_pending-none later reason_code' db' none)
