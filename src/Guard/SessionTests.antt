-- ===== src/Guard/SessionTests.antt =====
-- The coordinator's commands on concrete guards (codex_work_scheduler/quota_guard.py).
use codex_work_scheduler.Common.{◌≡◌, refl, some, [], ◌∷◌, ok, err}
use codex_work_scheduler.Store.Tables.{Db}
use codex_work_scheduler.Store.Tests.{kinds}
use codex_work_scheduler.Store.Audit.{
  append_audit, event_row, next_sequence, last_hash, genesis_hash,
}
use codex_work_scheduler.Store.GuardRows.{SessionState, GuardSession}
use codex_work_scheduler.Store.Guards.{get_quota_guard_session}
use codex_work_scheduler.Store.GuardWrites.{
  update_sessions, update_quota_guard_session, transition_quota_guard_session,
}
use codex_work_scheduler.Store.GuardTests.{armed_db, stopping_db, stored, armed_keys}
use codex_work_scheduler.Guard.Sessions.{arm, disarm, mark_session_review, session_details}
use codex_work_scheduler.Guard.Disarmed.{IsDisarmed}
use codex_work_scheduler.Guard.Moves.{here, after, reviewing, disarm-IsDisarmed}

abbrev disarmed : GuardSession
disarmed = record stored {
  state = SessionState.disarmed;
  reason_code = some "OPERATOR_DISARM";
  revision = 2;
  updated_at = 70;
}

abbrev disarmed_db : Db
disarmed_db = record armed_db {
  quota_guard_sessions = disarmed ∷ [];
  audit_events =
      event_row 1 genesis_hash "evt_1" "quota_guard.disarmed" "operator" (session_details disarmed)
        70
      ∷ [];
}

done : disarm "guard-1" "operator" 70 "evt_1" armed_db armed_db ≡ (ok disarmed, disarmed_db)
unfolding disarm transition_quota_guard_session update_quota_guard_session update_sessions
    get_quota_guard_session append_audit next_sequence last_hash
done = refl

-- A coordinator that read the guard while it was armed marks nothing for review.
stale_review :
    mark_session_review stored "ADAPTER_UNCERTAIN" 80 disarmed_db ≡ ok (disarmed, disarmed_db)
unfolding mark_session_review transition_quota_guard_session update_quota_guard_session
    update_sessions get_quota_guard_session
stale_review = refl

-- One that read the guard while it was stopping cannot arm it.
stale_arm : arm "guard-1" 80 stopping_db disarmed_db ≡ err "REVISION_CONFLICT"
unfolding arm transition_quota_guard_session update_quota_guard_session update_sessions
    get_quota_guard_session
stale_arm = refl

disarm-IsDisarmed_example :
    IsDisarmed "guard-1" disarmed_db.quota_guard_sessions
    × (arm "guard-1" 90 disarmed_db disarmed_db ≡ err "GUARD_DISARMED")
disarm-IsDisarmed_example =
    disarm-IsDisarmed "guard-1" "operator" 70 90 "evt_1" armed_db armed_db disarmed_db armed_keys
      armed_keys here done
      (after here (reviewing stored "ADAPTER_UNCERTAIN" 80 disarmed stale_review))
