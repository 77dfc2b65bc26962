-- ===== src/Notifications/Tests.antt =====
-- Notifications on concrete tables (codex_work_scheduler/notifications.py).
use codex_work_scheduler.Common.{◌≡◌, refl, true, false, none, some, [], ◌∷◌, ok, err}
use codex_work_scheduler.Json.{null, int, str, obj, end, field}
use codex_work_scheduler.Common.Int.{pos}
use codex_work_scheduler.Store.Tables.{Db, Event}
use codex_work_scheduler.Store.Tests.{fresh_db}
use codex_work_scheduler.Store.Notify.{reserve_notification, mark_notification_delivered}
use codex_work_scheduler.Notifications.{
  Notice, is_safe_tail, redacted_details, notification_event, emit,
}
use codex_work_scheduler.Notifications.Delivered.{emit-once}

abbrev notice : Notice
notice = record {
  event_type = "hold";
  dedupe_key = "k-1";
  subject_kind = "job";
  subject_id = some "j-1";
  reason_code = none;
  details = obj (field "failure_count" (int (pos 2)) end);
}

abbrev again : Notice
again = record notice { event_type = "dispatch"; details = null }

abbrev event : Event
event = record {
  event_id = "ntf_1";
  event_type = "hold";
  occurred_at = 5;
  reason_code = none;
  subject_id = some "j-1";
  subject_kind = "job";
  details = field "failure_count" (int (pos 2)) end;
}

abbrev second : Event
second = record event {
  event_id = "ntf_2";
  event_type = "dispatch";
  occurred_at = 9;
  details = end;
}

abbrev notified_db : Db
notified_db = record fresh_db {
  notification_events =
      record { event = event; dedupe_key = "k-1"; sink_kind = "fake"; delivered_at = some 6 } ∷ [];
}

emitted :
    emit notice "ntf_1" 5 6 "fake" (λ e. true) fresh_db
    ≡ (ok (record { deliver = true; event = event; replayed = false }), notified_db)
unfolding emit notification_event redacted_details is_safe_tail reserve_notification
    mark_notification_delivered
emitted = refl

built : notification_event again "ntf_2" 9 ≡ ok second
unfolding notification_event redacted_details is_safe_tail
built = refl

secret :
    redacted_details (obj (field "prompt" (str "text") end)) ≡ err "NOTIFICATION_REDACTION_REQUIRED"
unfolding redacted_details
secret = refl

emit-once_example :
    emit again "ntf_2" 9 10 "fake" (λ e. false) notified_db
    ≡ (ok (record { deliver = false; event = event; replayed = true }), notified_db)
emit-once_example =
    emit-once notice again "ntf_1" "ntf_2" 5 9 6 10 "fake" "fake" (λ e. true) (λ e. false) fresh_db
      emitted refl built
