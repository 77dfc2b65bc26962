-- ===== src/Store/Notify.antt =====
-- The notification events: `reserve_notification` and `mark_notification_delivered` of
-- codex_work_scheduler/store.py.
use codex_work_scheduler.Common.{
  ℕ, String, Bool, true, false, not, ◌&&◌, Option, none, some, [], ◌∷◌, ◌++◌, any, find,
  update_where, str_eq, is_some, if◌then◌else◌, ok, err,
}
use codex_work_scheduler.Store.Tables.{Db, Event, NotificationRow, Transaction}

-- What `reserve_notification` returns.
pub record Reservation : Type 0 where
  pub deliver : Bool
  pub event : Event
  pub replayed : Bool

abbrev pub has_key : String → NotificationRow → Bool
has_key dedupe_key row = str_eq row.dedupe_key dedupe_key

abbrev pub has_event : String → NotificationRow → Bool
has_event event_id row = str_eq row.event.event_id event_id

abbrev pub new_row : Event → String → String → NotificationRow
new_row event dedupe_key sink_kind = record {
  event = event;
  dedupe_key = dedupe_key;
  sink_kind = sink_kind;
  delivered_at = none;
}

-- The row of the key, if there is one, or a new row; `event_id` is unique.
abbrev pub reserved : Option NotificationRow → Event → String → String → Transaction Reservation
reserved (some row) event dedupe_key sink_kind db =
    ok (record { deliver = not (is_some row.delivered_at); event = row.event; replayed = true }, db)
reserved none event dedupe_key sink_kind db =
    if any (has_event event.event_id) db.notification_events
    then err "IntegrityError"
    else ok (
      record { deliver = true; event = event; replayed = false },
      record db {
        notification_events = db.notification_events ++ new_row event dedupe_key sink_kind ∷ [];
      },
    )

unfoldable pub reserve_notification : Event → String → String → Transaction Reservation
reserve_notification event dedupe_key sink_kind db =
    reserved (find (has_key dedupe_key) db.notification_events) event dedupe_key sink_kind db

-- `WHERE event_id = ? AND delivered_at IS NULL`
abbrev pub is_undelivered : String → NotificationRow → Bool
is_undelivered event_id row = has_event event_id row && not (is_some row.delivered_at)

abbrev pub deliver_at : ℕ → NotificationRow → NotificationRow
deliver_at now row = record row { delivered_at = some now }

unfoldable pub mark_notification_delivered : String → ℕ → Db → Db
mark_notification_delivered event_id delivered_at db = record db {
  notification_events =
      update_where (is_undelivered event_id) (deliver_at delivered_at) db.notification_events;
}
