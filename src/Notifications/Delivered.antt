-- ===== src/Notifications/Delivered.antt =====
-- What is delivered: once per key, and only what is redacted (codex_work_scheduler/notifications.py).
use codex_work_scheduler.Common.{
  ℕ, String, ◌≡◌, refl, ap, ◌∙◌, inl, inr, Bool, true, false, not, Option, none, some, List, [],
  ◌∷◌, any, find, update_where, str_eq_refl, is_some, if◌then◌else◌, if_cases, arith, Result, ok,
  err, Bool-cases,
}
use codex_work_scheduler.Common.Updates.{find-last}
use codex_work_scheduler.Common.Ensures.{Ensures, Ensures-if}
use codex_work_scheduler.Store.Tables.{Db, Event, NotificationRow}
use codex_work_scheduler.Store.Notify.{
  Reservation, has_key, has_event, new_row, reserved, reserve_notification, is_undelivered,
  deliver_at, mark_notification_delivered,
}
use codex_work_scheduler.Notifications.{Notice, notification_event, deliver_event, emit_event, emit}

-- An update that keeps a key finds the written row under it.
find-revised :
    {A : Type 0} (p hit : A → Bool) (write : A → A) (rows : List A) (row : A)
    → ((x : A) → p (write x) ≡ p x)
    → find p rows ≡ some row
    → find p (update_where hit write rows) ≡ some (if hit row then write row else row)
find-revised p hit write [] row kept found = cc
find-revised p hit write (x ∷ xs) row kept found = elim (Bool-cases (p x)) [
  | inl h ↦
      let same : x ≡ row = ground arith in
      let goal_x : find p (update_where hit write (x ∷ xs)) ≡ some (if hit x then write x else x) =
        ground (arith, kept x) in
      goal_x ∙ ap (λ y. some (if hit y then write y else y)) same
  | inr h ↦
      let later = find-revised p hit write xs row kept (ground arith) in ground (arith, kept x)
]

-- The event of a key is delivered.
abbrev pub IsDelivered : String → Event → Db → Type 0
IsDelivered dedupe_key event db =
    (row : NotificationRow) × (find (has_key dedupe_key) db.notification_events ≡ some row)
    × (is_some row.delivered_at ≡ true)
    × (row.event ≡ event)

mark-IsDelivered :
    (dedupe_key : String) (now : ℕ) (db : Db) (row : NotificationRow)
    → find (has_key dedupe_key) db.notification_events ≡ some row
    → IsDelivered dedupe_key row.event (mark_notification_delivered row.event.event_id now db)
unfolding mark_notification_delivered
mark-IsDelivered dedupe_key now db row found = (
  (if is_undelivered row.event.event_id row then deliver_at now row else row),
  find-revised (has_key dedupe_key) (is_undelivered row.event.event_id) (deliver_at now)
      db.notification_events row (λ x. refl) found,
  ground (arith, str_eq_refl row.event.event_id),
  ground arith,
)

-- What a reservation leaves: the row of the key holds the event, delivered if it is not to be.
abbrev pub Reserved : String → Reservation × Db → Type 0
Reserved dedupe_key r =
    (row : NotificationRow) × (find (has_key dedupe_key) r.1.notification_events ≡ some row)
    × (row.event ≡ r.0.event)
    × (r.0.deliver ≡ not (is_some row.delivered_at))

find-none : {A : Type 0} (p : A → Bool) (rows : List A) → find p rows ≡ none → any p rows ≡ false
find-none p [] h = refl
find-none p (x ∷ xs) h = ground (arith, find-none p xs)

reserved-Reserved :
    (found : Option NotificationRow) (event : Event) (dedupe_key sink_kind : String) (db : Db)
    → find (has_key dedupe_key) db.notification_events ≡ found
    → Ensures (Reserved dedupe_key) (reserved found event dedupe_key sink_kind db)
reserved-Reserved (some row) event dedupe_key sink_kind db found = (row, found, refl, refl)
reserved-Reserved none event dedupe_key sink_kind db found =
    Ensures-if (Reserved dedupe_key) (any (has_event event.event_id) db.notification_events) _ _
      (λ used. tt)
      (λ unused. (
        new_row event dedupe_key sink_kind,
        find-last (has_key dedupe_key) db.notification_events _
            (find-none (has_key dedupe_key) db.notification_events found) (str_eq_refl dedupe_key),
        refl,
        refl,
      ))

deliver_event-IsDelivered :
    (dedupe_key : String) (accepts : Event → Bool) (now : ℕ) (m : Result (Reservation × Db))
    (db : Db) (got : Reservation)
    → Ensures (Reserved dedupe_key) m
    → (deliver_event accepts now m db).0 ≡ ok got
    → IsDelivered dedupe_key got.event (deliver_event accepts now m db).1
deliver_event-IsDelivered dedupe_key accepts now (err code) db got h e = cc
deliver_event-IsDelivered dedupe_key accepts now (ok (r, db')) db got (row, found, same, flag) e =
    if_cases (λ (x : Result Reservation × Db). x.0 ≡ ok got → IsDelivered dedupe_key got.event x.1)
      r.deliver _ _
      (λ due.
        if_cases
          (λ (x : Result Reservation × Db). x.0 ≡ ok got → IsDelivered dedupe_key got.event x.1)
          (accepts r.event) _ _
          (λ accepted e'.
            let same_got : r ≡ got = cc in
            let event = ap (λ (x : Reservation). x.event) same_got in
            let marked = mark-IsDelivered dedupe_key now db' row found in
            rw (← event, ← same) marked)
          (λ refused e'. cc))
      (λ kept e'.
        let same_got : r ≡ got = cc in
        (row, found, ground arith, same ∙ ap (λ (x : Reservation). x.event) same_got))
      e

emit_event-IsDelivered :
    (made : Result Event) (dedupe_key sink_kind : String) (accepts : Event → Bool) (now : ℕ)
    (db : Db) (got : Reservation)
    → (emit_event made dedupe_key sink_kind accepts now db).0 ≡ ok got
    → IsDelivered dedupe_key got.event (emit_event made dedupe_key sink_kind accepts now db).1
unfolding reserve_notification
emit_event-IsDelivered (err code) dedupe_key sink_kind accepts now db got e = cc
emit_event-IsDelivered (ok event) dedupe_key sink_kind accepts now db got e =
    deliver_event-IsDelivered dedupe_key accepts now _ db got
      (reserved-Reserved (find (has_key dedupe_key) db.notification_events) event dedupe_key
        sink_kind db refl)
      e

-- A key that is delivered is not delivered again.
emit_event-replayed :
    (event event' : Event) (dedupe_key sink_kind : String) (accepts : Event → Bool) (now : ℕ)
    (db : Db)
    → IsDelivered dedupe_key event db
    → emit_event (ok event') dedupe_key sink_kind accepts now db
      ≡ (ok (record { deliver = false; event = event; replayed = true }), db)
unfolding reserve_notification
emit_event-replayed event event' dedupe_key sink_kind accepts now db (row, found, done, same) =
    rw (found, done, same) refl

-- Once `emit` returns, its event is delivered under its key: a later call with this key, whatever else
-- it says and whatever the sink then does, reaches no sink, changes nothing and returns the first
-- event, marked as replayed.
pub emit-once :
    (notice notice' : Notice) (event_id event_id' : String) (occurred_at occurred_at' : ℕ)
    (delivered_at delivered_at' : ℕ) (sink_kind sink_kind' : String)
    (accepts accepts' : Event → Bool) (db : Db) {got : Reservation} {db₁ : Db} {event' : Event}
    → emit notice event_id occurred_at delivered_at sink_kind accepts db ≡ (ok got, db₁)
    → notice'.dedupe_key ≡ notice.dedupe_key
    → notification_event notice' event_id' occurred_at' ≡ ok event'
    → emit notice' event_id' occurred_at' delivered_at' sink_kind' accepts' db₁
      ≡ (ok (record { deliver = false; event = got.event; replayed = true }), db₁)
unfolding emit
emit-once notice notice' event_id event_id' occurred_at occurred_at' delivered_at delivered_at'
      sink_kind sink_kind' accepts accepts' db {got} {db₁} {event'} e same made =
    let made_first = notification_event notice event_id occurred_at in
    let done =
      emit_event-IsDelivered made_first notice.dedupe_key sink_kind accepts delivered_at db got
        (ap (λ r. r.0) e) in
    let done₁ : IsDelivered notice.dedupe_key got.event db₁ = rw (← ap (λ r. r.1) e) done in
    ap (λ m. emit_event m notice'.dedupe_key sink_kind' accepts' delivered_at' db₁) made
    ∙ ap (λ k. emit_event (ok event') k sink_kind' accepts' delivered_at' db₁) same
    ∙ emit_event-replayed got.event event' notice.dedupe_key sink_kind' accepts' delivered_at' db₁
        done₁
