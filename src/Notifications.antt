-- ===== src/Notifications.antt =====
-- The notifications (codex_work_scheduler/notifications.py). The sink is a parameter: whether it
-- accepts an event. `event_id` is what `new_id` gives, and a dict is its fields, in any order.
pub mod Delivered
mod Tests
use codex_work_scheduler.Common.{
  ℕ, zero, suc, String, Bool, true, false, not, ◌&&◌, Option, none, some, List, [], ◌∷◌, all,
  contains, if◌then◌else◌, Result, ok, err, ◌>>=◌, ◌>>◌, guard,
}
use codex_work_scheduler.Common.Codes.{codes}
use codex_work_scheduler.Json.{
  Value, null, bool, int, float, non_finite, str, arr, obj, Fields, end, field, keys,
}
use codex_work_scheduler.Validation.Fields.{is_alnum, is_identifier_char}
use codex_work_scheduler.Store.Tables.{Db, Event}
use codex_work_scheduler.Store.Notify.{
  Reservation, reserve_notification, mark_notification_delivered,
}

abbrev pub event_types : List String
event_types =
    "completion" ∷ "dispatch" ∷ "hold" ∷ "needs_review" ∷ "safety_stop" ∷ "signal_loss" ∷ []

abbrev pub subject_kinds : List String
subject_kinds = "controller" ∷ "job" ∷ "run" ∷ "service" ∷ []

abbrev pub safe_detail_keys : List String
safe_detail_keys =
    "controller_mode" ∷ "failure_count" ∷ "job_state" ∷ "lease_recovered" ∷ "next_delay_seconds"
    ∷ "package_hash" ∷ "run_id" ∷ "run_state" ∷ []

-- At most `n` characters of the class.
unfoldable pub is_safe_tail : ℕ → List ℕ → Bool
is_safe_tail n [] = true
is_safe_tail zero (c ∷ cs) = false
is_safe_tail (suc n) (c ∷ cs) = let rest = is_safe_tail n cs in is_identifier_char c && rest

abbrev pub is_safe_codes : List ℕ → Bool
is_safe_codes [] = false
is_safe_codes (c ∷ cs) = is_alnum c && is_safe_tail 127 cs

-- `_SAFE_STRING.fullmatch(value)`
abbrev pub is_safe : String → Bool
is_safe s = is_safe_codes (codes s)

abbrev pub is_optional_safe : Option String → Bool
is_optional_safe none = true
is_optional_safe (some s) = is_safe s

-- The values that the loop of `_redacted_details` lets through.
abbrev pub is_safe_scalar : Value → Bool
is_safe_scalar (bool b) = true
is_safe_scalar (int n) = true
is_safe_scalar (float x) = true
is_safe_scalar non_finite = true
is_safe_scalar (str s) = is_safe s
is_safe_scalar null = false
is_safe_scalar (arr vs) = false
is_safe_scalar (obj fs) = false

abbrev pub are_safe_scalars : Fields → Bool
are_safe_scalars end = true
are_safe_scalars (field k v fs) = is_safe_scalar v && are_safe_scalars fs

-- `_redacted_details`
unfoldable pub redacted_details : Value → Result Fields
redacted_details null = ok end
redacted_details (obj fs) = do
  guard (all (λ k. contains k safe_detail_keys) (keys fs)) "NOTIFICATION_REDACTION_REQUIRED"
  guard (are_safe_scalars fs) "NOTIFICATION_REDACTION_REQUIRED"
  ok fs
redacted_details (bool b) = err "NOTIFICATION_INVALID"
redacted_details (int n) = err "NOTIFICATION_INVALID"
redacted_details (float x) = err "NOTIFICATION_INVALID"
redacted_details non_finite = err "NOTIFICATION_INVALID"
redacted_details (str s) = err "NOTIFICATION_INVALID"
redacted_details (arr vs) = err "NOTIFICATION_INVALID"

-- The arguments of `NotificationBus.emit`.
pub record Notice : Type 0 where
  pub event_type : String
  pub dedupe_key : String
  pub subject_kind : String
  pub subject_id : Option String
  pub reason_code : Option String
  pub details : Value

-- The checks of `emit` and the event that it builds.
unfoldable pub notification_event : Notice → String → ℕ → Result Event
notification_event notice event_id occurred_at = do
  guard (contains notice.event_type event_types) "NOTIFICATION_INVALID"
  guard (contains notice.subject_kind subject_kinds) "NOTIFICATION_INVALID"
  guard (is_safe notice.dedupe_key) "NOTIFICATION_INVALID"
  guard (is_optional_safe notice.subject_id) "NOTIFICATION_INVALID"
  guard (is_optional_safe notice.reason_code) "NOTIFICATION_INVALID"
  details ← redacted_details notice.details
  ok (record {
    event_id = event_id;
    event_type = notice.event_type;
    occurred_at = occurred_at;
    reason_code = notice.reason_code;
    subject_id = notice.subject_id;
    subject_kind = notice.subject_kind;
    details = details;
  })

-- The delivery of what was reserved, and the tables that are left.
abbrev pub deliver_event :
    (Event → Bool) → ℕ → Result (Reservation × Db) → Db → Result Reservation × Db
deliver_event accepts delivered_at (err code) db = (err code, db)
deliver_event accepts delivered_at (ok (reservation, db')) db =
    if reservation.deliver
    then if accepts reservation.event
      then (ok reservation, mark_notification_delivered reservation.event.event_id delivered_at db')
      else (err "NOTIFICATION_DELIVERY_FAILED", db')
    else (ok reservation, db')

abbrev pub emit_event :
    Result Event → String → String → (Event → Bool) → ℕ → Db → Result Reservation × Db
emit_event (err code) dedupe_key sink_kind accepts delivered_at db = (err code, db)
emit_event (ok event) dedupe_key sink_kind accepts delivered_at db =
    deliver_event accepts delivered_at (reserve_notification event dedupe_key sink_kind db) db

-- `NotificationBus.emit`
unfoldable pub emit :
    Notice → String → ℕ → ℕ → String → (Event → Bool) → Db → Result Reservation × Db
emit notice event_id occurred_at delivered_at sink_kind accepts db =
    emit_event (notification_event notice event_id occurred_at) notice.dedupe_key sink_kind accepts
      delivered_at db
