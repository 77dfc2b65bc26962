-- ===== src/Guard/Tests.antt =====
-- The decisions of the guard on concrete snapshots (codex_work_scheduler/quota_guard.py).
use codex_work_scheduler.Guard.Overflow.{IsHuge}
use codex_work_scheduler.Common.{
  ℕ, ◌*◌, ◌^◌, ◌⊎◌, ◌≡◌, refl, ◌↔◌, true, false, none, some, String, ok, err,
}
use codex_work_scheduler.Common.Int.{ℤ, pos, sub_ℕ, ◌+ℤ◌, ◌-ℤ◌}
use codex_work_scheduler.Common.Codes.{insert_code, sorted_set}
use codex_work_scheduler.Contracts.{unit}
use codex_work_scheduler.Json.{is_huge, Value, int, arr, obj, nil, end, field}
use codex_work_scheduler.Guard.Signal.{
  number, observed_status, window_values, window_value, check_window, is_inconsistent,
  marked_status, reasons_status, timed_status, object_status, signal_status,
}
use codex_work_scheduler.Guard.Decide.{
  decide_trip, trip_on_limit, trip_on_windows, decision, should_trip, can_resume,
}
use codex_work_scheduler.Guard.Trip.{IsClear, should_trip-IsClear}
use codex_work_scheduler.Guard.Raise.{IsThreshold, IsUnreadable, decide_trip-raises}
use codex_work_scheduler.Guard.Resume.{IsResumable, can_resume-IsResumable, can_resume-should_trip}

-- `float(10 ** 400)` raises.
overflows : number (int (pos (10 ^ 400))) ≡ err "OverflowError"
unfolding number is_huge
overflows = refl

abbrev window : ℕ → ℕ → ℕ → Value
window remaining used resets_at = obj (
    field "remaining_percent" (int (pos remaining))
      (field "used_percent" (int (pos used)) (field "resets_at" (int (pos resets_at)) end)))

abbrev snapshot : Value → Value → ℕ → Value
snapshot five_hour weekly observed_at = obj (
    field "five_hour" five_hour
      (field "weekly" weekly (field "observed_at" (int (pos observed_at)) end)))

-- Five percent are left of the five hours; later both windows have been reset.
abbrev at_stop : Value
at_stop = snapshot (window 5 95 2000) (window 50 50 9000) 1000

abbrev after_reset : Value
after_reset = snapshot (window 90 10 4000) (window 40 60 9000) 3000

abbrev hour : ℤ
hour = pos (3600 * unit)

stops : should_trip at_stop (int (pos 10)) (some (pos (1010 * unit))) hour ≡ ok true
unfolding should_trip decide_trip trip_on_limit trip_on_windows decision signal_status object_status
    marked_status reasons_status timed_status window_values window_value check_window
    is_inconsistent number is_huge observed_status sorted_set insert_code ◌-ℤ◌ sub_ℕ
stops = refl

resumes :
    can_resume after_reset at_stop (int (pos 10)) (int (pos 5)) none (some (pos (3010 * unit))) hour
    ≡ ok true
unfolding can_resume signal_status object_status marked_status reasons_status timed_status
    window_values window_value check_window is_inconsistent number is_huge observed_status
    sorted_set insert_code ◌-ℤ◌ ◌+ℤ◌ sub_ℕ
resumes = refl

should_trip-IsClear_example :
    (should_trip at_stop (int (pos 10)) none hour ≡ ok false)
    ↔ IsClear at_stop (int (pos 10)) none hour
should_trip-IsClear_example = should_trip-IsClear at_stop (int (pos 10)) none hour

-- A marker that is a list.
decide_trip-raises_example :
    ((e : String) × (decide_trip
          (obj (field "signal_status" (arr nil) end))
          (int (pos 10))
          none
          hour
        ≡ err e))
    ↔ (IsHuge (int (pos 10))
        ⊎ (IsThreshold (int (pos 10)) × IsUnreadable (obj (field "signal_status" (arr nil) end))))
decide_trip-raises_example =
    decide_trip-raises (obj (field "signal_status" (arr nil) end)) (int (pos 10)) none hour

can_resume-IsResumable_example :
    (can_resume after_reset at_stop
        (int (pos 10))
        (int (pos 5))
        none
        (some (pos (3010 * unit)))
        hour
      ≡ ok true)
    ↔ IsResumable after_reset at_stop
        (int (pos 10))
        (int (pos 5))
        none
        (some (pos (3010 * unit)))
        hour
can_resume-IsResumable_example =
    can_resume-IsResumable after_reset at_stop (int (pos 10)) (int (pos 5)) none
      (some (pos (3010 * unit))) hour

can_resume-should_trip_example :
    should_trip after_reset (int (pos 10)) (some (pos (3010 * unit))) hour ≡ ok false
can_resume-should_trip_example =
    can_resume-should_trip after_reset at_stop (int (pos 10)) (int (pos 5)) none
      (some (pos (3010 * unit))) hour resumes
