-- ===== src/Guard/Raise.antt =====
-- When a decision of the guard raises instead of returning (codex_work_scheduler/quota_guard.py,
-- `_signal_status` and `decide_trip`).
use codex_work_scheduler.Common.{
  ◌≡◌, refl, ap, ◌∙◌, ◌↔◌, ◌⊎◌, false, Option, none, some, arith, String, Bool-cases, Result, ok,
  err, inl, inr,
}
use codex_work_scheduler.Common.Int.{ℤ}
use codex_work_scheduler.Json.{
  Value, null, bool, int, float, non_finite, str, arr, obj, Fields, get, is_hashable,
}
use codex_work_scheduler.Guard.Signal.{
  number, marked_status, reasons_status, object_status, report_or, SignalReport, signal_status,
}
use codex_work_scheduler.Guard.Decide.{decide_trip, trip_on_limit, out_of_range}
use codex_work_scheduler.Guard.Overflow.{
  Fails, IsHuge, HasHugeWindow, HasHugeTime, Fails-bind, first-Fails, next-Fails, ok-succeeds,
  number-Fails, numbers-Fails,
}

-- A snapshot that cannot be judged: its marker is a list or an object, which Python cannot look up
-- in a set, or its marker and its reasons say nothing against it and a number is no float.
abbrev pub IsUnreadable : Value → Type 0
IsUnreadable snapshot =
    (fs : Fields) × (snapshot ≡ obj fs)
    × ((is_hashable (get "signal_status" fs) ≡ false)
        ⊎ ((marked_status (get "signal_status" fs) ≡ ok none)
            × (reasons_status fs ≡ none)
            × (HasHugeWindow fs ⊎ HasHugeTime fs)))

-- The threshold passes its check, so that the signal is read.
pub record IsThreshold (threshold : Value) : Type 0 where
  pub limit : ℤ
  pub limit_read : number threshold ≡ ok (some limit)
  pub limit_in_range : out_of_range limit ≡ false

report_or-Fails :
    (found : Option SignalReport) (rest : Result SignalReport)
    → Fails (report_or found rest)
    → (found ≡ none) × Fails rest
report_or-Fails none rest h = (refl, h)
report_or-Fails (some report) rest h = absurd (ok-succeeds h)

marked_status-Fails : (v : Value) → Fails (marked_status v) ↔ (is_hashable v ≡ false)
unfolding marked_status
marked_status-Fails (arr vs) = (λ h. refl, λ h. ("TypeError", refl))
marked_status-Fails (obj fs) = (λ h. refl, λ h. ("TypeError", refl))
marked_status-Fails null = (λ h. absurd (ok-succeeds h), λ h. cc)
marked_status-Fails (bool b) = (λ h. absurd (ok-succeeds h), λ h. cc)
marked_status-Fails (int n) = (λ h. absurd (ok-succeeds h), λ h. cc)
marked_status-Fails (float x) = (λ h. absurd (ok-succeeds h), λ h. cc)
marked_status-Fails non_finite = (λ h. absurd (ok-succeeds h), λ h. cc)
marked_status-Fails (str s) = (λ (e, h). ground arith, λ h. cc)

object_signal-Fails :
    (fs : Fields) (now : Option ℤ) (max_age : ℤ)
    → Fails (signal_status (obj fs) now max_age)
    → IsUnreadable (obj fs)
unfolding signal_status object_status
object_signal-Fails fs now max_age h =
    let marker = get "signal_status" fs in
    (
      fs,
      refl,
      elim (Fails-bind (marked_status marker) _ h) [
        | inl bad ↦ inl ((marked_status-Fails marker).0 bad)
        | inr (marked, em, h₁) ↦
            let (unmarked, h₂) = report_or-Fails marked _ h₁ in
            let (no_reasons, h₃) = report_or-Fails (reasons_status fs) _ h₂ in
            inr (em ∙ ap ok unmarked, no_reasons, (numbers-Fails fs now max_age).0 h₃)
      ],
    )

signal_status-Fails :
    (v : Value) (now : Option ℤ) (max_age : ℤ)
    → Fails (signal_status v now max_age)
    → IsUnreadable v
unfolding signal_status
signal_status-Fails (obj fs) now max_age h = object_signal-Fails fs now max_age h
signal_status-Fails null now max_age h = absurd (ok-succeeds h)
signal_status-Fails (bool b) now max_age h = absurd (ok-succeeds h)
signal_status-Fails (int n) now max_age h = absurd (ok-succeeds h)
signal_status-Fails (float x) now max_age h = absurd (ok-succeeds h)
signal_status-Fails non_finite now max_age h = absurd (ok-succeeds h)
signal_status-Fails (str s) now max_age h = absurd (ok-succeeds h)
signal_status-Fails (arr vs) now max_age h = absurd (ok-succeeds h)

unreadable_object-Fails :
    (fs : Fields) (now : Option ℤ) (max_age : ℤ)
    → (is_hashable (get "signal_status" fs) ≡ false)
      ⊎ ((marked_status (get "signal_status" fs) ≡ ok none)
          × (reasons_status fs ≡ none)
          × (HasHugeWindow fs ⊎ HasHugeTime fs))
    → Fails (signal_status (obj fs) now max_age)
unfolding signal_status object_status
unreadable_object-Fails fs now max_age (inl bad) =
    first-Fails (marked_status (get "signal_status" fs)) _
      ((marked_status-Fails (get "signal_status" fs)).1 bad)
unreadable_object-Fails fs now max_age (inr (unmarked, no_reasons, huge)) =
    let (e, failed) = (numbers-Fails fs now max_age).1 huge in
    next-Fails (marked_status (get "signal_status" fs))
      (λ marked. object_status fs marked now max_age) unmarked (e, rw no_reasons failed)

IsUnreadable-Fails :
    (v : Value) (now : Option ℤ) (max_age : ℤ)
    → IsUnreadable v
    → Fails (signal_status v now max_age)
IsUnreadable-Fails v now max_age (fs, same, cause) =
    rw same (unreadable_object-Fails fs now max_age cause)

trip_on_limit-Fails :
    (snapshot : Value) (lo now : Option ℤ) (max_age : ℤ)
    → Fails (trip_on_limit snapshot lo now max_age)
    → ((t : ℤ) × (lo ≡ some t) × (out_of_range t ≡ false)) × IsUnreadable snapshot
unfolding trip_on_limit
trip_on_limit-Fails snapshot none now max_age h = absurd (ok-succeeds h)
trip_on_limit-Fails snapshot (some t) now max_age (e, h) = elim (Bool-cases (out_of_range t)) [
  | inl bad ↦ absurd (ok-succeeds (e, rw bad at h))
  | inr good ↦ elim (Fails-bind (signal_status snapshot now max_age) _ (e, rw good at h)) [
    | inl signal ↦ ((t, refl, good), signal_status-Fails snapshot now max_age signal)
    | inr (r, er, h₁) ↦ absurd (ok-succeeds h₁)
  ]
]

limited-Fails :
    (snapshot : Value) (t : ℤ) (now : Option ℤ) (max_age : ℤ)
    → out_of_range t ≡ false
    → IsUnreadable snapshot
    → Fails (trip_on_limit snapshot (some t) now max_age)
unfolding trip_on_limit
limited-Fails snapshot t now max_age good bad = rw good (
    first-Fails (signal_status snapshot now max_age) _
      (IsUnreadable-Fails snapshot now max_age bad))

-- `decide_trip` raises, instead of returning a decision, exactly when its threshold is an integer
-- that is no float, or the threshold is a number from 0 to 100 and the snapshot is an object whose
-- marker is a list or an object, or one that neither its marker nor its reasons reject and where an
-- integer that is no float stands in the first window, in the second one behind a valid first one,
-- or as the time of observation behind two valid windows.
pub decide_trip-raises :
    (snapshot threshold : Value) (now : Option ℤ) (max_age : ℤ)
    → ((e : String) × (decide_trip snapshot threshold now max_age ≡ err e))
      ↔ (IsHuge threshold ⊎ (IsThreshold threshold × IsUnreadable snapshot))
unfolding decide_trip
decide_trip-raises snapshot threshold now max_age = (
  λ h. elim (Fails-bind (number threshold) _ h) [
    | inl huge ↦ inl ((number-Fails threshold).0 huge)
    | inr (lo, el, h₁) ↦
        let ((t, read, good), bad) = trip_on_limit-Fails snapshot lo now max_age h₁ in
        inr (record { limit = t; limit_read = el ∙ ap ok read; limit_in_range = good }, bad)
  ],
  λ cause. elim cause [
    | inl huge ↦ first-Fails (number threshold) _ ((number-Fails threshold).1 huge)
    | inr (t, bad) ↦
        next-Fails (number threshold) (λ lo. trip_on_limit snapshot lo now max_age) t.limit_read
          (limited-Fails snapshot t.limit now max_age t.limit_in_range bad)
  ],
)
