-- ===== src/Guard/Trip.antt =====
-- When the guard trips (codex_work_scheduler/quota_guard.py, `_signal_status` and `decide_trip`).
use codex_work_scheduler.Common.{
  ◌≡◌, refl, ◌∙◌, ap, sym, ◌↔◌, inl, inr, Bool, true, false, Option, none, some, [], arith,
  Bool-cases, Result, ok, ◌>>=◌, >>=-eq-ok, ◌+◌, ◌<◌,
}
use codex_work_scheduler.Common.Int.{ℤ, negsuc, pos_part, neg_part, ◌-ℤ◌, ◌≤ℤ◌}
use codex_work_scheduler.Json.{
  Value, null, bool, int, float, non_finite, str, arr, obj, Fields, get,
}
use codex_work_scheduler.Guard.Signal.{
  number, Windows, window_values, SignalReport, signal_status, timed_status, observed_status,
  object_status, reasons_status, marked_status,
}
use codex_work_scheduler.Guard.Decide.{
  TripDecision, decide_trip, should_trip, trip_on_limit, trip_on_windows, decision, out_of_range,
}

-- The time at which the snapshot is judged: `now`, or the time of observation.
abbrev pub compare_time : Option ℤ → ℤ → ℤ
compare_time none observed_at = observed_at
compare_time (some t) observed_at = t

infix 50 ◌<ℤ◌
abbrev pub ◌<ℤ◌ : ℤ → ℤ → Type 0
a <ℤ b = pos_part a + neg_part b < pos_part b + neg_part a

-- A signal that the guard trusts: windows that pass every check, observed at most 60 seconds after
-- the time of the judgement and at most `max_age` before it, none of them reset yet.
pub record IsTrusted (snapshot : Value) (now : Option ℤ) (max_age : ℤ) (ws : Windows) : Type 0 where
  pub fields : Fields
  pub is_object : snapshot ≡ obj fields
  pub unmarked : marked_status (get "signal_status" fields) ≡ ok none
  pub no_reasons : reasons_status fields ≡ none
  pub read : window_values (obj fields) ≡ ok (some ws)
  pub observed_at : ℤ
  pub observed : number (get "observed_at" fields) ≡ ok (some observed_at)
  pub not_ahead : negsuc 59_999_999_999 ≤ℤ compare_time now observed_at -ℤ observed_at
  pub not_old : compare_time now observed_at -ℤ observed_at ≤ℤ max_age
  pub five_hour_pending : compare_time now observed_at <ℤ ws.five_hour.resets_at
  pub weekly_pending : compare_time now observed_at <ℤ ws.weekly.resets_at

timed_status-windows :
    (v : Windows) (oo now : Option ℤ) (max_age : ℤ) (ws : Windows)
    → (timed_status v oo now max_age).windows ≡ some ws
    → (o : ℤ) × (v ≡ ws)
      × (oo ≡ some o)
      × (negsuc 59_999_999_999 ≤ℤ compare_time now o -ℤ o)
      × (compare_time now o -ℤ o ≤ℤ max_age)
      × (compare_time now o <ℤ ws.five_hour.resets_at)
      × (compare_time now o <ℤ ws.weekly.resets_at)
unfolding timed_status
timed_status-windows v none now max_age ws h = cc
timed_status-windows v (some o) now max_age ws h =
    (o, ground arith, ground arith, ground arith, ground arith, ground arith, ground arith)

timed_status-fresh :
    (v : Windows) (oo now : Option ℤ) (max_age : ℤ) (ws : Windows)
    → (timed_status v oo now max_age).windows ≡ some ws
    → (timed_status v oo now max_age).status ≡ "fresh"
unfolding timed_status
timed_status-fresh v none now max_age ws h = cc
timed_status-fresh v (some o) now max_age ws h = ground arith

-- What a report with windows rests on: the numbers that were read.
observed_status-windows :
    (fs : Fields) (wo : Option Windows) (now : Option ℤ) (max_age : ℤ) {r : SignalReport}
    {ws : Windows}
    → observed_status fs wo now max_age ≡ ok r
    → r.windows ≡ some ws
    → (oo : Option ℤ) × (wo ≡ some ws)
      × (number (get "observed_at" fs) ≡ ok oo)
      × (timed_status ws oo now max_age ≡ r)
unfolding observed_status
observed_status-windows fs none now max_age e h = ground arith
observed_status-windows fs (some v) now max_age {r} {ws} e h =
    let (oo, read, er) = >>=-eq-ok (number (get "observed_at" fs)) _ e in
    let timed : timed_status v oo now max_age ≡ r = cc in
    let (_, same, _, _, _, _, _) =
      timed_status-windows v oo now max_age ws (ap (λ (x : SignalReport). x.windows) timed ∙ h) in
    (oo, ap some same, read, ap (λ x. timed_status x oo now max_age) (sym same) ∙ timed)

-- The windows of a report of an object come from the checks of time alone.
object_status-windows :
    (fs : Fields) (marked : Option SignalReport) (now : Option ℤ) (max_age : ℤ) {r : SignalReport}
    {ws : Windows}
    → ((x : SignalReport) → marked ≡ some x → x.windows ≡ none)
    → object_status fs marked now max_age ≡ ok r
    → r.windows ≡ some ws
    → (marked ≡ none)
      × (reasons_status fs ≡ none)
      × ((window_values (obj fs) >>= λ windows. observed_status fs windows now max_age) ≡ ok r)
unfolding object_status reasons_status
object_status-windows fs (some x) now max_age m e h = ground (arith, m x refl)
object_status-windows fs none now max_age m e h = ground arith

marked_status-windows :
    (v : Value) {r : SignalReport} → marked_status v ≡ ok (some r) → r.windows ≡ none
unfolding marked_status
marked_status-windows (str s) h = ground arith
marked_status-windows (arr vs) h = cc
marked_status-windows (obj fs) h = cc
marked_status-windows null h = cc
marked_status-windows (bool b) h = cc
marked_status-windows (int n) h = cc
marked_status-windows (float x) h = cc
marked_status-windows non_finite h = cc

object_signal-IsTrusted :
    (fs : Fields) (marked : Option SignalReport) (now : Option ℤ) (max_age : ℤ) {r : SignalReport}
    {ws : Windows}
    → marked_status (get "signal_status" fs) ≡ ok marked
    → object_status fs marked now max_age ≡ ok r
    → r.windows ≡ some ws
    → IsTrusted (obj fs) now max_age ws × (r.status ≡ "fresh")
object_signal-IsTrusted fs marked now max_age {r} {ws} em e h =
    let (unmarked, no_reasons, et) =
      object_status-windows fs marked now max_age
        (λ x ex. marked_status-windows (get "signal_status" fs) (em ∙ ap ok ex)) e h in
    let (wo, read, eo) = >>=-eq-ok (window_values (obj fs)) _ et in
    let (oo, some_windows, observed_read, timed) = observed_status-windows fs wo now max_age eo h in
    let windows = ap (λ (x : SignalReport). x.windows) timed ∙ h in
    let (o, _, observed, ahead, old, five, week) =
      timed_status-windows ws oo now max_age ws windows in
    (
      record {
        fields = fs;
        is_object = refl;
        unmarked = em ∙ ap ok unmarked;
        no_reasons = no_reasons;
        read = read ∙ ap ok some_windows;
        observed_at = o;
        observed = observed_read ∙ ap ok observed;
        not_ahead = ahead;
        not_old = old;
        five_hour_pending = five;
        weekly_pending = week;
      },
      sym (ap (λ (x : SignalReport). x.status) timed)
          ∙ timed_status-fresh ws oo now max_age ws windows,
    )

-- A report that carries windows is fresh, and its snapshot is trusted.
pub signal_status-IsTrusted :
    (v : Value) (now : Option ℤ) (max_age : ℤ) {r : SignalReport} {ws : Windows}
    → signal_status v now max_age ≡ ok r
    → r.windows ≡ some ws
    → IsTrusted v now max_age ws × (r.status ≡ "fresh")
unfolding signal_status
signal_status-IsTrusted (obj fs) now max_age e h =
    let (marked, em, er) = >>=-eq-ok (marked_status (get "signal_status" fs)) _ e in
    object_signal-IsTrusted fs marked now max_age em er h
signal_status-IsTrusted null now max_age e h = cc
signal_status-IsTrusted (bool b) now max_age e h = cc
signal_status-IsTrusted (int n) now max_age e h = cc
signal_status-IsTrusted (float x) now max_age e h = cc
signal_status-IsTrusted non_finite now max_age e h = cc
signal_status-IsTrusted (str s) now max_age e h = cc
signal_status-IsTrusted (arr vs) now max_age e h = cc

-- The remaining share of each window is above the threshold.
abbrev pub IsAbove : ℤ → Windows → Type 0
IsAbove threshold ws =
    (threshold <ℤ ws.five_hour.remaining_percent) × (threshold <ℤ ws.weekly.remaining_percent)

-- What it takes for the guard not to trip.
pub record IsClear (snapshot threshold : Value) (now : Option ℤ) (max_age : ℤ) : Type 0 where
  pub limit : ℤ
  pub limit_read : number threshold ≡ ok (some limit)
  pub limit_in_range : out_of_range limit ≡ false
  pub windows : Windows
  pub trusted : IsTrusted snapshot now max_age windows
  pub above : IsAbove limit windows

trip_on_windows-clear :
    (threshold : ℤ) (report : SignalReport) (wo : Option Windows)
    → (trip_on_windows threshold report wo).should_trip ≡ false
    → (ws : Windows) × (wo ≡ some ws) × IsAbove threshold ws
unfolding trip_on_windows decision
trip_on_windows-clear threshold report none h = cc
trip_on_windows-clear threshold report (some ws) h = (ws, refl, ground arith)

-- A trusted signal gives a fresh report.
pub IsTrusted-signal_status :
    (v : Value) (now : Option ℤ) (max_age : ℤ) (ws : Windows)
    → IsTrusted v now max_age ws
    → signal_status v now max_age
      ≡ ok (record { status = "fresh"; windows = some ws; reasons = [] })
unfolding signal_status object_status observed_status timed_status
IsTrusted-signal_status v now max_age ws h =
    rw (h.is_object, signal_status, h.unmarked, h.no_reasons, h.read, h.observed) (ground arith)

trip_report-IsClear :
    (snapshot : Value) (t : ℤ) (now : Option ℤ) (max_age : ℤ)
    → ((signal_status snapshot now max_age >>= λ r. ok (trip_on_windows t r r.windows)) >>= λ d.
        ok (d.should_trip))
      ≡ ok false
    → (ws : Windows) × IsTrusted snapshot now max_age ws × IsAbove t ws
trip_report-IsClear snapshot t now max_age e =
    let (d, ed, ef) = >>=-eq-ok _ _ e in
    let (r, er, eg) = >>=-eq-ok (signal_status snapshot now max_age) _ ed in
    let same : trip_on_windows t r r.windows ≡ d = cc in
    let (ws, some_windows, above) =
      trip_on_windows-clear t r r.windows (ap (λ (x : TripDecision). x.should_trip) same ∙ cc) in
    (ws, (signal_status-IsTrusted snapshot now max_age er some_windows).0, above)

trips_out_of_range : ◌≡◌ {A = Result Bool} (ok true) (ok false) → ⊥
trips_out_of_range e = cc

trip_on_limit-IsClear :
    (snapshot : Value) (lo now : Option ℤ) (max_age : ℤ)
    → (trip_on_limit snapshot lo now max_age >>= λ d. ok (d.should_trip)) ≡ ok false
    → (t : ℤ) × (lo ≡ some t)
      × (out_of_range t ≡ false)
      × (ws : Windows) × IsTrusted snapshot now max_age ws
      × IsAbove t ws
unfolding trip_on_limit decision
trip_on_limit-IsClear snapshot none now max_age e = cc
trip_on_limit-IsClear snapshot (some t) now max_age e = elim (Bool-cases (out_of_range t)) [
  | inl bad ↦ absurd (trips_out_of_range (rw bad at e))
  | inr good ↦
      let (ws, trusted, above) = trip_report-IsClear snapshot t now max_age (rw good at e) in
      (t, refl, good, ws, trusted, above)
]

-- The guard does not trip exactly when its threshold is a number from 0 to 100, its signal is
-- trusted, and in both windows more than the threshold remains.
pub should_trip-IsClear :
    (snapshot threshold : Value) (now : Option ℤ) (max_age : ℤ)
    → (should_trip snapshot threshold now max_age ≡ ok false)
      ↔ IsClear snapshot threshold now max_age
unfolding decide_trip should_trip trip_on_limit trip_on_windows decision
should_trip-IsClear snapshot threshold now max_age = (
  λ e.
      let (d, ed, not_tripped) = >>=-eq-ok (decide_trip snapshot threshold now max_age) _ e in
      let (lo, limit_read, el) = >>=-eq-ok (number threshold) _ ed in
      let (t, read, good, ws, trusted, above) =
        trip_on_limit-IsClear snapshot lo now max_age
          (ap (λ m. m >>= λ (x : TripDecision). ok (x.should_trip)) el ∙ not_tripped) in
      record {
        limit = t;
        limit_read = limit_read ∙ ap ok read;
        limit_in_range = good;
        windows = ws;
        trusted = trusted;
        above = above;
      },
  λ c.
      rw
        (
          c.limit_read,
          trip_on_limit,
          c.limit_in_range,
          IsTrusted-signal_status snapshot now max_age c.windows c.trusted,
        )
        (ground arith),
)
