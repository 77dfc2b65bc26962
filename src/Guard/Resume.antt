-- ===== src/Guard/Resume.antt =====
-- When the guard may resume (codex_work_scheduler/quota_guard.py, `decide_resume`).
use codex_work_scheduler.Common.{
  ◌≡◌, refl, ◌↔◌, ◌∙◌, ap, true, false, Option, none, some, arith, String, Bool-cases, Result, ok,
  err, ◌>>=◌, >>=-eq-ok, inl, inr, List, [], ◌∷◌, all, All, str_eq, ◌||◌,
}
use codex_work_scheduler.Common.Int.{ℤ, ◌+ℤ◌, +ℤ_parts}
use codex_work_scheduler.Json.{Value}
use codex_work_scheduler.Guard.Signal.{number, window_values, signal_status, SignalReport, Windows}
use codex_work_scheduler.Guard.Decide.{
  decide_resume, can_resume, resume_on_limits, resume_on_report, resume_from_stop,
  resume_on_windows, ResumeDecision, out_of_range, should_trip, fields_or_empty, stop_trip_windows,
  window_of, is_reset, hold,
}
use codex_work_scheduler.Guard.Trip.{
  ◌<ℤ◌, IsTrusted, IsAbove, signal_status-IsTrusted, IsTrusted-signal_status, should_trip-IsClear,
}

-- The reset time of a window has moved on, and its usage has fallen, since the stop.
abbrev pub IsReset : Windows → Windows → String → Type 0
IsReset ws stop name =
    ((window_of name stop).resets_at <ℤ (window_of name ws).resets_at)
    × ((window_of name ws).used_percent <ℤ (window_of name stop).used_percent)

-- What it takes to resume.
pub record IsResumable (snapshot stop threshold hysteresis : Value)
    (explicit : Option (List String)) (now : Option ℤ) (max_age : ℤ) : Type 0 where
  pub limit : ℤ
  pub limit_read : number threshold ≡ ok (some limit)
  pub limit_in_range : out_of_range limit ≡ false
  pub margin : ℤ
  pub margin_read : number hysteresis ≡ ok (some margin)
  pub margin_in_range : out_of_range margin ≡ false
  pub windows : Windows
  pub trusted : IsTrusted snapshot now max_age windows
  pub stop_windows : Windows
  pub stop_read : window_values stop ≡ ok (some stop_windows)
  pub cause : String
  pub causes : List String
  pub caused : stop_trip_windows (fields_or_empty stop) limit explicit ≡ ok (cause ∷ causes)
  pub above : IsAbove (limit +ℤ margin) windows
  pub reset : All (IsReset windows stop_windows) (cause ∷ causes)

all-is_reset :
    (ws stop : Windows) (names : List String)
    → (all (is_reset ws stop) names ≡ true) ↔ All (IsReset ws stop) names
all-is_reset ws stop [] = (λ e. tt, λ h. refl)
all-is_reset ws stop (n ∷ ns) =
    (λ e. ground (arith, all-is_reset ws stop ns), λ h. ground (arith, all-is_reset ws stop ns))

resume_on_windows-safe :
    (limit : ℤ) (ws stop : Windows) (names : List String)
    → ((resume_on_windows limit ws stop names).safe_to_resume ≡ true)
      ↔ (IsAbove limit ws × All (IsReset ws stop) names)
unfolding resume_on_windows
resume_on_windows-safe limit ws stop names = (
  λ e. ground (arith, all-is_reset ws stop names),
  λ h. ground (arith, all-is_reset ws stop names),
)

resume_from_stop-safe :
    (limit : ℤ) (ws : Windows) (so : Option Windows) (names : List String)
    → (resume_from_stop limit ws so names).safe_to_resume ≡ true
    → (stop : Windows) × (so ≡ some stop)
      × (c : String) × (cs : List String) × (names ≡ c ∷ cs)
      × IsAbove limit ws
      × All (IsReset ws stop) (c ∷ cs)
unfolding resume_from_stop
resume_from_stop-safe limit ws none names h = cc
resume_from_stop-safe limit ws (some stop) [] h = cc
resume_from_stop-safe limit ws (some stop) (c ∷ cs) h =
    let (above, reset) = (resume_on_windows-safe limit ws stop (c ∷ cs)).0 h in
    (stop, refl, c, cs, refl, above, reset)

-- A successful end of `can_resume`: the decision that was bound last is safe.
safe_of_ok :
    (m : Result ResumeDecision)
    → (m >>= λ d. ok (d.safe_to_resume)) ≡ ok true
    → (d : ResumeDecision) × (m ≡ ok d) × (d.safe_to_resume ≡ true)
safe_of_ok (ok d) h = (d, refl, ground arith)
safe_of_ok (err e) h = cc

held_unsafe :
    {status : String} {reasons names : List String} {d : ResumeDecision}
    → ok (hold status reasons names) ≡ ok d
    → d.safe_to_resume ≡ true
    → ⊥
held_unsafe e h = ground arith

resume_on_report-safe :
    (report : SignalReport) (stop : Value) (threshold hysteresis : ℤ)
    (explicit : Option (List String)) (wo : Option Windows) {d : ResumeDecision}
    → resume_on_report report stop threshold hysteresis explicit wo ≡ ok d
    → d.safe_to_resume ≡ true
    → (ws : Windows) × (wo ≡ some ws)
      × (so : Option Windows) × (window_values stop ≡ ok so)
      × (caused : List String) × (stop_trip_windows (fields_or_empty stop) threshold explicit
          ≡ ok caused)
      × ((resume_from_stop (threshold +ℤ hysteresis) ws so caused).safe_to_resume ≡ true)
unfolding resume_on_report
resume_on_report-safe report stop threshold hysteresis explicit none e h = cc
resume_on_report-safe report stop threshold hysteresis explicit (some ws) {d} e h =
    elim (Bool-cases (str_eq report.status "fresh")) [
      | inl fresh ↦
          let (so, eo, et) = >>=-eq-ok (window_values stop) _ (rw fresh at e) in
          let (caused, ec, es) =
            >>=-eq-ok (stop_trip_windows (fields_or_empty stop) threshold explicit) _ et in
          (ws, refl, so, eo, caused, ec, ground arith)
      | inr stale ↦ absurd (held_unsafe (rw stale at e) h)
    ]

resume_on_limits-IsResumable :
    (snapshot stop : Value) (to ho : Option ℤ) (explicit : Option (List String)) (now : Option ℤ)
    (max_age : ℤ) (threshold hysteresis : Value) {d : ResumeDecision}
    → number threshold ≡ ok to
    → number hysteresis ≡ ok ho
    → resume_on_limits snapshot stop to ho explicit now max_age ≡ ok d
    → d.safe_to_resume ≡ true
    → IsResumable snapshot stop threshold hysteresis explicit now max_age
unfolding resume_on_limits
resume_on_limits-IsResumable snapshot stop none ho explicit now max_age threshold hysteresis et eh e
      h =
    absurd (held_unsafe e h)
resume_on_limits-IsResumable snapshot stop (some t) none explicit now max_age threshold hysteresis
      et eh e h =
    absurd (held_unsafe e h)
resume_on_limits-IsResumable snapshot stop (some t) (some m) explicit now max_age threshold
      hysteresis et eh e h =
    elim (Bool-cases (out_of_range t || out_of_range m)) [
      | inl bad ↦ absurd (held_unsafe (rw bad at e) h)
      | inr good ↦
          let (r, er, es) = >>=-eq-ok (signal_status snapshot now max_age) _ (rw good at e) in
          let (ws, ew, so, eo, caused, ec, safe) =
            resume_on_report-safe r stop t m explicit r.windows es h in
          let (sw, stop_read, c, cs, same, above, reset) =
            resume_from_stop-safe (t +ℤ m) ws so caused safe in
          record {
            limit = t;
            limit_read = et;
            limit_in_range = ground arith;
            margin = m;
            margin_read = eh;
            margin_in_range = ground arith;
            windows = ws;
            trusted = (signal_status-IsTrusted snapshot now max_age er ew).0;
            stop_windows = sw;
            stop_read = eo ∙ ap ok stop_read;
            cause = c;
            causes = cs;
            caused = ec ∙ ap ok same;
            above = above;
            reset = reset;
          }
    ]

IsResumable-can_resume :
    (snapshot stop threshold hysteresis : Value) (explicit : Option (List String)) (now : Option ℤ)
    (max_age : ℤ)
    → IsResumable snapshot stop threshold hysteresis explicit now max_age
    → can_resume snapshot stop threshold hysteresis explicit now max_age ≡ ok true
unfolding can_resume decide_resume
IsResumable-can_resume snapshot stop threshold hysteresis explicit now max_age c =
    rw
      (
        c.limit_read,
        c.margin_read,
        resume_on_limits,
        c.limit_in_range,
        c.margin_in_range,
        IsTrusted-signal_status snapshot now max_age c.windows c.trusted,
        resume_on_report,
        c.stop_read,
        c.caused,
      )
      (ap ok (
        (resume_on_windows-safe (c.limit +ℤ c.margin) c.windows c.stop_windows
            (c.cause ∷ c.causes)).1
          (c.above, c.reset)))

IsAbove-margin :
    (t m : ℤ) (ws : Windows) → out_of_range m ≡ false → IsAbove (t +ℤ m) ws → IsAbove t ws
IsAbove-margin t m ws h above = ground (arith, +ℤ_parts t m)

-- The guard may resume exactly when both limits are numbers from 0 to 100, the signal is trusted,
-- more than the threshold and the margin together remains in both windows, the stop snapshot has
-- valid windows, at least one window caused the stop, and each of those has a later reset time and
-- a lower usage than at the stop.
pub can_resume-IsResumable :
    (snapshot stop threshold hysteresis : Value) (explicit : Option (List String)) (now : Option ℤ)
    (max_age : ℤ)
    → (can_resume snapshot stop threshold hysteresis explicit now max_age ≡ ok true)
      ↔ IsResumable snapshot stop threshold hysteresis explicit now max_age
unfolding can_resume decide_resume
can_resume-IsResumable snapshot stop threshold hysteresis explicit now max_age = (
  λ e.
      let (d, ed, safe) =
        safe_of_ok (decide_resume snapshot stop threshold hysteresis explicit now max_age) e in
      let (to, et, eh) = >>=-eq-ok (number threshold) _ ed in
      let (ho, eho, er) = >>=-eq-ok (number hysteresis) _ eh in
      resume_on_limits-IsResumable snapshot stop to ho explicit now max_age threshold hysteresis et
        eho er safe,
  IsResumable-can_resume snapshot stop threshold hysteresis explicit now max_age,
)

-- A signal on which the guard may resume does not trip it again: resuming cannot oscillate on one
-- and the same snapshot.
pub can_resume-should_trip :
    (snapshot stop threshold hysteresis : Value) (explicit : Option (List String)) (now : Option ℤ)
    (max_age : ℤ)
    → can_resume snapshot stop threshold hysteresis explicit now max_age ≡ ok true
    → should_trip snapshot threshold now max_age ≡ ok false
can_resume-should_trip snapshot stop threshold hysteresis explicit now max_age e =
    let c = (can_resume-IsResumable snapshot stop threshold hysteresis explicit now max_age).0 e in
    (should_trip-IsClear snapshot threshold now max_age).1 (record {
      limit = c.limit;
      limit_read = c.limit_read;
      limit_in_range = c.limit_in_range;
      windows = c.windows;
      trusted = c.trusted;
      above = IsAbove-margin c.limit c.margin c.windows c.margin_in_range c.above;
    })
