-- ===== src/Guard/Decide.antt =====
-- The two decisions of the guard: codex_work_scheduler/quota_guard.py, from `_decision` to
-- `can_resume`.
use codex_work_scheduler.Common.{
  String, Bool, true, false, ◌&&◌, ◌||◌, Option, none, some, List, [], ◌∷◌, ◌++◌, all, contains,
  select, str_eq, if◌then◌else◌, Result, ok, err, ◌>>=◌,
}
use codex_work_scheduler.Common.Int.{ℤ, ◌+ℤ◌, ltb_ℤ, leb_ℤ}
use codex_work_scheduler.Json.{
  Value, null, bool, int, float, non_finite, str, arr, obj, Fields, get, texts, elements,
  is_hashable,
}
use codex_work_scheduler.Guard.Signal.{
  number, percent_min, percent_max, GuardWindow, Windows, window_values, SignalReport,
  signal_status,
}

-- `WINDOW_NAMES`
abbrev pub window_names : List String
window_names = "five_hour" ∷ "weekly" ∷ []

-- `windows[name]`, for a name in `WINDOW_NAMES`.
abbrev pub window_of : String → Windows → GuardWindow
window_of name ws = if str_eq name "five_hour" then ws.five_hour else ws.weekly

-- What `decide_trip` returns. The key `trip` repeats `should_trip`, and `reason_code` is the first
-- reason, so neither is kept.
pub record TripDecision : Type 0 where
  pub should_trip : Bool
  pub contain : Bool
  pub signal_status : String
  pub reasons : List String
  pub tripped_windows : List String

-- The loops of `_decision`: the first occurrence of each value is kept, in order.
abbrev pub keep_new : List String → List String → List String
keep_new seen [] = []
keep_new seen (x ∷ xs) =
    let old = contains x seen in
    let rest = keep_new (if old then seen else x ∷ seen) xs in if old then rest else x ∷ rest

-- `_decision`
unfoldable pub decision : Bool → Bool → String → List String → List String → TripDecision
decision should_trip contain status reasons tripped = record {
  should_trip = should_trip;
  contain = contain;
  signal_status = status;
  reasons = keep_new [] reasons;
  tripped_windows = keep_new [] (select (λ name. contains name window_names) tripped);
}

abbrev pub or_invalid : List String → List String
or_invalid [] = "SIGNAL_INVALID" ∷ []
or_invalid (r ∷ rs) = r ∷ rs

-- `0.0 <= x <= 100.0` fails.
abbrev pub out_of_range : ℤ → Bool
out_of_range x = ltb_ℤ x percent_min || ltb_ℤ percent_max x

abbrev pub at_threshold : ℤ → Windows → List String
at_threshold threshold ws =
    select (λ name. leb_ℤ (window_of name ws).remaining_percent threshold) window_names

abbrev pub has_any : List String → Bool
has_any [] = false
has_any (x ∷ xs) = true

-- The end of `decide_trip`, on the report of the signal. Only a fresh report carries windows.
unfoldable pub trip_on_windows : ℤ → SignalReport → Option Windows → TripDecision
trip_on_windows threshold report none =
    decision true true report.status (or_invalid report.reasons) []
trip_on_windows threshold report (some ws) =
    if str_eq report.status "fresh"
    then (let tripped = at_threshold threshold ws in
        decision (has_any tripped) (has_any tripped) "fresh"
          (if has_any tripped then "QUOTA_THRESHOLD" ∷ [] else []) tripped)
    else decision true true report.status (or_invalid report.reasons) []

-- `decide_trip` on the threshold as a number.
unfoldable pub trip_on_limit : Value → Option ℤ → Option ℤ → ℤ → Result TripDecision
trip_on_limit snapshot none now max_age =
    ok (decision true true "invalid" ("SIGNAL_INVALID" ∷ []) [])
trip_on_limit snapshot (some threshold) now max_age =
    if out_of_range threshold
    then ok (decision true true "invalid" ("SIGNAL_INVALID" ∷ []) [])
    else (signal_status snapshot now max_age >>= λ report.
        ok (trip_on_windows threshold report report.windows))

-- `decide_trip`
unfoldable pub decide_trip : Value → Value → Option ℤ → ℤ → Result TripDecision
decide_trip snapshot threshold_remaining_percent now max_age =
    number threshold_remaining_percent >>= λ threshold. trip_on_limit snapshot threshold now max_age

-- `should_trip`
unfoldable pub should_trip : Value → Value → Option ℤ → ℤ → Result Bool
should_trip snapshot threshold now max_age =
    decide_trip snapshot threshold now max_age >>= λ d. ok (d.should_trip)

-- What `decide_resume` returns. The key `can_resume` repeats `safe_to_resume`.
pub record ResumeDecision : Type 0 where
  pub safe_to_resume : Bool
  pub signal_status : String
  pub reasons : List String
  pub reset_confirmed : Bool
  pub hysteresis_met : Bool
  pub tripped_windows : List String

abbrev pub hold : String → List String → List String → ResumeDecision
hold status reasons caused = record {
  safe_to_resume = false;
  signal_status = status;
  reasons = reasons;
  reset_confirmed = false;
  hysteresis_met = false;
  tripped_windows = caused;
}

-- The windows that the threshold picks from the stop snapshot, the last resort of
-- `_stop_trip_windows`.
abbrev pub computed_windows : ℤ → Option Windows → List String
computed_windows threshold none = []
computed_windows threshold (some ws) = at_threshold threshold ws

-- The stored list of `_stop_trip_windows`; `set(stored)` raises on what cannot be hashed.
unfoldable pub stored_windows : Value → Result (List String)
stored_windows (arr vs) =
    if all is_hashable (elements vs)
    then ok (select (λ name. contains name (texts vs)) window_names)
    else err "TypeError"
stored_windows null = ok []
stored_windows (bool b) = ok []
stored_windows (int n) = ok []
stored_windows (float x) = ok []
stored_windows non_finite = ok []
stored_windows (str s) = ok []
stored_windows (obj fs) = ok []

-- `_stop_trip_windows`, at a threshold that is a number.
unfoldable pub stop_trip_windows : Fields → ℤ → Option (List String) → Result (List String)
unfolding stored_windows
stop_trip_windows stop threshold (some explicit) =
    ok (select (λ name. contains name explicit) window_names)
stop_trip_windows stop threshold none = stored_windows (get "tripped_windows" stop) >>= λ selected.
    if has_any selected
    then ok selected
    else (window_values (obj stop) >>= λ ws. ok (computed_windows threshold ws))

-- The window's reset has moved on and its usage has fallen since the stop.
abbrev pub is_reset : Windows → Windows → String → Bool
is_reset ws stop_windows name =
    ltb_ℤ (window_of name stop_windows).resets_at (window_of name ws).resets_at
    && ltb_ℤ (window_of name ws).used_percent (window_of name stop_windows).used_percent

-- The end of `decide_resume`: both proofs, and the reasons for what is not proved.
unfoldable pub resume_on_windows : ℤ → Windows → Windows → List String → ResumeDecision
resume_on_windows limit ws stop_windows caused =
    let hysteresis_met =
      all (λ name. ltb_ℤ limit (window_of name ws).remaining_percent) window_names in
    let reset_confirmed = all (is_reset ws stop_windows) caused in
    record {
      safe_to_resume = hysteresis_met && reset_confirmed;
      signal_status = "fresh";
      reasons =
          (if hysteresis_met then [] else "HYSTERESIS_NOT_MET" ∷ [])
          ++ (if reset_confirmed then [] else "RESET_NOT_CONFIRMED" ∷ []);
      reset_confirmed = reset_confirmed;
      hysteresis_met = hysteresis_met;
      tripped_windows = caused;
    }

-- `stop_windows is None or not caused`
unfoldable pub resume_from_stop : ℤ → Windows → Option Windows → List String → ResumeDecision
unfolding resume_on_windows
resume_from_stop limit ws none caused = hold "fresh" ("RESET_NOT_CONFIRMED" ∷ []) caused
resume_from_stop limit ws (some stop_windows) [] = hold "fresh" ("RESET_NOT_CONFIRMED" ∷ []) []
resume_from_stop limit ws (some stop_windows) (c ∷ cs) =
    resume_on_windows limit ws stop_windows (c ∷ cs)

-- `stop_snapshot if isinstance(stop_snapshot, dict) else {}`
abbrev pub fields_or_empty : Value → Fields
fields_or_empty (obj fs) = fs
fields_or_empty null = Fields.end
fields_or_empty (bool b) = Fields.end
fields_or_empty (int n) = Fields.end
fields_or_empty (float x) = Fields.end
fields_or_empty non_finite = Fields.end
fields_or_empty (str s) = Fields.end
fields_or_empty (arr vs) = Fields.end

-- `decide_resume` once the two limits are numbers in range.
unfoldable pub resume_on_report :
    SignalReport → Value → ℤ → ℤ → Option (List String) → Option Windows → Result ResumeDecision
unfolding resume_from_stop stop_trip_windows
resume_on_report report stop threshold hysteresis explicit none =
    ok (hold report.status (or_invalid report.reasons) [])
resume_on_report report stop threshold hysteresis explicit (some ws) =
    if str_eq report.status "fresh"
    then (window_values stop >>= λ stop_windows.
        stop_trip_windows (fields_or_empty stop) threshold explicit >>= λ caused.
        ok (resume_from_stop (threshold +ℤ hysteresis) ws stop_windows caused))
    else ok (hold report.status (or_invalid report.reasons) [])

-- `decide_resume` on the two limits as numbers.
unfoldable pub resume_on_limits :
    Value
    → Value
    → Option ℤ
    → Option ℤ
    → Option (List String)
    → Option ℤ
    → ℤ
    → Result ResumeDecision
unfolding resume_on_report
resume_on_limits snapshot stop none hysteresis explicit now max_age =
    ok (hold "invalid" ("SIGNAL_INVALID" ∷ []) [])
resume_on_limits snapshot stop (some threshold) none explicit now max_age =
    ok (hold "invalid" ("SIGNAL_INVALID" ∷ []) [])
resume_on_limits snapshot stop (some threshold) (some hysteresis) explicit now max_age =
    if out_of_range threshold || out_of_range hysteresis
    then ok (hold "invalid" ("SIGNAL_INVALID" ∷ []) [])
    else (signal_status snapshot now max_age >>= λ report.
        resume_on_report report stop threshold hysteresis explicit report.windows)

-- `decide_resume`
unfoldable pub decide_resume :
    Value → Value → Value → Value → Option (List String) → Option ℤ → ℤ → Result ResumeDecision
unfolding resume_on_limits
decide_resume snapshot stop threshold hysteresis explicit now max_age = do
  limit ← number threshold
  margin ← number hysteresis
  resume_on_limits snapshot stop limit margin explicit now max_age

-- `can_resume`
unfoldable pub can_resume :
    Value → Value → Value → Value → Option (List String) → Option ℤ → ℤ → Result Bool
unfolding decide_resume
can_resume snapshot stop threshold hysteresis explicit now max_age =
    decide_resume snapshot stop threshold hysteresis explicit now max_age >>= λ d.
    ok (d.safe_to_resume)
