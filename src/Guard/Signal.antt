-- ===== src/Guard/Signal.antt =====
-- What the guard reads from a quota snapshot: the first helpers of
-- codex_work_scheduler/quota_guard.py, from `_number` to `_signal_status`.
use codex_work_scheduler.Common.{
  String, Bool, false, not, ◌&&◌, ◌||◌, Option, none, some, List, [], ◌∷◌, contains, select, str_eq,
  if◌then◌else◌, Result, ok, err, ◌>>=◌,
}
use codex_work_scheduler.Common.Int.{ℤ, pos, negsuc, ◌-ℤ◌, ltb_ℤ, leb_ℤ}
use codex_work_scheduler.Common.Codes.{sorted_set}
use codex_work_scheduler.Json.{
  is_huge, Value, null, bool, int, float, non_finite, str, arr, obj, Fields, get, texts, scale,
}

-- The floats 0.0 and 100.0.
abbrev pub percent_min : ℤ
percent_min = pos 0

abbrev pub percent_max : ℤ
percent_max = pos 100_000_000_000

-- `_number`: a finite number that is not a Boolean, as a float.
unfoldable pub number : Value → Result (Option ℤ)
number (int n) = if is_huge n then err "OverflowError" else ok (some (scale n))
number (float x) = ok (some x)
number null = ok none
number (bool b) = ok none
number non_finite = ok none
number (str s) = ok none
number (arr vs) = ok none
number (obj fs) = ok none

-- The values of one window, and of both.
pub record GuardWindow : Type 0 where
  pub remaining_percent : ℤ
  pub used_percent : ℤ
  pub resets_at : ℤ

pub record Windows : Type 0 where
  pub five_hour : GuardWindow
  pub weekly : GuardWindow

-- `lo <= x <= hi`
abbrev pub is_between : ℤ → ℤ → ℤ → Bool
is_between lo hi x = leb_ℤ lo x && leb_ℤ x hi

-- `abs((100.0 - used) - remaining) > 0.000001`
unfoldable pub is_inconsistent : ℤ → ℤ → Bool
is_inconsistent used remaining =
    let gap = percent_max -ℤ used -ℤ remaining in ltb_ℤ (pos 1000) gap || ltb_ℤ gap (negsuc 999)

-- The checks on the three numbers of a window, in the order of the loop's body.
unfoldable pub check_window : Option ℤ → Option ℤ → Option ℤ → Option GuardWindow
check_window none used resets_at = none
check_window (some remaining) none resets_at = none
check_window (some remaining) (some used) none = none
check_window (some remaining) (some used) (some resets_at) =
    if not (is_between percent_min percent_max remaining)
      || not (is_between percent_min percent_max used)
    then none
    else if leb_ℤ resets_at (pos 0)
    then none
    else if is_inconsistent used remaining
    then none
    else some (record { remaining_percent = remaining; used_percent = used; resets_at = resets_at })

-- The body of the loop of `_window_values`: the three numbers are read before they are checked.
unfoldable pub window_value : Value → Result (Option GuardWindow)
window_value (obj fs) = do
  remaining ← number (get "remaining_percent" fs)
  used ← number (get "used_percent" fs)
  resets_at ← number (get "resets_at" fs)
  ok (check_window remaining used resets_at)
window_value null = ok none
window_value (bool b) = ok none
window_value (int n) = ok none
window_value (float x) = ok none
window_value non_finite = ok none
window_value (str s) = ok none
window_value (arr vs) = ok none

abbrev pub both_windows : GuardWindow → Option GuardWindow → Option Windows
both_windows v none = none
both_windows v (some w) = some (record { five_hour = v; weekly = w })

-- The second window is read only behind a first one that passes.
abbrev pub and_weekly : Option GuardWindow → Value → Result (Option Windows)
and_weekly none weekly = ok none
and_weekly (some v) weekly = window_value weekly >>= λ w. ok (both_windows v w)

-- `_window_values`
unfoldable pub window_values : Value → Result (Option Windows)
window_values (obj fs) = window_value (get "five_hour" fs) >>= λ v. and_weekly v (get "weekly" fs)
window_values null = ok none
window_values (bool b) = ok none
window_values (int n) = ok none
window_values (float x) = ok none
window_values non_finite = ok none
window_values (str s) = ok none
window_values (arr vs) = ok none

-- `_SIGNAL_REASON_CODES`
abbrev pub signal_reason_codes : List String
signal_reason_codes =
    "SIGNAL_MISSING" ∷ "SIGNAL_STALE" ∷ "SIGNAL_INVALID" ∷ "SIGNAL_AMBIGUOUS" ∷ "PROFILE_MISMATCH"
    ∷ "ACCOUNT_IDENTITY_UNAVAILABLE" ∷ []

-- What `_signal_status` returns.
pub record SignalReport : Type 0 where
  pub status : String
  pub windows : Option Windows
  pub reasons : List String

abbrev pub bad_signal : String → String → SignalReport
bad_signal status code = record { status = status; windows = none; reasons = code ∷ [] }

-- `code.removeprefix("SIGNAL_").lower()`, on the codes that reach it.
abbrev pub status_of_code : String → String
status_of_code code =
    if str_eq code "SIGNAL_MISSING"
    then "missing"
    else if str_eq code "SIGNAL_STALE"
    then "stale"
    else if str_eq code "SIGNAL_INVALID"
    then "invalid"
    else if str_eq code "PROFILE_MISMATCH"
    then "profile_mismatch"
    else "account_identity_unavailable"

-- `marker in {"missing", "stale", "invalid", "ambiguous"}`: the report that such a marker gives. A
-- marker that cannot be hashed raises `TypeError`.
unfoldable pub marked_status : Value → Result (Option SignalReport)
marked_status (str s) =
    if str_eq s "missing"
    then ok (some (bad_signal "missing" "SIGNAL_MISSING"))
    else if str_eq s "stale"
    then ok (some (bad_signal "stale" "SIGNAL_STALE"))
    else if str_eq s "invalid"
    then ok (some (bad_signal "invalid" "SIGNAL_INVALID"))
    else if str_eq s "ambiguous"
    then ok (some (bad_signal "ambiguous" "SIGNAL_AMBIGUOUS"))
    else ok none
marked_status (arr vs) = err "TypeError"
marked_status (obj fs) = err "TypeError"
marked_status null = ok none
marked_status (bool b) = ok none
marked_status (int n) = ok none
marked_status (float x) = ok none
marked_status non_finite = ok none

-- The texts of `snapshot["reasons"]`; anything but a list counts as none.
abbrev pub marker_reasons : Value → List String
marker_reasons (arr vs) = texts vs
marker_reasons null = []
marker_reasons (bool b) = []
marker_reasons (int n) = []
marker_reasons (float x) = []
marker_reasons non_finite = []
marker_reasons (str s) = []
marker_reasons (obj fs) = []

abbrev pub is_true : Value → Bool
is_true (bool b) = b
is_true null = false
is_true (int n) = false
is_true (float x) = false
is_true non_finite = false
is_true (str s) = false
is_true (arr vs) = false
is_true (obj fs) = false

-- The report that the snapshot's own reasons give: the least known code among them.
unfoldable pub reasons_status : Fields → Option SignalReport
reasons_status fs =
    let reasons = marker_reasons (get "reasons" fs) in
    if is_true (get "ambiguous" fs) || contains "SIGNAL_AMBIGUOUS" reasons
    then some (bad_signal "ambiguous" "SIGNAL_AMBIGUOUS")
    else elim (sorted_set (select (λ r. contains r signal_reason_codes) reasons)) [
      | [] ↦ none
      | code ∷ rest ↦ some (bad_signal (status_of_code code) code)
    ]

-- The checks of the age and of the resets, on the windows and the time of observation.
unfoldable pub timed_status : Windows → Option ℤ → Option ℤ → ℤ → SignalReport
timed_status ws none now max_age = bad_signal "invalid" "SIGNAL_INVALID"
timed_status ws (some observed_at) now max_age =
    let compare_at : ℤ = elim now [ none ↦ observed_at | some t ↦ t ] in
    let age = compare_at -ℤ observed_at in
    if ltb_ℤ age (negsuc 59_999_999_999)
    then bad_signal "invalid" "SIGNAL_INVALID"
    else if ltb_ℤ max_age age
    then bad_signal "stale" "SIGNAL_STALE"
    else if leb_ℤ ws.five_hour.resets_at compare_at || leb_ℤ ws.weekly.resets_at compare_at
    then bad_signal "stale" "SIGNAL_STALE"
    else record { status = "fresh"; windows = some ws; reasons = [] }

-- The time of observation is read only where the windows are valid.
unfoldable pub observed_status : Fields → Option Windows → Option ℤ → ℤ → Result SignalReport
observed_status fs none now max_age = ok (bad_signal "invalid" "SIGNAL_INVALID")
observed_status fs (some ws) now max_age = do
  observed_at ← number (get "observed_at" fs)
  ok (timed_status ws observed_at now max_age)

-- An early return, or what follows it.
abbrev pub report_or : Option SignalReport → Result SignalReport → Result SignalReport
report_or (some report) rest = ok report
report_or none rest = rest

-- `_signal_status` on an object, after its marker.
unfoldable pub object_status : Fields → Option SignalReport → Option ℤ → ℤ → Result SignalReport
object_status fs marked now max_age = report_or marked (
    report_or (reasons_status fs)
      (window_values (obj fs) >>= λ windows. observed_status fs windows now max_age))

-- `_signal_status`
unfoldable pub signal_status : Value → Option ℤ → ℤ → Result SignalReport
signal_status null now max_age = ok (bad_signal "missing" "SIGNAL_MISSING")
signal_status (obj fs) now max_age = do
  marked ← marked_status (get "signal_status" fs)
  object_status fs marked now max_age
signal_status (bool b) now max_age = ok (bad_signal "invalid" "SIGNAL_INVALID")
signal_status (int n) now max_age = ok (bad_signal "invalid" "SIGNAL_INVALID")
signal_status (float x) now max_age = ok (bad_signal "invalid" "SIGNAL_INVALID")
signal_status non_finite now max_age = ok (bad_signal "invalid" "SIGNAL_INVALID")
signal_status (str s) now max_age = ok (bad_signal "invalid" "SIGNAL_INVALID")
signal_status (arr vs) now max_age = ok (bad_signal "invalid" "SIGNAL_INVALID")
