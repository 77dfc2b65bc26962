-- ===== src/Guard/Thread.antt =====
-- What the quota guard makes of the read of a task: `_read_thread`, `_thread_completed`,
-- `_active_turn` and `_turn_terminal` of codex_work_scheduler/quota_guard.py. `value` is what the
-- adapter answers. The last three are only called on what the first returns, so that the states they
-- compare are those that it lets through.
use codex_work_scheduler.Common.{
  String, Bool, true, false, not, ◌&&◌, Option, none, some, List, [], ◌∷◌, any, str_eq, is_some,
  if◌then◌else◌, Result, ok, err, ◌>>=◌, ◌>>◌, guard,
}
use codex_work_scheduler.Json.{
  Value, null, bool, int, float, non_finite, str, arr, obj, Fields, Items, nil, cons, get, has_key,
}

pub data ThreadStatus : Type 0 where
  active idle not_loaded system_error : ThreadStatus

pub data TurnStatus : Type 0 where
  completed interrupted failed in_progress : TurnStatus

pub record Turn : Type 0 where
  pub id : Option String
  pub status : TurnStatus

-- What `_read_thread` returns.
pub record ThreadRead : Type 0 where
  pub thread_id : String
  pub status : ThreadStatus
  pub active_turn_id : Option String
  pub turns : List Turn

-- `fields.get(key, default)`
abbrev pub get_or : String → Value → Fields → Value
get_or key default fields = if has_key key fields then get key fields else default

-- The read itself, or the one under "thread".
abbrev pub thread_of : Value → Fields → Fields
thread_of (obj thread) value = thread
thread_of null value = value
thread_of (bool b) value = value
thread_of (int n) value = value
thread_of (float x) value = value
thread_of non_finite value = value
thread_of (str s) value = value
thread_of (arr vs) value = value

-- `returned_id is not None and returned_id != thread_id`
abbrev pub is_other_id : String → Value → Bool
is_other_id thread_id null = false
is_other_id thread_id (str s) = not (str_eq s thread_id)
is_other_id thread_id (bool b) = true
is_other_id thread_id (int n) = true
is_other_id thread_id (float x) = true
is_other_id thread_id non_finite = true
is_other_id thread_id (arr vs) = true
is_other_id thread_id (obj fs) = true

-- `if isinstance(status, dict): status = status.get("type", status.get("status"))`
abbrev pub inner_status : Value → Value
inner_status (obj fs) = get_or "type" (get "status" fs) fs
inner_status null = null
inner_status (bool b) = bool b
inner_status (int n) = int n
inner_status (float x) = float x
inner_status non_finite = non_finite
inner_status (str s) = str s
inner_status (arr vs) = arr vs

-- `status not in {...}`, which raises on a list or an object.
unfoldable pub thread_status : Value → Result ThreadStatus
thread_status (str s) =
    if str_eq s "active"
    then ok active
    else if str_eq s "idle"
    then ok idle
    else if str_eq s "notLoaded"
    then ok not_loaded
    else if str_eq s "systemError"
    then ok system_error
    else err "THREAD_READ_INVALID"
thread_status (arr vs) = err "TypeError"
thread_status (obj fs) = err "TypeError"
thread_status null = err "THREAD_READ_INVALID"
thread_status (bool b) = err "THREAD_READ_INVALID"
thread_status (int n) = err "THREAD_READ_INVALID"
thread_status (float x) = err "THREAD_READ_INVALID"
thread_status non_finite = err "THREAD_READ_INVALID"

-- `turn_status not in {...}`
unfoldable pub turn_status : Value → Result TurnStatus
turn_status (str s) =
    if str_eq s "completed"
    then ok completed
    else if str_eq s "interrupted"
    then ok interrupted
    else if str_eq s "failed"
    then ok failed
    else if str_eq s "inProgress"
    then ok in_progress
    else err "THREAD_READ_INVALID"
turn_status (arr vs) = err "TypeError"
turn_status (obj fs) = err "TypeError"
turn_status null = err "THREAD_READ_INVALID"
turn_status (bool b) = err "THREAD_READ_INVALID"
turn_status (int n) = err "THREAD_READ_INVALID"
turn_status (float x) = err "THREAD_READ_INVALID"
turn_status non_finite = err "THREAD_READ_INVALID"

-- An optional text.
abbrev pub optional_id : Value → Result (Option String)
optional_id null = ok none
optional_id (str s) = ok (some s)
optional_id (bool b) = err "THREAD_READ_INVALID"
optional_id (int n) = err "THREAD_READ_INVALID"
optional_id (float x) = err "THREAD_READ_INVALID"
optional_id non_finite = err "THREAD_READ_INVALID"
optional_id (arr vs) = err "THREAD_READ_INVALID"
optional_id (obj fs) = err "THREAD_READ_INVALID"

abbrev pub same_id : Option String → Option String → Bool
same_id none none = true
same_id none (some b) = false
same_id (some a) none = false
same_id (some a) (some b) = str_eq a b

-- The body of the loop over the turns, where `seen` is `seen_turns`.
unfoldable pub turn_of : List (Option String) → Value → Result Turn
turn_of seen (obj fs) = do
  id ← optional_id (get_or "id" (get "turn_id" fs) fs)
  guard (not (any (same_id id) seen)) "THREAD_READ_INVALID"
  status ← turn_status (get_or "status" (get "turn_status" fs) fs)
  ok (record { id = id; status = status })
turn_of seen null = err "THREAD_READ_INVALID"
turn_of seen (bool b) = err "THREAD_READ_INVALID"
turn_of seen (int n) = err "THREAD_READ_INVALID"
turn_of seen (float x) = err "THREAD_READ_INVALID"
turn_of seen non_finite = err "THREAD_READ_INVALID"
turn_of seen (str s) = err "THREAD_READ_INVALID"
turn_of seen (arr vs) = err "THREAD_READ_INVALID"

unfoldable pub turns_of : List (Option String) → Items → Result (List Turn)
turns_of seen nil = ok []
turns_of seen (cons v vs) = do
  turn ← turn_of seen v
  turns ← turns_of (turn.id ∷ seen) vs
  ok (turn ∷ turns)

abbrev pub turn_items : Value → Result Items
turn_items null = ok nil
turn_items (arr vs) = ok vs
turn_items (bool b) = err "THREAD_READ_INVALID"
turn_items (int n) = err "THREAD_READ_INVALID"
turn_items (float x) = err "THREAD_READ_INVALID"
turn_items non_finite = err "THREAD_READ_INVALID"
turn_items (str s) = err "THREAD_READ_INVALID"
turn_items (obj fs) = err "THREAD_READ_INVALID"

abbrev pub is_in_progress : TurnStatus → Bool
is_in_progress in_progress = true
is_in_progress completed = false
is_in_progress interrupted = false
is_in_progress failed = false

-- `active_turns`
abbrev pub active_turns : List Turn → List (Option String)
active_turns [] = []
active_turns (turn ∷ turns) =
    let rest = active_turns turns in if is_in_progress turn.status then turn.id ∷ rest else rest

abbrev pub is_active : ThreadStatus → Bool
is_active active = true
is_active idle = false
is_active not_loaded = false
is_active system_error = false

-- A text that is not empty, or nothing.
abbrev pub is_valid_id : Option String → Bool
is_valid_id none = true
is_valid_id (some s) = not (str_eq s "")

-- The three checks behind the loop, and the turn that is active.
abbrev pub joined_turn :
    ThreadStatus → Option String → List (Option String) → Result (Option String)
joined_turn status none [] = ok none
joined_turn status none (turn ∷ []) =
    if is_active status then ok turn else err "THREAD_READ_INVALID"
joined_turn status (some id) [] =
    if is_active status then ok (some id) else err "THREAD_READ_INVALID"
joined_turn status (some id) (turn ∷ []) =
    if same_id (some id) turn && is_active status then ok (some id) else err "THREAD_READ_INVALID"
joined_turn status id (turn ∷ turn' ∷ turns) = err "THREAD_READ_INVALID"

-- `_read_thread`, on the answer of the adapter.
abbrev pub read_fields : String → Fields → Fields → Result ThreadRead
read_fields thread_id value thread = do
  guard (not (is_other_id thread_id (get_or "id" (get "thread_id" thread) thread)))
      "THREAD_ID_MISMATCH"
  status ← thread_status (inner_status (get_or "status" (get "thread_status" thread) thread))
  id ← optional_id (get_or "active_turn_id" (get "active_turn_id" value) thread)
  guard (is_valid_id id) "THREAD_READ_INVALID"
  items ← turn_items (get_or "turns" (get "turns" value) thread)
  turns ← turns_of [] items
  turn ← joined_turn status id (active_turns turns)
  ok (record { thread_id = thread_id; status = status; active_turn_id = turn; turns = turns })

unfoldable pub read_thread : String → Value → Result ThreadRead
read_thread thread_id (obj value) =
    read_fields thread_id value (thread_of (get "thread" value) value)
read_thread thread_id null = err "THREAD_READ_INVALID"
read_thread thread_id (bool b) = err "THREAD_READ_INVALID"
read_thread thread_id (int n) = err "THREAD_READ_INVALID"
read_thread thread_id (float x) = err "THREAD_READ_INVALID"
read_thread thread_id non_finite = err "THREAD_READ_INVALID"
read_thread thread_id (str s) = err "THREAD_READ_INVALID"
read_thread thread_id (arr vs) = err "THREAD_READ_INVALID"

abbrev pub is_finished : TurnStatus → Bool
is_finished completed = true
is_finished failed = true
is_finished interrupted = false
is_finished in_progress = false

abbrev pub is_last_finished : List Turn → Bool
is_last_finished [] = false
is_last_finished (turn ∷ []) = is_finished turn.status
is_last_finished (turn ∷ turn' ∷ turns) = is_last_finished (turn' ∷ turns)

abbrev pub is_at_end : ThreadStatus → List Turn → Bool
is_at_end idle turns = is_last_finished turns
is_at_end not_loaded turns = is_last_finished turns
is_at_end active turns = false
is_at_end system_error turns = false

-- `_thread_completed`
unfoldable pub thread_completed : ThreadRead → Bool
thread_completed read = is_at_end read.status read.turns

-- The last turn in progress that has an identifier.
abbrev pub last_active : List Turn → Option String
last_active [] = none
last_active (turn ∷ turns) =
    let rest = last_active turns in
    if is_some rest then rest else if is_in_progress turn.status then turn.id else none

-- `_active_turn`
unfoldable pub active_turn : ThreadRead → Option String
active_turn read = explicit read.active_turn_id
  where
    explicit : Option String → Option String
    explicit none = last_active read.turns
    explicit (some id) = if str_eq id "" then last_active read.turns else some id

abbrev pub has_id : String → Turn → Bool
has_id turn_id turn = same_id turn.id (some turn_id)

-- `_turn_terminal`
unfoldable pub turn_terminal : ThreadRead → String → Option TurnStatus
turn_terminal read turn_id = first_terminal read.turns
  where
    terminal : TurnStatus → Option TurnStatus
    terminal completed = some completed
    terminal interrupted = some interrupted
    terminal failed = some failed
    terminal in_progress = none

    first_terminal : List Turn → Option TurnStatus
    first_terminal [] = none
    first_terminal (turn ∷ turns) =
        let rest = first_terminal turns in
        if has_id turn_id turn then terminal turn.status else rest
