-- ===== src/Guard/ThreadTests.antt =====
-- The reads of tasks on concrete answers (codex_work_scheduler/quota_guard.py).
use codex_work_scheduler.Common.{◌≡◌, refl, false, ◌&&◌, some, [], ◌∷◌, is_some, ok, err}
use codex_work_scheduler.Json.{Value, str, arr, obj, nil, cons, end, field}
use codex_work_scheduler.Guard.Thread.{
  ThreadRead, active, interrupted, in_progress, read_thread, thread_status, turn_status, turn_of,
  turns_of, thread_completed, active_turn, turn_terminal,
}
use codex_work_scheduler.Guard.Threads.{IsOfTask, IsThread, read_thread-IsThread}

abbrev turn_value : Value → Value → Value
turn_value id status = obj (field "id" id (field "status" status end))

-- An active task whose second turn is in progress.
abbrev answer : Value
answer = obj (
    field "thread"
      (obj (
        field "id" (str "thread-1") (
          field "status" (obj (field "type" (str "active") end)) (
            field "turns"
              (arr (
                cons (turn_value (str "turn-1") (str "interrupted"))
                  (cons (turn_value (str "turn-2") (str "inProgress")) nil)))
              end))))
      end)

abbrev read : ThreadRead
read = record {
  thread_id = "thread-1";
  status = active;
  active_turn_id = some "turn-2";
  turns =
      record { id = some "turn-1"; status = interrupted }
      ∷ record { id = some "turn-2"; status = in_progress }
      ∷ [];
}

accepted : read_thread "thread-1" answer ≡ ok read
unfolding read_thread thread_status turn_status turn_of turns_of
accepted = refl

other_thread : read_thread "thread-2" answer ≡ err "THREAD_ID_MISMATCH"
unfolding read_thread
other_thread = refl

stopped : turn_terminal read "turn-1" ≡ some interrupted
unfolding turn_terminal
stopped = refl

read_thread-IsThread_example :
    IsOfTask "thread-1" answer
    × IsThread "thread-1" read
    × (thread_completed read && is_some (active_turn read) ≡ false)
read_thread-IsThread_example = read_thread-IsThread "thread-1" answer accepted
