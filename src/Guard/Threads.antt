-- ===== src/Guard/Threads.antt =====
-- What the guard may rely on once it has accepted the read of a task
-- (codex_work_scheduler/quota_guard.py).
use codex_work_scheduler.Common.{
  String, ◌≡◌, refl, ap, ◌∙◌, sym, inl, inr, ◌⊎◌, Bool, true, false, not, ◌&&◌, ◌||◌, Bool-cases,
  Option, none, some, List, [], ◌∷◌, any, length, leb, str_eq, eq_iff, is_some, if_cases, arith, ok,
}
use codex_work_scheduler.Common.Ensures.{
  Ensures, Ensures-ok, Ensures-then, Ensures-bind, Ensures-guard, Ensures-if, Ensures-self,
}
use codex_work_scheduler.Json.{
  Value, null, bool, int, float, non_finite, str, arr, obj, Fields, Items, nil, cons, get,
}
use codex_work_scheduler.Guard.Thread.{
  ThreadStatus, active, idle, not_loaded, system_error, Turn, ThreadRead, get_or, thread_of,
  is_other_id, inner_status, thread_status, turn_status, optional_id, same_id, turn_of, turns_of,
  turn_items, active_turns, is_active, is_valid_id, joined_turn, read_fields, read_thread,
  thread_completed, last_active, active_turn, is_at_end,
}

-- No two turns have one identifier.
abbrev pub is_unrepeated : List Turn → Bool
is_unrepeated [] = true
is_unrepeated (turn ∷ turns) = not (any (λ t. same_id t.id turn.id) turns) && is_unrepeated turns

-- What an accepted read is: under the identifier that was asked for, with no turn listed twice, at most one
-- turn in progress, an active turn only while the task is active, and that turn the one in progress
-- if there is one.
abbrev pub IsThread : String → ThreadRead → Type 0
IsThread thread_id read =
    (read.thread_id ≡ thread_id)
    × (is_unrepeated read.turns ≡ true)
    × (leb (length (active_turns read.turns)) 1 ≡ true)
    × ((is_active read.status ≡ true)
        ⊎ ((read.active_turn_id ≡ none) × (active_turns read.turns ≡ [])))
    × (active_turn read ≡ read.active_turn_id)

same_id_refl : (a : Option String) → same_id a a ≡ true
same_id_refl none = refl
same_id_refl (some a) = ground (arith, eq_iff a a)

same_id_eq : (a b : Option String) → same_id a b ≡ true → a ≡ b
same_id_eq none none h = refl
same_id_eq none (some b) h = cc
same_id_eq (some a) none h = cc
same_id_eq (some a) (some b) h = ground (arith, eq_iff a b)

-- The turns of the loop repeat neither each other nor what was seen before.
abbrev pub Unseen : List (Option String) → List Turn → Type 0
Unseen seen turns =
    (is_unrepeated turns ≡ true)
    × ((id : Option String)
        → any (same_id id) seen ≡ true
        → any (λ t. same_id t.id id) turns ≡ false)

turn_of-unseen :
    (seen : List (Option String)) (v : Value)
    → Ensures (λ turn. any (same_id turn.id) seen ≡ false) (turn_of seen v)
unfolding turn_of
turn_of-unseen seen (obj fs) =
    let P : Turn → Type 0 = λ turn. any (same_id turn.id) seen ≡ false in
    Ensures-then P (optional_id (get_or "id" (get "turn_id" fs) fs)) _ λ id.
      Ensures-guard P (not (any (same_id id) seen)) "THREAD_READ_INVALID" _ λ fresh.
        Ensures-then P (turn_status (get_or "status" (get "turn_status" fs) fs)) _
          λ status. ground arith
turn_of-unseen seen null = tt
turn_of-unseen seen (bool b) = tt
turn_of-unseen seen (int n) = tt
turn_of-unseen seen (float x) = tt
turn_of-unseen seen non_finite = tt
turn_of-unseen seen (str s) = tt
turn_of-unseen seen (arr vs) = tt

unseen_id :
    (a b : Option String) (seen : List (Option String))
    → any (same_id a) seen ≡ false
    → any (same_id b) seen ≡ true
    → same_id a b ≡ false
unseen_id a b seen h g = elim (Bool-cases (same_id a b)) [
  | inl e ↦ let same = ap (λ c. any (same_id c) seen) (same_id_eq a b e) in cc
  | inr e ↦ e
]

turns_of-Unseen :
    (seen : List (Option String)) (vs : Items) → Ensures (Unseen seen) (turns_of seen vs)
unfolding turns_of
turns_of-Unseen seen nil = (refl, λ id h. refl)
turns_of-Unseen seen (cons v vs) =
    let P : List Turn → Type 0 = Unseen seen in
    Ensures-bind (λ turn. any (same_id turn.id) seen ≡ false) P (turn_of seen v) _
      (turn_of-unseen seen v)
      λ turn fresh.
        Ensures-bind (Unseen (turn.id ∷ seen)) P (turns_of (turn.id ∷ seen) vs) _
          (turns_of-Unseen (turn.id ∷ seen) vs)
          λ turns (once, others).
            let done : P (turn ∷ turns) = (
              ground (
                arith,
                others turn.id (ap (λ b. b || any (same_id turn.id) seen) (same_id_refl turn.id)),
              ),
              λ id h. ground (arith, others id, unseen_id turn.id id seen fresh h),
            ) in
            done

-- The last turn in progress is the only one.
last_active-none : (turns : List Turn) → active_turns turns ≡ [] → last_active turns ≡ none
last_active-none [] h = refl
last_active-none (turn ∷ turns) h = ground (arith, last_active-none turns)

last_active-one :
    (turns : List Turn) (id : Option String) → active_turns turns ≡ id ∷ [] → last_active turns ≡ id
last_active-one [] id h = cc
last_active-one (turn ∷ turns) id h =
    ground (arith, last_active-none turns, last_active-one turns id)

-- What the checks behind the loop establish, of the active turn that is returned.
abbrev pub Joined : ThreadStatus → List Turn → Option String → Type 0
Joined status turns turn =
    (leb (length (active_turns turns)) 1 ≡ true)
    × ((is_active status ≡ true) ⊎ ((turn ≡ none) × (active_turns turns ≡ [])))
    × ((turn ≡ last_active turns) ⊎ ((id : String) × (turn ≡ some id) × (str_eq id "" ≡ false)))

joined_turn-Joined :
    (status : ThreadStatus) (id : Option String) (turns : List Turn) (found : List (Option String))
    → is_valid_id id ≡ true
    → active_turns turns ≡ found
    → Ensures (Joined status turns) (joined_turn status id found)
joined_turn-Joined status none turns [] valid e =
    (ground (arith, e), inr (refl, e), inl (sym (last_active-none turns e)))
joined_turn-Joined status none turns (turn ∷ []) valid e =
    Ensures-if (Joined status turns) (is_active status) _ _
      (λ alive.
        let done : Joined status turns turn =
          (ground (arith, e), inl alive, inl (sym (last_active-one turns turn e))) in
        done)
      (λ _. tt)
joined_turn-Joined status (some id) turns [] valid e =
    Ensures-if (Joined status turns) (is_active status) _ _
      (λ alive.
        let done : Joined status turns (some id) =
          (ground (arith, e), inl alive, inr (id, refl, ground arith)) in
        done)
      (λ _. tt)
joined_turn-Joined status (some id) turns (turn ∷ []) valid e =
    Ensures-if (Joined status turns) (same_id (some id) turn && is_active status) _ _
      (λ both.
        let done : Joined status turns (some id) =
          (ground (arith, e), inl (ground arith), inr (id, refl, ground arith)) in
        done)
      (λ _. tt)
joined_turn-Joined status none turns (turn ∷ turn' ∷ rest) valid e = tt
joined_turn-Joined status (some id) turns (turn ∷ turn' ∷ rest) valid e = tt

active_turn-joined :
    (thread_id : String) (status : ThreadStatus) (turn : Option String) (turns : List Turn)
    → (turn ≡ last_active turns) ⊎ ((id : String) × (turn ≡ some id) × (str_eq id "" ≡ false))
    → active_turn
        (record { thread_id = thread_id; status = status; active_turn_id = turn; turns = turns })
      ≡ turn
unfolding active_turn
active_turn-joined thread_id status none turns (inl e) = sym e
active_turn-joined thread_id status (some id) turns (inl e) =
    if_cases (λ x. x ≡ some id) (str_eq id "") (last_active turns) (some id) (λ _. sym e)
      (λ _. refl)
active_turn-joined thread_id status none turns (inr (id, e, h)) = cc
active_turn-joined thread_id status (some id') turns (inr (id, e, h)) = ground arith

-- What the answer names the task by, where the guard looks for it.
abbrev pub named_id : Value → Value
named_id (obj value) =
    let thread = thread_of (get "thread" value) value in get_or "id" (get "thread_id" thread) thread
named_id null = null
named_id (bool b) = null
named_id (int n) = null
named_id (float x) = null
named_id non_finite = null
named_id (str s) = null
named_id (arr vs) = null

-- The answer names no task, or the one that was asked for.
abbrev pub IsOfTask : String → Value → Type 0
IsOfTask thread_id answer = (named_id answer ≡ null) ⊎ (named_id answer ≡ str thread_id)

same_task :
    (thread_id : String) (named : Value)
    → not (is_other_id thread_id named) ≡ true
    → (named ≡ null) ⊎ (named ≡ str thread_id)
same_task thread_id null h = inl refl
same_task thread_id (str s) h = inr (ap str (ground (arith, eq_iff s thread_id)))
same_task thread_id (bool b) h = cc
same_task thread_id (int n) h = cc
same_task thread_id (float x) h = cc
same_task thread_id non_finite h = cc
same_task thread_id (arr vs) h = cc
same_task thread_id (obj fs) h = cc

read_thread-IsOfTask :
    (thread_id : String) (value : Value)
    → Ensures (λ _. IsOfTask thread_id value) (read_thread thread_id value)
unfolding read_thread
read_thread-IsOfTask thread_id (obj value) =
    let P : ThreadRead → Type 0 = λ _. IsOfTask thread_id (obj value) in
    Ensures-guard P (not (is_other_id thread_id (named_id (obj value)))) "THREAD_ID_MISMATCH" _
      λ same. Ensures-self P _ λ read _. same_task thread_id (named_id (obj value)) same
read_thread-IsOfTask thread_id null = tt
read_thread-IsOfTask thread_id (bool b) = tt
read_thread-IsOfTask thread_id (int n) = tt
read_thread-IsOfTask thread_id (float x) = tt
read_thread-IsOfTask thread_id non_finite = tt
read_thread-IsOfTask thread_id (str s) = tt
read_thread-IsOfTask thread_id (arr vs) = tt

read_fields-IsThread :
    (thread_id : String) (value thread : Fields)
    → Ensures (IsThread thread_id) (read_fields thread_id value thread)
read_fields-IsThread thread_id value thread =
    let P : ThreadRead → Type 0 = IsThread thread_id in
    Ensures-guard P (not (is_other_id thread_id (get_or "id" (get "thread_id" thread) thread)))
      "THREAD_ID_MISMATCH" _
      λ _.
        Ensures-then P
          (thread_status (inner_status (get_or "status" (get "thread_status" thread) thread))) _
          λ status.
            Ensures-then P
              (optional_id (get_or "active_turn_id" (get "active_turn_id" value) thread)) _
              λ id. Ensures-guard P (is_valid_id id) "THREAD_READ_INVALID" _ λ valid.
                Ensures-then P (turn_items (get_or "turns" (get "turns" value) thread)) _ λ items.
                  Ensures-bind (Unseen []) P (turns_of [] items) _ (turns_of-Unseen [] items)
                    λ turns (once, _).
                      Ensures-bind (Joined status turns) P
                        (joined_turn status id (active_turns turns)) _
                        (joined_turn-Joined status id turns (active_turns turns) valid refl)
                        λ turn (single, alive, joined). (
                          refl,
                          once,
                          single,
                          alive,
                          active_turn-joined thread_id status turn turns joined,
                        )

read_thread-Ensures :
    (thread_id : String) (value : Value)
    → Ensures (IsThread thread_id) (read_thread thread_id value)
unfolding read_thread
read_thread-Ensures thread_id (obj value) =
    read_fields-IsThread thread_id value (thread_of (get "thread" value) value)
read_thread-Ensures thread_id null = tt
read_thread-Ensures thread_id (bool b) = tt
read_thread-Ensures thread_id (int n) = tt
read_thread-Ensures thread_id (float x) = tt
read_thread-Ensures thread_id non_finite = tt
read_thread-Ensures thread_id (str s) = tt
read_thread-Ensures thread_id (arr vs) = tt

is_at_end-is_active :
    (status : ThreadStatus) (turns : List Turn)
    → is_active status ≡ true
    → is_at_end status turns ≡ false
is_at_end-is_active active turns h = refl
is_at_end-is_active idle turns h = cc
is_at_end-is_active not_loaded turns h = cc
is_at_end-is_active system_error turns h = cc

-- The answer behind an accepted read names no task or the one that was asked for. The read lists no
-- turn twice and has at most one turn in progress; an active turn exists only while the task is
-- active, and what the guard takes for the active turn is the one that the read names. A task that
-- counts as completed has no active turn.
pub read_thread-IsThread :
    (thread_id : String) (value : Value) {read : ThreadRead}
    → read_thread thread_id value ≡ ok read
    → IsOfTask thread_id value
      × IsThread thread_id read
      × (thread_completed read && is_some (active_turn read) ≡ false)
unfolding thread_completed
read_thread-IsThread thread_id value {read} e =
    let thread = Ensures-ok (IsThread thread_id) _ (read_thread-Ensures thread_id value) e in
    let (_, _, _, alive, same) = thread in
    (
      Ensures-ok (λ _. IsOfTask thread_id value) _ (read_thread-IsOfTask thread_id value) e,
      thread,
      elim alive [
        | inl h ↦ ground (arith, is_at_end-is_active read.status read.turns h)
        | inr (none_active, _) ↦ let no_turn = same ∙ none_active in ground arith
      ],
    )
