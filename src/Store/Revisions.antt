-- ===== src/Store/Revisions.antt =====
-- The sessions of the quota guard under any sequence of writes: their keys, the one guard that is not
-- disarmed, and their revisions (codex_work_scheduler/store.py).
use codex_work_scheduler.Common.{
  ℕ, String, ◌≡◌, ◌≢◌, refl, ap, ◌∙◌, Bool, true, false, ◌&&◌, Option, some, List, [], ◌∷◌, any,
  update_where, count_where, str_eq, leb, eq_iff, arith, ok,
}
use codex_work_scheduler.Common.Updates.{
  count_where-append, count_where-revised, count_where-none, any-append, any-revised, none-revised,
  none-stale, any-update_where-count,
}
use codex_work_scheduler.Common.Ensures.{
  Ensures, Ensures-ok, Ensures-then, Ensures-bind, Ensures-if,
}
use codex_work_scheduler.Store.GuardRows.{SessionState, GuardSession}
use codex_work_scheduler.Store.Tables.{Db}
use codex_work_scheduler.Store.Guards.{
  SessionChange, get_quota_guard_session, is_enabled_row, is_guard, fits_revision, fits_state,
  has_single_active,
}
use codex_work_scheduler.Store.GuardWrites.{
  normalize_change, normalize_changes, fits, revise, is_unchanged, update_sessions,
  update_quota_guard_session,
}
use codex_work_scheduler.Store.GuardChanges.{
  Change, same, added, revised, write_all-guard_id, update_sessions-Ensures,
}
use codex_work_scheduler.Store.GuardSteps.{GuardSteps, here, after, GuardStep-Change}

-- `guard_id` is a primary key.
abbrev pub IsKey : List GuardSession → Type 0
IsKey rows = (guard_id : String) → leb (count_where (is_guard guard_id) rows) 1 ≡ true

Change-IsKey : {rows rows' : List GuardSession} → Change rows rows' → IsKey rows → IsKey rows'
Change-IsKey same h guard_id = h guard_id
Change-IsKey {rows} (added row unused single) h guard_id =
    ap (λ n. leb n 1) (count_where-append (is_guard guard_id) rows row)
    ∙ ground (
      arith,
      h guard_id,
      count_where-none (is_guard row.guard_id) rows unused,
      eq_iff row.guard_id guard_id,
    )
Change-IsKey (revised hit write rows' key revision single change) h guard_id =
    ap (λ n. leb n 1)
      (count_where-revised (is_guard guard_id) hit write
        (λ row. ap (λ id. str_eq id guard_id) (key row)) rows')
    ∙ Change-IsKey change h guard_id

Change-single :
    {rows rows' : List GuardSession}
    → Change rows rows'
    → has_single_active rows ≡ true
    → has_single_active rows' ≡ true
Change-single same h = h
Change-single {rows} (added row unused single) h =
    ap (λ n. leb n 1) (count_where-append is_enabled_row rows row) ∙ single
Change-single (revised hit write rows' key revision single change) h =
    single (Change-single change h)

-- Whatever any processes write, no two sessions have one identifier, and at most one is not disarmed.
pub GuardSteps-IsKey :
    {db db' : Db}
    → GuardSteps db db'
    → IsKey db.quota_guard_sessions
    → has_single_active db.quota_guard_sessions ≡ true
    → IsKey db'.quota_guard_sessions × (has_single_active db'.quota_guard_sessions ≡ true)
GuardSteps-IsKey here key single = (key, single)
GuardSteps-IsKey (after steps step) key single =
    let (key', single') = GuardSteps-IsKey steps key single in
    (Change-IsKey (GuardStep-Change step) key', Change-single (GuardStep-Change step) single')

-- The rows of a guard that have not gone beyond a revision.
abbrev pub is_stale : String → ℕ → GuardSession → Bool
is_stale guard_id revision row = is_guard guard_id row && leb row.revision revision

-- The guard is there, and beyond the revision.
abbrev pub IsBeyond : String → ℕ → List GuardSession → Type 0
IsBeyond guard_id revision rows =
    (any (is_guard guard_id) rows ≡ true) × (any (is_stale guard_id revision) rows ≡ false)

Change-IsBeyond :
    (guard_id : String) (n : ℕ) {rows rows' : List GuardSession}
    → Change rows rows'
    → IsBeyond guard_id n rows
    → IsBeyond guard_id n rows'
Change-IsBeyond guard_id n same h = h
Change-IsBeyond guard_id n {rows} (added row unused single) (there, beyond) = (
  any-append (is_guard guard_id) rows row ∙ ground arith,
  any-append (is_stale guard_id n) rows row ∙ ground (arith, eq_iff row.guard_id guard_id),
)
Change-IsBeyond guard_id n (revised hit write rows' key revision single change) h =
    let (there, beyond) = Change-IsBeyond guard_id n change h in
    (
      any-revised (is_guard guard_id) hit write (λ row. ap (λ id. str_eq id guard_id) (key row))
            rows'
          ∙ there,
      none-revised (is_stale guard_id n) hit write
          (λ row _ fresh. ground (arith, key row, revision row)) rows' beyond,
    )

GuardSteps-IsBeyond :
    (guard_id : String) (n : ℕ) {db db' : Db}
    → GuardSteps db db'
    → IsBeyond guard_id n db.quota_guard_sessions
    → IsBeyond guard_id n db'.quota_guard_sessions
GuardSteps-IsBeyond guard_id n here h = h
GuardSteps-IsBeyond guard_id n (after steps step) h =
    Change-IsBeyond guard_id n (GuardStep-Change step) (GuardSteps-IsBeyond guard_id n steps h)

update-stale :
    (guard_id : String) (n : ℕ) (state : Option SessionState) (now : ℕ)
    (changes : List SessionChange) (rows : List GuardSession)
    → leb (count_where (is_guard guard_id) rows) (count_where (fits guard_id (some n) state) rows)
      ≡ true
    → any
        (is_stale guard_id n)
        (update_where (fits guard_id (some n) state) (revise now changes) rows)
      ≡ false
update-stale guard_id n state now changes =
    none-stale (is_guard guard_id) (fits guard_id (some n) state) (is_stale guard_id n)
      (revise now changes) (λ row hit. ground arith) (λ row other. ground arith)
      (λ row hit. ground arith)

-- A write at a revision takes the guard beyond it.
update_sessions-IsBeyond :
    (guard_id : String) (n : ℕ) (state : Option SessionState) (now : ℕ)
    (changes : List SessionChange) (db : Db)
    → IsKey db.quota_guard_sessions
    → Ensures
        (λ db'. IsBeyond guard_id n db'.quota_guard_sessions)
        (update_sessions guard_id (some n) state now changes db)
update_sessions-IsBeyond guard_id n state now changes db key =
    let hit = fits guard_id (some n) state in
    let write = revise now changes in
    let P : Db → Type 0 = λ db'. IsBeyond guard_id n db'.quota_guard_sessions in
    update_sessions-Ensures P guard_id (some n) state now changes db λ single one. (
      any-revised (is_guard guard_id) hit write
            (λ row. ap (λ id. str_eq id guard_id) (write_all-guard_id changes row))
            db.quota_guard_sessions
          ∙ any-update_where-count (is_guard guard_id) (λ r. fits_revision (some n) r.revision)
              (λ r. fits_state state r.state) db.quota_guard_sessions one,
      update-stale guard_id n state now changes db.quota_guard_sessions
          (ground (arith, key guard_id)),
    )

-- Beyond a revision no row fits it.
none-fits :
    (guard_id : String) (n : ℕ) (state : Option SessionState) (rows : List GuardSession)
    → any (is_stale guard_id n) rows ≡ false
    → count_where (fits guard_id (some n) state) rows ≡ 0
none-fits guard_id n state [] h = refl
none-fits guard_id n state (row ∷ rows) h = ground (arith, none-fits guard_id n state rows)

normalize_changes-is_unchanged :
    (changes : List SessionChange)
    → is_unchanged changes ≡ false
    → Ensures (λ normalized. is_unchanged normalized ≡ false) (normalize_changes changes)
normalize_changes-is_unchanged [] h = cc
normalize_changes-is_unchanged (change ∷ changes) h =
    let P : List SessionChange → Type 0 = λ normalized. is_unchanged normalized ≡ false in
    Ensures-then P (normalize_change change) _
      λ first. Ensures-then P (normalize_changes changes) _ λ rest. refl

-- A call with changes is the update of the table, and a read behind it.
update-Ensures :
    (P : GuardSession × Db → Type 0) (Q : Db → Type 0) (guard_id : String) (revision : Option ℕ)
    (state : Option SessionState) (now : ℕ) (changes : List SessionChange) (db : Db)
    → is_unchanged changes ≡ false
    → ((normalized : List SessionChange)
        → Ensures Q (update_sessions guard_id revision state now normalized db))
    → ((row : GuardSession) (db' : Db) → Q db' → P (row, db'))
    → Ensures P (update_quota_guard_session guard_id revision state now changes db)
unfolding update_quota_guard_session
update-Ensures P Q guard_id revision state now changes db some_change written done =
    Ensures-bind (λ normalized. is_unchanged normalized ≡ false) P (normalize_changes changes) _
      (normalize_changes-is_unchanged changes some_change)
      λ normalized some_left.
        Ensures-bind Q P _ _
          (Ensures-if Q (is_unchanged normalized) (ok db)
            (update_sessions guard_id revision state now normalized db) (λ none_left. cc)
            (λ _. written normalized))
          λ db' q. Ensures-then P (get_quota_guard_session guard_id db') _ λ row. done row db' q

-- Beyond the revision nothing is written.
update_sessions-refused :
    (guard_id : String) (n : ℕ) (state : Option SessionState) (now : ℕ)
    (changes : List SessionChange) (db : Db)
    → IsBeyond guard_id n db.quota_guard_sessions
    → Ensures (λ db'. ⊥) (update_sessions guard_id (some n) state now changes db)
update_sessions-refused guard_id n state now changes db (there, beyond) =
    update_sessions-Ensures (λ db'. ⊥) guard_id (some n) state now changes db
      λ single one.
        let no_row = none-fits guard_id n state db.quota_guard_sessions beyond in ground arith

-- Of two writes at one revision of a guard only the first takes effect: after it, and whatever
-- processes write since, a second one with any changes at that revision is refused.
pub update_quota_guard_session-once :
    (guard_id : String) (n : ℕ) (state state' : Option SessionState) (now now' : ℕ)
    (changes changes' : List SessionChange) (db : Db) {got : GuardSession} {db₁ db₂ : Db}
    (r : GuardSession × Db)
    → IsKey db.quota_guard_sessions
    → is_unchanged changes ≡ false
    → is_unchanged changes' ≡ false
    → update_quota_guard_session guard_id (some n) state now changes db ≡ ok (got, db₁)
    → GuardSteps db₁ db₂
    → update_quota_guard_session guard_id (some n) state' now' changes' db₂ ≢ ok r
update_quota_guard_session-once guard_id n state state' now now' changes changes' db {db₂ = db₂} r
      key some_change some_change' e steps e' =
    let Q : Db → Type 0 = λ db'. IsBeyond guard_id n db'.quota_guard_sessions in
    let beyond =
      Ensures-ok (λ x. Q x.1) _
        (update-Ensures (λ x. Q x.1) Q guard_id (some n) state now changes db some_change
          (λ normalized. update_sessions-IsBeyond guard_id n state now normalized db key)
          (λ row db' q. q))
        e in
    Ensures-ok (λ x. ⊥) _
      (update-Ensures (λ x. ⊥) (λ db'. ⊥) guard_id (some n) state' now' changes' db₂ some_change'
        (λ normalized.
          update_sessions-refused guard_id n state' now' normalized db₂
            (GuardSteps-IsBeyond guard_id n steps beyond))
        (λ row db' q. q))
      e'
