-- ===== src/Store/Idempotency.antt =====
-- Idempotent commands: `execute_idempotent`, `replay_idempotent` and `record_idempotent` of
-- codex_work_scheduler/store.py.
use codex_work_scheduler.Common.{
  ℕ, String, Bool, true, false, ◌&&◌, not, Option, none, some, List, [], ◌∷◌, ◌++◌, find, length,
  str_eq, ltb, if◌then◌else◌, Result, ok, err, ◌>>=◌, ◌>>◌, guard, is_some,
}
use codex_work_scheduler.Common.Codes.{codes}
use codex_work_scheduler.Store.Tables.{
  Db, Transaction, Request, Reply, IdempotencyRow, Digest, request,
}

-- `key and len(key) <= 200`
abbrev pub is_valid_key : String → Bool
is_valid_key key = not (str_eq key "") && not (ltb 200 (length (codes key)))

-- `SELECT ... FROM idempotency WHERE idempotency_key = ?`
abbrev pub find_key : String → List IdempotencyRow → Option IdempotencyRow
find_key key = find (λ row. str_eq row.key key)

-- The row is that of the same command and request.
abbrev pub is_same : String → String → IdempotencyRow → Bool
is_same command digest row = str_eq row.command command && str_eq row.request_hash digest

abbrev pub reply_of_row : String → String → Option IdempotencyRow → Result (Option Reply)
reply_of_row command digest none = ok none
reply_of_row command digest (some row) =
    if is_same command digest row then ok (some (row.result)) else err "IDEMPOTENCY_CONFLICT"

-- An early return of a stored reply, or the run.
abbrev pub reply_or_run :
    Option Reply → Result ((Reply × Bool) × Db) → Db → Result ((Reply × Bool) × Db)
reply_or_run (some reply) run db = ok ((reply, true), db)
reply_or_run none run db = run

module _ ⦃digest : Digest⦄ where
  -- The stored result of an earlier execution, if there is one.
  unfoldable pub stored_reply : String → String → Request → Db → Result (Option Reply)
  stored_reply key command r db =
      reply_of_row command (digest.payload_hash (request r)) (find_key key db.idempotency)

  -- `replay_idempotent`
  unfoldable pub replay_idempotent : String → String → Request → Db → Result (Option Reply)
  replay_idempotent key command r db = do
    guard (is_valid_key key) "IDEMPOTENCY_REQUIRED"
    stored_reply key command r db

  abbrev pub new_key_row : String → String → Request → ℕ → Reply → IdempotencyRow
  new_key_row key command r now reply = record {
    key = key;
    command = command;
    request_hash = digest.payload_hash (request r);
    result = reply;
    created_at = now;
  }

  -- `INSERT INTO idempotency`: the key is the primary key, and a second row for it raises.
  unfoldable pub insert_key : String → String → String → Request → ℕ → Reply → Db → Result Db
  insert_key error key command r now reply db =
      if is_some (find_key key db.idempotency)
      then err error
      else ok
          (record db { idempotency = db.idempotency ++ new_key_row key command r now reply ∷ [] })

  -- `record_idempotent`
  unfoldable pub record_idempotent : String → String → Request → ℕ → Reply → Db → Result Db
  record_idempotent key command r now reply db = do
    guard (is_valid_key key) "IDEMPOTENCY_REQUIRED"
    insert_key "IDEMPOTENCY_CONFLICT" key command r now reply db

  -- The part of `execute_idempotent` that runs when no result is stored.
  unfoldable pub execute_new :
      String → String → Request → ℕ → Transaction Reply → Transaction (Reply × Bool)
  execute_new key command r now operation db = do
    (reply, db₁) ← operation db
    db₂ ← insert_key "IntegrityError" key command r now reply db₁
    ok ((reply, false), db₂)

  -- `execute_idempotent`: the reply, and whether it is a replay.
  unfoldable pub execute_idempotent :
      String → String → Request → ℕ → Transaction Reply → Transaction (Reply × Bool)
  execute_idempotent key command r now operation db = do
    guard (is_valid_key key) "IDEMPOTENCY_REQUIRED"
    stored ← stored_reply key command r db
    reply_or_run stored (execute_new key command r now operation db) db
