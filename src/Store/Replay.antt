-- ===== src/Store/Replay.antt =====
-- A command takes effect at most once (codex_work_scheduler/store.py, `execute_idempotent`).
use codex_work_scheduler.Common.{
  ℕ, String, ◌≡◌, refl, Bool, true, false, Option, none, some, List, [], ◌∷◌, ◌++◌, str_eq_refl,
  str_eq_sound, ok, err, arith, ◌≢◌, ◌⊎◌, subst, eq_iff, Bool-cases, inl, inr, ap, ◌∙◌, is_some,
  >>=-eq-ok,
}
use codex_work_scheduler.Store.Tables.{
  Db, Transaction, Request, Reply, IdempotencyRow, Digest, request,
}
use codex_work_scheduler.Store.Idempotency.{
  is_valid_key, find_key, stored_reply, insert_key, execute_new, execute_idempotent, new_key_row,
  reply_or_run, reply_of_row,
}

find_key-append :
    (key : String) (rows : List IdempotencyRow) (row : IdempotencyRow)
    → is_some (find_key key rows) ≡ false
    → row.key ≡ key
    → find_key key (rows ++ row ∷ []) ≡ some row
find_key-append key [] row h e = ground (arith, eq_iff row.key key)
find_key-append key (r ∷ rows) row h e = ground (arith, find_key-append key rows row)

module _ ⦃digest : Digest⦄ where
  insert_key-stored :
      (error key command : String) (r : Request) (now : ℕ) (reply : Reply) (db : Db) {db' : Db}
      → insert_key error key command r now reply db ≡ ok db'
      → stored_reply key command r db' ≡ ok (some reply)
  unfolding insert_key stored_reply
  insert_key-stored error key command r now reply db e =
      elim (Bool-cases (is_some (find_key key db.idempotency))) [
        | inl used ↦ ground arith
        | inr unused ↦
            let found =
              find_key-append key db.idempotency (new_key_row key command r now reply) unused
                refl in
            ground
              (arith, found, str_eq_refl command, str_eq_refl (digest.payload_hash (request r)))
      ]

  execute_new-stored :
      (key command : String) (r : Request) (now : ℕ) (operation : Transaction Reply) (db : Db)
      {reply : Reply} {replayed : Bool} {db' : Db}
      → execute_new key command r now operation db ≡ ok ((reply, replayed), db')
      → stored_reply key command r db' ≡ ok (some reply)
  unfolding execute_new
  execute_new-stored key command r now operation db {reply} {db'} e =
      let ((reply₁, db₁), _, e₁) = >>=-eq-ok (operation db) _ e in
      let (db₂, e₂, e₃) =
        >>=-eq-ok (insert_key "IntegrityError" key command r now reply₁ db₁) _ e₁ in
      let same : reply₁ ≡ reply = cc in
      let same_db : db₂ ≡ db' = cc in
      subst (λ (d : Db). stored_reply key command r d ≡ ok (some reply)) same_db
        (insert_key-stored "IntegrityError" key command r now reply₁ db₁ e₂
          ∙ ap (λ (y : Reply). ok (some y)) same)

  reply_or_run-stored :
      (key command : String) (r : Request) (now : ℕ) (operation : Transaction Reply) (db : Db)
      (stored : Option Reply) {reply : Reply} {replayed : Bool} {db' : Db}
      → stored_reply key command r db ≡ ok stored
      → reply_or_run stored (execute_new key command r now operation db) db
        ≡ ok ((reply, replayed), db')
      → stored_reply key command r db' ≡ ok (some reply)
  reply_or_run-stored key command r now operation db none es e =
      execute_new-stored key command r now operation db e
  reply_or_run-stored key command r now operation db (some x) {reply} {db'} es e =
      let same : x ≡ reply = cc in
      let same_db : db ≡ db' = cc in
      subst (λ (d : Db). stored_reply key command r d ≡ ok (some reply)) same_db
        (es ∙ ap (λ (y : Reply). ok (some y)) same)

  -- A command that has returned a reply under a key has stored it: run again under that key, at any
  -- later time and with any operation, it returns the same reply as a replay, does not run the
  -- operation and leaves the tables alone.
  pub execute_idempotent-replay :
      (key command : String) (r : Request) (now later : ℕ) (operation other : Transaction Reply)
      (db : Db) {reply : Reply} {replayed : Bool} {db' : Db}
      → execute_idempotent key command r now operation db ≡ ok ((reply, replayed), db')
      → execute_idempotent key command r later other db' ≡ ok ((reply, true), db')
  unfolding execute_idempotent
  execute_idempotent-replay key command r now later operation other db e =
      elim (Bool-cases (is_valid_key key)) [
        | inl valid ↦
            let (stored, es, er) = >>=-eq-ok (stored_reply key command r db) _ (rw valid at e) in
            rw (valid, reply_or_run-stored key command r now operation db stored es er)
        | inr bad ↦ ground arith
      ]

  -- What is stored under a key, as a row.
  stored_reply-row :
      (key command : String) (r : Request) (db : Db) {reply : Reply}
      → stored_reply key command r db ≡ ok (some reply)
      → (row : IdempotencyRow) × (find_key key db.idempotency ≡ some row)
        × (row.command ≡ command)
        × (row.request_hash ≡ digest.payload_hash (request r))
  unfolding stored_reply
  stored_reply-row key command r db e = row_of (find_key key db.idempotency) refl e
    where
      row_of :
          (found : Option IdempotencyRow) {reply : Reply}
          → find_key key db.idempotency ≡ found
          → reply_of_row command (digest.payload_hash (request r)) found ≡ ok (some reply)
          → (row : IdempotencyRow) × (find_key key db.idempotency ≡ some row)
            × (row.command ≡ command)
            × (row.request_hash ≡ digest.payload_hash (request r))
      row_of none found h = cc
      row_of (some row) found h = (
        row,
        found,
        ground (arith, str_eq_sound row.command command),
        ground (arith, str_eq_sound row.request_hash (digest.payload_hash (request r))),
      )

  -- The tables on which a command has returned a reply hold that reply, and its key is valid.
  execute_idempotent-stored :
      (key command : String) (r : Request) (now : ℕ) (operation : Transaction Reply) (db : Db)
      {reply : Reply} {replayed : Bool} {db' : Db}
      → execute_idempotent key command r now operation db ≡ ok ((reply, replayed), db')
      → (is_valid_key key ≡ true) × (stored_reply key command r db' ≡ ok (some reply))
  unfolding execute_idempotent
  execute_idempotent-stored key command r now operation db e =
      elim (Bool-cases (is_valid_key key)) [
        | inl valid ↦
            let (stored, es, er) = >>=-eq-ok (stored_reply key command r db) _ (rw valid at e) in
            (valid, reply_or_run-stored key command r now operation db stored es er)
        | inr bad ↦ ground arith
      ]

  -- Once a command has returned a reply under a key, as a replay or not, that key is refused to
  -- every other command and to every request with another digest, at any later time and whatever
  -- the operation would do.
  pub execute_idempotent-conflict :
      (key command command' : String) (r r' : Request) (now later : ℕ)
      (operation other : Transaction Reply) (db : Db) {reply : Reply} {replayed : Bool} {db' : Db}
      → execute_idempotent key command r now operation db ≡ ok ((reply, replayed), db')
      → (command ≢ command') ⊎ (digest.payload_hash (request r) ≢ digest.payload_hash (request r'))
      → execute_idempotent key command' r' later other db' ≡ err "IDEMPOTENCY_CONFLICT"
  unfolding execute_idempotent stored_reply
  execute_idempotent-conflict key command command' r r' now later operation other db {db'} e
        differ =
      let (valid, stored) = execute_idempotent-stored key command r now operation db e in
      let (row, found, same_command, same_hash) = stored_reply-row key command r db' stored in
      ground (
        arith,
        eq_iff row.command command',
        eq_iff row.request_hash (digest.payload_hash (request r')),
      )
