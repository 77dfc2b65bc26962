-- ===== src/Store/Chain.antt =====
-- What the audit chain guarantees (`append_audit` and `verify_audit_in` of
-- codex_work_scheduler/store.py).
use codex_work_scheduler.Common.{
  ℕ, String, ◌≡◌, ◌≢◌, refl, sym, ap, ◌∙◌, ◌↔◌, ◌⊎◌, inl, inr, true, Option, none, some, List, [],
  ◌∷◌, ◌++◌, length, str_eq, str_eq_sound, eq_iff, arith, Bool-cases, Option-cases, ok,
}
use mathlib.Core.Option
use native.Mathlib.Decide.{ℕ_discrete}
use codex_work_scheduler.Json.{Fields}
use codex_work_scheduler.Store.Tables.{AuditRow, AuditBody, body, Digest, Db}
use codex_work_scheduler.Store.Audit.{
  genesis_hash, last_hash, body_of, event_row, next_sequence, append_audit, is_linked,
  first_invalid, verify_audit,
}

module _ ⦃digest : Digest⦄ where
  -- Each row holds readable details, the hash of the row before it, and the hash of its own body.
  pub data IsChain : String → List AuditRow → Type 0 where
    nil : {previous : String} → IsChain previous []
    link :
        {previous : String} {row : AuditRow} {rows : List AuditRow} (details : Fields)
        → row.details ≡ some details
        → row.previous_hash ≡ previous
        → row.event_hash ≡ digest.payload_hash (body (body_of row details))
        → IsChain row.event_hash rows
        → IsChain previous (row ∷ rows)

  is_linked-link :
      (previous : String) (row : AuditRow)
      → is_linked previous row ≡ true
      → (details : Fields) × (row.details ≡ some details)
        × (row.previous_hash ≡ previous)
        × (row.event_hash ≡ digest.payload_hash (body (body_of row details)))
  unfolding is_linked
  is_linked-link previous row h = elim (Option-cases row.details) [
    | inl unreadable ↦ ground arith
    | inr (details, read) ↦ (
      details,
      read,
      ground (arith, eq_iff row.previous_hash previous),
      ground (arith, eq_iff (digest.payload_hash (body (body_of row details))) row.event_hash),
    )
  ]

  link-is_linked :
      (previous : String) (row : AuditRow) (details : Fields)
      → row.details ≡ some details
      → row.previous_hash ≡ previous
      → row.event_hash ≡ digest.payload_hash (body (body_of row details))
      → is_linked previous row ≡ true
  unfolding is_linked
  link-is_linked previous row details read before hashed = ground (
    arith,
    eq_iff row.previous_hash previous,
    eq_iff (digest.payload_hash (body (body_of row details))) row.event_hash,
  )

  first_invalid_sound :
      (previous : String) (rows : List AuditRow)
      → first_invalid previous rows ≡ none
      → IsChain previous rows
  unfolding first_invalid
  first_invalid_sound previous [] e = nil
  first_invalid_sound previous (r ∷ rs) e = elim (Bool-cases (is_linked previous r)) [
    | inl linked ↦
        let (details, read, before, hashed) = is_linked-link previous r linked in
        link details read before hashed (first_invalid_sound r.event_hash rs (rw linked at e))
    | inr broken ↦ ground arith
  ]

  first_invalid_complete :
      {previous : String} {rows : List AuditRow}
      → IsChain previous rows
      → first_invalid previous rows ≡ none
  unfolding first_invalid
  first_invalid_complete nil = refl
  first_invalid_complete (link {previous} {row} {rows} details read before hashed rest) =
      rw (link-is_linked previous row details read before hashed) (first_invalid_complete rest)

  -- `verify_audit` accepts a table exactly when it is a chain from the genesis hash: in each row the
  -- details can be read, the previous hash is that of the row before, and the event hash is that of
  -- the row's own body.
  pub verify_audit-IsChain :
      (db : Db) → ((verify_audit db).valid ≡ true) ↔ IsChain genesis_hash db.audit_events
  unfolding verify_audit
  verify_audit-IsChain db = (
    λ e. first_invalid_sound genesis_hash db.audit_events (ground arith),
    λ c. ground (arith, first_invalid_complete c),
  )

  IsChain-append :
      {previous : String} {rows : List AuditRow} (row : AuditRow)
      → IsChain previous rows
      → IsChain (last_hash previous rows) (row ∷ [])
      → IsChain previous (rows ++ row ∷ [])
  unfolding last_hash
  IsChain-append row nil c = c
  IsChain-append row (link details read before hashed rest) c =
      link details read before hashed (IsChain-append row rest c)

  event_row-IsChain :
      (n : ℕ) (previous event_id event_type actor : String) (details : Fields) (now : ℕ)
      → IsChain previous (event_row n previous event_id event_type actor details now ∷ [])
  unfolding event_row body_of
  event_row-IsChain n previous event_id event_type actor details now =
      link details refl refl refl nil

  -- The row that `append_audit` writes.
  abbrev new_row : String → String → String → Fields → ℕ → Db → AuditRow
  new_row event_id event_type actor details now db =
      event_row (next_sequence 1 db.audit_events) (last_hash genesis_hash db.audit_events) event_id
        event_type actor details now

  append_audit-db :
      (event_id event_type actor : String) (details : Fields) (now : ℕ) (db : Db) {id : String}
      {db' : Db}
      → append_audit event_id event_type actor details now db ≡ ok (id, db')
      → db' ≡ record db {
        audit_events = db.audit_events ++ new_row event_id event_type actor details now db ∷ [];
      }
  unfolding append_audit
  append_audit-db event_id event_type actor details now db e = ground arith

  -- An event that is appended keeps the chain valid and every older event in its place, and adds
  -- exactly one row, which holds the event.
  pub append_audit-valid :
      (event_id event_type actor : String) (details : Fields) (now : ℕ) (db : Db) {db' : Db}
      → append_audit event_id event_type actor details now db ≡ ok (event_id, db')
      → (verify_audit db).valid ≡ true
      → ((verify_audit db').valid ≡ true)
        × ((row : AuditRow) × (db'.audit_events ≡ db.audit_events ++ row ∷ [])
            × (row.event_id ≡ event_id)
            × (row.event_type ≡ event_type)
            × (row.details ≡ some details))
  unfolding event_row
  append_audit-valid event_id event_type actor details now db {db'} e v =
      let same = append_audit-db event_id event_type actor details now db e in
      let row = new_row event_id event_type actor details now db in
      let rows : db'.audit_events ≡ db.audit_events ++ row ∷ [] =
        ap (λ (d : Db). d.audit_events) same in
      let chain = IsChain-append row ((verify_audit-IsChain db).0 v) (
        event_row-IsChain (next_sequence 1 db.audit_events) (last_hash genesis_hash db.audit_events)
          event_id event_type actor details now) in
      ((verify_audit-IsChain db').1 (rw rows chain), (row, rows, refl, refl, refl))

String-discrete : Discrete String
String-discrete s t = elim (Bool-cases (str_eq s t)) [
  | inl same ↦ yes (str_eq_sound s t same)
  | inr other ↦ no (λ e. ground (arith, eq_iff s t))
]

AuditBody-discrete : Discrete AuditBody
AuditBody-discrete = hlevel (String-discrete, ℕ_discrete)

module _ ⦃digest : Digest⦄ where
  -- Two different event bodies with one hash.
  pub record Collision : Type 0 where
    pub left : AuditBody
    pub right : AuditBody
    pub differ : left ≢ right
    pub same_hash : digest.payload_hash (body left) ≡ digest.payload_hash (body right)

  -- What the events say: all columns that are hashed.
  abbrev pub contents : List AuditRow → List (Option AuditBody)
  contents [] = []
  contents (r ∷ rs) = Option.map (body_of r) r.details ∷ contents rs

  same_contents :
      (p q : String) (rows rows' : List AuditRow)
      → IsChain p rows
      → IsChain q rows'
      → length rows ≡ length rows'
      → last_hash p rows ≡ last_hash q rows'
      → ((p ≡ q) × (contents rows ≡ contents rows')) ⊎ Collision
  unfolding last_hash body_of
  same_contents p q [] [] c d len e = inl (e, refl)
  same_contents p q [] (r ∷ rs) c d len e = absurd (omega arith)
  same_contents p q (r ∷ rs) [] c d len e = absurd (omega arith)
  same_contents p q (r ∷ rs) (s ∷ ss) (link a ra ba ha ca) (link b rb bb hb cb) len e =
      elim (same_contents r.event_hash s.event_hash rs ss ca cb (omega arith) e) [
        | inr collision ↦ inr collision
        | inl (same, rest) ↦ elim (AuditBody-discrete (body_of r a) (body_of s b)) [
          | yes equal ↦ inl (
            sym ba ∙ ap (λ (x : AuditBody). x.previous_hash) equal ∙ bb,
            rw (ra, rb, equal, rest),
          )
          | no other ↦ inr (record {
            left = body_of r a;
            right = body_of s b;
            differ = other;
            same_hash = sym ha ∙ same ∙ hb;
          })
        ]
      ]

  -- Tampering shows: two tables that both verify, with as many events and the same last hash, hold
  -- the same events, or a collision of the hash function is found.
  pub verify_audit-contents :
      (db db' : Db)
      → (verify_audit db).valid ≡ true
      → (verify_audit db').valid ≡ true
      → length db.audit_events ≡ length db'.audit_events
      → last_hash genesis_hash db.audit_events ≡ last_hash genesis_hash db'.audit_events
      → (contents db.audit_events ≡ contents db'.audit_events) ⊎ Collision
  verify_audit-contents db db' v v' len e =
      elim (same_contents genesis_hash genesis_hash db.audit_events db'.audit_events
        ((verify_audit-IsChain db).0 v) ((verify_audit-IsChain db').0 v') len e) [
          | inl (same, equal) ↦ inl equal
          | inr collision ↦ inr collision
        ]
