-- ===== src/Store/Audit.antt =====
-- The audit chain: `append_audit` and `verify_audit_in` of codex_work_scheduler/store.py.
use codex_work_scheduler.Common.{
  ℕ, ◌+◌, String, Bool, false, ◌||◌, not, Option, none, some, List, [], ◌∷◌, ◌++◌, any, length,
  str_eq, is_some, if◌then◌else◌, ok, err,
}
use codex_work_scheduler.Json.{Fields}
use codex_work_scheduler.Store.Tables.{AuditRow, AuditBody, body, Digest, Db, Transaction}

-- `"0" * 64`
abbrev pub genesis_hash : String
genesis_hash = "0000000000000000000000000000000000000000000000000000000000000000"

-- `SELECT event_hash ... ORDER BY sequence DESC LIMIT 1`, from the hash that stands before the rows.
unfoldable pub last_hash : String → List AuditRow → String
last_hash previous [] = previous
last_hash previous (r ∷ rs) = last_hash r.event_hash rs

-- The number that AUTOINCREMENT gives to the next row.
unfoldable pub next_sequence : ℕ → List AuditRow → ℕ
next_sequence n [] = n
next_sequence n (r ∷ rs) = next_sequence (r.sequence + 1) rs

unfoldable pub body_of : AuditRow → Fields → AuditBody
body_of row details = record {
  actor = row.actor;
  details = details;
  event_id = row.event_id;
  event_type = row.event_type;
  occurred_at = row.occurred_at;
  previous_hash = row.previous_hash;
}

-- What `verify_audit` returns.
pub record AuditReport : Type 0 where
  pub event_count : ℕ
  pub first_invalid_sequence : Option ℕ
  pub valid : Bool

module _ ⦃digest : Digest⦄ where
  unfoldable pub event_row : ℕ → String → String → String → String → Fields → ℕ → AuditRow
  event_row sequence previous event_id event_type actor details now = record {
    sequence = sequence;
    event_id = event_id;
    occurred_at = now;
    event_type = event_type;
    actor = actor;
    details = some details;
    previous_hash = previous;
    event_hash = digest.payload_hash (
        body (record {
          actor = actor;
          details = details;
          event_id = event_id;
          event_type = event_type;
          occurred_at = now;
          previous_hash = previous;
        }));
  }

  -- The two UNIQUE columns of the table refuse a row.
  abbrev pub is_duplicate : AuditRow → List AuditRow → Bool
  is_duplicate row rows =
      any (λ r. str_eq r.event_id row.event_id || str_eq r.event_hash row.event_hash) rows

  -- `append_audit`; `event_id` is the identifier that `new_id("evt")` gives.
  unfoldable pub append_audit : String → String → String → Fields → ℕ → Transaction String
  append_audit event_id event_type actor details now db =
      let row =
        event_row (next_sequence 1 db.audit_events) (last_hash genesis_hash db.audit_events)
          event_id event_type actor details now in
      if is_duplicate row db.audit_events
      then err "IntegrityError"
      else ok (event_id, record db { audit_events = db.audit_events ++ row ∷ [] })

  -- The test of the loop of `verify_audit_in` on one row.
  unfoldable pub is_linked : String → AuditRow → Bool
  unfolding body_of
  is_linked expected_previous row =
      if not (str_eq row.previous_hash expected_previous) then false else elim row.details [
        | none ↦ false
        | some details ↦ str_eq (digest.payload_hash (body (body_of row details))) row.event_hash
      ]

  -- The loop: the sequence number of the first row that fails.
  unfoldable pub first_invalid : String → List AuditRow → Option ℕ
  unfolding is_linked
  first_invalid expected_previous [] = none
  first_invalid expected_previous (row ∷ rows) =
      let rest = first_invalid row.event_hash rows in
      if is_linked expected_previous row then rest else some (row.sequence)

  -- `verify_audit_in`
  unfoldable pub verify_audit : Db → AuditReport
  unfolding first_invalid
  verify_audit db =
      let found = first_invalid genesis_hash db.audit_events in
      record {
        event_count = length db.audit_events;
        first_invalid_sequence = found;
        valid = not (is_some found);
      }
