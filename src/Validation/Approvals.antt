-- ===== src/Validation/Approvals.antt =====
-- Approvals: `validate_approval` and `require_approval` of codex_work_scheduler/validation.py.
use codex_work_scheduler.Common.{
  ℕ, ◌+◌, ◌*◌, String, Bool, false, not, ◌&&◌, ◌||◌, List, [], ◌∷◌, ◌==◌, all, contains, length,
  str_eq, ltb, leb, Result, ok, ◌>>=◌, ◌>>◌, guard,
}
use codex_work_scheduler.Common.Codes.{codes, sorted_set}
use codex_work_scheduler.Contracts.{unit, max_time, Approval}
use codex_work_scheduler.Json.{Value, get}
use codex_work_scheduler.Validation.Fields.{
  object, exact_keys, version, number, text, validate_identifier, text_list,
}

-- `LOCAL_DRY_RUN_CAPABILITIES` (constants.py)
abbrev pub local_dry_run_capabilities : List String
local_dry_run_capabilities =
    "audit.read" ∷ "backlog.local.write" ∷ "background.read" ∷ "background.run" ∷ "control.read"
    ∷ "control.local.write" ∷ "launchd.render" ∷ "live_test.dispatch" ∷ "monitor.local.write"
    ∷ "monitor.read" ∷ "notification.local.write" ∷ "policy.read" ∷ "policy.evaluate"
    ∷ "policy.local.write" ∷ "queue.read" ∷ "queue.local.write" ∷ "quota.read" ∷ "quota_guard.read"
    ∷ "quota_guard.local.write" ∷ "quota_guard.thread.control" ∷ "reconcile.local"
    ∷ "simulate.local" ∷ "work.dispatch" ∷ []

-- `char in "0123456789abcdef"`
abbrev pub is_hex : ℕ → Bool
is_hex c = (leb b'0' c && leb c b'9') || (leb b'a' c && leb c b'f')

-- A SHA-256 digest in hexadecimal: the checks on a text of at most 64 characters.
unfoldable pub hex_digest : Value → Result String
hex_digest v = do
  s ← text v false 64
  guard (length (codes s) == 64 && all is_hex (codes s)) "SCHEMA_INVALID"
  ok s

abbrev pub approval_keys : List String
approval_keys =
    "schema_version" ∷ "approval_id" ∷ "actor" ∷ "action" ∷ "scope_hash" ∷ "capabilities"
    ∷ "granted_at" ∷ "expires_at" ∷ []

-- The checks of the times of grant and expiry.
unfoldable pub check_times : ℕ → ℕ → ℕ → Bool → Result (Unit {0})
check_times granted_at expires_at now allow_expired = do
  guard (allow_expired || not (ltb (now + 60 * unit) granted_at)) "APPROVAL_INVALID"
  guard (ltb granted_at expires_at) "APPROVAL_INVALID"
  guard (allow_expired || not (leb expires_at now)) "APPROVAL_EXPIRED"

-- `validate_approval`
unfoldable pub validate_approval : Value → ℕ → Bool → Result Approval
validate_approval value now allow_expired = do
  fs ← object value
  exact_keys fs approval_keys []
  version fs
  action ← validate_identifier (get "action" fs)
  capabilities ← text_list (get "capabilities" fs)
  guard (all (λ c. contains c local_dry_run_capabilities) capabilities) "CAPABILITY_DENIED"
  granted_at ← number (get "granted_at" fs) 0 max_time
  expires_at ← number (get "expires_at" fs) 0 max_time
  check_times granted_at expires_at now allow_expired
  scope_hash ← hex_digest (get "scope_hash" fs)
  approval_id ← validate_identifier (get "approval_id" fs)
  actor ← validate_identifier (get "actor" fs)
  ok (record {
    approval_id = approval_id;
    actor = actor;
    action = action;
    scope_hash = scope_hash;
    capabilities = sorted_set capabilities;
    granted_at = granted_at;
    expires_at = expires_at;
  })

-- `require_approval`
unfoldable pub require_approval : Approval → String → String → String → Result (Unit {0})
require_approval approval action scope_hash capability = do
  guard (str_eq approval.action action) "APPROVAL_SCOPE_MISMATCH"
  guard (str_eq approval.scope_hash scope_hash) "APPROVAL_SCOPE_MISMATCH"
  guard (contains capability approval.capabilities) "APPROVAL_SCOPE_MISMATCH"
