-- ===== src/Service/Samples.antt =====
-- Objects and tables for the tests of the service (codex_work_scheduler/service.py).
use codex_work_scheduler.Common.{ℕ, ◌*◌, String, true, [], ◌∷◌}
use codex_work_scheduler.Contracts.{unit, Approval}
use codex_work_scheduler.Json.{Value, Fields, null, str, arr, obj, nil, cons, end, field}
use codex_work_scheduler.Validation.Tests.{digest, num}
use codex_work_scheduler.Store.Tables.{Db, Digest, Payload}
use codex_work_scheduler.Store.Tests.{fresh_db}
use codex_work_scheduler.Service.{Config, Paths}

-- One digest for all that is approved, the identifier for an event.
instance abbrev pub sample_digest : Digest
sample_digest = record {
  payload_hash = elim [
    | Payload.job j ↦ digest
    | Payload.work_package p ↦ digest
    | Payload.policy p ↦ digest
    | Payload.request r ↦ digest
    | Payload.body b ↦ b.event_id
    | Payload.scope a ls rs ↦ digest
  ];
}

abbrev pub config : Config
config = record {
  profile_key = "default";
  limit_id = "auto";
  capabilities =
      "control.local.write" ∷ "queue.local.write" ∷ "policy.local.write" ∷ "simulate.local"
      ∷ "background.run" ∷ "reconcile.local" ∷ [];
  workspace_roots = "work" ∷ [];
}

-- Every path is absolute, resolved, and a directory.
abbrev pub paths : Paths
paths = record {
  is_absolute = λ s. true;
  join = λ s t. t;
  resolve = λ s. s;
  is_dir = λ s. true;
  parents = λ s. [];
}

abbrev pub approval_for : String → String → Value
approval_for action capability = obj (
    field "schema_version" (str "1") (
      field "approval_id" (str "apr-1") (
        field "actor" (str "operator") (
          field "action" (str action) (
            field "scope_hash" (str digest) (
              field "capabilities" (arr (cons (str capability) nil))
                (field "granted_at" (num 1000) (field "expires_at" (num 2000) end))))))))

abbrev pub granted : String → String → Approval
granted action capability = record {
  approval_id = "apr-1";
  actor = "operator";
  action = action;
  scope_hash = digest;
  capabilities = capability ∷ [];
  granted_at = 1000 * unit;
  expires_at = 2000 * unit;
}

abbrev pub noon : ℕ
noon = 1500 * unit

abbrev pub window_of_minutes : ℕ → Value
window_of_minutes minutes = obj (
    field "window_duration_minutes" (num minutes) (
      field "used_percent" (num 40)
        (field "remaining_percent" (num 60) (field "resets_at" (num 9000) end))))

abbrev pub snapshot_fields : Fields
snapshot_fields = field "schema_version" (str "3") (
    field "observed_at" (num 1400) (
      field "source" (str "fixture") (
        field "profile_key" (str "default") (
          field "limit_id" (str "codex") (
            field "account_fingerprint" (str digest) (
              field "account_type" (str "chatgpt") (
                field "plan_type" null (
                  field "credit_signal" (str "absent") (
                    field "paid_credit_state" (str "unavailable") (
                      field "spend_control_state" (str "not_reached") (
                        field "rate_limit_reached_type" null (
                          field "five_hour" (window_of_minutes 300)
                            (field "weekly" (window_of_minutes 10_080) end)))))))))))))

abbrev pub quiet_db : Db
quiet_db = record fresh_db {
  quota_snapshots = record { observed_at = 1400 * unit; snapshot = snapshot_fields } ∷ [];
  account_bindings =
      record { profile_key = "default"; account_fingerprint = digest; account_type = "chatgpt" }
      ∷ [];
}
