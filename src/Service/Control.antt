-- ===== src/Service/Control.antt =====
-- The controls: `policy_set`, `pause`, `stop` and `resume` of codex_work_scheduler/service.py.
use codex_work_scheduler.Common.{
  ℕ, ◌+◌, String, Bool, true, false, not, ◌&&◌, ◌||◌, none, some, List, [], ◌∷◌, any, str_eq, leb,
  ok, ◌>>=◌, ◌>>◌, guard,
}
use codex_work_scheduler.Common.Codes.{concat}
use codex_work_scheduler.Common.Int.{pos}
use codex_work_scheduler.Contracts.{Policy, Approval}
use codex_work_scheduler.Json.{Value, int, str, end, field}
use codex_work_scheduler.Validation.Fields.{validate_identifier}
use codex_work_scheduler.Validation.Policies.{validate_policy}
use codex_work_scheduler.Validation.Approvals.{validate_approval, require_approval}
use codex_work_scheduler.Store.Tables.{
  Db, Mode, LeaseState, LeaseRow, RunRow, Request, Payload, Reply, Digest, Transaction,
}
use codex_work_scheduler.Store.Audit.{append_audit}
use codex_work_scheduler.Store.Idempotency.{replay_idempotent, execute_idempotent}
use codex_work_scheduler.Service.{
  Config, require_capability, checked_actor, insert_approval, set_controller, latest_snapshot,
  evaluate_current_policy, replay_or,
}

abbrev pub mode_text : Mode → String
mode_text Mode.paused = "PAUSED"
mode_text Mode.ready = "READY"
mode_text Mode.stopped = "STOPPED"
mode_text Mode.blocked = "BLOCKED"

abbrev pub is_ready : Mode → Bool
is_ready Mode.ready = true
is_ready Mode.paused = false
is_ready Mode.stopped = false
is_ready Mode.blocked = false

abbrev pub is_active_lease : LeaseRow → Bool
is_active_lease row = elim row.state [ LeaseState.active ↦ true | _ ↦ false ]

abbrev pub is_expired_lease : ℕ → LeaseRow → Bool
is_expired_lease now row = is_active_lease row && leb row.expires_at now

-- `state IN ('starting', 'running')`
abbrev pub is_active_run : RunRow → Bool
is_active_run row = str_eq row.state "starting" || str_eq row.state "running"

-- `decision["reasons"][0] if decision["reasons"] else "POLICY_DENIED"`
abbrev pub first_reason : List String → String
first_reason [] = "POLICY_DENIED"
first_reason (reason ∷ reasons) = reason

module _ ⦃digest : Digest⦄ where
  abbrev pub policy_hash_of : Policy → String
  policy_hash_of policy = digest.payload_hash (Payload.policy policy)

  -- The `operation` of `policy_set`.
  unfoldable pub replace_policy : Policy → Approval → String → ℕ → String → Transaction Reply
  replace_policy policy approval actor now event_id db = do
    db₁ ← insert_approval approval db
    (id, db₂) ←
        append_audit event_id "policy.updated" actor
          (field "approval_id" (str approval.approval_id) (
            field "policy_hash" (str (policy_hash_of policy))
              (field "version" (int (pos (db.policies.version + 1))) end)))
          now
          (set_controller Mode.paused (some "POLICY_CHANGED") now (record db₁ {
            policies = record {
              version = db.policies.version + 1;
              policy = policy;
              policy_hash = policy_hash_of policy;
              updated_at = now;
            };
          }))
    ok (
      Reply.policy_set approval.approval_id id (policy_hash_of policy) (db.policies.version + 1),
      db₂,
    )

  unfoldable pub policy_set_new :
      Policy → Value → Approval → String → String → ℕ → String → Transaction (Reply × Bool)
  policy_set_new policy approval_value old key actor now event_id db = do
    approval ← validate_approval approval_value now false
    require_approval approval "policy.set" (policy_hash_of policy) "policy.local.write"
    execute_idempotent key "policy.set" (Request.set_policy old policy) now
        (replace_policy policy approval actor now event_id) db

  -- `policy_set`
  unfoldable pub policy_set :
      Config → Value → Value → String → String → ℕ → String → Db → Transaction (Reply × Bool)
  policy_set config policy_value approval_value key actor now event_id seen db = do
    require_capability config "policy.local.write"
    name ← checked_actor actor
    policy ← validate_policy policy_value
    old ← validate_approval approval_value now true
    stored ← replay_idempotent key "policy.set" (Request.set_policy old policy) seen
    replay_or stored (policy_set_new policy approval_value old key name now event_id) db

  -- The `operation` of `_set_mode`.
  unfoldable pub change_mode : Mode → String → String → String → ℕ → String → Transaction Reply
  change_mode mode reason_code command actor now event_id db = do
    (id, db₁) ←
        append_audit event_id (concat "controller." command) actor
          (field "from" (str (mode_text db.controller.mode))
            (field "reason_code" (str reason_code) (field "to" (str (mode_text mode)) end)))
          now (set_controller mode (some reason_code) now db)
    ok (Reply.mode_set id db.controller.mode mode reason_code, db₁)

  -- `_set_mode`
  unfoldable pub set_mode :
      Config → Mode → String → String → String → String → ℕ → String → Transaction (Reply × Bool)
  set_mode config mode reason_code key actor command now event_id db = do
    require_capability config "control.local.write"
    name ← checked_actor actor
    reason ← validate_identifier (str reason_code)
    execute_idempotent key command (Request.set_mode mode reason) now
        (change_mode mode reason command name now event_id) db

  -- `pause`
  unfoldable pub pause : Config → String → String → String → ℕ → String → Transaction (Reply × Bool)
  pause config reason_code key actor now event_id =
      set_mode config Mode.paused reason_code key actor "pause" now event_id

  -- `stop`
  unfoldable pub stop : Config → String → String → String → ℕ → String → Transaction (Reply × Bool)
  stop config reason_code key actor now event_id =
      set_mode config Mode.stopped reason_code key actor "stop" now event_id

  -- The `operation` of `resume`.
  unfoldable pub make_ready : Config → Approval → String → ℕ → String → Transaction Reply
  make_ready config approval actor now event_id db = do
    guard (not (any (is_expired_lease now) db.leases)) "RECONCILE_REQUIRED"
    guard (not (any is_active_lease db.leases)) "LEASE_ACTIVE"
    guard (not (any is_active_run db.runs)) "RUN_ACTIVE"
    decision ← evaluate_current_policy config (latest_snapshot db) db.policies.policy now none db
    guard decision.eligible (first_reason decision.reasons)
    db₁ ← insert_approval approval db
    guard (not (is_ready db₁.controller.mode)) "INVALID_TRANSITION"
    (id, db₂) ←
        append_audit event_id "controller.resumed" actor
          (field "approval_id" (str approval.approval_id)
            (field "from" (str (mode_text db₁.controller.mode)) (field "to" (str "READY") end)))
          now (set_controller Mode.ready none now db₁)
    ok (Reply.resumed approval.approval_id id db₁.controller.mode, db₂)

  abbrev pub resume_scope : String
  resume_scope = digest.payload_hash (Payload.scope "resume" ("READY" ∷ []) [])

  unfoldable pub resume_new :
      Config → Value → Approval → String → String → ℕ → String → Transaction (Reply × Bool)
  resume_new config approval_value old key actor now event_id db = do
    approval ← validate_approval approval_value now false
    require_approval approval "resume" resume_scope "control.local.write"
    execute_idempotent key "resume" (Request.resume old) now
        (make_ready config approval actor now event_id) db

  -- `resume`
  unfoldable pub resume :
      Config → Value → String → String → ℕ → String → Db → Transaction (Reply × Bool)
  resume config approval_value key actor now event_id seen db = do
    require_capability config "control.local.write"
    name ← checked_actor actor
    old ← validate_approval approval_value now true
    stored ← replay_idempotent key "resume" (Request.resume old) seen
    replay_or stored (resume_new config approval_value old key name now event_id) db
