-- ===== src/Validation/Current.antt =====
-- What an approval and a work package that passed their validators satisfy
-- (codex_work_scheduler/validation.py).
use codex_work_scheduler.Common.{
  ℕ, ◌+◌, ◌*◌, ◌≤◌, ◌<◌, String, ◌≡◌, true, false, not, ◌&&◌, [], ◌==◌, all, contains, distinct,
  is_some, length, ok, arith,
}
use codex_work_scheduler.Common.Codes.{codes, all-sorted_set}
use codex_work_scheduler.Common.Ensures.{
  Ensures, Ensures-bind, Ensures-then, Ensures-ok, Ensures-guard,
}
use codex_work_scheduler.Contracts.{unit, max_time, Window, Approval, Package}
use codex_work_scheduler.Json.{Value, get}
use codex_work_scheduler.Validation.Fields.{
  object, exact_keys, version, number, integer, text, validate_identifier, text_list, identifiers,
  array,
}
use codex_work_scheduler.Validation.Approvals.{
  validate_approval, check_times, hex_digest, approval_keys, is_hex, local_dry_run_capabilities,
}
use codex_work_scheduler.Validation.Jobs.{validate_job, one_of}
use codex_work_scheduler.Validation.Packages.{
  validate_work_package, package_keys, execution_keys, optional_time,
}
use codex_work_scheduler.Validation.Snapshots.{validate_window, window_keys, is_inconsistent}
use codex_work_scheduler.Validation.Sound.{IsWithin, number-IsWithin, integer-IsWithin}

-- An approval in force at a time.
pub record IsCurrent (a : Approval) (now : ℕ) : Type 0 where
  pub granted : a.granted_at ≤ now + 60 * unit
  pub not_expired : now < a.expires_at
  pub ordered : a.granted_at < a.expires_at
  pub digest_length : length (codes a.scope_hash) ≡ 64
  pub digest_hex : all is_hex (codes a.scope_hash) ≡ true
  pub known : all (λ c. contains c local_dry_run_capabilities) a.capabilities ≡ true

check_times-ordered :
    (g e now : ℕ)
    → Ensures (λ _. (g ≤ now + 60 * unit) × (now < e) × (g < e)) (check_times g e now false)
unfolding check_times
check_times-ordered g e now = ground arith

hex_digest-hex :
    (v : Value)
    → Ensures (λ s. (length (codes s) ≡ 64) × (all is_hex (codes s) ≡ true)) (hex_digest v)
unfolding hex_digest
hex_digest-hex v =
    let P : String → Type 0 = λ s. (length (codes s) ≡ 64) × (all is_hex (codes s) ≡ true) in
    Ensures-then P (text v false 64) _ λ s.
      Ensures-guard P (length (codes s) == 64 && all is_hex (codes s)) "SCHEMA_INVALID" _
        λ h. ground arith

-- An approval that passes the validator, without leave to be expired, is in force: granted at most
-- 60 seconds ahead, not expired, bound to a SHA-256 digest and to capabilities of the scheduler.
pub validate_approval-IsCurrent :
    (v : Value) (now : ℕ) {a : Approval} → validate_approval v now false ≡ ok a → IsCurrent a now
unfolding validate_approval
validate_approval-IsCurrent v now =
    let P : Approval → Type 0 = λ a. IsCurrent a now in
    Ensures-ok P (validate_approval v now false) (
      Ensures-then P (object v) _ λ fs. Ensures-then P (exact_keys fs approval_keys []) _ λ _.
        Ensures-then P (version fs) _ λ _.
          Ensures-then P (validate_identifier (get "action" fs)) _ λ action.
            Ensures-then P (text_list (get "capabilities" fs)) _ λ capabilities.
              Ensures-guard P (all (λ c. contains c local_dry_run_capabilities) capabilities)
                "CAPABILITY_DENIED" _
                λ known. Ensures-then P (number (get "granted_at" fs) 0 max_time) _ λ g.
                  Ensures-then P (number (get "expires_at" fs) 0 max_time) _ λ e.
                    Ensures-bind (λ _. (g ≤ now + 60 * unit) × (now < e) × (g < e)) P _ _
                      (check_times-ordered g e now)
                      λ _ times.
                        Ensures-bind (λ s. (length (codes s) ≡ 64) × (all is_hex (codes s) ≡ true))
                          P _ _ (hex_digest-hex (get "scope_hash" fs))
                          λ scope_hash hex.
                            Ensures-then P (validate_identifier (get "approval_id" fs)) _
                              λ approval_id.
                                Ensures-then P (validate_identifier (get "actor" fs)) _ λ actor.
                                  ground (
                                    arith,
                                    known,
                                    all-sorted_set (λ c. contains c local_dry_run_capabilities)
                                        capabilities,
                                  ))

-- A package whose dependencies can be met, and whose run is bounded.
pub record IsRunnable (p : Package) : Type 0 where
  pub not_itself : contains p.job.job_id p.dependencies ≡ false
  pub no_repeat : distinct p.dependencies ≡ true
  pub no_simulation : is_some p.job.simulation ≡ false
  pub at_least : 10 ≤ p.execution.max_runtime_seconds
  pub at_most : p.execution.max_runtime_seconds ≤ 86_400

-- A work package that passes the validator does not depend on itself, names no dependency twice,
-- carries no simulation output, and may run from 10 seconds to a day.
pub validate_work_package-IsRunnable :
    (v : Value) {p : Package} → validate_work_package v ≡ ok p → IsRunnable p
unfolding validate_work_package
validate_work_package-IsRunnable v =
    let P : Package → Type 0 = IsRunnable in
    Ensures-ok P (validate_work_package v) (
      Ensures-then P (object v) _ λ fs. Ensures-then P (exact_keys fs package_keys []) _ λ _.
        Ensures-then P (version fs) _ λ _. Ensures-then P (validate_job (get "job" fs)) _ λ job.
          Ensures-guard P (not (is_some job.simulation)) "SCHEMA_INVALID" _ λ plain.
            Ensures-then P (object (get "execution" fs)) _ λ ex.
              Ensures-then P (exact_keys ex execution_keys []) _ λ _.
                Ensures-then P (one_of "read_only" "workspace_write" (get "sandbox" ex)) _
                  λ sandbox. Ensures-then P (array (get "dependencies" fs)) _ λ items.
                    Ensures-then P (identifiers items) _ λ dependencies.
                      Ensures-guard P (distinct dependencies) "SCHEMA_INVALID" _ λ once.
                        Ensures-guard P (not (contains job.job_id dependencies)) "SCHEMA_INVALID" _
                          λ other.
                            Ensures-then P (optional_time (get "not_before" fs)) _ λ not_before.
                              Ensures-then P (text (get "objective" fs) false 8000) _ λ objective.
                                Ensures-then P (text (get "cwd" ex) false 1024) _ λ cwd.
                                  Ensures-then P (text (get "model" ex) false 128) _ λ model.
                                    Ensures-then P (validate_identifier (get "effort" ex)) _
                                      λ effort.
                                        Ensures-bind (IsWithin 10 86_400) P _ _
                                          (integer-IsWithin (get "max_runtime_seconds" ex) 10
                                            86_400)
                                          λ seconds bounds. ground arith)

-- The two shares of a window lie in 0 to 100 percent and differ from 100 percent together by at
-- most 0.000001, and the window has the expected length.
pub record IsConsistent (w : Window) (minutes : ℕ) : Type 0 where
  pub duration : w.window_duration_minutes ≡ minutes
  pub used : w.used_percent ≤ 100 * unit
  pub remaining : w.remaining_percent ≤ 100 * unit
  pub not_less : 100 * unit ≤ w.used_percent + w.remaining_percent + 1000
  pub not_more : w.used_percent + w.remaining_percent ≤ 100 * unit + 1000

-- A window that passes the validator is consistent.
pub validate_window-IsConsistent :
    (v : Value) (minutes : ℕ) {w : Window}
    → validate_window v minutes ≡ ok w
    → IsConsistent w minutes
unfolding validate_window is_inconsistent
validate_window-IsConsistent v minutes =
    let P : Window → Type 0 = λ w. IsConsistent w minutes in
    Ensures-ok P (validate_window v minutes) (
      Ensures-then P (object v) _ λ fs. Ensures-then P (exact_keys fs window_keys []) _ λ _.
        Ensures-then P (integer (get "window_duration_minutes" fs) 1 100_000) _ λ duration.
          Ensures-guard P ((duration == minutes)) "SIGNAL_INVALID" _ λ same.
            Ensures-bind (IsWithin 0 (100 * unit)) P _ _
              (number-IsWithin (get "used_percent" fs) 0 (100 * unit))
              λ used hu.
                Ensures-bind (IsWithin 0 (100 * unit)) P _ _
                  (number-IsWithin (get "remaining_percent" fs) 0 (100 * unit))
                  λ remaining hr.
                    Ensures-guard P (not (is_inconsistent used remaining)) "SIGNAL_INVALID" _
                      λ close.
                        Ensures-then P (number (get "resets_at" fs) 0 max_time) _
                          λ resets_at. ground arith)
