-- ===== src/Policy/Eligible.antt =====
-- What eligibility means in numbers (codex_work_scheduler/policy.py, `evaluate_policy`).
use codex_work_scheduler.Common.{
  ℕ, ◌+◌, ◌*◌, ◌≤◌, ◌<◌, String, ◌≡◌, refl, ◌↔◌, true, false, Option, some, List, [], ◌∷◌, ◌++◌,
  ◌&&◌, arith,
}
use codex_work_scheduler.Common.Int.{sub_ℕ, sub_ℕ_parts}
use codex_work_scheduler.Common.Codes.{insert_code, sorted_set}
use codex_work_scheduler.Contracts.{unit, Policy, Usage, Window, Snapshot}
use codex_work_scheduler.Policy.{
  raw_reasons, evaluate_policy, is_truthy, is_empty, usage_or_none, age_reasons, window_reasons,
  window_report,
}

-- The snapshot was taken at most 60 seconds after `now` and at most the permitted age before it.
pub record IsFresh (s : Snapshot) (p : Policy) (now : ℕ) : Type 0 where
  pub not_ahead : s.observed_at ≤ now + 60 * unit
  pub not_old : now ≤ s.observed_at + p.max_snapshot_age_seconds * unit

-- The window has not been reset since, and what the run is expected to use, times the safety
-- factor, leaves the reserve (both sides in units of 10⁻¹⁸).
pub record HasRoom (w : Window) (reserve expected multiplier now : ℕ) : Type 0 where
  pub pending : now < w.resets_at
  pub reserved : reserve * unit + expected * multiplier ≤ w.remaining_percent * unit

-- All that makes a snapshot let work of the expected usage start.
pub record MayStart (s : Snapshot) (p : Policy) (now : ℕ) (u : Usage) : Type 0 where
  pub fresh : IsFresh s p now
  pub unlimited : is_truthy s.rate_limit_reached_type ≡ false
  pub five_hour :
      HasRoom s.five_hour p.five_hour_reserve_percent u.five_hour_percent p.estimate_multiplier now
  pub weekly : HasRoom s.weekly p.weekly_reserve_percent u.weekly_percent p.estimate_multiplier now

is_empty-insert_code : (c : String) (cs : List String) → is_empty (insert_code c cs) ≡ false
unfolding insert_code
is_empty-insert_code c [] = refl
is_empty-insert_code c (d ∷ ds) = ground arith

pub is_empty-sorted_set : (cs : List String) → is_empty (sorted_set cs) ≡ is_empty cs
unfolding sorted_set
is_empty-sorted_set [] = refl
is_empty-sorted_set (c ∷ cs) = is_empty-insert_code c (sorted_set cs)

is_empty-append : (xs ys : List String) → is_empty (xs ++ ys) ≡ (is_empty xs && is_empty ys)
is_empty-append [] ys = refl
is_empty-append (x ∷ xs) ys = refl

pub age_reasons-nil :
    (s : Snapshot) (p : Policy) (now : ℕ)
    → (is_empty (age_reasons (sub_ℕ now s.observed_at) p) ≡ true) ↔ IsFresh s p now
unfolding age_reasons
age_reasons-nil s p now =
    let parts = sub_ℕ_parts now s.observed_at in (λ e. ground arith, λ h. ground arith)

window_reasons-nil :
    (w : Window) (reserve expected multiplier now : ℕ) (code : String)
    → (is_empty (window_reasons (window_report w reserve expected multiplier) now code) ≡ true)
      ↔ HasRoom w reserve expected multiplier now
unfolding window_report window_reasons
window_reasons-nil w reserve expected multiplier now code =
    let parts = sub_ℕ_parts (w.remaining_percent * unit) (expected * multiplier) in
    (λ e. ground arith, λ h. ground arith)

raw_reasons-nil :
    (s : Snapshot) (p : Policy) (now : ℕ) (u : Usage)
    → (is_empty (raw_reasons s p now u) ≡ true) ↔ MayStart s p now u
unfolding raw_reasons
raw_reasons-nil s p now u =
    let age = age_reasons-nil s p now in
    let five =
      window_reasons-nil s.five_hour p.five_hour_reserve_percent u.five_hour_percent
        p.estimate_multiplier now "FIVE_HOUR_RESERVE" in
    let week =
      window_reasons-nil s.weekly p.weekly_reserve_percent u.weekly_percent p.estimate_multiplier
        now "WEEKLY_RESERVE" in
    simp is_empty-append (
      λ e. ground (arith, age, five, week),
      λ h. rw (age.1 h.fresh, h.unlimited, five.1 h.five_hour, week.1 h.weekly),
    )

-- The decision on a snapshot is eligible exactly when the snapshot is neither too old nor more than
-- 60 seconds ahead, no rate limit is reached, and in both windows, which are not yet reset, the
-- guarded estimate of the run leaves the reserve.
pub eligible-MayStart :
    (s : Snapshot) (p : Policy) (now : ℕ) (u : Option Usage)
    → ((evaluate_policy (some s) p now u).eligible ≡ true) ↔ MayStart s p now (usage_or_none u)
unfolding evaluate_policy
eligible-MayStart s p now u = rw is_empty-sorted_set (raw_reasons-nil s p now (usage_or_none u))
