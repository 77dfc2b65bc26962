-- ===== src/Policy/Reasons.antt =====
-- Which reasons a decision gives (codex_work_scheduler/policy.py, `evaluate_policy` and
-- `has_signal_failure`).
use codex_work_scheduler.Common.{
  ℕ, ◌<◌, String, ◌≡◌, refl, ◌↔◌, Bool, false, not, ◌||◌, Option, some, List, [], ◌∷◌, ◌++◌, arith,
  any, contains, eq_iff,
}
use codex_work_scheduler.Common.Int.{sub_ℕ}
use codex_work_scheduler.Common.Codes.{insert_code, sorted_set}
use codex_work_scheduler.Contracts.{Policy, Usage, Window, Snapshot}
use codex_work_scheduler.Policy.{
  raw_reasons, evaluate_policy, is_truthy, is_empty, usage_or_none, age_reasons, window_reasons,
  window_report, has_signal_failure, signal_reason_codes,
}
use codex_work_scheduler.Policy.Eligible.{IsFresh, age_reasons-nil}

-- The snapshot can be judged: it is fresh, reports no limit that is reached, and both of its
-- windows are still running.
pub record HasSignal (s : Snapshot) (p : Policy) (now : ℕ) : Type 0 where
  pub fresh : IsFresh s p now
  pub unlimited : is_truthy s.rate_limit_reached_type ≡ false
  pub five_hour_pending : now < s.five_hour.resets_at
  pub weekly_pending : now < s.weekly.resets_at

any-insert_code :
    (f : String → Bool) (c : String) (ds : List String)
    → any f (insert_code c ds) ≡ (f c || any f ds)
unfolding insert_code
any-insert_code f c [] = refl
any-insert_code f c (d ∷ ds) = ground (arith, any-insert_code f c ds, eq_iff c d)

any-sorted_set : (f : String → Bool) (cs : List String) → any f (sorted_set cs) ≡ any f cs
unfolding sorted_set
any-sorted_set f [] = refl
any-sorted_set f (c ∷ cs) = rw (any-insert_code f c (sorted_set cs), any-sorted_set f cs)

any-append : (f : String → Bool) (xs ys : List String) → any f (xs ++ ys) ≡ (any f xs || any f ys)
any-append f [] ys = refl
any-append f (x ∷ xs) ys = ground (arith, any-append f xs ys)

abbrev is_signal_code : String → Bool
is_signal_code reason = contains reason signal_reason_codes

any-age_reasons :
    (s : Snapshot) (p : Policy) (now : ℕ)
    → let age = age_reasons (sub_ℕ now s.observed_at) p in
      any is_signal_code age ≡ not (is_empty age)
unfolding age_reasons
any-age_reasons s p now = ground arith

any-window_reasons :
    (w : Window) (reserve expected multiplier now : ℕ) (code : String)
    → is_signal_code code ≡ false
    → (any is_signal_code (window_reasons (window_report w reserve expected multiplier) now code)
        ≡ false)
      ↔ (now < w.resets_at)
unfolding window_reasons window_report
any-window_reasons w reserve expected multiplier now code h = (λ e. ground arith, λ k. ground arith)

any-raw_reasons :
    (s : Snapshot) (p : Policy) (now : ℕ) (u : Usage)
    → (any is_signal_code (raw_reasons s p now u) ≡ false) ↔ HasSignal s p now
unfolding raw_reasons
any-raw_reasons s p now u =
    let age = any-age_reasons s p now in
    let fresh = age_reasons-nil s p now in
    let five =
      any-window_reasons s.five_hour p.five_hour_reserve_percent u.five_hour_percent
        p.estimate_multiplier now "FIVE_HOUR_RESERVE" refl in
    let week =
      any-window_reasons s.weekly p.weekly_reserve_percent u.weekly_percent p.estimate_multiplier
        now "WEEKLY_RESERVE" refl in
    simp any-append (
      λ e. ground (arith, age, fresh, five, week),
      λ h.
          rw (
            age,
            fresh.1 h.fresh,
            h.unlimited,
            five.1 h.five_hour_pending,
            week.1 h.weekly_pending,
          ),
    )

-- A decision on a snapshot reports a signal failure exactly when the snapshot cannot be judged,
-- whatever usage is expected: a denial for want of reserve alone is no signal failure.
pub has_signal_failure-HasSignal :
    (s : Snapshot) (p : Policy) (now : ℕ) (u : Option Usage)
    → (has_signal_failure (evaluate_policy (some s) p now u) ≡ false) ↔ HasSignal s p now
unfolding has_signal_failure evaluate_policy
has_signal_failure-HasSignal s p now u =
    rw any-sorted_set (any-raw_reasons s p now (usage_or_none u))
