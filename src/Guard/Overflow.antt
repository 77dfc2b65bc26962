-- ===== src/Guard/Overflow.antt =====
-- The integers of a snapshot that `float` refuses (codex_work_scheduler/quota_guard.py, `_number` and
-- `_window_values`).
use codex_work_scheduler.Common.{
  ◌≡◌, refl, ap, ◌∙◌, ◌↔◌, ◌⊎◌, true, Option, none, some, arith, String, Bool-cases, Result, ok,
  err, ◌>>=◌, inl, inr,
}
use codex_work_scheduler.Common.Int.{ℤ}
use codex_work_scheduler.Json.{
  is_huge, Value, null, bool, int, float, non_finite, str, arr, obj, Fields, get,
}
use codex_work_scheduler.Guard.Signal.{
  number, GuardWindow, Windows, window_value, window_values, and_weekly, observed_status,
}

abbrev pub Fails {ℓ} : {A : Type ℓ} → Result A → Type ℓ
Fails m = (e : String) × (m ≡ err e)

-- An integer that is no float.
abbrev pub IsHuge : Value → Type 0
IsHuge v = (n : ℤ) × (v ≡ int n) × (is_huge n ≡ true)

-- A window with such a number.
abbrev pub IsHugeWindow : Value → Type 0
IsHugeWindow v =
    (fs : Fields) × (v ≡ obj fs)
    × (IsHuge (get "remaining_percent" fs)
        ⊎ (IsHuge (get "used_percent" fs) ⊎ IsHuge (get "resets_at" fs)))

-- The first window is such, or it is valid and the second one is.
abbrev pub HasHugeWindow : Fields → Type 0
HasHugeWindow fs =
    IsHugeWindow (get "five_hour" fs)
    ⊎ ((w : GuardWindow) × (window_value (get "five_hour" fs) ≡ ok (some w))
        × IsHugeWindow (get "weekly" fs))

-- Both windows are valid, and the time of observation is no float.
abbrev pub HasHugeTime : Fields → Type 0
HasHugeTime fs =
    (ws : Windows) × (window_values (obj fs) ≡ ok (some ws)) × IsHuge (get "observed_at" fs)

pub Fails-bind {ℓ κ} :
    {A : Type ℓ} {B : Type κ} (m : Result A) (f : A → Result B)
    → Fails (m >>= f)
    → Fails m ⊎ ((a : A) × (m ≡ ok a) × Fails (f a))
Fails-bind (ok a) f h = inr (a, refl, h)
Fails-bind (err e) f h = inl (e, refl)

pub first-Fails {ℓ κ} :
    {A : Type ℓ} {B : Type κ} (m : Result A) (f : A → Result B) → Fails m → Fails (m >>= f)
first-Fails (ok a) f (e, h) = cc
first-Fails (err e) f h = (e, refl)

rest-Fails {ℓ κ} :
    {A : Type ℓ} {B : Type κ} (m : Result A) (f : A → Result B)
    → ((a : A) → Fails (f a))
    → Fails (m >>= f)
rest-Fails (ok a) f h = h a
rest-Fails (err e) f h = (e, refl)

pub next-Fails {ℓ κ} :
    {A : Type ℓ} {B : Type κ} (m : Result A) (f : A → Result B) {a : A}
    → m ≡ ok a
    → Fails (f a)
    → Fails (m >>= f)
next-Fails m f {a} same (e, h) = (e, ap (λ x. x >>= f) same ∙ h)

pub ok-succeeds {ℓ} : {A : Type ℓ} {a : A} → Fails (ok a) → ⊥
ok-succeeds (e, h) = cc

pub number-Fails : (v : Value) → Fails (number v) ↔ IsHuge v
unfolding number
number-Fails (int n) = (
  λ (e, h). (
    n,
    refl,
    elim (Bool-cases (is_huge n)) [
      | inl huge ↦ huge
      | inr small ↦ absurd (ok-succeeds (e, rw small at h))
    ],
  ),
  λ (k, same, huge). ("OverflowError", ground arith),
)
number-Fails null = (λ h. absurd (ok-succeeds h), λ (n, same, _). cc)
number-Fails (bool b) = (λ h. absurd (ok-succeeds h), λ (n, same, _). cc)
number-Fails (float x) = (λ h. absurd (ok-succeeds h), λ (n, same, _). cc)
number-Fails non_finite = (λ h. absurd (ok-succeeds h), λ (n, same, _). cc)
number-Fails (str s) = (λ h. absurd (ok-succeeds h), λ (n, same, _). cc)
number-Fails (arr vs) = (λ h. absurd (ok-succeeds h), λ (n, same, _). cc)
number-Fails (obj fs) = (λ h. absurd (ok-succeeds h), λ (n, same, _). cc)

window_fields-Fails :
    (fs : Fields)
    → Fails (window_value (obj fs))
    → IsHuge (get "remaining_percent" fs)
      ⊎ (IsHuge (get "used_percent" fs) ⊎ IsHuge (get "resets_at" fs))
unfolding window_value
window_fields-Fails fs h = elim (Fails-bind (number (get "remaining_percent" fs)) _ h) [
  | inl first ↦ inl ((number-Fails (get "remaining_percent" fs)).0 first)
  | inr (r, er, h₁) ↦ inr (elim (Fails-bind (number (get "used_percent" fs)) _ h₁) [
    | inl second ↦ inl ((number-Fails (get "used_percent" fs)).0 second)
    | inr (u, eu, h₂) ↦ elim (Fails-bind (number (get "resets_at" fs)) _ h₂) [
      | inl third ↦ inr ((number-Fails (get "resets_at" fs)).0 third)
      | inr (t, et, h₃) ↦ absurd (ok-succeeds h₃)
    ]
  ])
]

window_value-Fails : (v : Value) → Fails (window_value v) → IsHugeWindow v
unfolding window_value
window_value-Fails (obj fs) h = (fs, refl, window_fields-Fails fs h)
window_value-Fails null h = absurd (ok-succeeds h)
window_value-Fails (bool b) h = absurd (ok-succeeds h)
window_value-Fails (int n) h = absurd (ok-succeeds h)
window_value-Fails (float x) h = absurd (ok-succeeds h)
window_value-Fails non_finite h = absurd (ok-succeeds h)
window_value-Fails (str s) h = absurd (ok-succeeds h)
window_value-Fails (arr vs) h = absurd (ok-succeeds h)

huge_fields-Fails :
    (fs : Fields)
    → IsHuge (get "remaining_percent" fs)
      ⊎ (IsHuge (get "used_percent" fs) ⊎ IsHuge (get "resets_at" fs))
    → Fails (window_value (obj fs))
unfolding window_value
huge_fields-Fails fs (inl first) =
    first-Fails (number (get "remaining_percent" fs)) _
      ((number-Fails (get "remaining_percent" fs)).1 first)
huge_fields-Fails fs (inr (inl second)) = rest-Fails (number (get "remaining_percent" fs)) _ λ r.
    first-Fails (number (get "used_percent" fs)) _ ((number-Fails (get "used_percent" fs)).1 second)
huge_fields-Fails fs (inr (inr third)) = rest-Fails (number (get "remaining_percent" fs)) _ λ r.
    rest-Fails (number (get "used_percent" fs)) _
      λ u. first-Fails (number (get "resets_at" fs)) _ ((number-Fails (get "resets_at" fs)).1 third)

IsHugeWindow-Fails : (v : Value) → IsHugeWindow v → Fails (window_value v)
IsHugeWindow-Fails v (fs, same, huge) = rw same (huge_fields-Fails fs huge)

and_weekly-Fails :
    (wo : Option GuardWindow) (weekly : Value)
    → Fails (and_weekly wo weekly)
    → (w : GuardWindow) × (wo ≡ some w) × IsHugeWindow weekly
and_weekly-Fails none weekly h = absurd (ok-succeeds h)
and_weekly-Fails (some w) weekly h = elim (Fails-bind (window_value weekly) _ h) [
  | inl second ↦ (w, refl, window_value-Fails weekly second)
  | inr (v, ev, h₁) ↦ absurd (ok-succeeds h₁)
]

window_values-Fails : (fs : Fields) → Fails (window_values (obj fs)) ↔ HasHugeWindow fs
unfolding window_values
window_values-Fails fs = (
  λ h. elim (Fails-bind (window_value (get "five_hour" fs)) _ h) [
    | inl first ↦ inl (window_value-Fails (get "five_hour" fs) first)
    | inr (wo, ew, h₁) ↦
        let (w, some_window, huge) = and_weekly-Fails wo (get "weekly" fs) h₁ in
        inr (w, ew ∙ ap ok some_window, huge)
  ],
  λ huge. elim huge [
    | inl first ↦ first-Fails _ _ (IsHugeWindow-Fails (get "five_hour" fs) first)
    | inr (w, ew, second) ↦
        next-Fails (window_value (get "five_hour" fs)) (λ v. and_weekly v (get "weekly" fs)) ew
          (first-Fails (window_value (get "weekly" fs)) _
            (IsHugeWindow-Fails (get "weekly" fs) second))
  ],
)

observed_status-Fails :
    (fs : Fields) (wo : Option Windows) (now : Option ℤ) (max_age : ℤ)
    → Fails (observed_status fs wo now max_age)
    → (ws : Windows) × (wo ≡ some ws) × IsHuge (get "observed_at" fs)
unfolding observed_status
observed_status-Fails fs none now max_age h = absurd (ok-succeeds h)
observed_status-Fails fs (some ws) now max_age h =
    elim (Fails-bind (number (get "observed_at" fs)) _ h) [
      | inl time ↦ (ws, refl, (number-Fails (get "observed_at" fs)).0 time)
      | inr (o, eo, h₁) ↦ absurd (ok-succeeds h₁)
    ]

huge_time-Fails :
    (fs : Fields) (ws : Windows) (now : Option ℤ) (max_age : ℤ)
    → IsHuge (get "observed_at" fs)
    → Fails (observed_status fs (some ws) now max_age)
unfolding observed_status
huge_time-Fails fs ws now max_age huge =
    first-Fails (number (get "observed_at" fs)) _ ((number-Fails (get "observed_at" fs)).1 huge)

-- The numbers of an object, behind its marker and its reasons.
pub numbers-Fails :
    (fs : Fields) (now : Option ℤ) (max_age : ℤ)
    → Fails (window_values (obj fs) >>= λ windows. observed_status fs windows now max_age)
      ↔ (HasHugeWindow fs ⊎ HasHugeTime fs)
numbers-Fails fs now max_age = (
  λ h. elim (Fails-bind (window_values (obj fs)) _ h) [
    | inl windows ↦ inl ((window_values-Fails fs).0 windows)
    | inr (wo, ew, h₁) ↦
        let (ws, some_windows, huge) = observed_status-Fails fs wo now max_age h₁ in
        inr (ws, ew ∙ ap ok some_windows, huge)
  ],
  λ huge. elim huge [
    | inl windows ↦ first-Fails _ _ ((window_values-Fails fs).1 windows)
    | inr (ws, ew, time) ↦
        next-Fails (window_values (obj fs)) (λ windows. observed_status fs windows now max_age) ew
          (huge_time-Fails fs ws now max_age time)
  ],
)
