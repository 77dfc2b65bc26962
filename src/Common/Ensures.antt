-- ===== src/Common/Ensures.antt =====
-- Postconditions of fallible code: what holds of the value if there is one.
use codex_work_scheduler.Common.{
  ◌⊎◌, inl, inr, ◌≡◌, Bool, true, false, String, Result, ok, err, ◌>>=◌, ◌>>◌, guard, if◌then◌else◌,
}

abbrev pub Ensures {ℓ κ} : {A : Type ℓ} → (A → Type κ) → Result A → Type κ
Ensures P (ok a) = P a
Ensures P (err e) = Unit

pub Ensures-bind {ℓ κ μ ν} :
    {A : Type ℓ} {B : Type κ} (Q : A → Type μ) (P : B → Type ν) (m : Result A) (f : A → Result B)
    → Ensures Q m
    → ((a : A) → Q a → Ensures P (f a))
    → Ensures P (m >>= f)
Ensures-bind Q P (ok a) f q k = k a q
Ensures-bind Q P (err e) f q k = tt

-- Where nothing is known of the first value.
pub Ensures-then {ℓ κ ν} :
    {A : Type ℓ} {B : Type κ} (P : B → Type ν) (m : Result A) (f : A → Result B)
    → ((a : A) → Ensures P (f a))
    → Ensures P (m >>= f)
Ensures-then P (ok a) f k = k a
Ensures-then P (err e) f k = tt

pub guard-true : (b : Bool) (e : String) → Ensures (λ _. b ≡ true) (guard b e)
guard-true true e = λ i. true
guard-true false e = tt

pub Ensures-guard {ℓ ν} :
    {B : Type ℓ} (P : B → Type ν) (b : Bool) (e : String) (rest : Result B)
    → (b ≡ true → Ensures P rest)
    → Ensures P (guard b e >> rest)
Ensures-guard P true e rest k = k (λ i. true)
Ensures-guard P false e rest k = tt

ok-injective {ℓ} : {A : Type ℓ} {a b : A} → ok a ≡ ok b → a ≡ b
ok-injective e = cc

pub Ensures-ok {ℓ κ} :
    {A : Type ℓ} (P : A → Type κ) (m : Result A) {a : A} → Ensures P m → m ≡ ok a → P a
Ensures-ok P (ok b) p e = rw (← ok-injective e) p
Ensures-ok P (err e) p h = cc

pub Ensures-if {ℓ ν} :
    {B : Type ℓ} (P : B → Type ν) (b : Bool) (m n : Result B)
    → (b ≡ true → Ensures P m)
    → (b ≡ false → Ensures P n)
    → Ensures P (if b then m else n)
Ensures-if P true m n j k = j (λ i. true)
Ensures-if P false m n j k = k (λ i. false)

-- Where the value is known by the equation alone.
pub Ensures-eq {ℓ κ ν} :
    {A : Type ℓ} {B : Type κ} (P : B → Type ν) (m : Result A) (f : A → Result B)
    → ((a : A) → m ≡ ok a → Ensures P (f a))
    → Ensures P (m >>= f)
Ensures-eq P (ok a) f k = k a (λ i. ok a)
Ensures-eq P (err e) f k = tt

pub Ensures-map {ℓ κ μ} :
    {A : Type ℓ} (P : A → Type κ) (Q : A → Type μ) (m : Result A)
    → ((a : A) → P a → Q a)
    → Ensures P m
    → Ensures Q m
Ensures-map P Q (ok a) f p = f a p
Ensures-map P Q (err e) f p = tt

-- Where the call is kept as an equation.
pub Ensures-self {ℓ κ} :
    {A : Type ℓ} (P : A → Type κ) (m : Result A) → ((a : A) → m ≡ ok a → P a) → Ensures P m
Ensures-self P (ok a) f = f a (λ i. ok a)
Ensures-self P (err e) f = tt

-- The errors that a call may raise.
abbrev pub Raises {ℓ κ} : {A : Type ℓ} → (String → Type κ) → Result A → Type κ
Raises E (ok a) = Unit
Raises E (err e) = E e

pub Raises-bind {ℓ κ ν} :
    {A : Type ℓ} {B : Type κ} (E : String → Type ν) (m : Result A) (f : A → Result B)
    → Raises E m
    → ((a : A) → Raises E (f a))
    → Raises E (m >>= f)
Raises-bind E (ok a) f r k = k a
Raises-bind E (err e) f r k = r

pub Raises-if {ℓ ν} :
    {B : Type ℓ} (E : String → Type ν) (b : Bool) (m n : Result B)
    → (b ≡ true → Raises E m)
    → (b ≡ false → Raises E n)
    → Raises E (if b then m else n)
Raises-if E true m n j k = j (λ i. true)
Raises-if E false m n j k = k (λ i. false)

pub Raises-guarded {ℓ ν} :
    {B : Type ℓ} (E : String → Type ν) (b : Bool) (e : String) (rest : Result B)
    → (b ≡ false → E e)
    → Raises E rest
    → Raises E (guard b e >> rest)
Raises-guarded E true e rest h r = r
Raises-guarded E false e rest h r = h (λ i. false)

-- Where something is known of the first value.
pub Raises-after {ℓ κ μ ν} :
    {A : Type ℓ} {B : Type κ} (Q : A → Type μ) (E : String → Type ν) (m : Result A)
    (f : A → Result B)
    → Raises E m
    → Ensures Q m
    → ((a : A) → Q a → Raises E (f a))
    → Raises E (m >>= f)
Raises-after Q E (ok a) f r q k = k a q
Raises-after Q E (err e) f r q k = r

-- Where the test is known to pass.
pub Raises-passed {ℓ ν} :
    {B : Type ℓ} (E : String → Type ν) (b : Bool) (e : String) (rest : Result B)
    → b ≡ true
    → Raises E rest
    → Raises E (guard b e >> rest)
Raises-passed E true e rest h r = r
Raises-passed E false e rest h r = cc

-- A call returns, or raises one of its errors.
pub Raises-cases {ℓ ν} :
    {A : Type ℓ} (E : String → Type ν) (m : Result A)
    → Raises E m
    → ((a : A) × (m ≡ ok a)) ⊎ ((e : String) × (m ≡ err e) × E e)
Raises-cases E (ok a) r = inl (a, λ i. ok a)
Raises-cases E (err e) r = inr (e, λ i. err e, r)
