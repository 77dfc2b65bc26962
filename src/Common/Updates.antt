-- ===== src/Common/Updates.antt =====
-- Updates of tables, row by row: what they count, what they keep, and what they leave.
use codex_work_scheduler.Common.{
  String, ◌≡◌, refl, ap, ◌∙◌, inl, inr, Bool, true, false, ◌&&◌, ◌||◌, some, List, [], ◌∷◌, ◌++◌,
  any, all, find, contains, update_where, count_where, str_eq_refl, leb, ◌==◌, arith, Bool-cases,
}

pub count_where-append :
    {A : Type 0} (p : A → Bool) (rows : List A) (row : A)
    → count_where p (rows ++ row ∷ []) ≡ count_where p (row ∷ rows)
count_where-append p [] row = refl
count_where-append p (x ∷ xs) row = ground (arith, count_where-append p xs row)

-- An update of other columns keeps what is counted.
pub count_where-revised :
    {A : Type 0} (p hit : A → Bool) (write : A → A)
    → ((row : A) → p (write row) ≡ p row)
    → (rows : List A) → count_where p (update_where hit write rows) ≡ count_where p rows
count_where-revised p hit write kept [] = refl
count_where-revised p hit write kept (row ∷ rows) =
    ground (arith, kept row, count_where-revised p hit write kept rows)

pub count_where-none :
    {A : Type 0} (p : A → Bool) (rows : List A) → any p rows ≡ false → count_where p rows ≡ 0
count_where-none p [] h = refl
count_where-none p (row ∷ rows) h = ground (arith, count_where-none p rows)

pub any-append :
    {A : Type 0} (p : A → Bool) (rows : List A) (row : A)
    → any p (rows ++ row ∷ []) ≡ any p (row ∷ rows)
any-append p [] row = refl
any-append p (x ∷ xs) row = ground (arith, any-append p xs row)

pub any-revised :
    {A : Type 0} (p hit : A → Bool) (write : A → A)
    → ((row : A) → p (write row) ≡ p row)
    → (rows : List A) → any p (update_where hit write rows) ≡ any p rows
any-revised p hit write kept [] = refl
any-revised p hit write kept (row ∷ rows) =
    ground (arith, kept row, any-revised p hit write kept rows)

pub none-revised :
    {A : Type 0} (p hit : A → Bool) (write : A → A)
    → ((row : A) → hit row ≡ true → p row ≡ false → p (write row) ≡ false)
    → (rows : List A) → any p rows ≡ false
    → any p (update_where hit write rows) ≡ false
none-revised p hit write kept [] h = refl
none-revised p hit write kept (row ∷ rows) h =
    ground (arith, kept row, none-revised p hit write kept rows)

-- A narrower test counts no more rows.
pub count_where-narrow :
    {A : Type 0} (p hit : A → Bool)
    → ((row : A) → hit row ≡ true → p row ≡ true)
    → (rows : List A) → leb (count_where hit rows) (count_where p rows) ≡ true
count_where-narrow p hit within [] = refl
count_where-narrow p hit within (row ∷ rows) =
    ground (arith, within row, count_where-narrow p hit within rows)

-- An update of as many rows as there are writes them all.
pub none-stale :
    {A : Type 0} (p hit stale : A → Bool) (write : A → A)
    → ((row : A) → hit row ≡ true → p row ≡ true)
    → ((row : A) → p row ≡ false → stale row ≡ false)
    → ((row : A) → hit row ≡ true → stale (write row) ≡ false)
    → (rows : List A) → leb (count_where p rows) (count_where hit rows) ≡ true
    → any stale (update_where hit write rows) ≡ false
none-stale p hit stale write within only fresh [] h = refl
none-stale p hit stale write within only fresh (row ∷ rows) h = ground (
  arith,
  within row,
  only row,
  fresh row,
  count_where-narrow p hit within rows,
  none-stale p hit stale write within only fresh rows,
)

pub any-update_where-count :
    {A : Type 0} (p q r : A → Bool) (rows : List A)
    → (count_where (λ row. p row && (q row && r row)) rows == 1) ≡ true
    → any p rows ≡ true
any-update_where-count p q r [] h = cc
any-update_where-count p q r (row ∷ rows) h = ground (arith, any-update_where-count p q r rows)

-- Two updates with one result are one, where no row is written twice.
pub update_where-fuse :
    {A : Type 0} (p q s : A → Bool) (f : A → A) (rows : List A)
    → ((x : A) → p x ≡ true → q (f x) ≡ false)
    → ((x : A) → s x ≡ (p x || q x))
    → update_where q f (update_where p f rows) ≡ update_where s f rows
update_where-fuse p q s f [] once both = refl
update_where-fuse p q s f (x ∷ xs) once both =
    ground (arith, once x, both x, update_where-fuse p q s f xs once both)

pub any-empty :
    {A : Type 0} (p : A → Bool) (rows : List A) → any (λ row. false && p row) rows ≡ false
any-empty p [] = refl
any-empty p (row ∷ rows) = any-empty p rows

pub all-contains :
    (xs ys : List String)
    → ((x : String) → contains x xs ≡ true → contains x ys ≡ true)
    → all (λ x. contains x ys) xs ≡ true
all-contains [] ys h = refl
all-contains (x ∷ xs) ys h =
    let first = h x (ground (arith, str_eq_refl x)) in
    let rest = all-contains xs ys (λ y e. h y (ground arith)) in ground (arith, first, rest)

pub contains-append :
    (a : String) (xs ys : List String) → contains a (xs ++ ys) ≡ (contains a xs || contains a ys)
contains-append a [] ys = refl
contains-append a (x ∷ xs) ys = ground (arith, contains-append a xs ys)

-- A row behind others is found if none of them fits.
pub find-last :
    {A : Type 0} (p : A → Bool) (rows : List A) (row : A)
    → any p rows ≡ false
    → p row ≡ true
    → find p (rows ++ row ∷ []) ≡ some row
find-last p [] row h g = ground arith
find-last p (x ∷ xs) row h g = ground (arith, find-last p xs row)

pub none-counted :
    {A : Type 0} (p : A → Bool) (rows : List A)
    → leb (count_where p rows) 0 ≡ true
    → any p rows ≡ false
none-counted p [] h = refl
none-counted p (row ∷ rows) h = ground (arith, none-counted p rows)

pub none-narrow :
    {A : Type 0} (p q : A → Bool) (rows : List A)
    → any p rows ≡ false
    → any (λ row. p row && q row) rows ≡ false
none-narrow p q [] h = refl
none-narrow p q (row ∷ rows) h = ground (arith, none-narrow p q rows)

-- A row that is found under a key is the only one, so that a test holds of some row of the key exactly
-- if it holds of that one.
pub find-any :
    {A : Type 0} (p q : A → Bool) (rows : List A) (row : A)
    → leb (count_where p rows) 1 ≡ true
    → find p rows ≡ some row
    → q row ≡ false
    → (any p rows ≡ true) × (any (λ r. p r && q r) rows ≡ false)
find-any p q [] row single found off = cc
find-any p q (x ∷ xs) row single found off = elim (Bool-cases (p x)) [
  | inl h ↦
      let same : x ≡ row = ground arith in
      let off_x = ap q same ∙ off in
      let no_other = none-narrow p q xs (none-counted p xs (ground arith)) in
      (ground arith, ground arith)
  | inr h ↦
      let (there, none_on) = find-any p q xs row (ground arith) (ground arith) off in
      (ground arith, ground arith)
]
