-- ===== src/Common/Sweep.antt =====
-- Loops that select rows, in an order, and then write each row that they selected by its key: the
-- lemmas that such a loop is one update of all the rows.
use codex_work_scheduler.Common.{
  ◌≡◌, refl, sym, ap, ◌∙◌, inl, inr, String, Bool, true, false, ◌&&◌, ◌||◌, List, [], ◌∷◌, any, All,
  select, update_where, str_eq, str_eq_refl, if◌then◌else◌, arith, Bool-cases,
}

module _ {ℓ} {A : Type ℓ} where
  -- `ORDER BY`: insertion by a test that says which of two rows comes first.
  unfoldable pub insert_by : (A → A → Bool) → A → List A → List A
  insert_by before x [] = x ∷ []
  insert_by before x (y ∷ ys) =
      let rest = insert_by before x ys in if before y x then y ∷ rest else x ∷ y ∷ ys

  unfoldable pub sort_by : (A → A → Bool) → List A → List A
  sort_by before [] = []
  sort_by before (x ∷ xs) = insert_by before x (sort_by before xs)

  any-insert_by :
      (p : A → Bool) (before : A → A → Bool) (x : A) (ys : List A)
      → any p (insert_by before x ys) ≡ (p x || any p ys)
  unfolding insert_by
  any-insert_by p before x [] = refl
  any-insert_by p before x (y ∷ ys) = ground (arith, any-insert_by p before x ys)

  pub any-sort_by :
      (p : A → Bool) (before : A → A → Bool) (xs : List A) → any p (sort_by before xs) ≡ any p xs
  unfolding sort_by
  any-sort_by p before [] = refl
  any-sort_by p before (x ∷ xs) =
      any-insert_by p before x (sort_by before xs) ∙ ap (λ b. p x || b) (any-sort_by p before xs)

  pub All-map {κ μ} :
      (P : A → Type κ) (Q : A → Type μ) (xs : List A) → ((x : A) → P x → Q x) → All P xs → All Q xs
  All-map P Q [] f h = tt
  All-map P Q (x ∷ xs) f (h, hs) = (f x h, All-map P Q xs f hs)

  pub update_where-congr :
      (p q : A → Bool) (f : A → A) (xs : List A)
      → All (λ x. p x ≡ q x) xs
      → update_where p f xs ≡ update_where q f xs
  update_where-congr p q f [] h = refl
  update_where-congr p q f (x ∷ xs) (h, hs) = rw (h, update_where-congr p q f xs hs)

  -- Two updates with one result are one, where what is written is not selected again.
  pub update_where-update_where :
      (p q : A → Bool) (f : A → A) (xs : List A)
      → ((x : A) → q (f x) ≡ false)
      → update_where q f (update_where p f xs) ≡ update_where (λ x. p x || q x) f xs
  update_where-update_where p q f [] h = refl
  update_where-update_where p q f (x ∷ xs) h =
      ground (arith, h x, update_where-update_where p q f xs h)

  pub update_where-none :
      (p : A → Bool) (f : A → A) (xs : List A) → any p xs ≡ false → update_where p f xs ≡ xs
  update_where-none p f [] h = refl
  update_where-none p f (x ∷ xs) h = ground (arith, update_where-none p f xs)

  pub any-update_where :
      (p : A → Bool) (f : A → A) (xs : List A)
      → ((x : A) → p (f x) ≡ false)
      → any p (update_where p f xs) ≡ false
  any-update_where p f [] h = refl
  any-update_where p f (x ∷ xs) h = ground (arith, h x, any-update_where p f xs h)

  -- The rows `x` with the key of the row `c` that are open.
  abbrev pub is_hit : (A → Bool) → (A → String) → A → A → Bool
  is_hit open_row key c x = str_eq (key x) (key c) && open_row x

  -- One update for each selected row.
  unfoldable pub sweep : (A → Bool) → (A → String) → (A → A) → List A → List A → List A
  sweep open_row key write [] rows = rows
  sweep open_row key write (c ∷ cs) rows =
      sweep open_row key write cs (update_where (is_hit open_row key c) write rows)

  any-false : (xs : List A) → any (λ x. false) xs ≡ false
  any-false [] = refl
  any-false (x ∷ xs) = any-false xs

  hits_closed :
      (open_row : A → Bool) (key : A → String) (x : A) (cs : List A)
      → open_row x ≡ false
      → any (λ c. is_hit open_row key c x) cs ≡ false
  hits_closed open_row key x [] e = refl
  hits_closed open_row key x (c ∷ cs) e = ground (arith, hits_closed open_row key x cs e)

  -- The loop is one update, of the open rows with a key among those selected.
  pub sweep-update_where :
      (open_row : A → Bool) (key : A → String) (write : A → A) (cs rows : List A)
      → ((x : A) → open_row (write x) ≡ false)
      → sweep open_row key write cs rows
        ≡ update_where (λ x. any (λ c. is_hit open_row key c x) cs) write rows
  unfolding sweep
  sweep-update_where open_row key write [] rows closed =
      sym (update_where-none (λ x. false) write rows (any-false rows))
  sweep-update_where open_row key write (c ∷ cs) rows closed =
      sweep-update_where open_row key write cs (update_where (is_hit open_row key c) write rows)
        closed
      ∙ update_where-update_where (is_hit open_row key c)
          (λ x. any (λ d. is_hit open_row key d x) cs) write rows
          λ x. hits_closed open_row key (write x) cs (closed x)

  select-hit :
      (open_row : A → Bool) (key : A → String) (rows : List A)
      → All (λ x. any (λ c. is_hit open_row key c x) (select open_row rows) ≡ open_row x) rows
  select-hit open_row key [] = tt
  select-hit open_row key (x ∷ xs) = (
    ground (arith, str_eq_refl (key x), hits_closed open_row key x (select open_row xs)),
    All-map (λ y. any (λ c. is_hit open_row key c y) (select open_row xs) ≡ open_row y) _ xs
        (λ y h. ground (arith, h)) (select-hit open_row key xs),
  )

  -- Where the open rows themselves were selected, in whatever order, the loop is one update of all
  -- open rows.
  pub sweep-all :
      (open_row : A → Bool) (key : A → String) (write : A → A) (before : A → A → Bool)
      (rows : List A)
      → ((x : A) → open_row (write x) ≡ false)
      → sweep open_row key write (sort_by before (select open_row rows)) rows
        ≡ update_where open_row write rows
  sweep-all open_row key write before rows closed =
      sweep-update_where open_row key write (sort_by before (select open_row rows)) rows closed
      ∙ update_where-congr _ open_row write rows (
          All-map (λ x. any (λ c. is_hit open_row key c x) (select open_row rows) ≡ open_row x) _
            rows
            (λ x h. any-sort_by (λ c. is_hit open_row key c x) before (select open_row rows) ∙ h)
            (select-hit open_row key rows))

  All-insert_by {κ} :
      (P : A → Type κ) (before : A → A → Bool) (x : A) (ys : List A)
      → P x
      → All P ys
      → All P (insert_by before x ys)
  unfolding insert_by
  All-insert_by P before x [] h hs = (h, tt)
  All-insert_by P before x (y ∷ ys) h (k, ks) = elim (Bool-cases (before y x)) [
    | inl e ↦ rw (e) (k, All-insert_by P before x ys h ks)
    | inr e ↦ rw (e) (h, (k, ks))
  ]

  pub All-sort_by {κ} :
      (P : A → Type κ) (before : A → A → Bool) (xs : List A) → All P xs → All P (sort_by before xs)
  unfolding sort_by
  All-sort_by P before [] h = tt
  All-sort_by P before (x ∷ xs) (h, hs) =
      All-insert_by P before x (sort_by before xs) h (All-sort_by P before xs hs)

  -- A selected row is open, and an update by its key finds a row.
  abbrev pub IsCandidate : (A → Bool) → (A → String) → List A → A → Type 0
  IsCandidate open_row key rows c = (open_row c ≡ true) × (any (is_hit open_row key c) rows ≡ true)

  select-IsCandidate :
      (open_row : A → Bool) (key : A → String) (rows : List A)
      → All (IsCandidate open_row key rows) (select open_row rows)
  select-IsCandidate open_row key [] = tt
  select-IsCandidate open_row key (x ∷ xs) =
      let later =
        All-map (IsCandidate open_row key xs) (IsCandidate open_row key (x ∷ xs))
          (select open_row xs) (λ c h. ground (arith, h)) (select-IsCandidate open_row key xs) in
      elim (Bool-cases (open_row x)) [
        | inl e ↦ rw (e) ((e, ground (arith, str_eq_refl (key x), e)), later)
        | inr e ↦ rw (e) later
      ]

  pub candidates-IsCandidate :
      (open_row : A → Bool) (key : A → String) (before : A → A → Bool) (rows : List A)
      → All (IsCandidate open_row key rows) (sort_by before (select open_row rows))
  candidates-IsCandidate open_row key before rows =
      All-sort_by _ before (select open_row rows) (select-IsCandidate open_row key rows)

  any-select : (p : A → Bool) (rows : List A) → any p (select p rows) ≡ any p rows
  any-select p [] = refl
  any-select p (x ∷ xs) = ground (arith, any-select p xs)

  pub any-candidates :
      (open_row : A → Bool) (before : A → A → Bool) (rows : List A)
      → any open_row (sort_by before (select open_row rows)) ≡ any open_row rows
  any-candidates open_row before rows =
      any-sort_by open_row before (select open_row rows) ∙ any-select open_row rows

  pub select-none : (p : A → Bool) (rows : List A) → any p rows ≡ false → select p rows ≡ []
  select-none p [] h = refl
  select-none p (x ∷ xs) h = ground (arith, select-none p xs)

  pub sort_by-select-none :
      (p : A → Bool) (before : A → A → Bool) (rows : List A)
      → any p rows ≡ false
      → sort_by before (select p rows) ≡ []
  unfolding sort_by
  sort_by-select-none p before rows h = ap (sort_by before) (select-none p rows h)
