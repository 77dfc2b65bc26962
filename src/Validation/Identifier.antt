-- ===== src/Validation/Identifier.antt =====
-- The language of `_IDENTIFIER` (codex_work_scheduler/validation.py): `$` also matches before a line
-- feed that ends the text.
use codex_work_scheduler.Common.{
  ℕ, zero, suc, ◌≤◌, ◌≡◌, refl, ◌↔◌, ◌⊎◌, inl, inr, true, ◌&&◌, List, [], ◌∷◌, ◌++◌, all, length,
  arith, Bool-cases, ap, &&-true,
}
use codex_work_scheduler.Validation.Fields.{
  is_alnum, is_identifier_char, at_end, matches_tail, matches_identifier,
}

-- At most `n` characters of the class `[A-Za-z0-9._:-]`.
abbrev pub IsTail : ℕ → List ℕ → Type 0
IsTail n cs = (length cs ≤ n) × (all is_identifier_char cs ≡ true)

-- Such a text, or such a text with a line feed behind it.
abbrev pub IsAccepted : ℕ → List ℕ → Type 0
IsAccepted n cs = IsTail n cs ⊎ ((body : List ℕ) × (cs ≡ body ++ 10 ∷ []) × IsTail n body)

-- A letter or digit and at most 127 characters of the class.
abbrev pub IsIdentifier : List ℕ → Type 0
IsIdentifier [] = ⊥
IsIdentifier (c ∷ cs) = (is_alnum c ≡ true) × IsTail 127 cs

at_end-line_feed : (c : ℕ) (cs : List ℕ) → at_end c cs ≡ true → c ∷ cs ≡ 10 ∷ []
at_end-line_feed c [] h = ground arith
at_end-line_feed c (d ∷ cs) h = ground arith

IsAccepted-cons :
    (n c : ℕ) (cs : List ℕ)
    → is_identifier_char c ≡ true
    → IsAccepted n cs
    → IsAccepted (suc n) (c ∷ cs)
IsAccepted-cons n c cs h (inl t) = inl (omega (arith, t.0), ground (arith, t.1))
IsAccepted-cons n c cs h (inr (body, e, t)) =
    inr (c ∷ body, ap (λ (ds : List ℕ). c ∷ ds) e, (omega (arith, t.0), ground (arith, t.1)))

matches_tail_sound : (n : ℕ) (cs : List ℕ) → matches_tail n cs ≡ true → IsAccepted n cs
unfolding matches_tail
matches_tail_sound n [] h = inl (omega arith, refl)
matches_tail_sound zero (c ∷ cs) h = inr ([], at_end-line_feed c cs h, (omega arith, refl))
matches_tail_sound (suc n) (c ∷ cs) h = elim (Bool-cases (at_end c cs)) [
  | inl last ↦ inr ([], at_end-line_feed c cs last, (omega arith, refl))
  | inr more ↦
      let both : (is_identifier_char c && matches_tail n cs) ≡ true = rw more at h in
      let (here, rest) = &&-true (is_identifier_char c) (matches_tail n cs) both in
      IsAccepted-cons n c cs here (matches_tail_sound n cs rest)
]

matches_tail-plain : (n : ℕ) (cs : List ℕ) → IsTail n cs → matches_tail n cs ≡ true
unfolding matches_tail
matches_tail-plain n [] t = refl
matches_tail-plain zero (c ∷ cs) t = absurd (omega (arith, t.0))
matches_tail-plain (suc n) (c ∷ cs) t =
    let (here, rest) = &&-true (is_identifier_char c) (all is_identifier_char cs) t.1 in
    rw (here, matches_tail-plain n cs (omega (arith, t.0), rest)) (ground arith)

matches_tail-fed : (n : ℕ) (cs : List ℕ) → IsTail n cs → matches_tail n (cs ++ 10 ∷ []) ≡ true
unfolding matches_tail
matches_tail-fed zero [] t = refl
matches_tail-fed (suc n) [] t = refl
matches_tail-fed zero (c ∷ cs) t = absurd (omega (arith, t.0))
matches_tail-fed (suc n) (c ∷ cs) t =
    let (here, rest) = &&-true (is_identifier_char c) (all is_identifier_char cs) t.1 in
    rw (here, matches_tail-fed n cs (omega (arith, t.0), rest)) (ground arith)

matches_identifier_sound :
    (cs : List ℕ)
    → matches_identifier cs ≡ true
    → IsIdentifier cs ⊎ ((body : List ℕ) × (cs ≡ body ++ 10 ∷ []) × IsIdentifier body)
unfolding matches_identifier
matches_identifier_sound [] h = cc
matches_identifier_sound (c ∷ cs) h =
    let (here, rest) = &&-true (is_alnum c) (matches_tail 127 cs) h in
    elim (matches_tail_sound 127 cs rest) [
      | inl t ↦ inl (here, t)
      | inr (body, e, t) ↦ inr (c ∷ body, ap (λ (ds : List ℕ). c ∷ ds) e, (here, t))
    ]

matches_identifier-plain : (cs : List ℕ) → IsIdentifier cs → matches_identifier cs ≡ true
unfolding matches_identifier
matches_identifier-plain [] h = absurd h
matches_identifier-plain (c ∷ cs) h = rw (h.0, matches_tail-plain 127 cs h.1)

matches_identifier-fed : (cs : List ℕ) → IsIdentifier cs → matches_identifier (cs ++ 10 ∷ []) ≡ true
unfolding matches_identifier
matches_identifier-fed [] h = absurd h
matches_identifier-fed (c ∷ cs) h = rw (h.0, matches_tail-fed 127 cs h.1)

-- The identifier check accepts exactly the texts of one letter or digit and at most 127 characters
-- of the class, and those texts with a line feed behind them.
pub matches_identifier-IsIdentifier :
    (cs : List ℕ)
    → (matches_identifier cs ≡ true)
      ↔ (IsIdentifier cs ⊎ ((body : List ℕ) × (cs ≡ body ++ 10 ∷ []) × IsIdentifier body))
matches_identifier-IsIdentifier cs = (
  matches_identifier_sound cs,
  elim [
    | inl plain ↦ matches_identifier-plain cs plain
    | inr (body, e, h) ↦ rw e (matches_identifier-fed body h)
  ],
)
