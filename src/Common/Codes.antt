-- ===== src/Common/Codes.antt =====
-- Lists of reason codes: `sorted(set(codes))`, as `policy.py` and `service.py` normalise them.
use Prim.Native.Char.{code}
use Prim.Native.String.{String}
use codex_work_scheduler.Common.{
  ℕ, ◌≡◌, refl, ◌≢◌, Bool, true, false, ◌||◌, ◌&&◌, all, List, [], ◌∷◌, arith, ltb, ◌==◌, str_eq,
  contains, if◌then◌else◌, eq_iff,
}

-- The code points of a text.
abbrev pub codes : String → List ℕ
codes String.[] = []
codes (String.◌∷◌ c s) = code c ∷ codes s

-- `<` on texts, by code points.
abbrev pub lex_lt : List ℕ → List ℕ → Bool
lex_lt [] [] = false
lex_lt [] (y ∷ ys) = true
lex_lt (x ∷ xs) [] = false
lex_lt (x ∷ xs) (y ∷ ys) =
    let rest = lex_lt xs ys in if ltb x y then true else if x == y then rest else false

-- Insertion into a sorted list without duplicates.
unfoldable pub insert_code : String → List String → List String
insert_code c [] = c ∷ []
insert_code c (d ∷ ds) =
    let rest = insert_code c ds in
    if str_eq c d then d ∷ ds else if lex_lt (codes c) (codes d) then c ∷ d ∷ ds else d ∷ rest

-- `sorted(set(cs))`
unfoldable pub sorted_set : List String → List String
sorted_set [] = []
sorted_set (c ∷ cs) = insert_code c (sorted_set cs)

pub insert_code-ne_nil : (c : String) (ds : List String) → insert_code c ds ≢ []
unfolding insert_code
insert_code-ne_nil c [] h = cc
insert_code-ne_nil c (d ∷ ds) h = ground arith

pub contains-insert_code :
    (a c : String) (ds : List String)
    → contains a (insert_code c ds) ≡ (str_eq a c || contains a ds)
unfolding insert_code
contains-insert_code a c [] = refl
contains-insert_code a c (d ∷ ds) =
    ground (arith, contains-insert_code a c ds, eq_iff c d, eq_iff a c, eq_iff a d)

pub contains-sorted_set :
    (a : String) (cs : List String) → contains a (sorted_set cs) ≡ contains a cs
unfolding sorted_set
contains-sorted_set a [] = refl
contains-sorted_set a (c ∷ cs) =
    rw (contains-insert_code a c (sorted_set cs), contains-sorted_set a cs)

pub sorted_set-ne_nil : (c : String) (cs : List String) → sorted_set (c ∷ cs) ≢ []
unfolding sorted_set
sorted_set-ne_nil c cs = insert_code-ne_nil c (sorted_set cs)

all-insert_code :
    (f : String → Bool) (c : String) (ds : List String)
    → all f (insert_code c ds) ≡ (f c && all f ds)
unfolding insert_code
all-insert_code f c [] = refl
all-insert_code f c (d ∷ ds) = ground (arith, all-insert_code f c ds, eq_iff c d)

pub all-sorted_set : (f : String → Bool) (cs : List String) → all f (sorted_set cs) ≡ all f cs
unfolding sorted_set
all-sorted_set f [] = refl
all-sorted_set f (c ∷ cs) = rw (all-insert_code f c (sorted_set cs), all-sorted_set f cs)

-- `s + t` on texts.
abbrev pub concat : String → String → String
concat String.[] t = t
concat (String.◌∷◌ c s) t = String.◌∷◌ c (concat s t)
