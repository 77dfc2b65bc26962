-- ===== src/Json.antt =====
-- The values that `json.loads` gives and that the validators and the quota guard inspect. A float
-- is a signed number of units of 10⁻⁹, or not finite. Python's integers are unbounded. The keys of
-- an object are those of a dict, so they are distinct.
use codex_work_scheduler.Common.{
  leb, ◌+◌, ◌^◌, suc, ◌-◌, ◌*◌, String, Bool, true, false, ◌||◌, List, [], ◌∷◌, str_eq,
  if◌then◌else◌,
}
use codex_work_scheduler.Common.Int.{pos_part, neg_part, ℤ, pos, negsuc}
use codex_work_scheduler.Contracts.{unit}

mutual
  pub data Fields : Type 0 where
    end : Fields
    field : (key : String) → Value → Fields → Fields

  pub data Items : Type 0 where
    cons : Value → Items → Items
    nil : Items

  pub data Value : Type 0 where
    obj : (members : Fields) → Value
    arr : (items : Items) → Value
    str : (chars : String) → Value
    float int : (number : ℤ) → Value
    bool : Bool → Value
    non_finite null : Value

-- `value.get(key)`: a missing key and a null both read as `None`.
abbrev pub get : String → Fields → Value
get k end = null
get k (field j v fs) = let rest = get k fs in if str_eq k j then v else rest

-- `key in value`
abbrev pub has_key : String → Fields → Bool
has_key k end = false
has_key k (field j v fs) = str_eq k j || has_key k fs

abbrev pub keys : Fields → List String
keys end = []
keys (field j v fs) = j ∷ keys fs

-- The elements of an array.
abbrev pub elements : Items → List Value
elements nil = []
elements (cons v vs) = v ∷ elements vs

-- A value that Python can put into a set or look up in one.
abbrev pub is_hashable : Value → Bool
is_hashable (arr vs) = false
is_hashable (obj fs) = false
is_hashable null = true
is_hashable (bool b) = true
is_hashable (int n) = true
is_hashable (float x) = true
is_hashable non_finite = true
is_hashable (str s) = true

-- The texts among some values: `{str(v) for v in values if isinstance(v, str)}`.
abbrev pub texts : Items → List String
texts nil = []
texts (cons (str s) vs) = s ∷ texts vs
texts (cons null vs) = texts vs
texts (cons (bool b) vs) = texts vs
texts (cons (int n) vs) = texts vs
texts (cons (float x) vs) = texts vs
texts (cons non_finite vs) = texts vs
texts (cons (arr ws) vs) = texts vs
texts (cons (obj fs) vs) = texts vs

-- The integers that `float` refuses: those that round to 2 ^ 1024 or beyond.
unfoldable pub is_huge : ℤ → Bool
is_huge n = leb (2 ^ 1024 - 2 ^ 970) (pos_part n + neg_part n)

-- An integer as a float.
abbrev pub scale : ℤ → ℤ
scale (pos n) = pos (n * unit)
scale (negsuc n) = negsuc (suc n * unit - 1)
