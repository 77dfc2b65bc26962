-- ===== src/Validation/Fields.antt =====
-- The checks on single fields: the helpers of codex_work_scheduler/validation.py from `_object` to
-- `validate_identifier`.
use codex_work_scheduler.Common.{
  ℕ, zero, suc, String, Bool, true, false, not, ◌&&◌, ◌||◌, Option, none, some, List, [], ◌∷◌, ◌++◌,
  all, contains, length, str_eq, ltb, leb, ◌==◌, if◌then◌else◌, Result, ok, err, ◌>>=◌, guard,
}
use codex_work_scheduler.Common.Int.{ℤ, pos, negsuc}
use codex_work_scheduler.Common.Codes.{codes}
use codex_work_scheduler.Json.{
  Value, null, bool, int, float, non_finite, str, arr, obj, Items, nil, cons, Fields, get, has_key,
  keys, scale, is_huge,
}

-- `_object`
unfoldable pub object : Value → Result Fields
object (obj fs) = ok fs
object null = err "SCHEMA_INVALID"
object (bool b) = err "SCHEMA_INVALID"
object (int n) = err "SCHEMA_INVALID"
object (float x) = err "SCHEMA_INVALID"
object non_finite = err "SCHEMA_INVALID"
object (str s) = err "SCHEMA_INVALID"
object (arr vs) = err "SCHEMA_INVALID"

-- `_exact_keys`: no required key is missing, and no key is neither required nor optional.
unfoldable pub exact_keys : Fields → List String → List String → Result (Unit {0})
exact_keys fs required optional =
    guard
      (all (λ k. has_key k fs) required && all (λ k. contains k (required ++ optional)) (keys fs))
      "SCHEMA_INVALID"

-- The test `value == text`.
abbrev pub is_text : String → Value → Bool
is_text t (str s) = str_eq s t
is_text t null = false
is_text t (bool b) = false
is_text t (int n) = false
is_text t (float x) = false
is_text t non_finite = false
is_text t (arr vs) = false
is_text t (obj fs) = false

-- `_version`
unfoldable pub version : Fields → Result (Unit {0})
version fs = guard (is_text "1" (get "schema_version" fs)) "SCHEMA_UNSUPPORTED"

-- `result < low or result > high`, with `low` not negative.
abbrev pub in_range : ℕ → ℕ → ℤ → Result ℕ
in_range low high (pos n) = if ltb n low || ltb high n then err "SCHEMA_INVALID" else ok n
in_range low high (negsuc n) = err "SCHEMA_INVALID"

-- `_number`: an integer or a finite float, as a float, within its bounds.
unfoldable pub number : Value → ℕ → ℕ → Result ℕ
number (int n) low high = if is_huge n then err "OverflowError" else in_range low high (scale n)
number (float x) low high = in_range low high x
number null low high = err "SCHEMA_INVALID"
number (bool b) low high = err "SCHEMA_INVALID"
number non_finite low high = err "SCHEMA_INVALID"
number (str s) low high = err "SCHEMA_INVALID"
number (arr vs) low high = err "SCHEMA_INVALID"
number (obj fs) low high = err "SCHEMA_INVALID"

-- `_integer`
unfoldable pub integer : Value → ℕ → ℕ → Result ℕ
integer (int n) low high = in_range low high n
integer (float x) low high = err "SCHEMA_INVALID"
integer null low high = err "SCHEMA_INVALID"
integer (bool b) low high = err "SCHEMA_INVALID"
integer non_finite low high = err "SCHEMA_INVALID"
integer (str s) low high = err "SCHEMA_INVALID"
integer (arr vs) low high = err "SCHEMA_INVALID"
integer (obj fs) low high = err "SCHEMA_INVALID"

-- `[A-Za-z0-9]`
abbrev pub is_alnum : ℕ → Bool
is_alnum c = (leb b'A' c && leb c b'Z') || (leb b'a' c && leb c b'z') || (leb b'0' c && leb c b'9')

-- `[A-Za-z0-9._:-]`
abbrev pub is_identifier_char : ℕ → Bool
is_identifier_char c = is_alnum c || c == b'.' || c == b'_' || c == b':' || c == b'-'

abbrev pub is_nil : List ℕ → Bool
is_nil [] = true
is_nil (c ∷ cs) = false

-- `$`: the end of the text, or before a line feed that ends it.
abbrev pub at_end : ℕ → List ℕ → Bool
at_end c cs = c == 10 && is_nil cs

-- `[A-Za-z0-9._:-]{0,n}$`. A line feed is no character of the class, so there is no other match.
unfoldable pub matches_tail : ℕ → List ℕ → Bool
matches_tail n [] = true
matches_tail zero (c ∷ cs) = at_end c cs
matches_tail (suc n) (c ∷ cs) =
    let rest = matches_tail n cs in at_end c cs || (is_identifier_char c && rest)

-- `_IDENTIFIER.match(value)`
unfoldable pub matches_identifier : List ℕ → Bool
matches_identifier [] = false
matches_identifier (c ∷ cs) = is_alnum c && matches_tail 127 cs

-- `_string`
unfoldable pub text : Value → Bool → ℕ → Result String
text (str s) identifier maximum =
    if str_eq s "" || ltb maximum (length (codes s))
    then err "SCHEMA_INVALID"
    else if identifier && not (matches_identifier (codes s))
    then err "SCHEMA_INVALID"
    else ok s
text null identifier maximum = err "SCHEMA_INVALID"
text (bool b) identifier maximum = err "SCHEMA_INVALID"
text (int n) identifier maximum = err "SCHEMA_INVALID"
text (float x) identifier maximum = err "SCHEMA_INVALID"
text non_finite identifier maximum = err "SCHEMA_INVALID"
text (arr vs) identifier maximum = err "SCHEMA_INVALID"
text (obj fs) identifier maximum = err "SCHEMA_INVALID"

-- `validate_identifier`, and `_string(…, identifier=True)`
unfoldable pub validate_identifier : Value → Result String
validate_identifier v = text v true 256

abbrev pub cons_text : String → Option (List String) → Option (List String)
cons_text s none = none
cons_text s (some ss) = some (s ∷ ss)

-- The texts of an array that holds nothing else.
abbrev pub all_texts : Items → Option (List String)
all_texts nil = some []
all_texts (cons (str s) vs) = cons_text s (all_texts vs)
all_texts (cons null vs) = none
all_texts (cons (bool b) vs) = none
all_texts (cons (int n) vs) = none
all_texts (cons (float x) vs) = none
all_texts (cons non_finite vs) = none
all_texts (cons (arr ws) vs) = none
all_texts (cons (obj fs) vs) = none

-- `isinstance(value, list) and all(isinstance(item, str) for item in value)`
unfoldable pub text_list : Value → Result (List String)
text_list (arr vs) = elim (all_texts vs) [ none ↦ err "SCHEMA_INVALID" | some ss ↦ ok ss ]
text_list null = err "SCHEMA_INVALID"
text_list (bool b) = err "SCHEMA_INVALID"
text_list (int n) = err "SCHEMA_INVALID"
text_list (float x) = err "SCHEMA_INVALID"
text_list non_finite = err "SCHEMA_INVALID"
text_list (str s) = err "SCHEMA_INVALID"
text_list (obj fs) = err "SCHEMA_INVALID"

-- `[_string(item, …, identifier=True) for item in items]`
unfoldable pub identifiers : Items → Result (List String)
identifiers nil = ok []
identifiers (cons v vs) = do s ← validate_identifier v; ss ← identifiers vs; ok (s ∷ ss)

-- `isinstance(value, list)`
unfoldable pub array : Value → Result Items
array (arr vs) = ok vs
array null = err "SCHEMA_INVALID"
array (bool b) = err "SCHEMA_INVALID"
array (int n) = err "SCHEMA_INVALID"
array (float x) = err "SCHEMA_INVALID"
array non_finite = err "SCHEMA_INVALID"
array (str s) = err "SCHEMA_INVALID"
array (obj fs) = err "SCHEMA_INVALID"
