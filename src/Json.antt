-- ===== src/Json.antt =====
-- util/json.c: the objects and arrays of the JSON output. `F` is the type `long double`, and
-- `print_float` its "%.0Lf". A level that the source computes from the links to the parents is passed
-- down. The allocations that abort the program are left out.
pub mod Strings
use switchtec_nvme_cli.Base.{
  ℕ, zero, suc, ◌+◌, Bool, true, false, ◌||◌, not, ℤ, pos, negsuc, List, [], ◌∷◌, ◌++◌, Option,
  none, some, ◌==◌, if◌then◌else◌,
}
use switchtec_nvme_cli.Text.Decimal.{decimal}

mutual
  -- `struct json_value`, with its `type` and its union.
  pub data JsonValue (F : Type 0) : Type 0 where
    string : List ℕ → JsonValue F
    integer : ℤ → JsonValue F
    uint : ℕ → JsonValue F
    float : F → JsonValue F
    object : Pairs F → JsonValue F
    array : Values F → JsonValue F

  -- The members `pairs` and `pair_cnt` of `struct json_object`.
  pub data Pairs (F : Type 0) : Type 0 where
    no_pairs : Pairs F
    pair : (name : List ℕ) → JsonValue F → Pairs F → Pairs F

  -- The members `values` and `value_cnt` of `struct json_array`.
  pub data Values (F : Type 0) : Type 0 where
    no_values : Values F
    value : JsonValue F → Values F → Values F

-- `*str == '\\' || *str == '\"'`
abbrev pub is_escaped : ℕ → Bool
is_escaped c = c == b'\\' || c == b'"'

-- The loop of `strdup_escape`.
unfoldable pub escape : List ℕ → List ℕ
escape [] = []
escape (c ∷ str) = let rest = escape str in if is_escaped c then b'\\' ∷ c ∷ rest else c ∷ rest

unfoldable pub strdup_escape : List ℕ → Option (List ℕ)
unfolding escape
strdup_escape [] = none
strdup_escape (c ∷ str) = some (escape (c ∷ str))

-- The variable argument of the functions that add a value; a string may be a null pointer.
pub data Given (F : Type 0) : Type 0 where
  string_arg : Option (List ℕ) → Given F
  integer_arg : ℤ → Given F
  uint_arg : ℕ → Given F
  float_arg : F → Given F
  object_arg : Pairs F → Given F
  array_arg : Values F → Given F

-- "(null)"
abbrev pub null_text : List ℕ
null_text = b'(' ∷ b'n' ∷ b'u' ∷ b'l' ∷ b'l' ∷ b')' ∷ []

abbrev pub or_null : Option (List ℕ) → List ℕ
or_null none = null_text
or_null (some str) = str

-- `json_create_value_string`; the result is null for an empty string.
unfoldable pub create_value_string : {F : Type 0} → Option (List ℕ) → Option (JsonValue F)
create_value_string str = elim (strdup_escape (or_null str)) [
  | none ↦ none
  | some text ↦ some (string text)
]

-- The choice of `json_create_value_...` by the type.
unfoldable pub create_value : {F : Type 0} → Given F → Option (JsonValue F)
create_value (string_arg str) = create_value_string str
create_value (integer_arg number) = some (integer number)
create_value (uint_arg number) = some (uint number)
create_value (float_arg number) = some (float number)
create_value (object_arg obj) = some (object obj)
create_value (array_arg arr) = some (array arr)

abbrev pub enomem : ℕ
enomem = 12

-- A new last pair, and a new last value.
abbrev pub append_pair : {F : Type 0} → Pairs F → List ℕ → JsonValue F → Pairs F
append_pair no_pairs name v = pair name v no_pairs
append_pair (pair n u pairs) name v = pair n u (append_pair pairs name v)

abbrev pub append_value : {F : Type 0} → Values F → JsonValue F → Values F
append_value no_values v = value v no_values
append_value (value u values) v = value u (append_value values v)

-- `json_object_add_pair` and `json_array_add_value`: `realloc` succeeds or not.
unfoldable pub object_add_pair : {F : Type 0} → Bool → Pairs F → List ℕ → JsonValue F → ℕ × Pairs F
object_add_pair allocated obj name v =
    if allocated then (0, append_pair obj name v) else (enomem, obj)

unfoldable pub array_add_value : {F : Type 0} → Bool → Values F → JsonValue F → ℕ × Values F
array_add_value allocated arr v = if allocated then (0, append_value arr v) else (enomem, arr)

-- The return value, and the object or the array as the call leaves it.
unfoldable pub object_add_value_type :
    {F : Type 0} → Bool → Pairs F → List ℕ → Given F → ℕ × Pairs F
object_add_value_type allocated obj name given = elim (create_value given) [
  | none ↦ (enomem, obj)
  | some v ↦
      if (object_add_pair allocated obj name v).0 == 0
      then (0, (object_add_pair allocated obj name v).1)
      else (enomem, obj)
]

unfoldable pub array_add_value_type : {F : Type 0} → Bool → Values F → Given F → ℕ × Values F
array_add_value_type allocated arr given = elim (create_value given) [
  | none ↦ (enomem, arr)
  | some v ↦
      if (array_add_value allocated arr v).0 == 0
      then (0, (array_add_value allocated arr v).1)
      else (enomem, arr)
]

-- Printing: each function gives the text that it prints.
unfoldable pub print_level : ℕ → List ℕ
print_level zero = []
print_level (suc level) = b' ' ∷ b' ' ∷ print_level level

abbrev pub print_integer : ℤ → List ℕ
print_integer (pos n) = decimal n []
print_integer (negsuc n) = b'-' ∷ decimal (suc n) []

-- `json_print_pair` of an object at `level`, around the text of the value.
abbrev pub pair_text : (level : ℕ) (name shown : List ℕ) → List ℕ
pair_text level name shown =
    print_level (level + 1) ++ b'"' ∷ name ++ b'"' ∷ b' ' ∷ b':' ∷ b' ' ∷ shown

module _ {F : Type 0} (print_float : F → List ℕ) where
  mutual
    -- `level` is the level of the value that is printed, and of the object or array that it is.
    pub print_value : (level : ℕ) → JsonValue F → List ℕ
    print_value level (string text) = b'"' ∷ text ++ b'"' ∷ []
    print_value level (integer number) = print_integer number
    print_value level (uint number) = decimal number []
    print_value level (float number) = print_float number
    print_value level (object obj) =
        b'{' ∷ 10 ∷ print_pairs level obj ++ 10 ∷ print_level level ++ b'}' ∷ []
    print_value level (array arr) =
        b'[' ∷ 10 ∷ print_values level arr ++ 10 ∷ print_level level ++ b']' ∷ []

    -- The pairs of an object at `level`, with ",\n" between them.
    pub print_pairs : (level : ℕ) → Pairs F → List ℕ
    print_pairs level no_pairs = []
    print_pairs level (pair name v no_pairs) = pair_text level name (print_value (level + 1) v)
    print_pairs level (pair name v (pair n u pairs)) =
        pair_text level name (print_value (level + 1) v)
        ++ b',' ∷ 10 ∷ print_pairs level (pair n u pairs)

    pub print_values : (level : ℕ) → Values F → List ℕ
    print_values level no_values = []
    print_values level (value v no_values) = print_level (level + 1) ++ print_value (level + 1) v
    print_values level (value v (value u values)) =
        print_level (level + 1)
        ++ print_value (level + 1) v
        ++ b',' ∷ 10 ∷ print_values level (value u values)

  -- `json_print_object` of an object without a parent.
  unfoldable pub print_object : Pairs F → List ℕ
  unfolding print_value
  print_object obj = print_value 0 (object obj)
