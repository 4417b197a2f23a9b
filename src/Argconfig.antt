-- ===== src/Argconfig.antt =====
-- util/argconfig.c: numbers separated by commas. The array `val` is the list of what was stored from
-- its start on.
pub mod Arrays
use switchtec_nvme_cli.Base.{
  ℕ, zero, suc, ◌+◌, ◌-◌, ◌^◌, Bool, true, false, not, ℤ, to_signed, to_unsigned, List, [], ◌∷◌,
  ◌++◌, Option, none, some, leb, ◌==◌, if◌then◌else◌,
}
use switchtec_nvme_cli.Text.{strtol}
use switchtec_nvme_cli.Parser.Wildcard.{is_empty}

abbrev pub extend_first : ℕ → List (List ℕ) → List (List ℕ)
extend_first c [] = (c ∷ []) ∷ []
extend_first c (t ∷ ts) = (c ∷ t) ∷ ts

-- The text between the commas.
unfoldable pub split_commas : List ℕ → List (List ℕ)
split_commas [] = [] ∷ []
split_commas (c ∷ s) =
    let rest = split_commas s in if c == b',' then [] ∷ rest else extend_first c rest

abbrev pub without_empty : List (List ℕ) → List (List ℕ)
without_empty [] = []
without_empty ([] ∷ ts) = without_empty ts
without_empty ((c ∷ t) ∷ ts) = (c ∷ t) ∷ without_empty ts

-- What the calls of `strtok` with "," give, one after the other.
unfoldable pub strtok_all : List ℕ → List (List ℕ)
unfolding split_commas
strtok_all s = without_empty (split_commas s)

-- A `long` stored in an `int`, and -1 as an `unsigned`.
abbrev pub to_int : ℤ → ℤ
to_int v = to_signed 32 (to_unsigned 32 v)

abbrev pub failed : ℕ
failed = 2 ^ 32 - 1

-- The loop behind the first number.
unfoldable pub array_loop : (max_length : ℕ) → List (List ℕ) → ℕ → List ℤ → ℕ × List ℤ
array_loop max_length [] ret val = (ret, val)
array_loop max_length (tmp ∷ tokens) ret val =
    let n = strtol 0 tmp in
    let stored = val ++ to_int n.value ∷ [] in
    let rest = array_loop max_length tokens (ret + 1) stored in
    if leb max_length ret
    then (failed, val)
    else if not (is_empty n.rest)
    then (failed, stored)
    else rest

-- The first number is stored whatever `max_length` is.
unfoldable pub first_token : (max_length : ℕ) → List (List ℕ) → ℕ × List ℤ
first_token max_length [] = (0, [])
first_token max_length (tmp ∷ tokens) =
    let n = strtol 0 tmp in
    let stored = to_int n.value ∷ [] in
    let rest = array_loop max_length tokens 1 stored in
    if not (is_empty n.rest) then (failed, stored) else rest

unfoldable pub parse_comma_sep_array : Option (List ℕ) → (max_length : ℕ) → ℕ × List ℤ
parse_comma_sep_array none max_length = (0, [])
parse_comma_sep_array (some []) max_length = (0, [])
parse_comma_sep_array (some (c ∷ s)) max_length = first_token max_length (strtok_all (c ∷ s))
