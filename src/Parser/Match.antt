-- ===== src/Parser/Match.antt =====
-- util/parser.c: matching an option string against a pattern such as "instance=%d". A pointer into a
-- text is the text that it leads to. The loop of `match_one` runs on fuel, with `none` for fuel that
-- ran out: each round but the last takes a percent sign of the pattern.
pub mod Total
pub mod Copy
pub mod Numbers
use switchtec_nvme_cli.Base.{
  ℕ, zero, suc, ◌+◌, ◌-◌, ◌^◌, Bool, true, false, not, ◌||◌, ℤ, pos, negsuc, neg, to_signed,
  to_unsigned, u32, List, [], ◌∷◌, ◌++◌, Option, none, some, length, take, drop, get_elem?, set,
  ltb, leb, ◌==◌, if◌then◌else◌,
}
use switchtec_nvme_cli.Base.Memory.{Mem, store_bytes}
use switchtec_nvme_cli.Text.{is_digit, strtol, strtoul}
use switchtec_nvme_cli.Parser.Wildcard.{tail, is_empty}

-- `substring_t`
pub record Substring : Type 0 where
  pub from : List ℕ
  pub to : List ℕ

abbrev pub max_opt_args : ℕ
max_opt_args = 3

-- The character that a pointer leads to.
abbrev pub char_at : List ℕ → ℕ
char_at [] = 0
char_at (c ∷ s) = c

-- `strchr(p, '%')`: what stands in front of the first percent sign, and what stands behind it.
unfoldable pub split_percent : List ℕ → List ℕ × Option (List ℕ)
split_percent [] = ([], none)
split_percent (c ∷ p) =
    let (front, behind) = split_percent p in if c == b'%' then ([], some p) else (c ∷ front, behind)

-- `strncmp(p, s, meta - p)`, and `s` behind the common part.
unfoldable pub strip_prefix : List ℕ → List ℕ → Option (List ℕ)
strip_prefix [] s = some s
strip_prefix (c ∷ front) [] = none
strip_prefix (c ∷ front) (d ∷ s) = let rest = strip_prefix front s in if c == d then rest else none

-- `strcmp(p, s) == 0`
unfoldable pub same_text : List ℕ → List ℕ → Bool
same_text [] [] = true
same_text [] (d ∷ s) = false
same_text (c ∷ p) [] = false
same_text (c ∷ p) (d ∷ s) = let rest = same_text p s in if c == d then rest else false

-- The width in front of a conversion: -1 where there is none.
unfoldable pub width : List ℕ → ℤ × List ℕ
width p =
    if is_digit (char_at p)
    then (let n = strtoul 10 p in (to_signed 32 (u32 n.value), n.rest))
    else (negsuc 0, p)

-- What a conversion stores in `args[argc].to`, and whether the matching goes on.
pub record Stop : Type 0 where
  pub stored : Option (List ℕ)
  pub ok : Bool

-- The label `num`.
abbrev pub number_stop : (s rest : List ℕ) → Stop
number_stop s rest = record { stored = some rest; ok = not (length rest == length s) }

abbrev pub string_len : ℤ → ℕ → ℕ
string_len (negsuc zero) str_len = str_len
string_len len str_len = if ltb str_len (to_unsigned 64 len) then str_len else to_unsigned 64 len

-- The `switch`.
unfoldable pub conversion : ℕ → ℤ → List ℕ → Stop
conversion c len s =
    if c == b's'
    then (if is_empty s
        then record { stored = none; ok = false }
        else record { stored = some (drop (string_len len (length s)) s); ok = true })
    else if c == b'd'
    then number_stop s (strtol 0 s).rest
    else if c == b'u'
    then number_stop s (strtoul 0 s).rest
    else if c == b'o'
    then number_stop s (strtoul 8 s).rest
    else if c == b'x'
    then number_stop s (strtoul 16 s).rest
    else record { stored = none; ok = false }

-- The element `argc` of the array, once `from` and what the conversion stores are set.
abbrev pub store_arg : List Substring → ℕ → List ℕ → Option (List ℕ) → List Substring
store_arg args argc s stored = elim (get_elem? args argc) [
  | none ↦ args
  | some a ↦ elim stored [
    | none ↦ set args argc (record { from = s; to = a.to })
    | some rest ↦ set args argc (record { from = s; to = rest })
  ]
]

-- A round of the loop returns, or goes on with new `p`, `s` and `argc`.
pub data Round : Type 0 where
  return : Bool → List Substring → Round
  continue : (p s : List ℕ) → ℕ → List Substring → Round

-- The part of a round behind the percent sign of a conversion.
unfoldable pub convert : (p s : List ℕ) (argc : ℕ) → List Substring → Round
convert p s argc args =
    let (len, letter) = width p in
    let stop = conversion (char_at letter) len s in
    let stored = store_arg args argc s stop.stored in
    if leb max_opt_args argc then return false args else elim stop.stored [
      | none ↦ return false stored
      | some rest ↦
          if stop.ok then continue (tail letter) rest (argc + 1) stored else return false stored
    ]

-- The part of a round behind the text in front of a percent sign.
unfoldable pub behind_percent : (p s : List ℕ) (argc : ℕ) → List Substring → Round
behind_percent p s argc args =
    if is_digit (char_at p)
    then convert p s argc args
    else if char_at p == b'%'
    then (if char_at s == b'%' then continue (tail p) (tail s) argc args else return false args)
    else convert p s argc args

unfoldable pub round : (p s : List ℕ) (argc : ℕ) → List Substring → Round
round p s argc args =
    let (front, behind) = split_percent p in
    elim behind [
      | none ↦ return (same_text p s) args
      | some q ↦ elim (strip_prefix front s) [
        | none ↦ return false args
        | some t ↦ behind_percent q t argc args
      ]
    ]

unfoldable pub one_loop :
    ℕ → (p s : List ℕ) (argc : ℕ) → List Substring → Option (Bool × List Substring)
one_loop zero p s argc args = none
one_loop (suc fuel) p s argc args = elim (round p s argc args) [
  | return found out ↦ some (found, out)
  | continue q t n out ↦ one_loop fuel q t n out
]

-- A null pattern matches everything.
unfoldable pub match_one :
    List ℕ → Option (List ℕ) → List Substring → Option (Bool × List Substring)
match_one s none args = some (true, args)
match_one s (some p) args = one_loop (length p + 1) p s 0 args

-- A table ends with a null pattern.
unfoldable pub match_token :
    List ℕ → List (ℕ × Option (List ℕ)) → List Substring → Option (ℕ × List Substring)
match_token s [] args = none
match_token s ((token, pattern) ∷ table) args = elim (match_one s pattern args) [
  | none ↦ none
  | some (found, out) ↦ elim found [ true ↦ some (token, out) | false ↦ match_token s table out ]
]

-- The return value, and what `*result` is then.
pub record Number : Type 0 where
  pub err : ℤ
  pub result : ℤ

-- `INT_MIN <= x && x <= INT_MAX`
abbrev pub fits_int : ℤ → Bool
fits_int (pos n) = ltb n (2 ^ 31)
fits_int (negsuc n) = ltb n (2 ^ 31)

-- `malloc` succeeds or not; ENOMEM is 12, EINVAL 22 and ERANGE 34.
unfoldable pub match_number : (allocated : Bool) → Substring → ℤ → ℕ → Number
match_number allocated s result base =
    let n = strtol base (take (length s.from - length s.to) s.from) in
    if not allocated
    then record { err = neg 12; result = result }
    else if not n.found
    then record { err = neg 22; result = result }
    else if not (fits_int n.value)
    then record { err = neg 34; result = result }
    else record { err = pos 0; result = n.value }

unfoldable pub match_int : (allocated : Bool) → Substring → ℤ → Number
match_int allocated s result = match_number allocated s result 0

unfoldable pub match_octal : (allocated : Bool) → Substring → ℤ → Number
match_octal allocated s result = match_number allocated s result 8

unfoldable pub match_hex : (allocated : Bool) → Substring → ℤ → Number
match_hex allocated s result = match_number allocated s result 16

-- `src->to - src->from`
abbrev pub substring_len : Substring → ℕ
substring_len src = length src.from - length src.to

unfoldable pub match_strlcpy : (dest : ℕ) → Substring → ℕ → Mem → ℕ × Mem
match_strlcpy dest src size m =
    let ret = substring_len src in
    let len = if leb size ret then size - 1 else ret in
    (ret, if size == 0 then m else store_bytes dest (take len src.from ++ 0 ∷ []) m)

-- `malloc` gives a block, or a null pointer.
unfoldable pub match_strdup : Option ℕ → Substring → Mem → Option ℕ × Mem
unfolding match_strlcpy
match_strdup none s m = (none, m)
match_strdup (some p) s m = (some p, (match_strlcpy p s (substring_len s + 1) m).1)
