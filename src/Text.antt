-- ===== src/Text.antt =====
-- C strings as lists of bytes, without the terminating 0 (the end of the list), and the functions of
-- the C library that read numbers from them: `strtol`, `strtoll` and `strtoul` of a 64-bit system.
pub mod Decimal
pub mod Search
pub mod Sscanf
pub mod Rest
use switchtec_nvme_cli.Base.{
  ℕ, zero, suc, ◌+◌, ◌-◌, ◌*◌, ◌^◌, Bool, true, false, ◌&&◌, ◌||◌, not, List, [], ◌∷◌, ℤ, pos, neg,
  Option, none, some, ltb, leb, ◌==◌, if◌then◌else◌,
}

unfoldable pub is_space : ℕ → Bool
is_space c = c == b' ' || (leb 9 c && leb c 13)

unfoldable pub is_digit : ℕ → Bool
is_digit c = leb b'0' c && leb c b'9'

-- `tolower` in the "C" locale.
unfoldable pub to_lower : ℕ → ℕ
to_lower c = if leb b'A' c && leb c b'Z' then c + 32 else c

-- The value of a digit in bases up to 36.
unfoldable pub digit_value : ℕ → Option ℕ
unfolding is_digit to_lower
digit_value c =
    let l = to_lower c in
    if is_digit c
    then some (c - b'0')
    else if leb b'a' l && leb l b'z'
    then some (l - b'a' + 10)
    else none

-- Whether a character is a digit of the base.
unfoldable pub digit_in : ℕ → ℕ → Option ℕ
unfolding digit_value
digit_in base c = elim (digit_value c) [
  | none ↦ none
  | some d ↦ if ltb d base then some d else none
]

unfoldable pub skip_space : List ℕ → List ℕ
skip_space [] = []
skip_space (c ∷ s) = let rest = skip_space s in if is_space c then rest else c ∷ s

-- The digits from the start of a string on: their value, and the rest.
unfoldable pub scan_digits : ℕ → ℕ → List ℕ → ℕ × List ℕ
scan_digits base acc [] = (acc, [])
scan_digits base acc (c ∷ s) = elim (digit_in base c) [
  | none ↦ (acc, c ∷ s)
  | some d ↦ scan_digits base (acc * base + d) s
]

-- A number as it was read: its sign, its magnitude, what is left of the string, and whether there
-- was a number at all (if not, the end pointer is the start of the string).
pub record Scan : Type 0 where
  pub negative : Bool
  pub magnitude : ℕ
  pub rest : List ℕ
  pub found : Bool

abbrev starts_with_digit : ℕ → List ℕ → Bool
starts_with_digit base [] = false
starts_with_digit base (c ∷ s) = elim (digit_in base c) [ none ↦ false | some d ↦ true ]

abbrev scanned : Bool → ℕ → List ℕ → Scan
scanned negative base s =
    let (n, rest) = scan_digits base 0 s in
    record { negative = negative; magnitude = n; rest = rest; found = true }

-- Base 0 stands for 8 behind a leading 0, and for 10 otherwise.
abbrev base_for : ℕ → ℕ → ℕ
base_for base c = if base == 0 then (if c == b'0' then 8 else 10) else base

-- "0x" or "0X" and a hexadecimal digit, in bases 0 and 16.
unfoldable pub has_hex_prefix : ℕ → List ℕ → Bool
unfolding to_lower
has_hex_prefix base (c ∷ d ∷ s) =
    (base == 0 || base == 16) && (c == b'0' && (to_lower d == b'x' && starts_with_digit 16 s))
has_hex_prefix base _ = false

abbrev drop_two : List ℕ → List ℕ
drop_two (c ∷ d ∷ s) = s
drop_two _ = []

-- The digits behind the sign. `whole` is the string from its start.
unfoldable pub scan_unsigned : (base : ℕ) (negative : Bool) (whole : List ℕ) → List ℕ → Scan
scan_unsigned base negative whole [] = record {
  negative = false;
  magnitude = 0;
  rest = whole;
  found = false;
}
scan_unsigned base negative whole (c ∷ s) =
    if has_hex_prefix base (c ∷ s)
    then scanned negative 16 (drop_two (c ∷ s))
    else if starts_with_digit (base_for base c) (c ∷ s)
    then scanned negative (base_for base c) (c ∷ s)
    else record { negative = false; magnitude = 0; rest = whole; found = false }

unfoldable pub scan_signed : (base : ℕ) (whole : List ℕ) → List ℕ → Scan
scan_signed base whole [] = scan_unsigned base false whole []
scan_signed base whole (c ∷ s) =
    if c == b'-'
    then scan_unsigned base true whole s
    else if c == b'+'
    then scan_unsigned base false whole s
    else scan_unsigned base false whole (c ∷ s)

unfoldable pub scan_number : ℕ → List ℕ → Scan
scan_number base s = scan_signed base s (skip_space s)

-- The result of a conversion: the value, the string at the end pointer, whether that differs from
-- the start, and whether `errno` was set to ERANGE.
pub record Converted (A : Type 0) : Type 0 where
  pub value : A
  pub rest : List ℕ
  pub found : Bool
  pub range : Bool

-- `strtol` and `strtoll`: values beyond 64 bits stop at the ends of the range.
unfoldable pub strtol : ℕ → List ℕ → Converted ℤ
strtol base s =
    let n = scan_number base s in
    let top = if n.negative then 2 ^ 63 else 2 ^ 63 - 1 in
    let over = ltb top n.magnitude in
    let size = if over then top else n.magnitude in
    record {
      value = if n.negative then neg size else pos size;
      rest = n.rest;
      found = n.found;
      range = over;
    }

-- `strtoul`: a negative number wraps around, a value beyond 64 bits stops at the largest.
unfoldable pub strtoul : ℕ → List ℕ → Converted ℕ
strtoul base s =
    let n = scan_number base s in
    let over = ltb (2 ^ 64 - 1) n.magnitude in
    record {
      value =
          if over
          then 2 ^ 64 - 1
          else if n.negative && not (n.magnitude == 0)
          then 2 ^ 64 - n.magnitude
          else n.magnitude;
      rest = n.rest;
      found = n.found;
      range = over;
    }
