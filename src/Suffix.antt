-- ===== src/Suffix.antt =====
-- util/suffix.c: the binary suffixes. The functions on `double` are left out.
pub mod Laws
use switchtec_nvme_cli.Base.{
  ℕ, zero, suc, ◌+◌, ◌-◌, ◌*◌, ◌/◌, ◌%◌, ◌^◌, Bool, true, false, List, [], ◌∷◌, ℤ, pos, negsuc, neg,
  to_unsigned, u64, shl, leb, ltb, ◌==◌, if◌then◌else◌,
}
use switchtec_nvme_cli.Text.{to_lower, strtol, Converted}

-- `struct binary_suffix`, with the text in bytes.
pub record BinarySuffix : Type 0 where
  pub shift : ℕ
  pub suffix : List ℕ

-- The entries before the one with shift 0, which ends both loops.
abbrev pub binary_suffixes : List BinarySuffix
binary_suffixes =
    record { shift = 50; suffix = b'P' ∷ b'i' ∷ [] }
    ∷ record { shift = 40; suffix = b'T' ∷ b'i' ∷ [] }
    ∷ record { shift = 30; suffix = b'G' ∷ b'i' ∷ [] }
    ∷ record { shift = 20; suffix = b'M' ∷ b'i' ∷ [] }
    ∷ record { shift = 10; suffix = b'K' ∷ b'i' ∷ [] }
    ∷ []

-- `llabs`, and the division of C, which rounds towards 0.
abbrev pub llabs : ℤ → ℕ
llabs (pos n) = n
llabs (negsuc n) = suc n

abbrev pub quotient : ℤ → ℕ → ℤ
quotient (pos n) d = pos (n / d)
quotient (negsuc n) d = neg (suc n / d)

-- `x + n`, for a number n.
abbrev pub plus : ℤ → ℕ → ℤ
plus (pos m) n = pos (m + n)
plus (negsuc m) n = if leb (suc m) n then pos (n - suc m) else negsuc (m - n)

-- The loop of `suffix_binary_get`: the scaled value and its suffix.
unfoldable pub get_loop : List BinarySuffix → ℤ → ℤ × List ℕ
get_loop [] value = (value, [])
get_loop (s ∷ suffixes) value =
    if leb (shl 1 s.shift) (llabs value)
    then (quotient (plus value (shl 1 (s.shift - 1))) (shl 1 s.shift), s.suffix)
    else get_loop suffixes value

unfoldable pub suffix_binary_get : ℤ → ℤ × List ℕ
unfolding get_loop
suffix_binary_get = get_loop binary_suffixes

abbrev pub einval : ℕ
einval = 22

abbrev pub erange : ℕ
erange = 34

-- `suffix[0]`, which is 0 at the end of the text.
abbrev pub first_byte : List ℕ → ℕ
first_byte [] = 0
first_byte (c ∷ s) = c

-- The loop of `suffix_binary_parse`: the shift of the suffix that a text begins with.
unfoldable pub shift_of : List BinarySuffix → ℕ → ℕ → ℕ × ℕ
unfolding to_lower
shift_of [] c ret = (ret, if c == 0 then 0 else einval)
shift_of (s ∷ suffixes) c ret =
    if to_lower c == to_lower (first_byte s.suffix)
    then (u64 (shl ret s.shift), 0)
    else shift_of suffixes c ret

-- The value and `errno`.
unfoldable pub suffix_binary_parse : List ℕ → ℕ × ℕ
unfolding shift_of
suffix_binary_parse value =
    let n = strtol 0 value in
    if n.range
    then (0, erange)
    else shift_of binary_suffixes (first_byte n.rest) (to_unsigned 64 n.value)
