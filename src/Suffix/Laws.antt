-- ===== src/Suffix/Laws.antt =====
-- What the suffixes mean in both directions.
use switchtec_nvme_cli.Base.{
  ℕ, ◌+◌, ◌*◌, ◌/◌, ◌%◌, ◌^◌, ◌≤◌, ◌<◌, ◌≡◌, refl, zero, suc, ◌-◌, neg, List, [], ◌∷◌, pos, none,
  u64, arith, leb, ◌==◌, if◌then◌else◌,
}
use switchtec_nvme_cli.Text.{to_lower, strtol, digit_in, digit_value}
use switchtec_nvme_cli.Text.Decimal.{decimal, Stops, scan_number-decimal, strtol-decimal}
use switchtec_nvme_cli.Suffix.{
  binary_suffixes, suffix_binary_get, shift_of, suffix_binary_parse, erange,
}

-- The letters that the program takes, in either case, and their powers of two.
pub data IsUnit : ℕ → ℕ → Type 0 where
  kibi : IsUnit b'K' 10
  mebi : IsUnit b'M' 20
  gibi : IsUnit b'G' 30
  tebi : IsUnit b'T' 40
  pebi : IsUnit b'P' 50
  kibi_lower : IsUnit b'k' 10
  mebi_lower : IsUnit b'm' 20
  gibi_lower : IsUnit b'g' 30
  tebi_lower : IsUnit b't' 40
  pebi_lower : IsUnit b'p' 50

-- Numerals in a constructor's index: the two facts that the proofs need.
IsUnit-Stops : {c k : ℕ} → IsUnit c k → digit_in 10 c ≡ none
unfolding digit_in digit_value to_lower
IsUnit-Stops kibi = refl
IsUnit-Stops mebi = refl
IsUnit-Stops gibi = refl
IsUnit-Stops tebi = refl
IsUnit-Stops pebi = refl
IsUnit-Stops kibi_lower = refl
IsUnit-Stops mebi_lower = refl
IsUnit-Stops gibi_lower = refl
IsUnit-Stops tebi_lower = refl
IsUnit-Stops pebi_lower = refl

shift_of-unit :
    {c k : ℕ} → IsUnit c k → (n : ℕ) → shift_of binary_suffixes c n ≡ (u64 (n * 2 ^ k), 0)
unfolding shift_of
shift_of-unit kibi n = refl
shift_of-unit mebi n = refl
shift_of-unit gibi n = refl
shift_of-unit tebi n = refl
shift_of-unit pebi n = refl
shift_of-unit kibi_lower n = refl
shift_of-unit mebi_lower n = refl
shift_of-unit gibi_lower n = refl
shift_of-unit tebi_lower n = refl
shift_of-unit pebi_lower n = refl

-- A positive number with a suffix is the number times the suffix's power of two, cut to 64 bits,
-- and no error is raised: neither where the product does not fit, nor for text behind the suffix's
-- first letter.
pub suffix_binary_parse-unit :
    {c k : ℕ}
    → IsUnit c k
    → (n : ℕ) (tail : List ℕ) → 0 < n
    → n < 2 ^ 63
    → suffix_binary_parse (decimal n (c ∷ tail)) ≡ (n * 2 ^ k % 2 ^ 64, 0)
unfolding suffix_binary_parse
suffix_binary_parse-unit {c} u n tail p fits =
    rw (strtol-decimal n (c ∷ tail) p fits (IsUnit-Stops u), shift_of-unit u)
      (let same : n % 2 ^ 64 ≡ n = omega arith in rw same)

-- A number beyond the range of `long long` gives 0 with ERANGE, whatever follows its digits.
pub suffix_binary_parse_range :
    (n : ℕ) (tail : List ℕ)
    → 2 ^ 63 ≤ n
    → Stops 10 tail
    → suffix_binary_parse (decimal n tail) ≡ (0, erange)
unfolding suffix_binary_parse strtol
suffix_binary_parse_range n tail big stops =
    rw (scan_number-decimal n tail (omega arith) stops) (ground arith)

-- The exponent that a positive value is shown with, and the rounded quotient.
abbrev pub scale : ℕ → ℕ
scale v =
    if leb (2 ^ 50) v
    then 50
    else if leb (2 ^ 40) v
    then 40
    else if leb (2 ^ 30) v
    then 30
    else if leb (2 ^ 20) v
    then 20
    else if leb (2 ^ 10) v
    then 10
    else 0

abbrev pub unit_text : ℕ → List ℕ
unit_text k =
    if k == 50
    then b'P' ∷ b'i' ∷ []
    else if k == 40
    then b'T' ∷ b'i' ∷ []
    else if k == 30
    then b'G' ∷ b'i' ∷ []
    else if k == 20
    then b'M' ∷ b'i' ∷ []
    else if k == 10
    then b'K' ∷ b'i' ∷ []
    else []

-- `q` times 2^k is nearest to `v`, to within half of 2^k.
abbrev pub IsNearest : (v q k : ℕ) → Type 0
IsNearest v q k = (q * 2 ^ k ≤ v + 2 ^ k / 2) × (v < q * 2 ^ k + (2 ^ k + 1) / 2)

get-pos :
    (v : ℕ)
    → suffix_binary_get (pos v) ≡ (pos ((v + 2 ^ scale v / 2) / 2 ^ scale v), unit_text (scale v))
unfolding suffix_binary_get
get-pos v = ground arith

get-neg :
    (v : ℕ)
    → suffix_binary_get (neg v) ≡ (
      neg (
          if scale v == 0
          then (v + 2 ^ scale v / 2) / 2 ^ scale v
          else (v + 2 ^ scale v / 2) / 2 ^ scale v - 1),
      unit_text (scale v),
    )
unfolding suffix_binary_get
get-neg zero = refl
get-neg (suc n) = ground arith

-- A value that is shown with a suffix is scaled by the largest of the powers that is not above its absolute
-- value; below 1024 it is shown as it is. A value of 0 or more is rounded to the nearest multiple. The negative
-- value of the same size is shown one unit nearer to 0 than that: the code adds half of a unit to it too. Half of
-- the largest unit can be added to the value without overflow of a `long long`.
pub suffix_binary_get-IsNearest :
    (v : ℕ)
    → v + 2 ^ 49 < 2 ^ 63
    → (q : ℕ) × (suffix_binary_get (pos v) ≡ (pos q, unit_text (scale v)))
      × (suffix_binary_get (neg v) ≡ (neg (if scale v == 0 then q else q - 1), unit_text (scale v)))
      × IsNearest v q (scale v)
suffix_binary_get-IsNearest v fits =
    ((v + 2 ^ scale v / 2) / 2 ^ scale v, get-pos v, get-neg v, ground arith)
