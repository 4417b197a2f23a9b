-- ===== src/Text/Decimal.antt =====
-- Numbers written in decimal, and what the conversions read from them.
use switchtec_nvme_cli.Base.{
  ℕ, zero, suc, ◌^◌, Bool, pos, ◌+◌, ◌*◌, ◌/◌, ◌%◌, ◌<◌, ◌≡◌, refl, ◌∙◌, ap, true, false, List, [],
  ◌∷◌, length, none, some, arith, ltb, if◌then◌else◌, ltb→lt, Bool-cases, inl, inr,
}
use switchtec_nvme_cli.Text.{
  digit_value, digit_in, scan_digits, scan_unsigned, scan_signed, scan_number, skip_space, is_space,
  has_hex_prefix, strtol,
}

decimal_onto : ℕ → ℕ → List ℕ → List ℕ
decimal_onto zero n tail = tail
decimal_onto (suc fuel) n tail =
    let shorter = decimal_onto fuel (n / 10) ((b'0' + n % 10) ∷ tail) in
    if ltb n 10 then (b'0' + n) ∷ tail else shorter

-- The digits of `n`, and `tail` behind them.
unfoldable pub decimal : ℕ → List ℕ → List ℕ
unfolding decimal_onto
decimal n tail = decimal_onto (n + 1) n tail

digit_in-decimal : (d : ℕ) → d < 10 → digit_in 10 (b'0' + d) ≡ some d
unfolding digit_in digit_value
digit_in-decimal d h = ground arith

scan_digits-digit :
    (acc d : ℕ) (s : List ℕ)
    → d < 10
    → scan_digits 10 acc ((b'0' + d) ∷ s) ≡ scan_digits 10 (acc * 10 + d) s
unfolding scan_digits
scan_digits-digit acc d s h = rw (digit_in-decimal d h, scan_digits)

scan_digits-decimal_onto :
    (fuel n : ℕ) (tail : List ℕ)
    → n < fuel
    → scan_digits 10 0 (decimal_onto fuel n tail) ≡ scan_digits 10 n tail
unfolding decimal_onto
scan_digits-decimal_onto zero n tail h = absurd (omega arith)
scan_digits-decimal_onto (suc fuel) n tail h = elim (Bool-cases (ltb n 10)) [
  | inl small ↦ rw small (
      scan_digits-digit 0 n tail (ltb→lt n 10 small)
      ∙ ap (λ (k : ℕ). scan_digits 10 k tail) (omega arith))
  | inr big ↦ rw big (
      scan_digits-decimal_onto fuel (n / 10) ((b'0' + n % 10) ∷ tail) (ground arith)
      ∙ scan_digits-digit (n / 10) (n % 10) tail (omega arith)
      ∙ ap (λ (k : ℕ). scan_digits 10 k tail) (omega arith))
]

-- What stands first in the digits of a number: a digit other than 0, if the number is not 0.
decimal_onto-head :
    (fuel n : ℕ) (tail : List ℕ)
    → n < fuel
    → 0 < n
    → (d : ℕ) × (s : List ℕ) × (0 < d) × (d < 10) × (decimal_onto fuel n tail ≡ (b'0' + d) ∷ s)
unfolding decimal_onto
decimal_onto-head zero n tail h p = absurd (omega arith)
decimal_onto-head (suc fuel) n tail h p = elim (Bool-cases (ltb n 10)) [
  | inl small ↦ (n, tail, p, ltb→lt n 10 small, rw small)
  | inr big ↦
      rw big
        (decimal_onto-head fuel (n / 10) ((b'0' + n % 10) ∷ tail) (ground arith) (ground arith))
]

-- A text that goes on with something other than a digit of the base.
abbrev pub Stops : ℕ → List ℕ → Type 0
Stops base [] = Unit {0}
Stops base (c ∷ s) = digit_in base c ≡ none

scan_digits-Stops : (base n : ℕ) (s : List ℕ) → Stops base s → scan_digits base n s ≡ (n, s)
unfolding scan_digits
scan_digits-Stops base n [] h = refl
scan_digits-Stops base n (c ∷ s) h = rw (h, scan_digits)

scan_digits-decimal :
    (n : ℕ) (tail : List ℕ) → Stops 10 tail → scan_digits 10 0 (decimal n tail) ≡ (n, tail)
unfolding decimal
scan_digits-decimal n tail h =
    scan_digits-decimal_onto (n + 1) n tail (omega arith) ∙ scan_digits-Stops 10 n tail h

has_hex_prefix-digit :
    (d : ℕ) (s : List ℕ) → 0 < d → d < 10 → has_hex_prefix 0 ((b'0' + d) ∷ s) ≡ false
unfolding has_hex_prefix
has_hex_prefix-digit d [] p q = refl
has_hex_prefix-digit d (c ∷ s) p q = ground arith

skip_space-digit :
    (d : ℕ) (s : List ℕ) → 0 < d → d < 10 → skip_space ((b'0' + d) ∷ s) ≡ (b'0' + d) ∷ s
unfolding skip_space is_space
skip_space-digit d s p q = ground arith

-- Without a sign or a 0 in front, what is read in base 0 is the digits in base 10.
scan_unsigned-digit :
    (d : ℕ) (whole s rest : List ℕ) (n : ℕ)
    → 0 < d
    → d < 10
    → scan_digits 10 0 ((b'0' + d) ∷ s) ≡ (n, rest)
    → scan_unsigned 0 false whole ((b'0' + d) ∷ s)
      ≡ record { negative = false; magnitude = n; rest = rest; found = true }
unfolding scan_unsigned
scan_unsigned-digit d whole s rest n p q e =
    rw (has_hex_prefix-digit d s p q) (ground (arith, digit_in-decimal d q))

scan_number-digit :
    (d : ℕ) (s rest : List ℕ) (n : ℕ)
    → 0 < d
    → d < 10
    → scan_digits 10 0 ((b'0' + d) ∷ s) ≡ (n, rest)
    → scan_number 0 ((b'0' + d) ∷ s)
      ≡ record { negative = false; magnitude = n; rest = rest; found = true }
unfolding scan_number scan_signed
scan_number-digit d s rest n p q e =
    rw (skip_space-digit d s p q)
      (ground (arith, scan_unsigned-digit d ((b'0' + d) ∷ s) s rest n p q e))

-- `strtol` with base 0 reads a positive number back from its digits, and leaves what follows.
pub scan_number-decimal :
    (n : ℕ) (tail : List ℕ)
    → 0 < n
    → Stops 10 tail
    → scan_number 0 (decimal n tail)
      ≡ record { negative = false; magnitude = n; rest = tail; found = true }
unfolding decimal
scan_number-decimal n tail p h =
    let (d, s, low, high, e) = decimal_onto-head (n + 1) n tail (omega arith) p in
    let read : scan_digits 10 0 (decimal_onto (n + 1) n tail) ≡ (n, tail) =
      scan_digits-decimal n tail h in
    rw e (scan_number-digit d s tail n low high (rw e at read))

pub strtol-decimal :
    (n : ℕ) (tail : List ℕ)
    → 0 < n
    → n < 2 ^ 63
    → Stops 10 tail
    → strtol 0 (decimal n tail) ≡ record { value = pos n; rest = tail; found = true; range = false }
unfolding strtol
strtol-decimal n tail p fits stops = rw (scan_number-decimal n tail p stops) (ground arith)

-- The digits of any number, and nothing behind them.
pub strtol-decimal_only :
    (n : ℕ)
    → n < 2 ^ 63
    → strtol 0 (decimal n []) ≡ record { value = pos n; rest = []; found = true; range = false }
unfolding strtol scan_number scan_signed skip_space is_space scan_unsigned has_hex_prefix decimal
    digit_in scan_digits
strtol-decimal_only zero fits = refl
strtol-decimal_only (suc n) fits = strtol-decimal (suc n) [] (omega arith) fits tt

-- A property of all characters that holds of the digits.
abbrev pub Every : (ℕ → Bool) → List ℕ → Type 0
Every p [] = Unit {0}
Every p (c ∷ s) = (p c ≡ true) × Every p s

decimal_onto-Every :
    (p : ℕ → Bool) (fuel n : ℕ) (tail : List ℕ)
    → ((d : ℕ) → d < 10 → p (b'0' + d) ≡ true)
    → Every p tail
    → Every p (decimal_onto fuel n tail)
unfolding decimal_onto
decimal_onto-Every p zero n tail h t = t
decimal_onto-Every p (suc fuel) n tail h t = elim (Bool-cases (ltb n 10)) [
  | inl small ↦ rw small (h n (ltb→lt n 10 small), t)
  | inr big ↦
      rw big (
        decimal_onto-Every p fuel (n / 10) ((b'0' + n % 10) ∷ tail) h (h (n % 10) (omega arith), t))
]

pub decimal-Every :
    (p : ℕ → Bool) (n : ℕ) → ((d : ℕ) → d < 10 → p (b'0' + d) ≡ true) → Every p (decimal n [])
unfolding decimal
decimal-Every p n h = decimal_onto-Every p (n + 1) n [] h tt

-- There is a digit at least.
pub length-decimal : (n : ℕ) → 0 < length (decimal n [])
unfolding decimal decimal_onto
length-decimal zero = omega arith
length-decimal (suc n) =
    let (d, s, low, high, e) =
      decimal_onto-head (suc n + 1) (suc n) [] (omega arith) (omega arith) in
    rw e (omega arith)

-- What stands first in the digits of any number.
decimal_onto-first :
    (fuel n : ℕ) (tail : List ℕ)
    → n < fuel
    → (d : ℕ) × (s : List ℕ) × (d < 10) × (decimal_onto fuel n tail ≡ (b'0' + d) ∷ s)
unfolding decimal_onto
decimal_onto-first zero n tail h = absurd (omega arith)
decimal_onto-first (suc fuel) n tail h = elim (Bool-cases (ltb n 10)) [
  | inl small ↦ (n, tail, ltb→lt n 10 small, rw small)
  | inr big ↦ rw big (decimal_onto-first fuel (n / 10) ((b'0' + n % 10) ∷ tail) (ground arith))
]

scan_number-first :
    (d : ℕ) (s rest : List ℕ) (n : ℕ)
    → d < 10
    → scan_digits 10 0 ((b'0' + d) ∷ s) ≡ (n, rest)
    → scan_number 10 ((b'0' + d) ∷ s)
      ≡ record { negative = false; magnitude = n; rest = rest; found = true }
unfolding scan_number scan_signed scan_unsigned skip_space is_space has_hex_prefix
scan_number-first d s rest n q e = ground (arith, digit_in-decimal d q)

-- In base 10 any number is read back from its digits, and what follows is left.
pub strtol-decimal_10 :
    (n : ℕ) (tail : List ℕ)
    → n < 2 ^ 63
    → Stops 10 tail
    → strtol 10 (decimal n tail)
      ≡ record { value = pos n; rest = tail; found = true; range = false }
unfolding strtol decimal
strtol-decimal_10 n tail fits h =
    let (d, s, high, e) = decimal_onto-first (n + 1) n tail (omega arith) in
    let read : scan_digits 10 0 (decimal_onto (n + 1) n tail) ≡ (n, tail) =
      scan_digits-decimal n tail h in
    rw (e, scan_number-first d s tail n high (rw e at read)) (ground arith)
