-- ===== src/Base/Bits.antt =====
-- Laws of `|` and `&` at variables: alternatives of disjoint fields are sums, masks of low bits are
-- remainders. They turn a packed command word into arithmetic.
use Prim.Native.Nat.{min, max, digits, bitwise, bit_and-bitwise, bit_or-bitwise}
use native.Mathlib.Nat.{pow-suc, one-le-pow}
use mathlib.Core.Path.{ap₂}
use switchtec_nvme_cli.Base.{
  ℕ, zero, suc, ◌+◌, ◌-◌, ◌*◌, ◌/◌, ◌%◌, ◌^◌, ◌≤◌, ◌<◌, bit_and, bit_or, ◌≡◌, refl, ap, arith,
}

-- The digit recursion that both operations stand for reads no more fuel than its first argument.
module _ (ends : ℕ → ℕ) (digit : ℕ → ℕ → ℕ) where
  enough_fuel : (m n a b : ℕ) → a ≤ m → a ≤ n → digits ends digit m a b ≡ digits ends digit n a b
  enough_fuel m n zero b p q = ends_at m n
    where
      ends_at : (i j : ℕ) → digits ends digit i 0 b ≡ digits ends digit j 0 b
      ends_at zero zero = refl
      ends_at zero (suc j) = refl
      ends_at (suc i) zero = refl
      ends_at (suc i) (suc j) = refl
  enough_fuel zero n (suc a) b p q = absurd (omega arith)
  enough_fuel (suc m) zero (suc a) b p q = absurd (omega arith)
  enough_fuel (suc m) (suc n) (suc a) b p q =
      ap (λ t. t * 2 + digit (suc a % 2) (b % 2))
        (enough_fuel m n (suc a / 2) (b / 2) (omega arith) (omega arith))

  lowest_digit :
      (a b : ℕ)
      → bitwise ends digit (suc a) b
        ≡ bitwise ends digit (suc a / 2) (b / 2) * 2 + digit (suc a % 2) (b % 2)
  lowest_digit a b =
      ap (λ t. t * 2 + digit (suc a % 2) (b % 2))
        (enough_fuel a (suc a / 2) (suc a / 2) (b / 2) (omega arith) (omega arith))

pub bit_or-lowest : (a b : ℕ) → bit_or a b ≡ 2 * bit_or (a / 2) (b / 2) + max (a % 2) (b % 2)
bit_or-lowest zero b = rw bit_or-bitwise (omega (arith, bit_or-bitwise 0 (b / 2)))
bit_or-lowest (suc a) b = omega (
  arith,
  bit_or-bitwise (suc a) b,
  bit_or-bitwise (suc a / 2) (b / 2),
  lowest_digit (λ y. y) max a b,
)

pub bit_and-lowest : (a b : ℕ) → bit_and a b ≡ 2 * bit_and (a / 2) (b / 2) + min (a % 2) (b % 2)
bit_and-lowest zero b = rw bit_and-bitwise (omega (arith, bit_and-bitwise 0 (b / 2)))
bit_and-lowest (suc a) b = omega (
  arith,
  bit_and-bitwise (suc a) b,
  bit_and-bitwise (suc a / 2) (b / 2),
  lowest_digit (λ y. zero) min a b,
)

-- Strong inductions on a bound of the first argument.
bit_or-zero_below : (n a : ℕ) → a ≤ n → bit_or a 0 ≡ a
bit_or-zero_below n zero h = refl
bit_or-zero_below zero (suc a) h = absurd (omega arith)
bit_or-zero_below (suc n) (suc a) h =
    omega (arith, bit_or-lowest (suc a) 0, bit_or-zero_below n (suc a / 2) (omega arith))

pub bit_or-zero : (a : ℕ) → bit_or a 0 ≡ a
bit_or-zero a = bit_or-zero_below a a (omega arith)

pub zero-bit_or : (a : ℕ) → bit_or 0 a ≡ a
zero-bit_or a = bit_or-bitwise 0 a

bit_and-zero_below : (n a : ℕ) → a ≤ n → bit_and a 0 ≡ 0
bit_and-zero_below n zero h = refl
bit_and-zero_below zero (suc a) h = absurd (omega arith)
bit_and-zero_below (suc n) (suc a) h =
    omega (arith, bit_and-lowest (suc a) 0, bit_and-zero_below n (suc a / 2) (omega arith))

double_pow : (q k : ℕ) → q * 2 ^ suc k ≡ 2 * (q * 2 ^ k)
double_pow q k = omega (arith, ap (λ (t : ℕ). q * t) (pow-suc 2 k))

-- `r | q << k` and `q << k | r`, where `r` has at most `k` bits.
pub or_shifted : (k q r : ℕ) → r < 2 ^ k → bit_or r (q * 2 ^ k) ≡ r + q * 2 ^ k
or_shifted zero q r h = ground (arith, zero-bit_or q)
or_shifted (suc k) q r h = ground (
  arith,
  bit_or-lowest r (q * 2 ^ suc k),
  double_pow q k,
  pow-suc 2 k,
  or_shifted k q (r / 2) (omega (arith, pow-suc 2 k)),
)

pub shifted_or : (k q r : ℕ) → r < 2 ^ k → bit_or (q * 2 ^ k) r ≡ r + q * 2 ^ k
shifted_or zero q r h = ground (arith, bit_or-zero q)
shifted_or (suc k) q r h = ground (
  arith,
  bit_or-lowest (q * 2 ^ suc k) r,
  double_pow q k,
  pow-suc 2 k,
  shifted_or k q (r / 2) (omega (arith, pow-suc 2 k)),
)

-- `a & (2^k - 1)`, first with `a` given by its two parts.
and_mask_of_parts : (k q r : ℕ) → r < 2 ^ k → bit_and (r + q * 2 ^ k) (2 ^ k - 1) ≡ r
and_mask_of_parts zero q r h =
    omega (arith, bit_and-zero_below (r + q * 2 ^ 0) (r + q * 2 ^ 0) (omega arith))
and_mask_of_parts (suc k) q r h = ground (
  arith,
  bit_and-lowest (r + q * 2 ^ suc k) (2 ^ suc k - 1),
  double_pow q k,
  pow-suc 2 k,
  one-le-pow k 2,
  and_mask_of_parts k q (r / 2) (omega (arith, pow-suc 2 k)),
)

pub and_mask : (k a : ℕ) → bit_and a (2 ^ k - 1) ≡ a % 2 ^ k
and_mask k a = ground (arith, one-le-pow k 2, and_mask_of_parts k (a / 2 ^ k) (a % 2 ^ k))

-- The same where the shifted side is known to be a multiple.
pub or_multiple : (k q r a : ℕ) → r < 2 ^ k → a ≡ q * 2 ^ k → bit_or r a ≡ r + a
or_multiple k q r a h e = rw e (or_shifted k q r h)

pub multiple_or : (k q r a : ℕ) → r < 2 ^ k → a ≡ q * 2 ^ k → bit_or a r ≡ a + r
multiple_or k q r a h e = rw e (omega (arith, shifted_or k q r h))

pub bit_or-lt : (k r s : ℕ) → r < 2 ^ k → s < 2 ^ k → bit_or r s < 2 ^ k
bit_or-lt zero r s h g = omega (arith, bit_or-zero r, ap (bit_or r) (s_zero g))
  where
    s_zero : s < 2 ^ 0 → s ≡ 0
    s_zero p = omega arith
bit_or-lt (suc k) r s h g = omega (
  arith,
  bit_or-lowest r s,
  pow-suc 2 k,
  bit_or-lt k (r / 2) (s / 2) (omega (arith, pow-suc 2 k)) (omega (arith, pow-suc 2 k)),
)

-- A value below 2^k leaves the bits from k on alone.
pub or_low_part :
    (k q r s : ℕ) → r < 2 ^ k → s < 2 ^ k → bit_or (r + q * 2 ^ k) s ≡ bit_or r s + q * 2 ^ k
or_low_part zero q r s h g =
    let r_zero : r ≡ 0 = omega arith in
    let s_zero : s ≡ 0 = omega arith in rw (r_zero, s_zero, bit_or-zero) (omega arith)
or_low_part (suc k) q r s h g = omega (
  arith,
  bit_or-lowest (r + q * 2 ^ suc k) s,
  bit_or-lowest r s,
  double_pow q k,
  ap (λ (t : ℕ). bit_or t (s / 2)) (halved (double_pow q k)),
  or_low_part k q (r / 2) (s / 2) (omega (arith, pow-suc 2 k)) (omega (arith, pow-suc 2 k)),
)
  where
    halved : q * 2 ^ suc k ≡ 2 * (q * 2 ^ k) → (r + q * 2 ^ suc k) / 2 ≡ r / 2 + q * 2 ^ k
    halved e = omega arith

-- A mask that starts at bit k, with `a` given by its two parts.
pub and_high_mask :
    (k q r m : ℕ) → r < 2 ^ k → bit_and (r + q * 2 ^ k) (m * 2 ^ k) ≡ bit_and q m * 2 ^ k
and_high_mask zero q r m h = let r_zero : r ≡ 0 = omega arith in rw r_zero (unit q m)
  where
    unit : (a b : ℕ) → bit_and (0 + a * 2 ^ 0) (b * 2 ^ 0) ≡ bit_and a b * 2 ^ 0
    unit a b =
        let left : 0 + a * 2 ^ 0 ≡ a = omega arith in
        let right : b * 2 ^ 0 ≡ b = omega arith in rw (left, right) (omega arith)
and_high_mask (suc k) q r m h = omega (
  arith,
  bit_and-lowest (r + q * 2 ^ suc k) (m * 2 ^ suc k),
  double_pow q k,
  double_pow m k,
  double_pow (bit_and q m) k,
  pow-suc 2 k,
  ap₂ bit_and (halves (double_pow q k)) (half (double_pow m k)),
  and_high_mask k q (r / 2) m (omega (arith, pow-suc 2 k)),
)
  where
    halves : q * 2 ^ suc k ≡ 2 * (q * 2 ^ k) → (r + q * 2 ^ suc k) / 2 ≡ r / 2 + q * 2 ^ k
    halves e = omega arith

    half : m * 2 ^ suc k ≡ 2 * (m * 2 ^ k) → m * 2 ^ suc k / 2 ≡ m * 2 ^ k
    half e = omega arith
