-- ===== src/Status/Laws.antt =====
-- The range of the errnos, and which parts of a status and of the arguments they depend on.
use switchtec_nvme_cli.Base.{
  u32, to_unsigned, ℕ, zero, suc, ◌/◌, ◌%◌, ◌||◌, ◌^◌, ◌≤◌, ◌<◌, bit_and, ◌≡◌, if◌then◌else◌, ◌≢◌,
  ◌↔◌, refl, ap, Bool, true, false, ◌&&◌, ℤ, pos, negsuc, arith, ltb, ltb→lt, ◌==◌,
}
use switchtec_nvme_cli.Base.Bits.{and_mask}
use switchtec_nvme_cli.Status.Errno
use switchtec_nvme_cli.Status.{masked_status_to_errno, status_to_errno}

-- Every masked status is below 2048, so one evaluation covers them all: `covers p n` tests the
-- numbers below `n`, from the largest on.
covers : (ℕ → Bool) → ℕ → Bool
covers p zero = true
covers p (suc n) = if p n then covers p n else false

at-covers : (p : ℕ → Bool) (n : ℕ) → covers p n ≡ true → (status : ℕ) → status < n → p status ≡ true
unfolding covers
at-covers p zero table status low = absurd (omega arith)
at-covers p (suc n) table status low = ground (arith, at-covers p n _ status)

in_range : Bool → ℕ → Bool
in_range fabrics status =
    ltb 0 (masked_status_to_errno status fabrics) && ltb (masked_status_to_errno status fabrics) 256

in_range_table : (fabrics : Bool) → covers (in_range fabrics) 2048 ≡ true
unfolding covers in_range masked_status_to_errno
in_range_table true = refl
in_range_table false = refl

and-eq-true : (a b : Bool) → (a && b) ≡ true → (a ≡ true) × (b ≡ true)
and-eq-true a b h = ground arith

masked_status_to_errno-range :
    (status : ℕ) (fabrics : Bool)
    → status < 2048
    → (0 < masked_status_to_errno status fabrics) × (masked_status_to_errno status fabrics < 256)
unfolding in_range
masked_status_to_errno-range status fabrics h =
    let fits = at-covers (in_range fabrics) 2048 (in_range_table fabrics) status h in
    let parts = and-eq-true _ _ fits in (ltb→lt _ _ parts.0, ltb→lt _ _ parts.1)

masked-lt : (status : ℤ) → bit_and (to_unsigned 32 status) 0x7ff < 2048
masked-lt status = omega (arith, and_mask 11 (to_unsigned 32 status))

-- The errno of a status is 0 exactly when the status is 0, for any code that a device or the
-- driver returns, with or without fabrics.
pub status_to_errno-eq-zero_iff :
    (status : ℤ) (fabrics : Bool) → (status_to_errno status fabrics ≡ 0) ↔ (status ≡ pos 0)
unfolding status_to_errno
status_to_errno-eq-zero_iff (pos zero) fabrics = (λ h. refl, λ h. refl)
status_to_errno-eq-zero_iff (pos (suc n)) fabrics = (
  λ h. absurd (omega (arith, masked_status_to_errno-range _ fabrics (masked-lt (pos (suc n))), h)),
  λ h. cc,
)
status_to_errno-eq-zero_iff (negsuc n) fabrics = (λ h. absurd (omega (arith, h)), λ h. cc)

-- Every errno fits the `__u8` that the function returns, so the conversion loses nothing.
pub status_to_errno-lt : (status : ℤ) (fabrics : Bool) → status_to_errno status fabrics < 256
unfolding status_to_errno
status_to_errno-lt (pos zero) fabrics = omega arith
status_to_errno-lt (pos (suc n)) fabrics =
    (masked_status_to_errno-range _ fabrics (masked-lt (pos (suc n)))).1
status_to_errno-lt (negsuc n) fabrics = omega arith

-- Of a positive status only the low 11 bits matter: flags such as "do not retry" change nothing.
pub status_to_errno-low_bits :
    (m n : ℕ) (fabrics : Bool)
    → 0 < m
    → 0 < n
    → m % 2 ^ 11 ≡ n % 2 ^ 11
    → status_to_errno (pos m) fabrics ≡ status_to_errno (pos n) fabrics
unfolding status_to_errno
status_to_errno-low_bits zero n fabrics h k e = absurd (omega arith)
status_to_errno-low_bits (suc m) zero fabrics h k e = absurd (omega arith)
status_to_errno-low_bits (suc m) (suc n) fabrics h k e =
    ap (λ s. masked_status_to_errno s fabrics)
      (omega (arith, and_mask 11 (u32 (suc m)), and_mask 11 (u32 (suc n))))

-- Two more tables: where the fabrics flag is not read, and where no errno is listed.
agrees : ℕ → Bool
agrees status =
    status / 256 == 1 || masked_status_to_errno status true == masked_status_to_errno status false

agrees_table : covers agrees 2048 ≡ true
unfolding covers agrees masked_status_to_errno
agrees_table = refl

masked_status_to_errno-fabrics :
    (status : ℕ)
    → status < 2048
    → status / 256 ≢ 1
    → masked_status_to_errno status true ≡ masked_status_to_errno status false
masked_status_to_errno-fabrics status h other =
    let fits = at-covers agrees 2048 agrees_table status h in unfold agrees in ground arith

unlisted : Bool → ℕ → Bool
unlisted fabrics status = ltb status 512 || masked_status_to_errno status fabrics == Errno.eio

unlisted_table : (fabrics : Bool) → covers (unlisted fabrics) 2048 ≡ true
unfolding covers unlisted masked_status_to_errno
unlisted_table true = refl
unlisted_table false = refl

masked_status_to_errno-eq-eio :
    (status : ℕ) (fabrics : Bool)
    → status < 2048
    → 512 ≤ status
    → masked_status_to_errno status fabrics ≡ Errno.eio
masked_status_to_errno-eq-eio status fabrics h high =
    let fits = at-covers (unlisted fabrics) 2048 (unlisted_table fabrics) status h in
    unfold unlisted in ground arith

-- Of a status that is not negative, unless its status code type is "command specific", the errno
-- is the same with and without fabrics.
pub status_to_errno-fabrics :
    (n : ℕ) → n / 2 ^ 8 % 8 ≢ 1 → status_to_errno (pos n) true ≡ status_to_errno (pos n) false
unfolding status_to_errno
status_to_errno-fabrics zero h = refl
status_to_errno-fabrics (suc n) h =
    masked_status_to_errno-fabrics _ (masked-lt (pos (suc n)))
      (omega (arith, and_mask 11 (u32 (suc n))))

-- A status of a media error, a path error or any type above them gives EIO, with and without
-- fabrics.
pub status_to_errno-eq-eio :
    (n : ℕ) (fabrics : Bool) → 2 ≤ n / 2 ^ 8 % 8 → status_to_errno (pos n) fabrics ≡ Errno.eio
unfolding status_to_errno
status_to_errno-eq-eio zero fabrics h = absurd (omega arith)
status_to_errno-eq-eio (suc n) fabrics h =
    masked_status_to_errno-eq-eio _ fabrics (masked-lt (pos (suc n)))
      (omega (arith, and_mask 11 (u32 (suc n))))
