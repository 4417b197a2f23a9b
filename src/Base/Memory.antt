-- ===== src/Base/Memory.antt =====
-- The process's memory as a function from addresses to bytes, and the little-endian layout of the
-- `__le16`, `__le32` and `__le64` fields.
pub mod Arrays
use native.Mathlib.Nat.{pow-suc}
use switchtec_nvme_cli.Base.{
  ℕ, zero, suc, ◌+◌, ◌*◌, ◌/◌, ◌%◌, ◌^◌, ◌≤◌, ◌<◌, ◌≡◌, refl, ◌∙◌, ◌⊎◌, inl, List, [], ◌∷◌, length,
  arith, ◌==◌, if◌then◌else◌,
}

abbrev pub Mem : Type 0
Mem = ℕ → ℕ

pub store_byte : ℕ → ℕ → Mem → Mem
store_byte at byte m i = if i == at then byte else m i

unfoldable pub store_bytes : ℕ → List ℕ → Mem → Mem
unfolding store_byte
store_bytes at [] m = m
store_bytes at (byte ∷ bytes) m = store_bytes (at + 1) bytes (store_byte at byte m)

unfoldable pub load_bytes : ℕ → ℕ → Mem → List ℕ
load_bytes zero at m = []
load_bytes (suc n) at m = m at ∷ load_bytes n (at + 1) m

-- A value of `n` bytes, the lowest first.
unfoldable pub le_bytes : ℕ → ℕ → List ℕ
le_bytes zero v = []
le_bytes (suc n) v = (v % 256) ∷ le_bytes n (v / 256)

unfoldable pub load_le : ℕ → ℕ → Mem → ℕ
load_le zero at m = 0
load_le (suc n) at m = m at + 256 * load_le n (at + 1) m

pub length-le_bytes : (n v : ℕ) → length (le_bytes n v) ≡ n
unfolding le_bytes
length-le_bytes zero v = refl
length-le_bytes (suc n) v = omega (arith, length-le_bytes n (v / 256))

-- A store touches only its own bytes.
pub store_bytes-outside :
    (at : ℕ) (bytes : List ℕ) (m : Mem) (i : ℕ)
    → (i < at) ⊎ (at + length bytes ≤ i)
    → store_bytes at bytes m i ≡ m i
unfolding store_bytes
store_bytes-outside at [] m i h = refl
store_bytes-outside at (byte ∷ bytes) m i h =
    store_bytes-outside (at + 1) bytes (store_byte at byte m) i (omega arith) ∙ ground arith

pub store_bytes-head :
    (at byte : ℕ) (bytes : List ℕ) (m : Mem) → store_bytes at (byte ∷ bytes) m at ≡ byte
unfolding store_bytes store_byte
store_bytes-head at byte bytes m =
    store_bytes-outside (at + 1) bytes (store_byte at byte m) at (inl (omega arith)) ∙ ground arith

pub load_le-ext :
    (n at : ℕ) (m m' : Mem)
    → ((i : ℕ) → at ≤ i → i < at + n → m i ≡ m' i)
    → load_le n at m ≡ load_le n at m'
unfolding load_le
load_le-ext zero at m m' h = refl
load_le-ext (suc n) at m m' h = omega (
  arith,
  h at (omega arith) (omega arith),
  load_le-ext n (at + 1) m m' (λ i p q. h i (omega arith) (omega arith)),
)

-- A load sees nothing of a store elsewhere.
pub load_le-store_bytes_apart :
    (n at to : ℕ) (bytes : List ℕ) (m : Mem)
    → (at + n ≤ to) ⊎ (to + length bytes ≤ at)
    → load_le n at (store_bytes to bytes m) ≡ load_le n at m
load_le-store_bytes_apart n at to bytes m h =
    load_le-ext n at (store_bytes to bytes m) m
      (λ i p q. store_bytes-outside to bytes m i (omega arith))

-- A value that fits comes back.
pub load_le-store_bytes :
    (n at v : ℕ) (m : Mem) → v < 256 ^ n → load_le n at (store_bytes at (le_bytes n v) m) ≡ v
unfolding load_le store_bytes le_bytes
load_le-store_bytes zero at v m h = omega arith
load_le-store_bytes (suc n) at v m h = omega (
  arith,
  load_le-store_bytes n (at + 1) (v / 256) (store_byte at (v % 256) m)
      (omega (arith, pow-suc 256 n)),
  store_bytes-outside (at + 1) (le_bytes n (v / 256)) (store_byte at (v % 256) m) at
      (inl (omega arith)),
  here,
)
  where
    here : store_byte at (v % 256) m at ≡ v % 256
    here = ground arith

-- What was stored is what is read.
pub load_bytes-store_bytes :
    (at : ℕ) (bytes : List ℕ) (m : Mem)
    → load_bytes (length bytes) at (store_bytes at bytes m) ≡ bytes
unfolding load_bytes store_bytes store_byte
load_bytes-store_bytes at [] m = refl
load_bytes-store_bytes at (byte ∷ bytes) m =
    let kept = store_bytes-outside (at + 1) bytes (store_byte at byte m) at (inl (omega arith)) in
    let first : store_bytes (at + 1) bytes (store_byte at byte m) at ≡ byte = kept ∙ ground arith in
    rw (first, load_bytes-store_bytes (at + 1) bytes (store_byte at byte m)) refl
