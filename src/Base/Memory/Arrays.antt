-- ===== src/Base/Memory/Arrays.antt =====
-- Records of one size stored one after the other, as a loop over an array of structures does.
use native.Mathlib.Decide.{dec_lt}
use switchtec_nvme_cli.Base.{
  ℕ, zero, suc, ◌+◌, ◌*◌, ◌^◌, ◌≤◌, ◌<◌, ◌≡◌, refl, sym, ap, ◌∙◌, inl, inr, ◌⊎◌, List, [], ◌∷◌,
  ◌++◌, length, arith,
}
use switchtec_nvme_cli.Base.Memory.{
  Mem, le_bytes, length-le_bytes, load_le-store_bytes, load_le-store_bytes_apart, store_byte,
  store_bytes, store_bytes-outside, load_le, load_le-ext,
}

-- `n` records of `size` bytes, from index `i` of the array at `at`.
unfoldable pub store_each : ℕ → ℕ → ℕ → ℕ → (ℕ → List ℕ) → Mem → Mem
store_each zero i at size bytes m = m
store_each (suc n) i at size bytes m =
    store_each n (i + 1) at size bytes (store_bytes (at + size * i) (bytes i) m)

pub store_bytes-append :
    (at : ℕ) (xs ys : List ℕ) (m : Mem)
    → store_bytes at (xs ++ ys) m ≡ store_bytes (at + length xs) ys (store_bytes at xs m)
unfolding store_bytes
store_bytes-append at [] ys m = ap (λ (a : ℕ). store_bytes a ys m) (omega arith)
store_bytes-append at (x ∷ xs) ys m =
    store_bytes-append (at + 1) xs ys (store_byte at x m)
    ∙ ap (λ (a : ℕ). store_bytes a ys (store_bytes (at + 1) xs (store_byte at x m))) (omega arith)

-- Inside the bytes that a store writes, nothing of the old memory is left.
store_bytes-inside :
    (at : ℕ) (bytes : List ℕ) (m m' : Mem) (a : ℕ)
    → at ≤ a
    → a < at + length bytes
    → store_bytes at bytes m a ≡ store_bytes at bytes m' a
unfolding store_bytes store_byte
store_bytes-inside at [] m m' a p q = absurd (omega arith)
store_bytes-inside at (x ∷ xs) m m' a p q = elim (dec_lt at a) [
  | yes later ↦
      store_bytes-inside (at + 1) xs (store_byte at x m) (store_byte at x m') a (omega arith)
        (omega arith)
  | no first ↦
      store_bytes-outside (at + 1) xs (store_byte at x m) a (inl (omega arith))
      ∙ same (omega arith)
      ∙ sym (store_bytes-outside (at + 1) xs (store_byte at x m') a (inl (omega arith)))
]
  where
    same : a ≡ at → store_byte at x m a ≡ store_byte at x m' a
    same e = ground arith

module _ (at size : ℕ) (bytes : ℕ → List ℕ) (sized : (k : ℕ) → length (bytes k) ≡ size) where
  -- Nothing is stored outside the array.
  pub store_each-outside :
      (n i : ℕ) (m : Mem) (a : ℕ)
      → (a < at + size * i) ⊎ (at + size * (i + n) ≤ a)
      → store_each n i at size bytes m a ≡ m a
  unfolding store_each
  store_each-outside zero i m a h = refl
  store_each-outside (suc n) i m a h =
      store_each-outside n (i + 1) _ a
        (elim h [ inl p ↦ inl (grind arith) | inr p ↦ inr (omega arith) ])
      ∙ store_bytes-outside (at + size * i) (bytes i) m a
          (elim h [ inl p ↦ inl p | inr p ↦ inr (omega (arith, sized i)) ])

  -- Record `j` stands in the array as it was stored.
  pub store_each-at :
      (n i : ℕ) (m : Mem) (j a : ℕ)
      → i ≤ j
      → j < i + n
      → at + size * j ≤ a
      → a < at + size * j + size
      → store_each n i at size bytes m a ≡ store_bytes (at + size * j) (bytes j) m a
  unfolding store_each
  store_each-at zero i m j a p q r s = absurd (omega arith)
  store_each-at (suc n) i m j a p q r s = elim (dec_lt i j) [
    | yes later ↦
        store_each-at n (i + 1) (store_bytes (at + size * i) (bytes i) m) j a (omega arith)
          (omega arith) r s
        ∙ store_bytes-inside (at + size * j) (bytes j) _ m a r (omega (arith, sized j))
    | no first ↦ this (omega arith)
  ]
    where
      this :
          i ≡ j
          → store_each n (i + 1) at size bytes (store_bytes (at + size * i) (bytes i) m) a
            ≡ store_bytes (at + size * j) (bytes j) m a
      this e =
          let e' : size * i ≡ size * j = ap (λ (t : ℕ). size * t) e in
          store_each-outside n (i + 1) _ a (inl (omega arith))
          ∙ ap (λ (k : ℕ). store_bytes (at + size * k) (bytes k) m a) e

  -- A field of `w` bytes at offset `o` of record `j`.
  pub load_le-store_each :
      (n i : ℕ) (m : Mem) (j w o : ℕ)
      → i ≤ j
      → j < i + n
      → o + w ≤ size
      → load_le w (at + size * j + o) (store_each n i at size bytes m)
        ≡ load_le w (at + size * j + o) (store_bytes (at + size * j) (bytes j) m)
  load_le-store_each n i m j w o p q r =
      load_le-ext w _ _ _ (λ a lo hi. store_each-at n i m j a p q (omega arith) (omega arith))

-- Values stored one after the other, each found at its own offset.
pub load_le-first :
    (at m v : ℕ) (ys : List ℕ) (r : Mem)
    → v < 256 ^ m
    → load_le m at (store_bytes at (le_bytes m v ++ ys) r) ≡ v
load_le-first at m v ys r h =
    rw (store_bytes-append, length-le_bytes)
      (load_le-store_bytes_apart m at (at + m) ys (store_bytes at (le_bytes m v) r)
          (inl (omega arith))
        ∙ load_le-store_bytes m at v r h)

pub load_le-behind :
    (at m n v o : ℕ) (ys : List ℕ) (r : Mem)
    → load_le n (at + (m + o)) (store_bytes at (le_bytes m v ++ ys) r)
      ≡ load_le n (at + m + o) (store_bytes (at + m) ys (store_bytes at (le_bytes m v) r))
load_le-behind at m n v o ys r =
    rw (store_bytes-append, length-le_bytes)
      (ap (λ (a : ℕ). load_le n a (store_bytes (at + m) ys (store_bytes at (le_bytes m v) r)))
        (omega arith))
