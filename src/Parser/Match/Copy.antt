-- ===== src/Parser/Match/Copy.antt =====
-- `match_strlcpy`: what it writes, and where.
use switchtec_nvme_cli.Base.{
  ℕ, ◌+◌, ◌-◌, ◌≤◌, ◌<◌, ◌≡◌, ◌≢◌, refl, ◌⊎◌, [], ◌∷◌, ◌++◌, length, length-append, take,
  length-take, arith, leb, Bool-cases, inl, inr, false, ◌==◌, if◌then◌else◌,
}
use switchtec_nvme_cli.Base.Memory.{Mem, load_bytes, store_bytes-outside, load_bytes-store_bytes}
use switchtec_nvme_cli.Parser.Match.{Substring, substring_len, match_strlcpy}

-- How many characters are copied.
abbrev pub copied : Substring → ℕ → ℕ
copied src size = if leb size (substring_len src) then size - 1 else substring_len src

pub copied-lt : (src : Substring) (size : ℕ) → size ≢ 0 → copied src size < size
copied-lt src size h = ground arith

length-copied :
    (src : Substring) (size : ℕ)
    → length (take (copied src size) src.from ++ 0 ∷ []) ≡ copied src size + 1
length-copied src size = ground (
  arith,
  length-append (take (copied src size) src.from) (0 ∷ []),
  length-take (copied src size) src.from,
)

-- The copy of a substring stays inside the `size` bytes of the buffer, whatever the length of the
-- substring, which is returned: a byte outside the buffer is as it was, and so is all memory for a
-- buffer of no bytes.
pub match_strlcpy-outside :
    (dest : ℕ) (src : Substring) (size : ℕ) (m : Mem) (i : ℕ)
    → (i < dest) ⊎ (dest + size ≤ i)
    → ((match_strlcpy dest src size m).0 ≡ length src.from - length src.to)
      × ((match_strlcpy dest src size m).1 i ≡ m i)
unfolding match_strlcpy
match_strlcpy-outside dest src size m i h = (
  refl,
  elim (Bool-cases (size == 0)) [
    | inl empty ↦ rw empty refl
    | inr room ↦ rw room (
        store_bytes-outside dest (take (copied src size) src.from ++ 0 ∷ []) m i
          (omega (arith, length-copied src size, copied-lt src size (ground arith))))
  ],
)

-- The buffer holds the first characters of the substring and a 0 behind them: all of them where they
-- fit, and `size - 1` otherwise. The substring ends inside the text that it starts.
pub match_strlcpy-terminated :
    (dest : ℕ) (src : Substring) (size : ℕ) (m : Mem)
    → size ≢ 0
    → load_bytes (copied src size + 1) dest (match_strlcpy dest src size m).1
      ≡ take (copied src size) src.from ++ 0 ∷ []
unfolding match_strlcpy
match_strlcpy-terminated dest src size m h =
    let room : (size == 0) ≡ false = ground arith in
    rw (room, ← length-copied src size)
      (load_bytes-store_bytes dest (take (copied src size) src.from ++ 0 ∷ []) m)

-- The copy of a substring returns the length of the substring, and stays inside the `size` bytes of the
-- buffer: a byte outside it is as it was. The buffer holds the first characters of the substring and a 0 behind
-- them: all of them where they fit, and `size - 1` otherwise. The buffer is not empty, and the substring
-- ends inside the text that it starts.
pub match_strlcpy_lem :
    (dest : ℕ) (src : Substring) (size : ℕ) (m : Mem)
    → size ≢ 0
    → ((match_strlcpy dest src size m).0 ≡ length src.from - length src.to)
      × ((i : ℕ) → (i < dest) ⊎ (dest + size ≤ i) → (match_strlcpy dest src size m).1 i ≡ m i)
      × (load_bytes (copied src size + 1) dest (match_strlcpy dest src size m).1
          ≡ take (copied src size) src.from ++ 0 ∷ [])
match_strlcpy_lem dest src size m h = (
  (match_strlcpy-outside dest src size m (dest + size) (inr (omega arith))).0,
  λ i o. (match_strlcpy-outside dest src size m i o).1,
  match_strlcpy-terminated dest src size m h,
)
