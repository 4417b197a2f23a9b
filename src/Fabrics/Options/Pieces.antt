-- ===== src/Fabrics/Options/Pieces.antt =====
-- One piece of an option text, formatted behind what is in memory.
use switchtec_nvme_cli.Base.{
  ℕ, zero, suc, ◌+◌, ◌-◌, ◌^◌, ◌≤◌, ◌<◌, ◌≡◌, refl, ◌∙◌, ap, ◌⊎◌, inl, false, pos, List, [], ◌∷◌,
  ◌++◌, length, length-append, take, arith, to_unsigned, leb,
}
use switchtec_nvme_cli.Base.Memory.{
  Mem, store_bytes-head, load_bytes, store_bytes, store_bytes-outside, load_bytes-store_bytes,
}
use switchtec_nvme_cli.Base.Memory.Arrays.{store_bytes-append}
use switchtec_nvme_cli.Fabrics.Builder.{Builder, Added, format, snprintf, minus}

pub load_bytes-append :
    (n k at : ℕ) (m : Mem) → load_bytes (n + k) at m ≡ load_bytes n at m ++ load_bytes k (at + n) m
unfolding load_bytes
load_bytes-append zero k at m =
    ap (λ (j : ℕ). load_bytes j at m) (omega arith) ∙ ap (λ (a : ℕ). load_bytes k a m) (omega arith)
load_bytes-append (suc n) k at m =
    ap (λ (j : ℕ). load_bytes j at m) more
    ∙ ap (λ s. m at ∷ s)
        (load_bytes-append n k (at + 1) m
          ∙ ap (λ (a : ℕ). load_bytes n (at + 1) m ++ load_bytes k a m) along)
  where
    along : at + 1 + n ≡ at + suc n
    along = omega arith

    more : suc n + k ≡ suc (n + k)
    more = omega arith

load_bytes-ext :
    (n at : ℕ) (m m' : Mem)
    → ((i : ℕ) → at ≤ i → i < at + n → m i ≡ m' i)
    → load_bytes n at m ≡ load_bytes n at m'
unfolding load_bytes
load_bytes-ext zero at m m' h = refl
load_bytes-ext (suc n) at m m' h =
    rw
      (
        h at (omega arith) (omega arith),
        load_bytes-ext n (at + 1) m m' (λ i low high. h i (omega arith) (omega arith)),
      )
      refl

-- A text and its end, as they are read.
text-stored :
    (at : ℕ) (t : List ℕ) (m : Mem)
    → (load_bytes (length t) at (store_bytes at (t ++ 0 ∷ []) m) ≡ t)
      × (store_bytes at (t ++ 0 ∷ []) m (at + length t) ≡ 0)
text-stored at t m =
    let first = store_bytes at t m in
    let split = store_bytes-append at t (0 ∷ []) m in
    (
      load_bytes-ext (length t) at (store_bytes at (t ++ 0 ∷ []) m) first (λ i low high.
            ap (λ (f : Mem). f i) split
            ∙ store_bytes-outside (at + length t) (0 ∷ []) first i (inl (omega arith)))
          ∙ load_bytes-store_bytes at t m,
      ap (λ (f : Mem). f (at + length t)) split ∙ store_bytes-head (at + length t) 0 [] first,
    )

take-all : (n : ℕ) (s : List ℕ) → length s ≤ n → take n s ≡ s
take-all zero [] h = refl
take-all zero (c ∷ s) h = absurd (omega arith)
take-all (suc n) [] h = refl
take-all (suc n) (c ∷ s) h = ap (λ t. c ∷ t) (take-all n s (omega arith))

-- The text so far stands at `at`, with room for more in the `size` bytes there, and nothing else is
-- written.
pub record IsAt (m : Mem) (at size : ℕ) (text : List ℕ) (b : Builder) : Type 0 where
  pub room : length text < size
  pub at_end : b.argstr ≡ at + length text
  pub left : b.max_len ≡ pos (size - length text)
  pub content : load_bytes (length text) at b.mem ≡ text
  pub outside : (i : ℕ) → (i < at) ⊎ (at + size ≤ i) → b.mem i ≡ m i

-- And a 0 stands behind it.
abbrev pub IsWritten : Mem → ℕ → ℕ → List ℕ → Builder → Type 0
IsWritten m at size text b = IsAt m at size text b × (b.mem (at + length text) ≡ 0)

-- The outcome of a call that goes well.
abbrev pub Goes : Mem → ℕ → ℕ → List ℕ → Added → Type 0
Goes m at size text a = (b : Builder) × (a ≡ Added.added b) × IsWritten m at size text b

pub snprintf-fits :
    (at n : ℕ) (t : List ℕ) (m : Mem)
    → length t < n
    → snprintf at n t m ≡ store_bytes at (t ++ 0 ∷ []) m
unfolding snprintf
snprintf-fits at n t m h = rw (take-all (n - 1) t (omega arith)) (ground arith)

pub format-fits :
    (m : Mem) (at size : ℕ) (text t : List ℕ) (b : Builder)
    → size < 2 ^ 31
    → IsAt m at size text b
    → length text + length t < size
    → Goes m at size (text ++ t) (format t b)
unfolding format minus
format-fits m at size text t b small w h =
    let there = at + length text in
    let len = length-append text t in
    let stored = store_bytes there (t ++ 0 ∷ []) b.mem in
    let len0 = length-append t (0 ∷ []) in
    let written : snprintf b.argstr (to_unsigned 64 b.max_len) t b.mem ≡ stored =
      rw (w.at_end, w.left)
        (ap (λ (n : ℕ). snprintf there n t b.mem) (omega arith)
          ∙ snprintf-fits there (size - length text) t b.mem (omega arith)) in
    let short : leb (2 ^ 31) (length t) ≡ false = ground arith in
    let kept : load_bytes (length text) at stored ≡ text =
      load_bytes-ext (length text) at stored b.mem
        (λ i low high. store_bytes-outside there (t ++ 0 ∷ []) b.mem i (inl (omega arith)))
      ∙ w.content in
    let (new, end) = text-stored there t b.mem in
    let both : load_bytes (length text + length t) at stored ≡ text ++ t =
      load_bytes-append (length text) (length t) at stored ∙ rw (kept, new) refl in
    (
      record {
        mem = stored;
        argstr = there + length t;
        max_len = pos (size - length text - length t);
      },
      rw (short, written, w.at_end, w.left) (ground arith),
      (
        record {
          room = omega arith;
          at_end = omega arith;
          left = ap pos (omega arith);
          content = ap (λ (n : ℕ). load_bytes n at stored) len ∙ both;
          outside =
              λ i o. store_bytes-outside there (t ++ 0 ∷ []) b.mem i (omega arith) ∙ w.outside i o;
        },
        ap stored (omega arith) ∙ end,
      ),
    )
