-- ===== src/Nvme/Firmware/Chunks.antt =====
-- A firmware image as a transfer in chunks.
use mathlib.Core.Path.{subst}
use switchtec_nvme_cli.Base.{
  ℕ, zero, suc, ◌+◌, ◌-◌, ◌%◌, ◌^◌, ◌≤◌, ◌<◌, ◌≡◌, refl, ◌∙◌, min, false, Bool-cases, inl, inr,
  is_zero, List, [], ◌∷◌, map, some, arith, u32, ◌==◌,
}
use switchtec_nvme_cli.Device.{World, PassthruCmd, DeviceOps}
use switchtec_nvme_cli.Ioctl.Log.Pieces.{Piece, submit_all}
use switchtec_nvme_cli.Ioctl.Manage.{fw_download, fw_download_cmd}
use switchtec_nvme_cli.Nvme.Firmware.{download_loop}

-- The command for a chunk of an image that goes to the byte `start` of the device's memory, and whose bytes are at `addr`.
abbrev pub chunk_cmd : (start addr : ℕ) → Piece → PassthruCmd
chunk_cmd start addr p = fw_download_cmd (start + p.offset) p.len (addr + p.offset)

-- Chunks that follow one another from `at` to `end`; each is a whole number of dwords, and at most
-- `xfer` bytes long.
abbrev pub Covers : (xfer at : ℕ) → List Piece → (end : ℕ) → Type 0
Covers xfer at [] end = at ≡ end
Covers xfer at (p ∷ ps) end =
    (p.offset ≡ at)
    × (0 < p.len)
    × (p.len ≤ xfer)
    × (p.len % 4 ≡ 0)
    × Covers xfer (at + p.len) ps end

module _ {D : Type 0} (ops : DeviceOps D) (fd start addr most : ℕ) where
  -- One round, and what follows it.
  download_loop-chunk :
      (fuel xfer at left : ℕ) (w : World D)
      → 0 < left
      → 0 < xfer
      → xfer ≤ most
      → xfer % 4 ≡ 0
      → left % 4 ≡ 0
      → start + at + left < 2 ^ 32
      → let chunk = min xfer left in
        let p : Piece = record { offset = at; len = chunk } in
        let r = ops.submit_admin_passthru fd (chunk_cmd start addr p) w in
        ((ps : List Piece) × (download_loop ops fd fuel chunk
              (start + (at + chunk))
              (addr + (at + chunk))
              (left - chunk)
              r.world
            ≡ some (submit_all ops fd (map (chunk_cmd start addr) ps) r.world))
          × Covers most (at + chunk) ps (at + chunk + (left - chunk)))
        → (ps : List Piece) × (download_loop ops fd (suc fuel) xfer (start + at) (addr + at) left w
            ≡ some (submit_all ops fd (map (chunk_cmd start addr) ps) w))
          × Covers most at ps (at + left)
  unfolding download_loop fw_download
  download_loop-chunk fuel xfer at left w p x m a b fits (ps, e, covers) =
      let chunk = min xfer left in
      let here : Piece = record { offset = at; len = chunk } in
      let r = ops.submit_admin_passthru fd (chunk_cmd start addr here) w in
      let there : u32 (start + at + chunk) ≡ start + (at + chunk) = omega arith in
      let behind : addr + at + chunk ≡ addr + (at + chunk) = omega arith in
      let more : (left == 0) ≡ false = ground arith in
      (
        here ∷ ps,
        elim (Bool-cases (is_zero r.err)) [
          | inl q ↦ rw (download_loop, more, fw_download, q, there, behind) e
          | inr q ↦ rw (download_loop, more, fw_download, q) refl
        ],
        (
          refl,
          omega arith,
          omega arith,
          omega (arith, a, b),
          subst (Covers most (at + chunk) ps) (omega arith) covers,
        ),
      )

  download_loop-from :
      (fuel xfer at left : ℕ) (w : World D)
      → left < fuel
      → 0 < xfer
      → xfer ≤ most
      → xfer % 4 ≡ 0
      → left % 4 ≡ 0
      → start + at + left < 2 ^ 32
      → (ps : List Piece) × (download_loop ops fd fuel xfer (start + at) (addr + at) left w
          ≡ some (submit_all ops fd (map (chunk_cmd start addr) ps) w))
        × Covers most at ps (at + left)
  unfolding download_loop fw_download
  download_loop-from zero xfer at left w enough x m a b fits = absurd (omega arith)
  download_loop-from (suc fuel) xfer at left w enough x m a b fits = elim (Bool-cases (left == 0)) [
    | inl q ↦ ([], rw (download_loop, q) refl, ground arith)
    | inr q ↦ download_loop-chunk fuel xfer at left w (ground arith) x m a b fits (
        download_loop-from fuel (min xfer left) (at + min xfer left) (left - min xfer left) _
          (omega (arith, positive q)) (omega (arith, positive q)) (omega arith)
          (omega (arith, a, b)) (omega (arith, a, b)) (omega arith))
  ]
    where
      positive : (left == 0) ≡ false → 0 < left
      positive q = ground arith

-- With room for an offset of 32 bits, an image of whole dwords that is sent in chunks of whole dwords reaches the
-- device by one command for each chunk of a list, in order and up to the first error, whose code is returned. The chunks
-- follow one another from the start to the end of the image, none is empty or longer than the limit, and each is taken
-- from its place in the buffer to its place behind the offset. The loop always ends.
pub download_loop-Covers :
    {D : Type 0} (ops : DeviceOps D) (fd xfer offset addr fw_size : ℕ) (w : World D)
    → 0 < xfer
    → xfer % 4 ≡ 0
    → fw_size % 4 ≡ 0
    → offset + fw_size < 2 ^ 32
    → (ps : List Piece) × (download_loop ops fd (fw_size + 1) xfer offset addr fw_size w
        ≡ some (submit_all ops fd (map (chunk_cmd offset addr) ps) w))
      × Covers xfer 0 ps fw_size
download_loop-Covers ops fd xfer offset addr fw_size w x a b fits =
    let (ps, e, covers) =
      download_loop-from ops fd offset addr xfer (fw_size + 1) xfer 0 fw_size w (omega arith) x
        (omega arith) a b (omega arith) in
    (ps, ap2 (omega arith) (omega arith) ∙ e, subst (Covers xfer 0 ps) (omega arith) covers)
  where
    ap2 :
        {s t : ℕ}
        → offset ≡ s
        → addr ≡ t
        → download_loop ops fd (fw_size + 1) xfer offset addr fw_size w
          ≡ download_loop ops fd (fw_size + 1) xfer s t fw_size w
    ap2 p q = rw (← p, ← q) refl
