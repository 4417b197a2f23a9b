-- ===== src/Ioctl/Log/Pieces.antt =====
-- `nvme_get_log` as a transfer in pieces of at most 4096 bytes.
use mathlib.Core.Path.{subst}
use switchtec_nvme_cli.Base.{
  ℕ, zero, suc, ◌+◌, ◌*◌, ◌/◌, ◌%◌, ◌^◌, ◌≤◌, ◌<◌, ◌≡◌, ◌∙◌, ap, Bool, pos, is_zero, List, [], ◌∷◌,
  map, some, arith, u32, sub32, ltb, lt→ltb, if◌then◌else◌, not,
}
use switchtec_nvme_cli.Device.{World, PassthruCmd, Outcome, DeviceOps}
use switchtec_nvme_cli.Ioctl.Log.{get_log_cmd, get_log14, get_log13, log_loop, get_log, no_log_lsp}

-- A piece of a transfer: where it starts, and how long it is.
pub record Piece : Type 0 where
  pub offset : ℕ
  pub len : ℕ

-- `whole` pieces of 4096 bytes from the piece numbered `i` on, and one with the `rest`.
abbrev pub pieces_from : (i whole rest : ℕ) → List Piece
pieces_from i zero zero = []
pieces_from i zero (suc rest) = record { offset = 4096 * i; len = suc rest } ∷ []
pieces_from i (suc whole) rest =
    record { offset = 4096 * i; len = 4096 } ∷ pieces_from (i + 1) whole rest

-- The pieces of a transfer that is not empty.
abbrev pub pieces : ℕ → List Piece
pieces data_len = pieces_from 0 (data_len / 4096) (data_len % 4096)

-- The command that fetches a piece to its place in the buffer at `addr`.
abbrev pub piece_cmd : (nsid log_id : ℕ) → Bool → (addr : ℕ) → Piece → PassthruCmd
piece_cmd nsid log_id rae addr p =
    get_log_cmd nsid log_id no_log_lsp p.offset 0 rae 0 p.len (addr + p.offset)

-- Commands one after the other, up to the first error.
abbrev pub submit_all : {D : Type 0} → DeviceOps D → ℕ → List PassthruCmd → World D → Outcome D
submit_all ops fd [] w = record { err = pos 0; world = w }
submit_all ops fd (cmd ∷ cmds) w =
    let r = ops.submit_admin_passthru fd cmd w in
    if not (is_zero r.err)
    then record { err = r.err; world = r.world }
    else submit_all ops fd cmds r.world

module _ {D : Type 0} (ops : DeviceOps D) (fd nsid log_id : ℕ) (rae : Bool) (addr : ℕ) where
  -- One round of the loop.
  log_loop-round :
      (fuel data_len offset len : ℕ) (w : World D)
      → (if ltb 4096 (sub32 data_len offset) then 4096 else sub32 data_len offset) ≡ len
      → log_loop ops fd (suc fuel) nsid log_id rae data_len offset (addr + offset) w ≡ (
          let r =
            ops.submit_admin_passthru fd
              (piece_cmd nsid log_id rae addr (record { offset = offset; len = len }))
              w in
          if not (is_zero r.err)
          then some (record { err = r.err; world = r.world })
          else if ltb (u32 (offset + len)) data_len
          then log_loop ops fd fuel nsid log_id rae data_len
              (u32 (offset + len))
              (addr + offset + len)
              r.world
          else some (record { err = pos 0; world = r.world }))
  unfolding log_loop get_log13 get_log14
  log_loop-round fuel data_len offset len w e = rw (← e)

  abbrev all_pieces : List Piece → World D → Outcome D
  all_pieces ps w = submit_all ops fd (map (piece_cmd nsid log_id rae addr) ps) w

  -- The round that fetches the last piece.
  log_loop-last :
      (fuel data_len offset len : ℕ) (w : World D)
      → len ≤ 4096
      → offset + len ≡ data_len
      → data_len < 2 ^ 32
      → log_loop ops fd (suc fuel) nsid log_id rae data_len offset (addr + offset) w
        ≡ some (all_pieces (record { offset = offset; len = len } ∷ []) w)
  log_loop-last fuel data_len offset len w short e fits =
      log_loop-round fuel data_len offset len w (ground arith) ∙ ground arith

  -- The round that fetches a whole piece with more behind it.
  log_loop-whole :
      (fuel data_len offset : ℕ) (ps : List Piece) (w : World D)
      → offset + 4096 < data_len
      → data_len < 2 ^ 32
      → ((v : World D)
          → log_loop ops fd fuel nsid log_id rae data_len (offset + 4096) (addr + (offset + 4096)) v
            ≡ some (all_pieces ps v))
      → log_loop ops fd (suc fuel) nsid log_id rae data_len offset (addr + offset) w
        ≡ some (all_pieces (record { offset = offset; len = 4096 } ∷ ps) w)
  log_loop-whole fuel data_len offset ps w more fits rest =
      let wrap : u32 (offset + 4096) ≡ offset + 4096 = omega arith in
      let shift : addr + offset + 4096 ≡ addr + (offset + 4096) = omega arith in
      log_loop-round fuel data_len offset 4096 w (ground arith)
      ∙ rw (wrap, shift, rest, lt→ltb _ _ more) (ground arith)

  log_loop-pieces_from :
      (fuel i whole rest data_len offset : ℕ) (w : World D)
      → offset ≡ 4096 * i
      → data_len ≡ offset + 4096 * whole + rest
      → rest < 4096
      → 0 < whole + rest
      → whole < fuel
      → data_len < 2 ^ 32
      → log_loop ops fd fuel nsid log_id rae data_len offset (addr + offset) w
        ≡ some (all_pieces (pieces_from i whole rest) w)
  log_loop-pieces_from zero i whole rest data_len offset w o e r p f fits = absurd (omega arith)
  log_loop-pieces_from (suc fuel) i zero zero data_len offset w o e r p f fits =
      absurd (omega arith)
  log_loop-pieces_from (suc fuel) i zero (suc rest) data_len offset w o e r p f fits =
      rw (← o) (log_loop-last fuel data_len offset (suc rest) w (omega arith) (omega arith) fits)
  log_loop-pieces_from (suc fuel) i (suc zero) zero data_len offset w o e r p f fits =
      rw (← o) (log_loop-last fuel data_len offset 4096 w (omega arith) (omega arith) fits)
  log_loop-pieces_from (suc fuel) i (suc zero) (suc rest) data_len offset w o e r p f fits =
      rw (← o) (
        log_loop-whole fuel data_len offset (pieces_from (i + 1) 0 (suc rest)) w (omega arith) fits
          (λ v.
            log_loop-pieces_from fuel (i + 1) 0 (suc rest) data_len (offset + 4096) v (omega arith)
              (omega arith) r (omega arith) (omega arith) fits))
  log_loop-pieces_from (suc fuel) i (suc (suc whole)) rest data_len offset w o e r p f fits =
      rw (← o) (
        log_loop-whole fuel data_len offset (pieces_from (i + 1) (suc whole) rest) w (omega arith)
          fits
          (λ v.
            log_loop-pieces_from fuel (i + 1) (suc whole) rest data_len (offset + 4096) v
              (omega arith) (omega arith) r (omega arith) (omega arith) fits))

  -- The commands for the pieces, in order and up to the first error.
  get_log-pieces :
      (data_len : ℕ) (w : World D)
      → 0 < data_len
      → data_len < 2 ^ 32
      → get_log ops fd nsid log_id rae data_len addr w
        ≡ some (submit_all ops fd (map (piece_cmd nsid log_id rae addr) (pieces data_len)) w)
  unfolding get_log
  get_log-pieces data_len w p fits =
      let here : addr ≡ addr + 0 = omega arith in
      ap (λ (a : ℕ). log_loop ops fd (data_len / 4096 + 1) nsid log_id rae data_len 0 a w) here
      ∙ log_loop-pieces_from (data_len / 4096 + 1) 0 (data_len / 4096) (data_len % 4096) data_len 0
          w (omega arith) (omega arith) (omega arith) (omega arith) (omega arith) fits

-- The pieces of a transfer follow one another: each starts where those before it end.
abbrev pub Follow : ℕ → List Piece → ℕ → Type 0
Follow at [] end = at ≡ end
Follow at (p ∷ ps) end = (p.offset ≡ at) × (0 < p.len) × (p.len ≤ 4096) × Follow (at + p.len) ps end

pieces_from-Follow :
    (i whole rest at : ℕ)
    → rest < 4096
    → at ≡ 4096 * i
    → Follow at (pieces_from i whole rest) (at + 4096 * whole + rest)
pieces_from-Follow i zero zero at r e = omega arith
pieces_from-Follow i zero (suc rest) at r e = omega arith
pieces_from-Follow i (suc whole) rest at r e = (
  omega arith,
  omega arith,
  omega arith,
  subst (Follow (at + 4096) (pieces_from (i + 1) whole rest)) (omega arith)
      (pieces_from-Follow (i + 1) whole rest (at + 4096) r (omega arith)),
)

pieces-Follow : (data_len : ℕ) → Follow 0 (pieces data_len) data_len
pieces-Follow data_len =
    subst (Follow 0 (pieces data_len)) (omega arith)
      (pieces_from-Follow 0 (data_len / 4096) (data_len % 4096) 0 (omega arith) (omega arith))

-- A log that is not empty and below 4 GiB is fetched by one Get Log Page command for each piece of a
-- list of pieces, in order and up to the first error, whose code is returned. The pieces are
-- contiguous from 0 to the length of the log, none is empty or longer than 4096 bytes, and each goes
-- to its place in the buffer. The loop always ends.
pub get_log-Follow :
    {D : Type 0} (ops : DeviceOps D) (fd nsid log_id : ℕ) (rae : Bool) (addr data_len : ℕ)
    (w : World D)
    → 0 < data_len
    → data_len < 2 ^ 32
    → (ps : List Piece) × (get_log ops fd nsid log_id rae data_len addr w
        ≡ some (submit_all ops fd (map (piece_cmd nsid log_id rae addr) ps) w))
      × Follow 0 ps data_len
get_log-Follow ops fd nsid log_id rae addr data_len w p fits = (
  pieces data_len,
  get_log-pieces ops fd nsid log_id rae addr data_len w p fits,
  pieces-Follow data_len,
)
