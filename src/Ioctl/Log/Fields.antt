-- ===== src/Ioctl/Log/Fields.antt =====
-- The dwords of the Get Log Page command, read back as the device reads them.
use switchtec_nvme_cli.Base.{
  ℕ, ◌+◌, ◌*◌, ◌/◌, ◌%◌, ◌^◌, ◌≤◌, ◌<◌, ◌≡◌, Bool, true, false, bit_or, bit_and, flag, arith, shl,
  shr, u16, sub32,
}
use switchtec_nvme_cli.Base.Bits.{and_mask, or_shifted, or_low_part}
use switchtec_nvme_cli.Ioctl.Log.{get_log_cmd}

module _ (log_id numdl lsp b : ℕ) (h : log_id < 2 ^ 8) (n : numdl < 2 ^ 16) (l : lsp < 2 ^ 7) where
  -- The log page specific field goes below the retain bit and the number of dwords.
  with_lsp :
      (a : ℕ)
      → a ≡ log_id + (b + 2 * numdl) * 2 ^ 15
      → bit_or a (lsp * 2 ^ 8) ≡ log_id + lsp * 2 ^ 8 + b * 2 ^ 15 + numdl * 2 ^ 16
  with_lsp a e =
      rw
        (
          e,
          or_low_part 15 (b + 2 * numdl) log_id (lsp * 2 ^ 8) (omega arith) (omega arith),
          or_shifted 8 lsp log_id h,
        )
        (omega arith)

  -- Dword 10 as a sum.
  dword10 :
      b ≤ 1
      → bit_or (bit_or (bit_or log_id (numdl * 2 ^ 16)) (b * 2 ^ 15)) (lsp * 2 ^ 8)
        ≡ log_id + lsp * 2 ^ 8 + b * 2 ^ 15 + numdl * 2 ^ 16
  dword10 bit =
      rw
        (
          or_shifted 16 numdl log_id (omega arith),
          or_low_part 16 numdl log_id (b * 2 ^ 15) (omega arith) (omega arith),
          or_shifted 15 b log_id (omega arith),
        )
        (with_lsp (log_id + b * 2 ^ 15 + numdl * 2 ^ 16) (omega arith))

packed :
    (log_id numdl lsp : ℕ) (rae : Bool)
    → log_id < 2 ^ 8
    → numdl < 2 ^ 16
    → lsp < 2 ^ 7
    → bit_or (bit_or (bit_or log_id (shl numdl 16)) (flag rae (shl 1 15))) (shl lsp 8)
      ≡ log_id + lsp * 2 ^ 8 + flag rae 1 * 2 ^ 15 + numdl * 2 ^ 16
packed log_id numdl lsp true h n l = dword10 log_id numdl lsp 1 h n l (omega arith)
packed log_id numdl lsp false h n l = dword10 log_id numdl lsp 0 h n l (omega arith)

flag-le : (b : Bool) → flag b 1 ≤ 1
flag-le true = omega arith
flag-le false = omega arith

-- Reading the fields of the command gives back the arguments: the log identifier, the log specific
-- field, the retain bit, the number of dwords less one (which the command splits over dwords 10 and
-- 11), the log specific identifier and the 64-bit offset. The arguments fit their fields and at
-- least one dword is asked for.
pub get_log_cmd-fields :
    (nsid log_id lsp lpo lsi : ℕ) (rae : Bool) (uuid_ix data_len addr : ℕ)
    → log_id < 2 ^ 8
    → lsp < 2 ^ 7
    → lpo < 2 ^ 64
    → lsi < 2 ^ 16
    → 4 ≤ data_len
    → data_len < 2 ^ 32
    → let c = get_log_cmd nsid log_id lsp lpo lsi rae uuid_ix data_len addr in
      (c.cdw10 % 2 ^ 8 ≡ log_id)
      × (c.cdw10 / 2 ^ 8 % 2 ^ 7 ≡ lsp)
      × (c.cdw10 / 2 ^ 15 % 2 ≡ flag rae 1)
      × (c.cdw11 % 2 ^ 16 * 2 ^ 16 + c.cdw10 / 2 ^ 16 + 1 ≡ data_len / 4)
      × (c.cdw11 / 2 ^ 16 ≡ lsi)
      × (c.cdw13 * 2 ^ 32 + c.cdw12 ≡ lpo)
unfolding get_log_cmd
get_log_cmd-fields nsid log_id lsp lpo lsi rae uuid_ix data_len addr h l o i m n =
    let numd = sub32 (shr data_len 2) 1 in
    let numdl = u16 (bit_and numd 0xffff) in
    let low : numdl ≡ numd % 2 ^ 16 = omega (arith, and_mask 16 numd) in
    let high = or_shifted 16 lsi (u16 (shr numd 16)) (omega arith) in
    let offset = and_mask 32 lpo in
    let whole = packed log_id numdl lsp rae h (omega arith) l in
    let bit = flag-le rae in
    (omega arith, omega arith, omega arith, omega arith, omega arith, omega arith)
