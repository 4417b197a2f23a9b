-- ===== src/Ioctl/Io/Fields.antt =====
-- The dwords of the I/O commands, read back as the device reads them.
use switchtec_nvme_cli.Base.{ℕ, ◌+◌, ◌*◌, ◌/◌, ◌%◌, ◌^◌, ◌<◌, ◌≡◌, arith}
use switchtec_nvme_cli.Base.Bits.{and_mask, or_shifted}
use switchtec_nvme_cli.Device.{PassthruCmd}
use switchtec_nvme_cli.Ioctl.Io.{verify_cmd, write_zeros_cmd, write_uncorrectable_cmd}

-- The starting block is split over dwords 10 and 11; the block count and the control flags share
-- dword 12, the application tag and its mask dword 15.
abbrev pub IsBlockCommand : PassthruCmd → (slba nlb control reftag apptag appmask : ℕ) → Type 0
IsBlockCommand c slba nlb control reftag apptag appmask =
    (c.cdw11 * 2 ^ 32 + c.cdw10 ≡ slba)
    × (c.cdw12 % 2 ^ 16 ≡ nlb)
    × (c.cdw12 / 2 ^ 16 ≡ control)
    × (c.cdw14 ≡ reftag)
    × (c.cdw15 % 2 ^ 16 ≡ apptag)
    × (c.cdw15 / 2 ^ 16 ≡ appmask)

module _ (nsid slba nlb control reftag apptag appmask : ℕ) (s : slba < 2 ^ 64) (n : nlb < 2 ^ 16)
    (c : control < 2 ^ 16) (a : apptag < 2 ^ 16) (m : appmask < 2 ^ 16) where
  -- Verify and Write Zeroes carry the block range and the protection information that they were
  -- given, when these fit their types.
  pub verify_cmd-IsBlockCommand :
      IsBlockCommand
        (verify_cmd nsid slba nlb control reftag apptag appmask)
        slba
        nlb
        control
        reftag
        apptag
        appmask
      × IsBlockCommand
          (write_zeros_cmd nsid slba nlb control reftag apptag appmask)
          slba
          nlb
          control
          reftag
          apptag
          appmask
  unfolding verify_cmd write_zeros_cmd
  verify_cmd-IsBlockCommand =
      let low = and_mask 32 slba in
      let control_word = or_shifted 16 control nlb n in
      let tag_word = or_shifted 16 appmask apptag a in
      (
        (omega arith, omega arith, omega arith, omega arith, omega arith, omega arith),
        (omega arith, omega arith, omega arith, omega arith, omega arith, omega arith),
      )

-- Write Uncorrectable carries the block range too, with no control flags and no tags.
pub write_uncorrectable_cmd-IsBlockCommand :
    (nsid slba nlb : ℕ)
    → slba < 2 ^ 64
    → nlb < 2 ^ 16
    → IsBlockCommand (write_uncorrectable_cmd nsid slba nlb) slba nlb 0 0 0 0
unfolding write_uncorrectable_cmd
write_uncorrectable_cmd-IsBlockCommand nsid slba nlb s n =
    let low = and_mask 32 slba in
    (omega arith, omega arith, omega arith, omega arith, omega arith, omega arith)
