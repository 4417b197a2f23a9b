-- ===== src/Nvme/Blocks.antt =====
-- nvme.c: `write_uncor` and `write_zeroes`, from the open device on.
use switchtec_nvme_cli.Base.{
  ℕ, Bool, not, neg, to_unsigned, flag, bit_or, shl, ltb, ◌==◌, if◌then◌else◌,
}
use switchtec_nvme_cli.Device.{World, Outcome, DeviceOps}
use switchtec_nvme_cli.Ioctl.{Stat, get_nsid}
use switchtec_nvme_cli.Ioctl.Io.{write_uncorrectable, write_zeros}

-- `struct config` of `write_zeroes`
pub record Zeroes : Type 0 where
  pub start_block : ℕ
  pub ref_tag : ℕ
  pub app_tag : ℕ
  pub app_tag_mask : ℕ
  pub block_count : ℕ
  pub prinfo : ℕ
  pub deac : Bool
  pub limited_retry : Bool
  pub force_unit_access : Bool

abbrev pub rw_lr : ℕ
rw_lr = 0x8000

abbrev pub rw_fua : ℕ
rw_fua = 0x4000

abbrev pub rw_deac : ℕ
rw_deac = 0x200

unfoldable pub control_of : Zeroes → ℕ
control_of cfg =
    bit_or
      (bit_or (bit_or (shl cfg.prinfo 10) (flag cfg.limited_retry rw_lr))
        (flag cfg.force_unit_access rw_fua))
      (flag cfg.deac rw_deac)

module _ {D : Type 0} (fstat : ℕ → World D → Stat D) (ops : DeviceOps D) (fd : ℕ) where
  -- The namespace that is given, or the device's, as a `__u32`: an error of `nvme_get_nsid` is not seen.
  abbrev pub with_nsid : (namespace_id : ℕ) → (ℕ → World D → Outcome D) → World D → Outcome D
  with_nsid namespace_id go w =
      let got = get_nsid fstat ops fd w in
      if not (namespace_id == 0) then go namespace_id w else go (to_unsigned 32 got.err) got.world

  unfoldable pub write_uncor : (namespace_id start_block block_count : ℕ) → World D → Outcome D
  write_uncor namespace_id start_block block_count =
      with_nsid namespace_id (λ nsid. write_uncorrectable ops fd nsid start_block block_count)

  unfoldable pub write_zeroes : (namespace_id : ℕ) → Zeroes → World D → Outcome D
  write_zeroes namespace_id cfg w =
      if ltb 0xf cfg.prinfo
      then record { err = neg 22; world = w }
      else with_nsid namespace_id
          (λ nsid.
            write_zeros ops fd nsid cfg.start_block cfg.block_count (control_of cfg) cfg.ref_tag
              cfg.app_tag cfg.app_tag_mask)
          w
