-- ===== src/Ioctl.antt =====
-- nvme-ioctl.c: the calls that check the handle, and the generic passthrough. The child modules
-- hold the commands. `fstat` is the system call; the table of the open device is a parameter.
pub mod NvmOpcode
pub mod AdminOpcode
pub mod Cns
pub mod LogId
pub mod Reg
pub mod Io
pub mod Payload
pub mod Identify
pub mod Log
pub mod Feature
pub mod Manage
pub mod Laws
use mathlib.Core.Option
use switchtec_nvme_cli.Base.{
  ℕ, ◌≡◌, Bool, true, not, ℤ, pos, negsuc, neg, negate, is_zero, is_negative, Option, some, none,
  bit_and, ◌==◌, if◌then◌else◌,
}
use switchtec_nvme_cli.Device.{World, PassthruCmd, zero_cmd, Outcome, Reply, DeviceOps, status_of}

-- What `fstat` gives: its return value, the mode of the file, and a new `errno`.
pub record Stat (D : Type 0) : Type 0 where
  pub err : ℤ
  pub mode : ℕ
  pub world : World D

abbrev pub enotblk : ℕ
enotblk = 15

-- `S_ISCHR`
abbrev pub is_chr : ℕ → Bool
is_chr mode = bit_and mode 0xf000 == 0x2000

-- What a command with a `__u32 *result` leaves behind: the return value and the number that the
-- pointer leads to, `none` for a null pointer.
pub record Answer (D : Type 0) : Type 0 where
  pub err : ℤ
  pub result : Option ℕ
  pub world : World D

-- `if (!err && result) *result = cmd.result;`
abbrev pub answer : {D : Type 0} → Option ℕ → Reply D → Answer D
answer result r = record {
  err = r.err;
  result = if is_zero r.err then Option.map (λ _. r.cmd.result) result else result;
  world = r.world;
}

module _ {D : Type 0} (fstat : ℕ → World D → Stat D) where
  unfoldable pub verify_chr : ℕ → World D → Outcome D
  verify_chr fd w =
      let s = fstat fd w in
      if is_negative s.err
      then record { err = s.world.errno; world = s.world }
      else if not (is_chr s.mode)
      then record { err = pos enotblk; world = s.world }
      else record { err = pos 0; world = s.world }

  module _ (ops : DeviceOps D) where
    unfoldable pub subsystem_reset : ℕ → World D → Outcome D
    subsystem_reset fd w =
        let s = verify_chr fd w in if not (is_zero s.err) then s else ops.subsystem_reset fd s.world

    unfoldable pub reset_controller : ℕ → World D → Outcome D
    reset_controller fd w =
        let s = verify_chr fd w in
        if not (is_zero s.err) then s else ops.reset_controller fd s.world

    unfoldable pub ns_rescan : ℕ → World D → Outcome D
    ns_rescan fd w =
        let s = verify_chr fd w in if not (is_zero s.err) then s else ops.ns_rescan fd s.world

    unfoldable pub get_nsid : ℕ → World D → Outcome D
    get_nsid fd w =
        let s = fstat fd w in
        if is_negative s.err
        then record { err = negate s.world.errno; world = s.world }
        else if not (ops.is_blk s.world)
        then record { err = neg enotblk; world = record (s.world) { errno = pos enotblk } }
        else ops.get_nsid fd s.world

module _ {D : Type 0} (ops : DeviceOps D) where
  -- `nvme_passthru`
  unfoldable pub passthru :
      (fd ioctl_cmd opcode flags rsvd nsid cdw2 cdw3 cdw10 cdw11 cdw12 cdw13 cdw14 cdw15 data_len
        addr metadata_len metadata timeout_ms : ℕ)
      (result : Option ℕ)
      → World D
      → Answer D
  passthru fd ioctl_cmd opcode flags rsvd nsid cdw2 cdw3 cdw10 cdw11 cdw12 cdw13 cdw14 cdw15
        data_len addr metadata_len metadata timeout_ms result w =
      answer result (
        ops.submit_passthru fd ioctl_cmd
          (record {
            opcode = opcode;
            flags = flags;
            rsvd1 = rsvd;
            nsid = nsid;
            cdw2 = cdw2;
            cdw3 = cdw3;
            metadata = metadata;
            addr = addr;
            metadata_len = metadata_len;
            data_len = data_len;
            cdw10 = cdw10;
            cdw11 = cdw11;
            cdw12 = cdw12;
            cdw13 = cdw13;
            cdw14 = cdw14;
            cdw15 = cdw15;
            timeout_ms = timeout_ms;
            result = 0;
          })
          w)
