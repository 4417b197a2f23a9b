-- ===== src/Device/Pax.antt =====
-- plugins/microchip/switchtec-nvme-device.c: the table of a device behind a Switchtec PAX switch. The
-- calls of the switchtec library are parameters; only admin commands reach the device.
pub mod Laws
pub mod Errno
use switchtec_nvme_cli.Base.{
  ℕ, ◌+◌, ◌-◌, ◌*◌, ◌/◌, ◌%◌, ◌^◌, Bool, true, false, not, ◌&&◌, ℤ, pos, negsuc, neg, is_zero,
  to_signed, List, [], ◌∷◌, bit_and, bit_or, u32, shl, shr, ltb, leb, ◌==◌, if◌then◌else◌,
}
use switchtec_nvme_cli.Base.Memory.{Mem, load_bytes, load_le}
use switchtec_nvme_cli.Device.{World, PassthruCmd, UserIo, Outcome, Reply, DeviceOps}
use switchtec_nvme_cli.Device.Rc.{ioctl_admin_cmd}

-- The submission queue entry in dwords, and the data behind it.
pub record Request : Type 0 where
  pub sqe : List ℕ
  pub payload : List ℕ

-- What a call of the library gives: its return value, dwords 0 and 3 of the completion, the bytes
-- from `rsp.nvme_data` on, and the length of the response.
pub record Response (D : Type 0) : Type 0 where
  pub err : ℤ
  pub cqe0 : ℕ
  pub cqe3 : ℕ
  pub payload : ℕ → ℕ
  pub rsp_len : ℕ
  pub world : World D

-- What `switchtec_nvme_admin_passthru` gives: its return value, `rsp_len` and the world, in whose memory the
-- response is.
pub record Answer (D : Type 0) : Type 0 where
  pub err : ℤ
  pub rsp_len : ℕ
  pub world : World D

-- The library, with the sizes that its headers fix: of the data in a request of either kind, and of
-- the data in a response of `switchtec_device_manage`. `pdfid` is the function that is addressed,
-- `rsp_at` where the compiler places the local `rsp` of the 4k call.
pub record Switchtec (D : Type 0) : Type 0 where
  pub pdfid : ℕ
  pub admin_data_size : ℕ
  pub manage_data_size : ℕ
  pub manage_rsp_size : ℕ
  pub invalid_mrpc_cmd : ℕ
  pub rsp_at : ℕ
  pub admin_passthru : (pdfid data_len : ℕ) → Request → (rsp_len rsp : ℕ) → World D → Answer D
  pub device_manage : (pdfid : ℕ) → Request → (expected_rsp_len : ℕ) → World D → Response D

-- `memcpy` of `n` bytes to `at`.
unfoldable pub copy_to : (n at : ℕ) → (ℕ → ℕ) → Mem → Mem
copy_to n at bytes m i = if leb at i && ltb i (at + n) then bytes (i - at) else m i

-- The first 64 bytes of the command as 16 dwords; dword 9 is cleared.
unfoldable pub sqe : PassthruCmd → List ℕ
sqe cmd =
    bit_or cmd.opcode (bit_or (shl cmd.flags 8) (shl cmd.rsvd1 16))
    ∷ cmd.nsid
    ∷ cmd.cdw2
    ∷ cmd.cdw3
    ∷ (cmd.metadata % 2 ^ 32)
    ∷ shr cmd.metadata 32
    ∷ (cmd.addr % 2 ^ 32)
    ∷ shr cmd.addr 32
    ∷ cmd.metadata_len
    ∷ 0
    ∷ cmd.cdw10
    ∷ cmd.cdw11
    ∷ cmd.cdw12
    ∷ cmd.cdw13
    ∷ cmd.cdw14
    ∷ cmd.cdw15
    ∷ []

-- The data that go with a command: those of an odd opcode, at most `size` bytes.
unfoldable pub data_len : ℕ → PassthruCmd → ℕ
data_len size cmd =
    if bit_and cmd.opcode 0x1 == 0 then 0 else if ltb size cmd.data_len then size else cmd.data_len

-- `rsp_len - 4 * 4` on `size_t`.
unfoldable pub copy_len : ℕ → ℕ
copy_len rsp_len = (rsp_len + 2 ^ 64 - 16) % 2 ^ 64

-- `status = (rsp.nvme_cqe[3] & 0xfffe0000) >> 17`
unfoldable pub completion_status : ℕ → ℕ
completion_status cqe3 = shr (bit_and cqe3 0xfffe_0000) 17

-- The members of `struct switchtec_admin_passthru_nvme_rsp` at an address: dwords 0 and 3 of the completion,
-- and the data.
abbrev pub response_at : {D : Type 0} → (rsp : ℕ) → Answer D → Response D
response_at rsp a = record {
  err = a.err;
  cqe0 = load_le 4 rsp a.world.mem;
  cqe3 = load_le 4 (rsp + 12) a.world.mem;
  payload = λ i. a.world.mem (rsp + 16 + i);
  rsp_len = a.rsp_len;
  world = a.world;
}

-- The size of that structure: four dwords and `nvme_data[4096]`.
abbrev pub admin_rsp_size : ℕ
admin_rsp_size = 16 + 4096

-- `memset(&rsp, 0, sizeof(rsp))`
abbrev pub clear_response : {D : Type 0} → (rsp : ℕ) → World D → World D
clear_response rsp w = record w { mem = copy_to admin_rsp_size rsp (λ i. 0) w.mem }

-- The end of both routines: the result and the data of a command that succeeded.
unfoldable pub finish : {D : Type 0} → PassthruCmd → Response D → Reply D
finish cmd rsp =
    let status = completion_status rsp.cqe3 in
    if not (is_zero rsp.err)
    then record { err = rsp.err; cmd = cmd; world = rsp.world }
    else if not (status == 0)
    then record { err = pos status; cmd = cmd; world = rsp.world }
    else record {
      err = pos status;
      cmd = record cmd { result = rsp.cqe0 };
      world = if cmd.addr == 0 then rsp.world else record (rsp.world) {
        mem = copy_to (copy_len rsp.rsp_len) cmd.addr rsp.payload rsp.world.mem;
      };
    }

module _ {D : Type 0} (sw : Switchtec D) where
  abbrev pub request : ℕ → PassthruCmd → World D → Request
  request size cmd w = record {
    sqe = sqe cmd;
    payload = load_bytes (data_len size cmd) cmd.addr w.mem;
  }

  unfoldable pub submit_admin_passthru_1k_rsp : ℕ → PassthruCmd → World D → Reply D
  submit_admin_passthru_1k_rsp fd cmd w =
      finish cmd
        (sw.device_manage sw.pdfid (request sw.manage_data_size cmd w) (16 + sw.manage_rsp_size) w)

  -- The 4k call up to the return of the library: the response is cleared, the request is built, and the
  -- library is told that it may write `16 + data_len` bytes to the response.
  unfoldable pub admin_call : PassthruCmd → World D → Answer D
  admin_call cmd w =
      let v = clear_response sw.rsp_at w in
      sw.admin_passthru sw.pdfid (data_len sw.admin_data_size cmd + 64)
        (request sw.admin_data_size cmd v) (16 + cmd.data_len) sw.rsp_at v

  unfoldable pub submit_admin_passthru_4k_rsp : ℕ → PassthruCmd → World D → Reply D
  submit_admin_passthru_4k_rsp fd cmd w = finish cmd (response_at sw.rsp_at (admin_call cmd w))

  -- `errno == INVALID_MRPC_CMD`
  abbrev pub has_errno : ℕ → ℤ → Bool
  has_errno n (pos m) = m == n
  has_errno n (negsuc m) = false

  unfoldable pub submit_admin_passthru : ℕ → PassthruCmd → World D → Reply D
  submit_admin_passthru fd cmd w =
      let r = submit_admin_passthru_4k_rsp fd cmd w in
      if not (is_zero r.err) && has_errno sw.invalid_mrpc_cmd r.world.errno
      then submit_admin_passthru_1k_rsp fd r.cmd r.world
      else r

  -- The operations that are "not implemented".
  abbrev not_implemented : World D → Outcome D
  not_implemented w = record { err = negsuc 0; world = w }

  unfoldable pub io : ℕ → UserIo → World D → Outcome D
  io fd request w = not_implemented w

  unfoldable pub subsystem_reset : ℕ → World D → Outcome D
  subsystem_reset fd w = not_implemented w

  unfoldable pub reset_controller : ℕ → World D → Outcome D
  reset_controller fd w = not_implemented w

  unfoldable pub ns_rescan : ℕ → World D → Outcome D
  ns_rescan fd w = not_implemented w

  unfoldable pub submit_passthru : (fd ioctl_cmd : ℕ) → PassthruCmd → World D → Reply D
  submit_passthru fd ioctl_cmd cmd w =
      if not (ioctl_cmd == ioctl_admin_cmd)
      then record { err = negsuc 0; cmd = cmd; world = w }
      else submit_admin_passthru fd cmd w

  unfoldable pub submit_io_passthru : ℕ → PassthruCmd → World D → Reply D
  submit_io_passthru fd cmd w = record { err = negsuc 0; cmd = cmd; world = w }

  unfoldable pub is_blk : World D → Bool
  is_blk w = false

  -- `ENOTBLK` is 15; the source stores its negation.
  unfoldable pub get_nsid : ℕ → World D → Outcome D
  get_nsid fd w = record { err = negsuc 0; world = record w { errno = neg 15 } }

  abbrev pub pax_ops : DeviceOps D
  pax_ops = record {
    submit_admin_passthru = submit_admin_passthru;
    get_nsid = get_nsid;
    io = io;
    subsystem_reset = subsystem_reset;
    reset_controller = reset_controller;
    ns_rescan = ns_rescan;
    submit_passthru = submit_passthru;
    submit_io_passthru = submit_io_passthru;
    is_blk = is_blk;
  }
