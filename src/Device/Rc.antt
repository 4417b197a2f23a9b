-- ===== src/Device/Rc.antt =====
-- plugins/microchip/rc-nvme-device.c: the table of a device that the kernel's driver serves. The
-- system call is a parameter, and so is the mode of the opened file (`nvme_stat.st_mode`).
use switchtec_nvme_cli.Base.{ℕ, Bool, bit_and, ◌==◌, List, ◌++◌}
use switchtec_nvme_cli.Base.Memory.{le_bytes, store_bytes}
use switchtec_nvme_cli.Device.{World, PassthruCmd, UserIo, Outcome, Reply, DeviceOps}

-- The requests of linux/nvme_ioctl.h.
abbrev pub ioctl_id : ℕ
ioctl_id = 0x4e40

abbrev pub ioctl_admin_cmd : ℕ
ioctl_admin_cmd = 0xc048_4e41

abbrev pub ioctl_submit_io : ℕ
ioctl_submit_io = 0x4030_4e42

abbrev pub ioctl_io_cmd : ℕ
ioctl_io_cmd = 0xc048_4e43

abbrev pub ioctl_reset : ℕ
ioctl_reset = 0x4e44

abbrev pub ioctl_subsys_reset : ℕ
ioctl_subsys_reset = 0x4e45

abbrev pub ioctl_rescan : ℕ
ioctl_rescan = 0x4e46

-- What the third argument of `ioctl` leads to: nothing, a command, or a local variable that holds a
-- pointer. Of a variable the kernel reads the bytes in memory from its address on.
pub data Arg : Type 0 where
  no_arg : Arg
  passthru_cmd : PassthruCmd → Arg
  pointer_variable : ℕ → Arg

-- The kernel's `ioctl`: the return value, the command with what the kernel wrote into it, and the
-- world. `request_at` is where the structure of a transfer stands, which the caller of `rc_nvme_io` built,
-- and `variable_at` where the compiler places that function's parameter, the pointer to it.
pub record Kernel (D : Type 0) : Type 0 where
  pub ioctl : (fd request : ℕ) → Arg → World D → Outcome D
  pub ioctl_cmd : (fd request : ℕ) → PassthruCmd → World D → Reply D
  pub request_at : ℕ
  pub variable_at : ℕ
  pub st_mode : ℕ

-- The members of `struct nvme_user_io`: 44 bytes, behind which 4 of padding are not written.
unfoldable pub io_bytes : UserIo → List ℕ
io_bytes request =
    le_bytes 1 request.opcode
    ++ le_bytes 1 request.flags
    ++ le_bytes 2 request.control
    ++ le_bytes 2 request.nblocks
    ++ le_bytes 2 request.rsvd
    ++ le_bytes 8 request.metadata
    ++ le_bytes 8 request.addr
    ++ le_bytes 8 request.slba
    ++ le_bytes 4 request.dsmgmt
    ++ le_bytes 4 request.reftag
    ++ le_bytes 2 request.apptag
    ++ le_bytes 2 request.appmask

module _ {D : Type 0} (k : Kernel D) where
  unfoldable pub submit_admin_passthru : ℕ → PassthruCmd → World D → Reply D
  submit_admin_passthru fd cmd = k.ioctl_cmd fd ioctl_admin_cmd cmd

  -- `ioctl(fd, NVME_IOCTL_SUBMIT_IO, &io)`, where `io` is itself a pointer to the request: the structure
  -- and the parameter are in memory.
  unfoldable pub io : ℕ → UserIo → World D → Outcome D
  io fd request w =
      let built = store_bytes k.request_at (io_bytes request) w.mem in
      k.ioctl fd ioctl_submit_io (pointer_variable k.variable_at)
        (record w { mem = store_bytes k.variable_at (le_bytes 8 k.request_at) built })

  -- `S_ISBLK`
  unfoldable pub is_blk : World D → Bool
  is_blk w = bit_and k.st_mode 0xf000 == 0x6000

  unfoldable pub get_nsid : ℕ → World D → Outcome D
  get_nsid fd = k.ioctl fd ioctl_id no_arg

  unfoldable pub subsystem_reset : ℕ → World D → Outcome D
  subsystem_reset fd = k.ioctl fd ioctl_subsys_reset no_arg

  unfoldable pub reset_controller : ℕ → World D → Outcome D
  reset_controller fd = k.ioctl fd ioctl_reset no_arg

  unfoldable pub ns_rescan : ℕ → World D → Outcome D
  ns_rescan fd = k.ioctl fd ioctl_rescan no_arg

  unfoldable pub submit_passthru : (fd ioctl_cmd : ℕ) → PassthruCmd → World D → Reply D
  submit_passthru fd ioctl_cmd cmd = k.ioctl_cmd fd ioctl_cmd cmd

  unfoldable pub submit_io_passthru : ℕ → PassthruCmd → World D → Reply D
  submit_io_passthru fd cmd = k.ioctl_cmd fd ioctl_io_cmd cmd

  abbrev pub rc_ops : DeviceOps D
  rc_ops = record {
    submit_admin_passthru = submit_admin_passthru;
    get_nsid = get_nsid;
    io = io;
    subsystem_reset = subsystem_reset;
    reset_controller = reset_controller;
    ns_rescan = ns_rescan;
    submit_passthru = submit_passthru;
    submit_io_passthru = submit_io_passthru;
    is_blk = is_blk;
  }
