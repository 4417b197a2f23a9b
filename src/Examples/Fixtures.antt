-- ===== src/Examples/Fixtures.antt =====
-- The device that the examples run on, which records the commands it gets, and what stands for `fstat`.
use switchtec_nvme_cli.Base.{ℕ, pos, negsuc, false, List, [], ◌∷◌, ◌==◌, if◌then◌else◌}
use switchtec_nvme_cli.Device.{World, PassthruCmd, Outcome, Reply, DeviceOps}
use switchtec_nvme_cli.Ioctl.{Stat}

abbrev pub start : World (List PassthruCmd)
start = record { mem = λ i. 7; errno = pos 0; dev = [] }

abbrev pub record_cmd : PassthruCmd → World (List PassthruCmd) → Reply (List PassthruCmd)
record_cmd cmd w = record { err = pos 0; cmd = cmd; world = record w { dev = cmd ∷ w.dev } }

abbrev succeed : World (List PassthruCmd) → Outcome (List PassthruCmd)
succeed w = record { err = pos 0; world = w }

abbrev pub recorder : DeviceOps (List PassthruCmd)
recorder = record {
  submit_admin_passthru = λ fd. record_cmd;
  get_nsid = λ fd. succeed;
  io = λ fd request. succeed;
  subsystem_reset = λ fd. succeed;
  reset_controller = λ fd. succeed;
  ns_rescan = λ fd. succeed;
  submit_passthru = λ fd request. record_cmd;
  submit_io_passthru = λ fd. record_cmd;
  is_blk = λ w. false;
}

-- Handle 3 is a character device, 4 a block device, and any other is closed (EBADF).
abbrev pub fstat : ℕ → World (List PassthruCmd) → Stat (List PassthruCmd)
fstat fd w =
    if fd == 3
    then record { err = pos 0; mode = 0x2180; world = w }
    else if fd == 4
    then record { err = pos 0; mode = 0x6180; world = w }
    else record { err = negsuc 0; mode = 0; world = record w { errno = pos 9 } }
