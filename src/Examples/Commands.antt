-- ===== src/Examples/Commands.antt =====
-- What reaches the recording device, and the fields of some commands.
use switchtec_nvme_cli.Base.{
  ℕ, ◌+◌, ◌*◌, ◌/◌, ◌%◌, ◌^◌, ◌≡◌, ◌≢◌, refl, pos, true, List, arith, flag, is_negative,
}
use switchtec_nvme_cli.Device.{World, PassthruCmd}
use switchtec_nvme_cli.Ioctl.{verify_chr, subsystem_reset, reset_controller, ns_rescan, enotblk}
use switchtec_nvme_cli.Ioctl.Log.{get_log_cmd}
use switchtec_nvme_cli.Ioctl.Log.Fields.{get_log_cmd-fields}
use switchtec_nvme_cli.Ioctl.Laws.{guarded, resets-guarded}
use switchtec_nvme_cli.Examples.Fixtures.{start, recorder, fstat}

fstat-SetsErrno :
    (fd : ℕ) (w : World (List PassthruCmd))
    → is_negative (fstat fd w).err ≡ true
    → (fstat fd w).world.errno ≢ pos 0
fstat-SetsErrno fd w h = ground arith

-- On a block device.
resets-guarded_example :
    (subsystem_reset fstat recorder 4 start ≡ guarded fstat recorder.subsystem_reset 4 start)
    × (reset_controller fstat recorder 4 start ≡ guarded fstat recorder.reset_controller 4 start)
    × (ns_rescan fstat recorder 4 start ≡ guarded fstat recorder.ns_rescan 4 start)
resets-guarded_example = resets-guarded fstat fstat-SetsErrno recorder 4 start

not_a_controller : (reset_controller fstat recorder 4 start).err ≡ pos enotblk
unfolding reset_controller verify_chr
not_a_controller = refl

get_log_cmd-fields_example :
    let c = get_log_cmd 1 2 1 (2 ^ 33) 6 true 0 (2 ^ 20) 0x1000 in
    (c.cdw10 % 2 ^ 8 ≡ 2)
    × (c.cdw10 / 2 ^ 8 % 2 ^ 7 ≡ 1)
    × (c.cdw10 / 2 ^ 15 % 2 ≡ flag true 1)
    × (c.cdw11 % 2 ^ 16 * 2 ^ 16 + c.cdw10 / 2 ^ 16 + 1 ≡ 2 ^ 20 / 4)
    × (c.cdw11 / 2 ^ 16 ≡ 6)
    × (c.cdw13 * 2 ^ 32 + c.cdw12 ≡ 2 ^ 33)
get_log_cmd-fields_example =
    get_log_cmd-fields 1 2 1 (2 ^ 33) 6 true 0 (2 ^ 20) 0x1000 (omega arith) (omega arith)
      (omega arith) (omega arith) (omega arith) (omega arith)
