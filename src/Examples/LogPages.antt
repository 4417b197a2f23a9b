-- ===== src/Examples/LogPages.antt =====
-- Log pages and registers read from the recording device.
use switchtec_nvme_cli.Base.{◌≡◌, pos, false, some, List, map, arith, replicate}
use switchtec_nvme_cli.Base.Memory.{store_bytes}
use switchtec_nvme_cli.Ioctl.Log.{get_log}
use switchtec_nvme_cli.Ioctl.Log.Pieces.{Piece, piece_cmd, submit_all, Follow, get_log-Follow}
use switchtec_nvme_cli.Ioctl.Feature.{get_properties}
use switchtec_nvme_cli.Ioctl.Feature.Registers.{
  read_registers, register_offsets, get_properties-eq-read_registers,
}
use switchtec_nvme_cli.Examples.Fixtures.{start, recorder}

get_log-Follow_example :
    (ps : List Piece) × (get_log recorder 3 1 2 false 5000 0x1000 start
      ≡ some (submit_all recorder 3 (map (piece_cmd 1 2 false 0x1000) ps) start))
    × Follow 0 ps 5000
get_log-Follow_example =
    get_log-Follow recorder 3 1 2 false 0x1000 5000 start (omega arith) (omega arith)

get_properties-eq-read_registers_example :
    get_properties recorder 3 (some 0x1000) 4096 start
    ≡ some (
        read_registers recorder 3 0x1000 register_offsets 0
          (pos 0)
          (record start { mem = store_bytes 0x1000 (replicate 4096 0xff) start.mem }))
get_properties-eq-read_registers_example =
    get_properties-eq-read_registers recorder 3 0x1000 4096 start
