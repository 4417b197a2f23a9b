-- ===== src/Examples/Payloads.antt =====
-- What the recording device finds in memory.
use switchtec_nvme_cli.Base.{◌+◌, ◌*◌, ◌%◌, ◌≡◌, true, not, some, flag, inr, map, upto, arith}
use switchtec_nvme_cli.Base.Memory.{load_le}
use switchtec_nvme_cli.Device.{World, PassthruCmd, status_of}
use switchtec_nvme_cli.Ioctl.Payload.{setup_dsm_range, ns_attachment}
use switchtec_nvme_cli.Ioctl.Payload.Laws.{setup_dsm_range_lem, ns_attachment_lem}
use switchtec_nvme_cli.Examples.Fixtures.{start, recorder}
use mathlib.Core.List.{List}

setup_dsm_range_lem_example :
    (v : World (List PassthruCmd)) × (setup_dsm_range
        (some 0x1000)
        (λ i. 4)
        (λ i. 8)
        (λ i. 100 * i)
        3
        start
      ≡ some (0x1000, v))
    × (load_le 4 (0x1000 + 16 * 2) v.mem ≡ 4)
    × (load_le 4 (0x1000 + 16 * 2 + 4) v.mem ≡ 8)
    × (load_le 8 (0x1000 + 16 * 2 + 8) v.mem ≡ 100 * 2)
setup_dsm_range_lem_example =
    setup_dsm_range_lem 0x1000 (λ i. 4) (λ i. 8) (λ i. 100 * i) 3 start 2 (omega arith)
      (omega arith) (omega arith) (omega arith)

ns_attachment_lem_example :
    (c : PassthruCmd) × (v : World (List PassthruCmd)) × (ns_attachment recorder 3 0x1000 1 2
        (λ i. i % 4)
        true
        start
      ≡ status_of (recorder.submit_admin_passthru 3 c v))
    × (c.cdw10 ≡ flag (not true) 1)
    × (load_le 2 c.addr v.mem ≡ 2)
    × (map (λ j. load_le 2 (c.addr + 2 + 2 * j) v.mem) (upto 0 2) ≡ map (λ i. i % 4) (upto 0 2))
    × (v.mem 0x2000 ≡ start.mem 0x2000)
ns_attachment_lem_example =
    ns_attachment_lem recorder 3 0x1000 1 2 (λ i. i % 4) true start 0x2000 (omega arith)
      (λ j. omega arith) (inr (omega arith))
