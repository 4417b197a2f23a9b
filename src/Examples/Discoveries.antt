-- ===== src/Examples/Discoveries.antt =====
-- Fetching a discovery log, from a device that records the commands and from one that fails.
use switchtec_nvme_cli.Base.{◌≡◌, refl, pos, List, none, some, to_unsigned}
use switchtec_nvme_cli.Device.{PassthruCmd, DeviceOps}
use switchtec_nvme_cli.Text.Search.{codes}
use switchtec_nvme_cli.Ioctl.Log.{discovery_log, get_log, get_log13, get_log14, log_loop}
use switchtec_nvme_cli.Fabrics.Discovery.{
  Calls, Fetched, get_log_page_discovery, disc_ok, disc_get_numrecs,
}
use switchtec_nvme_cli.Fabrics.Discovery.Laws.{
  IsSnapshot, get_log_page_discovery-IsSnapshot, get_log_page_discovery_status,
}
use switchtec_nvme_cli.Examples.Fixtures.{start, recorder}

-- The device is open at 3, and blocks are at 4096.
abbrev calls : Calls (List PassthruCmd)
calls = record { open_path = λ path w. (pos 3, w); calloc = λ size w. (some 4096, w) }

-- A device that answers every admin command with "Invalid Field in Command".
abbrev failing : DeviceOps (List PassthruCmd)
failing = record recorder {
  submit_admin_passthru = λ fd cmd w. record { err = pos 2; cmd = cmd; world = w };
}

get_log_page_discovery-IsSnapshot_example :
    (f : Fetched (List PassthruCmd)) × (get_log_page_discovery calls recorder
        (codes "/dev/nvme-fabrics")
        (pos 0)
        start
      ≡ some f)
    × (f.error ≡ pos disc_ok → IsSnapshot recorder (to_unsigned 32 (pos 3)) f)
get_log_page_discovery-IsSnapshot_example =
    get_log_page_discovery-IsSnapshot calls recorder (codes "/dev/nvme-fabrics") (pos 0) start
      (λ path w e. cc)

get_log_page_discovery_status_example :
    get_log_page_discovery calls failing (codes "/dev/nvme-fabrics") (pos 0) start
    ≡ some (record {
      error = pos disc_get_numrecs;
      logp = none;
      numrec = pos 0;
      status = pos 22;
      world = start;
    })
unfolding discovery_log get_log get_log13 log_loop get_log14
get_log_page_discovery_status_example =
    get_log_page_discovery_status calls failing (codes "/dev/nvme-fabrics") (pos 0) start 3 4096
      start start (record { err = pos 2; world = start }) refl refl refl refl
