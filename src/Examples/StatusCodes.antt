-- ===== src/Examples/StatusCodes.antt =====
-- The errno of a few statuses.
use switchtec_nvme_cli.Base.{◌≡◌, ◌↔◌, refl, pos, negsuc, false}
use switchtec_nvme_cli.Status.{status_to_errno, masked_status_to_errno}
use switchtec_nvme_cli.Status.Errno
use switchtec_nvme_cli.Status.Laws.{status_to_errno-eq-zero_iff}

-- Invalid field with "do not retry", and a failed ioctl.
invalid_field : status_to_errno (pos 0x4002) false ≡ Errno.einval
unfolding status_to_errno masked_status_to_errno
invalid_field = refl

failed_call : status_to_errno (negsuc 0) false ≡ Errno.ecomm
unfolding status_to_errno
failed_call = refl

status_to_errno-eq-zero_iff_example :
    (status_to_errno (pos 0x4002) false ≡ 0) ↔ (pos 0x4002 ≡ pos 0)
status_to_errno-eq-zero_iff_example = status_to_errno-eq-zero_iff (pos 0x4002) false
