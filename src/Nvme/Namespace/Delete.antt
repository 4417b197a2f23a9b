-- ===== src/Nvme/Namespace/Delete.antt =====
-- The namespace that `delete_ns` deletes when it has to ask the device for it.
use switchtec_nvme_cli.Base.{ℕ, ◌-◌, ◌%◌, ◌^◌, ◌<◌, ◌≡◌, refl, false, negsuc, arith, ◌==◌}
use switchtec_nvme_cli.Device.{World, DeviceOps}
use switchtec_nvme_cli.Ioctl.{Stat, get_nsid}
use switchtec_nvme_cli.Ioctl.Manage.{ns_delete}
use switchtec_nvme_cli.Nvme.Namespace.{delete_ns}

-- When no namespace is given and the device does not say its own, but `nvme_get_nsid` returns an error below 0, that
-- error is not seen: the namespace with the error's 32 bits is deleted. For -1, which the kernel's driver
-- returns for every error, it is 0xffffffff, which stands for all namespaces.
pub delete_ns_error :
    {D : Type 0} (fstat : ℕ → World D → Stat D) (ops : DeviceOps D) (fd timeout k : ℕ)
    (w got : World D)
    → k < 2 ^ 32 - 1
    → get_nsid fstat ops fd w ≡ record { err = negsuc k; world = got }
    → delete_ns fstat ops fd 0 timeout w ≡ ns_delete ops fd (2 ^ 32 - 1 - k) timeout got
unfolding delete_ns
delete_ns_error fstat ops fd timeout k w got small failed =
    let same : k % 2 ^ 32 ≡ k = omega arith in
    let more : (2 ^ 32 - 1 - k == 0) ≡ false = ground arith in
    rw (delete_ns, failed, same, more) refl
