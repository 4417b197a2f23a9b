-- ===== src/Nvme/Firmware.antt =====
-- nvme.c: `fw_commit`, and `fw_download`, which sends a file to the device in chunks. Parsing the options, and opening,
-- measuring and reading the file, are a record of calls. The loop runs on fuel, one round for every
-- byte that is left and one to see that none is.
pub mod Chunks
use switchtec_nvme_cli.Base.{
  ℕ, zero, suc, ◌+◌, ◌-◌, min, Bool, true, false, not, ℤ, pos, neg, negate, is_zero, is_negative,
  List, Option, none, some, bit_and, u32, shl, ltb, ◌||◌, ◌==◌, if◌then◌else◌,
}
use switchtec_nvme_cli.Device.{World, Outcome, DeviceOps}
use switchtec_nvme_cli.Ioctl.Manage.{fw_download, fw_commit}
use switchtec_nvme_cli.Status.{status_to_errno}

-- The device's handle, the file's, the outcome of `fstat` with the size, a buffer for the image or
-- `none`, and the number of bytes that were read.
pub record Files (D : Type 0) : Type 0 where
  pub open_device : World D → ℤ × World D
  pub open_image : World D → ℤ × World D
  pub fstat : (fd : ℤ) → World D → ℤ × ℕ
  pub alloc : (size : ℕ) → World D → Option ℕ
  pub read_image : (fd : ℤ) → (addr size : ℕ) → World D → ℤ × World D

abbrev failed : {D : Type 0} → ℕ → World D → Outcome D
failed code w = record { err = neg code; world = w }

module _ {D : Type 0} (ops : DeviceOps D) (fd : ℕ) where
  unfoldable pub download_loop :
      (fuel : ℕ) → (xfer offset addr fw_size : ℕ) → World D → Option (Outcome D)
  download_loop zero xfer offset addr fw_size w = none
  download_loop (suc fuel) xfer offset addr fw_size w =
      let chunk = min xfer fw_size in
      let r = fw_download ops fd offset chunk addr w in
      let rest =
        download_loop fuel chunk (u32 (offset + chunk)) (addr + chunk) (fw_size - chunk) r.world in
      if fw_size == 0
      then some (record { err = pos 0; world = w })
      else if not (is_zero r.err)
      then some r
      else rest

abbrev is_count : ℤ → ℕ → Bool
is_count (pos n) size = n == size
is_count _ size = false

module _ {D : Type 0} (ops : DeviceOps D) (files : Files D) where
  -- Behind the checks of the file: `read` and the loop.
  unfoldable pub send_image :
      (fd : ℕ) (fw_fd : ℤ) (xfer offset fw_size : ℕ) → World D → Option (Outcome D)
  send_image fd fw_fd xfer offset fw_size w = elim (files.alloc fw_size w) [
    | none ↦ some (failed 12 w)
    | some buf ↦
        let (n, v) = files.read_image fw_fd buf fw_size w in
        let sent = download_loop ops fd (fw_size + 1) xfer offset buf fw_size v in
        if not (is_count n fw_size) then some (record { err = negate v.errno; world = v }) else sent
  ]

  -- The error before it becomes an errno.
  unfoldable pub fw_download_error : (xfer offset : ℕ) → World D → Option (Outcome D)
  fw_download_error xfer offset w =
      let (fd, v) = files.open_device w in
      let (fw_fd, u) = files.open_image v in
      let (err, st_size) = files.fstat fw_fd u in
      let fw_size = u32 st_size in
      let sent = send_image (handle fd) fw_fd xfer (u32 (shl offset 2)) fw_size u in
      if is_negative fd
      then some (record { err = fd; world = v })
      else if xfer == 0
      then some (failed 22 v)
      else if is_negative fw_fd
      then some (failed 22 u)
      else if is_negative err
      then some (record { err = err; world = u })
      else if not (bit_and fw_size 0x3 == 0)
      then some (failed 22 u)
      else sent
    where
      handle : ℤ → ℕ
      handle (pos n) = n
      handle _ = 0

  unfoldable pub fw_download_main : (xfer offset : ℕ) → World D → Option ℕ
  fw_download_main xfer offset w = elim (fw_download_error xfer offset w) [
    | none ↦ none
    | some r ↦ some (status_to_errno r.err false)
  ]

module _ {D : Type 0} (ops : DeviceOps D) (fd : ℕ) where
  -- `fw_commit`, from the open device on.
  unfoldable pub fw_commit_error : (slot action bpid : ℕ) → World D → Outcome D
  fw_commit_error slot action bpid w =
      if ltb 7 slot
      then failed 22 w
      else if ltb 7 action || (action == 4 || action == 5)
      then failed 22 w
      else if ltb 1 bpid
      then failed 22 w
      else fw_commit ops fd slot action bpid w
