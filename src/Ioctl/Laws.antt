-- ===== src/Ioctl/Laws.antt =====
-- The guards of nvme-ioctl.c, and what reaches a device through each of the two tables.
use switchtec_nvme_cli.Base.{
  ℕ, ◌≡◌, ◌≢◌, ◌∙◌, ◌+◌, ◌/◌, ◌%◌, ◌^◌, ◌<◌, ◌≤◌, ◌⊎◌, length, refl, true, pos, negsuc, is_negative,
  arith, if◌then◌else◌,
}
use switchtec_nvme_cli.Base.Memory.{
  Mem, le_bytes, length-le_bytes, load_le, store_bytes, store_bytes-head, store_bytes-outside,
  load_le-store_bytes,
}
use switchtec_nvme_cli.Device.{World, UserIo, Outcome, DeviceOps}
use switchtec_nvme_cli.Device.Pax
use switchtec_nvme_cli.Device.Pax.{Switchtec, pax_ops}
use switchtec_nvme_cli.Device.Rc
use switchtec_nvme_cli.Device.Rc.{Kernel, pointer_variable, ioctl_submit_io, io_bytes, rc_ops}
use switchtec_nvme_cli.Ioctl.{
  Stat, is_chr, enotblk, verify_chr, subsystem_reset, reset_controller, ns_rescan,
}
use switchtec_nvme_cli.Ioctl.Io.{
  user_io, read, write, compare, verify, write_zeros, write_uncorrectable, flush, dsm, io,
}

module _ {D : Type 0} (fstat : ℕ → World D → Stat D) where
  -- `fstat` sets `errno` when it fails.
  abbrev pub SetsErrno : Type 0
  SetsErrno =
      (fd : ℕ) (w : World D)
      → is_negative (fstat fd w).err ≡ true
      → (fstat fd w).world.errno ≢ pos 0

  -- What the two resets and the rescan do on a handle, where `go` is the operation of the table.
  abbrev pub guarded : (ℕ → World D → Outcome D) → ℕ → World D → Outcome D
  guarded go fd w =
      let s = fstat fd w in
      if is_negative s.err
      then record { err = s.world.errno; world = s.world }
      else if is_chr s.mode
      then go fd s.world
      else record { err = pos enotblk; world = s.world }

  -- The resets and the rescan reach the device only through a character device; on any other
  -- handle they return ENOTBLK, and where `fstat` fails its `errno`, and the device is not asked.
  -- `fstat` is assumed to set `errno` when it fails.
  pub resets-guarded :
      SetsErrno
      → (ops : DeviceOps D) (fd : ℕ) (w : World D)
      → (subsystem_reset fstat ops fd w ≡ guarded ops.subsystem_reset fd w)
        × (reset_controller fstat ops fd w ≡ guarded ops.reset_controller fd w)
        × (ns_rescan fstat ops fd w ≡ guarded ops.ns_rescan fd w)
  unfolding subsystem_reset reset_controller ns_rescan verify_chr
  resets-guarded sets ops fd w =
      (ground (arith, sets fd w), ground (arith, sets fd w), ground (arith, sets fd w))

-- Through a PAX switch every block command is refused: the transfers through `nvme_io` and the
-- commands of the I/O queue return -1 and change nothing.
pub pax-refuses_io :
    {D : Type 0} (sw : Switchtec D) (fd a b c d e f g h i : ℕ) (w : World D)
    → let refused : Outcome D = record { err = negsuc 0; world = w } in
      (read (pax_ops sw) fd a b c d e f g h i w ≡ refused)
      × (write (pax_ops sw) fd a b c d e f g h i w ≡ refused)
      × (compare (pax_ops sw) fd a b c d e f g h i w ≡ refused)
      × (verify (pax_ops sw) fd a b c d e f g w ≡ refused)
      × (write_zeros (pax_ops sw) fd a b c d e f g w ≡ refused)
      × (write_uncorrectable (pax_ops sw) fd a b c w ≡ refused)
      × (flush (pax_ops sw) fd a w ≡ refused)
      × (dsm (pax_ops sw) fd a b c d w ≡ refused)
unfolding read write compare verify write_zeros write_uncorrectable flush dsm io Pax.io
    Pax.submit_io_passthru
pax-refuses_io sw fd a b c d e f g h i w = (refl, refl, refl, refl, refl, refl, refl, refl)

length-io_bytes : (request : UserIo) → length (io_bytes request) ≡ 44
unfolding io_bytes le_bytes
length-io_bytes request = refl

-- What the kernel is given for a transfer: the address of the parameter of `rc_nvme_io`. The 8 bytes that it finds
-- there are the address of the request, the first of them in the place of the opcode; the request itself stands
-- elsewhere, and what is behind the 8 bytes is what stood there before.
abbrev pub HandsPointer : {D : Type 0} → Kernel D → (fd opcode : ℕ) → World D → Outcome D → Type 0
HandsPointer k fd opcode w outcome =
    (m : Mem) × (outcome
      ≡ k.ioctl fd ioctl_submit_io (pointer_variable k.variable_at) (record w { mem = m }))
    × (load_le 8 k.variable_at m ≡ k.request_at)
    × (m k.variable_at ≡ k.request_at % 256)
    × (m k.request_at ≡ opcode)
    × ((i : ℕ)
        → (i < k.variable_at) ⊎ (k.variable_at + 8 ≤ i)
        → (i < k.request_at) ⊎ (k.request_at + 44 ≤ i)
        → m i ≡ w.mem i)

store_bytes-le_bytes : (at v : ℕ) (m : Mem) → store_bytes at (le_bytes 8 v) m at ≡ v % 256
unfolding le_bytes
store_bytes-le_bytes at v m = store_bytes-head at (v % 256) (le_bytes 7 (v / 256)) m

io_bytes_first :
    (at : ℕ) (r : UserIo) (m : Mem) → r.opcode < 256 → store_bytes at (io_bytes r) m at ≡ r.opcode
unfolding io_bytes le_bytes
io_bytes_first at r m low = store_bytes-head at (r.opcode % 256) _ m ∙ omega arith

io-HandsPointer :
    {D : Type 0} (k : Kernel D) (fd : ℕ) (w : World D) (request : UserIo)
    → k.request_at < 2 ^ 64
    → (k.variable_at + 8 ≤ k.request_at) ⊎ (k.request_at + 48 ≤ k.variable_at)
    → request.opcode < 256
    → HandsPointer k fd request.opcode w (Rc.io k fd request w)
unfolding Rc.io
io-HandsPointer k fd w request fits apart small =
    let built = store_bytes k.request_at (io_bytes request) w.mem in
    let given = le_bytes 8 k.request_at in
    (
      store_bytes k.variable_at given built,
      refl,
      load_le-store_bytes 8 k.variable_at k.request_at built (omega arith),
      store_bytes-le_bytes k.variable_at k.request_at built,
      store_bytes-outside k.variable_at given built k.request_at
            (omega (arith, length-le_bytes 8 k.request_at))
          ∙ io_bytes_first k.request_at request w.mem small,
      λ i a b.
          store_bytes-outside k.variable_at given built i
            (omega (arith, length-le_bytes 8 k.request_at))
          ∙ store_bytes-outside k.request_at (io_bytes request) w.mem i
              (omega (arith, length-io_bytes request)),
    )

-- Through the kernel's driver a read, a write and a compare hand over the wrong pointer: `ioctl` is given the address
-- of the parameter of `rc_nvme_io`, so what the kernel takes for the request begins with the 8 bytes of the
-- request's address, the lowest in the place of the opcode, and goes on with what stood behind that parameter. The
-- request, with its opcode 2, 1 or 5, stands apart from it in memory, at an address of 64 bits.
pub transfers-HandsPointer :
    {D : Type 0} (k : Kernel D) (fd : ℕ) (w : World D) (a b c d e f g h i : ℕ)
    → k.request_at < 2 ^ 64
    → (k.variable_at + 8 ≤ k.request_at) ⊎ (k.request_at + 48 ≤ k.variable_at)
    → HandsPointer k fd 2 w (read (rc_ops k) fd a b c d e f g h i w)
      × HandsPointer k fd 1 w (write (rc_ops k) fd a b c d e f g h i w)
      × HandsPointer k fd 5 w (compare (rc_ops k) fd a b c d e f g h i w)
unfolding read write compare io user_io
transfers-HandsPointer k fd w a b c d e f g h i fits apart = (
  io-HandsPointer k fd w (user_io 2 a b c d e f g h i) fits apart (omega arith),
  io-HandsPointer k fd w (user_io 1 a b c d e f g h i) fits apart (omega arith),
  io-HandsPointer k fd w (user_io 5 a b c d e f g h i) fits apart (omega arith),
)
