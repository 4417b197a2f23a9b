-- ===== src/Ioctl/Payload/Laws.antt =====
-- What the device finds in memory behind the commands with a payload.
use switchtec_nvme_cli.Base.{
  ℕ, ◌+◌, ◌*◌, ◌%◌, ◌^◌, ◌≤◌, ◌<◌, ◌≡◌, refl, ◌∙◌, sym, ap, inl, ◌⊎◌, Bool, true, false, ◌++◌,
  length, map, upto, map-upto, length-append, length-replicate, not, some, arith, bit_and, bit_or,
  flag, shl, replicate,
}
use switchtec_nvme_cli.Base.Memory.{
  Mem, le_bytes, length-le_bytes, load_le, load_le-ext, store_bytes, load_le-store_bytes,
  store_bytes-outside,
}
use switchtec_nvme_cli.Base.Memory.Arrays.{
  store_bytes-append, store_each, store_each-outside, load_le-store_each, load_le-first,
  load_le-behind,
}
use switchtec_nvme_cli.Base.Bits.{and_mask, or_shifted, bit_or-zero}
use switchtec_nvme_cli.Device.{World, PassthruCmd, DeviceOps, status_of}
use switchtec_nvme_cli.Ioctl.Payload.{
  with_bytes, ns_attachment, ns_attachment_cmd, resv_acquire, resv_register, keys, dsm_range,
  setup_dsm_range, controller_list_mem, resv_acquire_cmd, resv_register_cmd,
}

-- A value that is stored last.
load_le-last :
    (at m n v w : ℕ) (r : Mem)
    → w < 256 ^ n
    → load_le n (at + m) (store_bytes at (le_bytes m v ++ le_bytes n w) r) ≡ w
load_le-last at m n v w r h =
    rw (store_bytes-append, length-le_bytes)
      (load_le-store_bytes n (at + m) w (store_bytes at (le_bytes m v) r) h)

length-keys : (crkey nrkey : ℕ) → length (keys crkey nrkey) ≡ 16
length-keys crkey nrkey = omega (
  arith,
  length-append (le_bytes 8 crkey) (le_bytes 8 nrkey),
  length-le_bytes 8 crkey,
  length-le_bytes 8 nrkey,
)

-- The low bits of dword 10 of the reservation commands: the action and "ignore existing key".
low_dword :
    (action : ℕ) (iekey : Bool)
    → bit_or (bit_and action 0x7) (flag iekey (shl 1 3)) ≡ action % 2 ^ 3 + flag iekey 1 * 2 ^ 3
low_dword action true = rw (and_mask 3 action) (or_shifted 3 1 (action % 2 ^ 3) (omega arith))
low_dword action false = rw (and_mask 3 action, bit_or-zero) (omega arith)

flag-le : (b : Bool) → flag b 1 ≤ 1
flag-le true = omega arith
flag-le false = omega arith

-- A reservation is acquired on any device by one I/O command, with both keys behind its address in
-- the order current, new. Dword 10 has the action (3 bits), the "ignore existing key" bit and the
-- type, and a byte outside the 16 of the payload is as it was. The type has 8 bits and the keys
-- have 64.
pub resv_acquire_lem :
    {D : Type 0} (ops : DeviceOps D) (fd at nsid rtype racqa : ℕ) (iekey : Bool) (crkey nrkey : ℕ)
    (w : World D) (i : ℕ)
    → rtype < 2 ^ 8
    → crkey < 2 ^ 64
    → nrkey < 2 ^ 64
    → (i < at) ⊎ (at + 16 ≤ i)
    → (c : PassthruCmd) × (v : World D) × (resv_acquire ops fd at nsid rtype racqa iekey crkey nrkey
          w
        ≡ status_of (ops.submit_io_passthru fd c v))
      × (c.cdw10 ≡ racqa % 2 ^ 3 + flag iekey 1 * 2 ^ 3 + rtype * 2 ^ 8)
      × (c.data_len ≡ 16)
      × (load_le 8 c.addr v.mem ≡ crkey)
      × (load_le 8 (c.addr + 8) v.mem ≡ nrkey)
      × (v.mem i ≡ w.mem i)
unfolding resv_acquire resv_acquire_cmd
resv_acquire_lem ops fd at nsid rtype racqa iekey crkey nrkey w i t c n out =
    let low = low_dword racqa iekey in
    let bit = flag-le iekey in
    (
      resv_acquire_cmd at nsid rtype racqa iekey,
      with_bytes at (keys crkey nrkey) w,
      refl,
      omega (
        arith,
        or_shifted 8 rtype (bit_or (bit_and racqa 0x7) (flag iekey (shl 1 3))) (omega arith),
      ),
      refl,
      load_le-first at 8 crkey (le_bytes 8 nrkey) w.mem c,
      load_le-last at 8 8 crkey nrkey w.mem n,
      store_bytes-outside at (keys crkey nrkey) w.mem i (omega (arith, length-keys crkey nrkey)),
    )

-- A registration reaches any device by one I/O command, with both keys behind its address in the
-- order current, new. Dword 10 has the action (3 bits), the "ignore existing key" bit, and the
-- change of the persist state in bits 30 and 31; a byte outside the 16 of the payload is as it
-- was. The change has 2 bits and the keys have 64.
pub resv_register_lem :
    {D : Type 0} (ops : DeviceOps D) (fd at nsid rrega cptpl : ℕ) (iekey : Bool) (crkey nrkey : ℕ)
    (w : World D) (i : ℕ)
    → cptpl < 2 ^ 2
    → crkey < 2 ^ 64
    → nrkey < 2 ^ 64
    → (i < at) ⊎ (at + 16 ≤ i)
    → (c : PassthruCmd) × (v : World D) × (resv_register ops fd at nsid rrega cptpl iekey crkey
          nrkey w
        ≡ status_of (ops.submit_io_passthru fd c v))
      × (c.cdw10 ≡ rrega % 2 ^ 3 + flag iekey 1 * 2 ^ 3 + cptpl * 2 ^ 30)
      × (c.data_len ≡ 16)
      × (load_le 8 c.addr v.mem ≡ crkey)
      × (load_le 8 (c.addr + 8) v.mem ≡ nrkey)
      × (v.mem i ≡ w.mem i)
unfolding resv_register resv_register_cmd
resv_register_lem ops fd at nsid rrega cptpl iekey crkey nrkey w i t c n out =
    let low = low_dword rrega iekey in
    let bit = flag-le iekey in
    (
      resv_register_cmd at nsid rrega cptpl iekey,
      with_bytes at (keys crkey nrkey) w,
      refl,
      omega (
        arith,
        or_shifted 30 cptpl (bit_or (bit_and rrega 0x7) (flag iekey (shl 1 3))) (omega arith),
      ),
      refl,
      load_le-first at 8 crkey (le_bytes 8 nrkey) w.mem c,
      load_le-last at 8 8 crkey nrkey w.mem n,
      store_bytes-outside at (keys crkey nrkey) w.mem i (omega (arith, length-keys crkey nrkey)),
    )

length-dsm_range : (a l s : ℕ) → length (le_bytes 4 a ++ (le_bytes 4 l ++ le_bytes 8 s)) ≡ 16
length-dsm_range a l s = omega (
  arith,
  length-append (le_bytes 4 a) (le_bytes 4 l ++ le_bytes 8 s),
  length-append (le_bytes 4 l) (le_bytes 8 s),
  length-le_bytes 4 a,
  length-le_bytes 4 l,
  length-le_bytes 8 s,
)

-- The three fields of a range, by their offsets in the structure.
dsm_range-fields :
    (at a l s : ℕ) (r : Mem)
    → a < 2 ^ 32
    → l < 2 ^ 32
    → s < 2 ^ 64
    → let m = store_bytes at (le_bytes 4 a ++ (le_bytes 4 l ++ le_bytes 8 s)) r in
      (load_le 4 at m ≡ a) × (load_le 4 (at + 4) m ≡ l) × (load_le 8 (at + 8) m ≡ s)
dsm_range-fields at a l s r p q t = (
  load_le-first at 4 a (le_bytes 4 l ++ le_bytes 8 s) r p,
  rw (store_bytes-append, length-le_bytes)
      (load_le-first (at + 4) 4 l (le_bytes 8 s) (store_bytes at (le_bytes 4 a) r) q),
  load_le-behind at 4 8 a 4 (le_bytes 4 l ++ le_bytes 8 s) r
      ∙ load_le-last (at + 4) 4 8 l s (store_bytes at (le_bytes 4 a) r) t,
)

-- Each of the `nr_ranges` records that `nvme_setup_dsm_range` builds in the block it allocated
-- holds the attributes, the length and the start of its index, 16 bytes apart, where these fit
-- their 32, 32 and 64 bits.
pub setup_dsm_range_lem :
    {D : Type 0} (dsm : ℕ) (ctx_attrs llbas slbas : ℕ → ℕ) (nr_ranges : ℕ) (w : World D) (j : ℕ)
    → j < nr_ranges
    → ctx_attrs j < 2 ^ 32
    → llbas j < 2 ^ 32
    → slbas j < 2 ^ 64
    → (v : World D) × (setup_dsm_range (some dsm) ctx_attrs llbas slbas nr_ranges w ≡ some (dsm, v))
      × (load_le 4 (dsm + 16 * j) v.mem ≡ ctx_attrs j)
      × (load_le 4 (dsm + 16 * j + 4) v.mem ≡ llbas j)
      × (load_le 8 (dsm + 16 * j + 8) v.mem ≡ slbas j)
unfolding setup_dsm_range
setup_dsm_range_lem dsm ctx_attrs llbas slbas nr_ranges w j h a l s =
    let fields = dsm_range ctx_attrs llbas slbas in
    let sized : (k : ℕ) → length (fields k) ≡ 16 =
      λ k. length-dsm_range (ctx_attrs k) (llbas k) (slbas k) in
    let at = dsm + 16 * j in
    let found = λ (n o : ℕ) (fits : o + n ≤ 16).
      load_le-store_each dsm 16 fields sized nr_ranges 0 w.mem j n o (omega arith) (omega arith)
        fits in
    let here = dsm_range-fields at (ctx_attrs j) (llbas j) (slbas j) w.mem a l s in
    (
      record w { mem = store_each nr_ranges 0 dsm 16 fields w.mem },
      refl,
      start 4 (store_each nr_ranges 0 dsm 16 fields w.mem)
          ∙ found 4 0 (omega arith)
          ∙ sym (start 4 (store_bytes at (fields j) w.mem))
          ∙ here.0,
      found 4 4 (omega arith) ∙ here.1,
      found 8 8 (omega arith) ∙ here.2,
    )
  where
    start : (n : ℕ) (m : Mem) → load_le n (dsm + 16 * j) m ≡ load_le n (dsm + 16 * j + 0) m
    start n m = ap (λ (a : ℕ). load_le n a m) (omega arith)

-- A list of at most 2047 controllers, with identifiers of 16 bits, fits the structure of 4096
-- bytes: the device finds the number of controllers and behind it every identifier in order, and
-- other memory is as it was. The command asks to attach or to detach as it was told.
pub ns_attachment_lem :
    {D : Type 0} (ops : DeviceOps D) (fd at nsid num_ctrls : ℕ) (ctrlist : ℕ → ℕ) (attach : Bool)
    (w : World D) (i : ℕ)
    → num_ctrls ≤ 2047
    → ((j : ℕ) → ctrlist j < 2 ^ 16)
    → (i < at) ⊎ (at + 4096 ≤ i)
    → (c : PassthruCmd) × (v : World D) × (ns_attachment ops fd at nsid num_ctrls ctrlist attach w
        ≡ status_of (ops.submit_admin_passthru fd c v))
      × (c.cdw10 ≡ flag (not attach) 1)
      × (load_le 2 c.addr v.mem ≡ num_ctrls)
      × (map (λ j. load_le 2 (c.addr + 2 + 2 * j) v.mem) (upto 0 num_ctrls)
          ≡ map ctrlist (upto 0 num_ctrls))
      × (v.mem i ≡ w.mem i)
unfolding ns_attachment ns_attachment_cmd
ns_attachment_lem ops fd at nsid num_ctrls ctrlist attach w i n c out =
    let ids = λ (k : ℕ). le_bytes 2 (ctrlist k) in
    let sized : (k : ℕ) → length (ids k) ≡ 2 = λ k. length-le_bytes 2 (ctrlist k) in
    let zeros = store_bytes at (replicate 4096 0) w.mem in
    let counted = store_bytes at (le_bytes 2 num_ctrls) zeros in
    let kept = store_each-outside (at + 2) 2 ids sized num_ctrls 0 counted in
    (
      ns_attachment_cmd at nsid attach,
      record w { mem = controller_list_mem at num_ctrls ctrlist w.mem },
      refl,
      ground arith,
      load_le-ext 2 at _ counted (λ k p q. kept k (inl (omega arith)))
          ∙ load_le-store_bytes 2 at num_ctrls zeros (omega arith),
      map-upto _ ctrlist 0 num_ctrls (λ j low h.
          start j _
          ∙ load_le-store_each (at + 2) 2 ids sized num_ctrls 0 counted j 2 0 (omega arith)
              (omega arith) (omega arith)
          ∙ sym (start j _)
          ∙ load_le-store_bytes 2 (at + 2 + 2 * j) (ctrlist j) counted (c j)),
      kept i (omega arith)
          ∙ store_bytes-outside at (le_bytes 2 num_ctrls) zeros i
              (omega (arith, length-le_bytes 2 num_ctrls))
          ∙ store_bytes-outside at (replicate 4096 0) w.mem i
              (omega (arith, length-replicate {A = ℕ} 4096 0)),
    )
  where
    start : (j : ℕ) (m : Mem) → load_le 2 (at + 2 + 2 * j) m ≡ load_le 2 (at + 2 + 2 * j + 0) m
    start j m = ap (λ (a : ℕ). load_le 2 a m) (omega arith)
