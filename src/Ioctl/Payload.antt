-- ===== src/Ioctl/Payload.antt =====
-- nvme-ioctl.c: the commands whose data are built in memory first. The address of the local array
-- or structure is a parameter, `at`. Stored values have their little-endian layout, which is also
-- how the host that runs the program stores the members that have no `cpu_to_le`.
pub mod Laws
use switchtec_nvme_cli.Base.{
  ℕ, ◌+◌, ◌*◌, ◌≤◌, ◌<◌, Bool, true, false, List, [], ◌∷◌, ◌++◌, Option, none, some, bit_and,
  bit_or, u32, shl, flag, sub32, replicate, if◌then◌else◌,
}
use switchtec_nvme_cli.Base.Memory.{Mem, le_bytes, store_bytes}
use switchtec_nvme_cli.Base.Memory.Arrays.{store_each}
use switchtec_nvme_cli.Device.{World, PassthruCmd, zero_cmd, Outcome, DeviceOps, status_of}
use switchtec_nvme_cli.Ioctl.{Answer, answer}
use switchtec_nvme_cli.Ioctl.NvmOpcode
use switchtec_nvme_cli.Ioctl.AdminOpcode

abbrev pub with_bytes : {D : Type 0} → ℕ → List ℕ → World D → World D
with_bytes at bytes w = record w { mem = store_bytes at bytes w.mem }

-- The two keys of a reservation.
abbrev pub keys : ℕ → ℕ → List ℕ
keys crkey nrkey = le_bytes 8 crkey ++ le_bytes 8 nrkey

unfoldable pub resv_acquire_cmd : (at nsid rtype racqa : ℕ) → Bool → PassthruCmd
resv_acquire_cmd at nsid rtype racqa iekey = record zero_cmd {
  opcode = NvmOpcode.resv_acquire;
  nsid = nsid;
  cdw10 = u32 (bit_or (bit_or (bit_and racqa 0x7) (flag iekey (shl 1 3))) (shl rtype 8));
  addr = at;
  data_len = 16;
}

unfoldable pub resv_register_cmd : (at nsid rrega cptpl : ℕ) → Bool → PassthruCmd
resv_register_cmd at nsid rrega cptpl iekey = record zero_cmd {
  opcode = NvmOpcode.resv_register;
  nsid = nsid;
  cdw10 = u32 (bit_or (bit_or (bit_and rrega 0x7) (flag iekey (shl 1 3))) (shl cptpl 30));
  addr = at;
  data_len = 16;
}

unfoldable pub resv_release_cmd : (at nsid rtype rrela : ℕ) → Bool → PassthruCmd
resv_release_cmd at nsid rtype rrela iekey = record zero_cmd {
  opcode = NvmOpcode.resv_release;
  nsid = nsid;
  cdw10 = u32 (bit_or (bit_or (bit_and rrela 0x7) (flag iekey (shl 1 3))) (shl rtype 8));
  addr = at;
  data_len = 8;
}

unfoldable pub resv_report_cmd : (nsid numd cdw11 addr : ℕ) → PassthruCmd
resv_report_cmd nsid numd cdw11 addr = record zero_cmd {
  opcode = NvmOpcode.resv_report;
  nsid = nsid;
  cdw10 = numd;
  cdw11 = cdw11;
  addr = addr;
  data_len = u32 (shl (u32 (numd + 1)) 2);
}

-- One `struct nvme_dsm_range`, with the fields of index `i`.
abbrev pub dsm_range : (ctx_attrs llbas slbas : ℕ → ℕ) → ℕ → List ℕ
dsm_range ctx_attrs llbas slbas i =
    le_bytes 4 (ctx_attrs i) ++ (le_bytes 4 (llbas i) ++ le_bytes 8 (slbas i))

-- `malloc` gives `block`; a failure gives `none` and leaves the memory alone.
unfoldable pub setup_dsm_range :
    {D : Type 0} (block : Option ℕ) (ctx_attrs llbas slbas : ℕ → ℕ) (nr_ranges : ℕ)
    → World D
    → Option (ℕ × World D)
setup_dsm_range none ctx_attrs llbas slbas nr_ranges w = none
setup_dsm_range (some dsm) ctx_attrs llbas slbas nr_ranges w =
    some (
      dsm,
      record w { mem = store_each nr_ranges 0 dsm 16 (dsm_range ctx_attrs llbas slbas) w.mem },
    )

-- The `struct nvme_id_ns` of `nvme_ns_create`, 4096 bytes, and the fields that it sets.
abbrev pub id_ns_mem : (at nsze ncap flbas dps nmic anagrpid nvmsetid : ℕ) → Mem → Mem
id_ns_mem at nsze ncap flbas dps nmic anagrpid nvmsetid m =
    store_bytes (at + 100) (le_bytes 2 nvmsetid) (
      store_bytes (at + 92) (le_bytes 4 anagrpid) (
        store_bytes (at + 30) (le_bytes 1 nmic) (
          store_bytes (at + 29) (le_bytes 1 dps) (
            store_bytes (at + 26) (le_bytes 1 flbas) (
              store_bytes (at + 8) (le_bytes 8 ncap)
                (store_bytes at (le_bytes 8 nsze) (store_bytes at (replicate 4096 0) m)))))))

unfoldable pub ns_create_cmd : (at timeout : ℕ) → PassthruCmd
ns_create_cmd at timeout = record zero_cmd {
  opcode = AdminOpcode.ns_mgmt;
  addr = at;
  cdw10 = 0;
  data_len = 0x1000;
  timeout_ms = timeout;
}

-- The `struct nvme_controller_list`: `num`, and the identifiers from byte 2 on.
abbrev pub controller_list_mem : (at num_ctrls : ℕ) → (ℕ → ℕ) → Mem → Mem
controller_list_mem at num_ctrls ctrlist m =
    store_each num_ctrls 0 (at + 2) 2 (λ i. le_bytes 2 (ctrlist i))
      (store_bytes at (le_bytes 2 num_ctrls) (store_bytes at (replicate 4096 0) m))

unfoldable pub ns_attachment_cmd : (at nsid : ℕ) → Bool → PassthruCmd
ns_attachment_cmd at nsid attach = record zero_cmd {
  opcode = AdminOpcode.ns_attach;
  nsid = nsid;
  addr = at;
  cdw10 = if attach then 0 else 1;
  data_len = 0x1000;
}

module _ {D : Type 0} (ops : DeviceOps D) (fd at : ℕ) where
  unfoldable pub resv_acquire :
      (nsid rtype racqa : ℕ) → Bool → (crkey nrkey : ℕ) → World D → Outcome D
  resv_acquire nsid rtype racqa iekey crkey nrkey w = status_of (
      ops.submit_io_passthru fd (resv_acquire_cmd at nsid rtype racqa iekey)
        (with_bytes at (keys crkey nrkey) w))

  unfoldable pub resv_register :
      (nsid rrega cptpl : ℕ) → Bool → (crkey nrkey : ℕ) → World D → Outcome D
  resv_register nsid rrega cptpl iekey crkey nrkey w = status_of (
      ops.submit_io_passthru fd (resv_register_cmd at nsid rrega cptpl iekey)
        (with_bytes at (keys crkey nrkey) w))

  unfoldable pub resv_release : (nsid rtype rrela : ℕ) → Bool → (crkey : ℕ) → World D → Outcome D
  resv_release nsid rtype rrela iekey crkey w = status_of (
      ops.submit_io_passthru fd (resv_release_cmd at nsid rtype rrela iekey)
        (with_bytes at (le_bytes 8 crkey) w))

  unfoldable pub ns_create :
      (nsze ncap flbas dps nmic anagrpid nvmsetid timeout : ℕ) → Option ℕ → World D → Answer D
  ns_create nsze ncap flbas dps nmic anagrpid nvmsetid timeout result w = answer result (
      ops.submit_admin_passthru fd (ns_create_cmd at timeout)
        (record w { mem = id_ns_mem at nsze ncap flbas dps nmic anagrpid nvmsetid w.mem }))

  unfoldable pub ns_attachment : (nsid num_ctrls : ℕ) → (ℕ → ℕ) → Bool → World D → Outcome D
  ns_attachment nsid num_ctrls ctrlist attach w = status_of (
      ops.submit_admin_passthru fd (ns_attachment_cmd at nsid attach)
        (record w { mem = controller_list_mem at num_ctrls ctrlist w.mem }))

module _ {D : Type 0} (ops : DeviceOps D) (fd : ℕ) where
  unfoldable pub resv_report : (nsid numd cdw11 addr : ℕ) → World D → Outcome D
  resv_report nsid numd cdw11 addr w =
      status_of (ops.submit_io_passthru fd (resv_report_cmd nsid numd cdw11 addr) w)
