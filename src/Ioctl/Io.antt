-- ===== src/Ioctl/Io.antt =====
-- nvme-ioctl.c: the I/O commands that read, write and check blocks. Arguments are in the order of
-- the source, without the types' ranges; each member of a command is cut to its width.
pub mod Fields
use switchtec_nvme_cli.Base.{ℕ, ◌*◌, none, bit_and, bit_or, u32, shl, shr, sub32}
use switchtec_nvme_cli.Device.{World, PassthruCmd, zero_cmd, UserIo, Outcome, DeviceOps, status_of}
use switchtec_nvme_cli.Ioctl.{Answer, passthru}
use switchtec_nvme_cli.Ioctl.NvmOpcode

-- `NVME_IOCTL_IO_CMD`: direction read and write, 72 bytes of structure, type 'N', number 0x43.
abbrev pub ioctl_io_cmd : ℕ
ioctl_io_cmd = 0xc048_4e43

-- The structure that `nvme_io` hands to the table.
unfoldable pub user_io :
    (opcode slba nblocks control dsmgmt reftag apptag appmask addr metadata : ℕ) → UserIo
user_io opcode slba nblocks control dsmgmt reftag apptag appmask addr metadata = record {
  opcode = opcode;
  flags = 0;
  control = control;
  nblocks = nblocks;
  rsvd = 0;
  metadata = metadata;
  addr = addr;
  slba = slba;
  dsmgmt = dsmgmt;
  reftag = reftag;
  apptag = apptag;
  appmask = appmask;
}

unfoldable pub verify_cmd : (nsid slba nblocks control reftag apptag appmask : ℕ) → PassthruCmd
verify_cmd nsid slba nblocks control reftag apptag appmask = record zero_cmd {
  opcode = NvmOpcode.verify;
  nsid = nsid;
  cdw10 = u32 (bit_and slba 0xffff_ffff);
  cdw11 = u32 (shr slba 32);
  cdw12 = u32 (bit_or nblocks (shl control 16));
  cdw14 = reftag;
  cdw15 = u32 (bit_or apptag (shl appmask 16));
}

unfoldable pub write_zeros_cmd : (nsid slba nlb control reftag apptag appmask : ℕ) → PassthruCmd
write_zeros_cmd nsid slba nlb control reftag apptag appmask = record zero_cmd {
  opcode = NvmOpcode.write_zeroes;
  nsid = nsid;
  cdw10 = u32 (bit_and slba 0xffff_ffff);
  cdw11 = u32 (shr slba 32);
  cdw12 = u32 (bit_or nlb (shl control 16));
  cdw14 = reftag;
  cdw15 = u32 (bit_or apptag (shl appmask 16));
}

unfoldable pub write_uncorrectable_cmd : (nsid slba nlb : ℕ) → PassthruCmd
write_uncorrectable_cmd nsid slba nlb = record zero_cmd {
  opcode = NvmOpcode.write_uncor;
  nsid = nsid;
  cdw10 = u32 (bit_and slba 0xffff_ffff);
  cdw11 = u32 (shr slba 32);
  cdw12 = nlb;
}

unfoldable pub flush_cmd : ℕ → PassthruCmd
flush_cmd nsid = record zero_cmd { opcode = NvmOpcode.flush; nsid = nsid }

-- `sizeof(struct nvme_dsm_range)` is 16.
unfoldable pub dsm_cmd : (nsid cdw11 addr nr_ranges : ℕ) → PassthruCmd
dsm_cmd nsid cdw11 addr nr_ranges = record zero_cmd {
  opcode = NvmOpcode.dsm;
  nsid = nsid;
  addr = addr;
  data_len = u32 (nr_ranges * 16);
  cdw10 = sub32 nr_ranges 1;
  cdw11 = cdw11;
}

module _ {D : Type 0} (ops : DeviceOps D) (fd : ℕ) where
  unfoldable pub io :
      (opcode slba nblocks control dsmgmt reftag apptag appmask addr metadata : ℕ)
      → World D
      → Outcome D
  io opcode slba nblocks control dsmgmt reftag apptag appmask addr metadata =
      ops.io fd (user_io opcode slba nblocks control dsmgmt reftag apptag appmask addr metadata)

  unfoldable pub read :
      (slba nblocks control dsmgmt reftag apptag appmask addr metadata : ℕ) → World D → Outcome D
  read = io NvmOpcode.read

  unfoldable pub write :
      (slba nblocks control dsmgmt reftag apptag appmask addr metadata : ℕ) → World D → Outcome D
  write = io NvmOpcode.write

  unfoldable pub compare :
      (slba nblocks control dsmgmt reftag apptag appmask addr metadata : ℕ) → World D → Outcome D
  compare = io NvmOpcode.compare

  unfoldable pub verify :
      (nsid slba nblocks control reftag apptag appmask : ℕ) → World D → Outcome D
  verify nsid slba nblocks control reftag apptag appmask w =
      status_of
        (ops.submit_io_passthru fd (verify_cmd nsid slba nblocks control reftag apptag appmask) w)

  unfoldable pub passthru_io :
      (opcode flags rsvd nsid cdw2 cdw3 cdw10 cdw11 cdw12 cdw13 cdw14 cdw15 data_len addr
        metadata_len metadata timeout_ms : ℕ)
      → World D
      → Answer D
  passthru_io opcode flags rsvd nsid cdw2 cdw3 cdw10 cdw11 cdw12 cdw13 cdw14 cdw15 data_len addr
        metadata_len metadata timeout_ms =
      passthru ops fd ioctl_io_cmd opcode flags rsvd nsid cdw2 cdw3 cdw10 cdw11 cdw12 cdw13 cdw14
        cdw15 data_len addr metadata_len metadata timeout_ms none

  unfoldable pub write_zeros :
      (nsid slba nlb control reftag apptag appmask : ℕ) → World D → Outcome D
  write_zeros nsid slba nlb control reftag apptag appmask w =
      status_of
        (ops.submit_io_passthru fd (write_zeros_cmd nsid slba nlb control reftag apptag appmask) w)

  unfoldable pub write_uncorrectable : (nsid slba nlb : ℕ) → World D → Outcome D
  write_uncorrectable nsid slba nlb w =
      status_of (ops.submit_io_passthru fd (write_uncorrectable_cmd nsid slba nlb) w)

  unfoldable pub flush : ℕ → World D → Outcome D
  flush nsid w = status_of (ops.submit_io_passthru fd (flush_cmd nsid) w)

  unfoldable pub dsm : (nsid cdw11 addr nr_ranges : ℕ) → World D → Outcome D
  dsm nsid cdw11 addr nr_ranges w =
      status_of (ops.submit_io_passthru fd (dsm_cmd nsid cdw11 addr nr_ranges) w)
