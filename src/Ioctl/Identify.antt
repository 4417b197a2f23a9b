-- ===== src/Ioctl/Identify.antt =====
-- nvme-ioctl.c: the identify commands.
use switchtec_nvme_cli.Base.{ℕ, Bool, bit_or, u32, shl, replicate, ◌==◌, if◌then◌else◌}
use switchtec_nvme_cli.Base.Memory.{store_bytes}
use switchtec_nvme_cli.Device.{World, PassthruCmd, zero_cmd, Outcome, DeviceOps, status_of}
use switchtec_nvme_cli.Ioctl.AdminOpcode
use switchtec_nvme_cli.Ioctl.Cns

-- `NVME_IDENTIFY_DATA_SIZE`
abbrev pub identify_data_size : ℕ
identify_data_size = 4096

unfoldable pub identify_cmd : (nsid cdw10 cdw11 addr : ℕ) → PassthruCmd
identify_cmd nsid cdw10 cdw11 addr = record zero_cmd {
  opcode = AdminOpcode.identify;
  nsid = nsid;
  addr = addr;
  data_len = identify_data_size;
  cdw10 = cdw10;
  cdw11 = cdw11;
}

module _ {D : Type 0} (ops : DeviceOps D) (fd : ℕ) where
  unfoldable pub identify13 : (nsid cdw10 cdw11 addr : ℕ) → World D → Outcome D
  identify13 nsid cdw10 cdw11 addr w =
      status_of (ops.submit_admin_passthru fd (identify_cmd nsid cdw10 cdw11 addr) w)

  unfoldable pub identify : (nsid cdw10 addr : ℕ) → World D → Outcome D
  unfolding identify13
  identify nsid cdw10 addr = identify13 nsid cdw10 0 addr

  -- `sizeof(struct nvme_id_ctrl)` is 4096.
  unfoldable pub identify_ctrl : ℕ → World D → Outcome D
  unfolding identify
  identify_ctrl addr w =
      identify 0 1 addr (record w { mem = store_bytes addr (replicate 4096 0) w.mem })

  unfoldable pub identify_ns : ℕ → Bool → ℕ → World D → Outcome D
  unfolding identify
  identify_ns nsid present addr = identify nsid (if present then Cns.ns_present else Cns.ns) addr

  unfoldable pub identify_ns_list : ℕ → Bool → ℕ → World D → Outcome D
  unfolding identify
  identify_ns_list nsid all addr =
      identify nsid (if all then Cns.ns_present_list else Cns.ns_active_list) addr

  unfoldable pub identify_ctrl_list : (nsid cntid addr : ℕ) → World D → Outcome D
  unfolding identify
  identify_ctrl_list nsid cntid addr =
      identify nsid
        (u32 (bit_or (shl cntid 16) (if nsid == 0 then Cns.ctrl_list else Cns.ctrl_ns_list))) addr

  unfoldable pub identify_secondary_ctrl_list : (nsid cntid addr : ℕ) → World D → Outcome D
  unfolding identify
  identify_secondary_ctrl_list nsid cntid addr =
      identify nsid (u32 (bit_or (shl cntid 16) Cns.scndry_ctrl_list)) addr

  unfoldable pub identify_ns_descs : (nsid addr : ℕ) → World D → Outcome D
  unfolding identify
  identify_ns_descs nsid addr = identify nsid Cns.ns_desc_list addr

  unfoldable pub identify_nvmset : (nvmset_id addr : ℕ) → World D → Outcome D
  unfolding identify13
  identify_nvmset nvmset_id addr = identify13 0 Cns.nvmset_list nvmset_id addr

  unfoldable pub identify_ns_granularity : ℕ → World D → Outcome D
  unfolding identify13
  identify_ns_granularity addr = identify13 0 Cns.ns_granularity 0 addr

  unfoldable pub identify_uuid : ℕ → World D → Outcome D
  unfolding identify
  identify_uuid addr = identify 0 Cns.uuid_list addr
