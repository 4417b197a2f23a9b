-- ===== src/Ioctl/Manage.antt =====
-- nvme-ioctl.c: format, namespace deletion, firmware, security, directives, sanitize, self-test and
-- virtualization management.
pub mod Fields
use switchtec_nvme_cli.Base.{
  ℕ, ◌*◌, ◌/◌, ◌^◌, Option, none, some, bit_and, bit_or, u32, sub32, shl, shr, ◌==◌, if◌then◌else◌,
}
use switchtec_nvme_cli.Device.{World, PassthruCmd, zero_cmd, Outcome, DeviceOps, status_of}
use switchtec_nvme_cli.Ioctl.{Answer, answer}
use switchtec_nvme_cli.Ioctl.AdminOpcode

unfoldable pub format_cmd : (nsid lbaf ses pi pil ms timeout : ℕ) → PassthruCmd
format_cmd nsid lbaf ses pi pil ms timeout = record zero_cmd {
  opcode = AdminOpcode.format_nvm;
  nsid = nsid;
  cdw10 =
      u32 (bit_or (bit_or (bit_or (bit_or lbaf (shl ms 4)) (shl pi 5)) (shl pil 8)) (shl ses 9));
  timeout_ms = timeout;
}

unfoldable pub ns_delete_cmd : (nsid timeout : ℕ) → PassthruCmd
ns_delete_cmd nsid timeout = record zero_cmd {
  opcode = AdminOpcode.ns_mgmt;
  nsid = nsid;
  cdw10 = 1;
  timeout_ms = timeout;
}

unfoldable pub fw_download_cmd : (offset data_len addr : ℕ) → PassthruCmd
fw_download_cmd offset data_len addr = record zero_cmd {
  opcode = AdminOpcode.download_fw;
  addr = addr;
  data_len = data_len;
  cdw10 = sub32 (shr data_len 2) 1;
  cdw11 = shr offset 2;
}

unfoldable pub fw_commit_cmd : (slot action bpid : ℕ) → PassthruCmd
fw_commit_cmd slot action bpid = record zero_cmd {
  opcode = AdminOpcode.activate_fw;
  cdw10 = u32 (bit_or (bit_or (shl bpid 31) (shl action 3)) slot);
}

unfoldable pub sec_send_cmd : (nsid nssf spsp secp tl data_len addr : ℕ) → PassthruCmd
sec_send_cmd nsid nssf spsp secp tl data_len addr = record zero_cmd {
  opcode = AdminOpcode.security_send;
  addr = addr;
  data_len = data_len;
  nsid = nsid;
  cdw10 = u32 (bit_or (bit_or (shl secp 24) (shl spsp 8)) nssf);
  cdw11 = tl;
}

unfoldable pub sec_recv_cmd : (nsid nssf spsp secp al data_len addr : ℕ) → PassthruCmd
sec_recv_cmd nsid nssf spsp secp al data_len addr = record zero_cmd {
  opcode = AdminOpcode.security_recv;
  nsid = nsid;
  cdw10 = u32 (bit_or (bit_or (shl secp 24) (shl spsp 8)) nssf);
  cdw11 = al;
  addr = addr;
  data_len = data_len;
}

unfoldable pub get_lba_status_cmd : (slba mndw atype rl addr : ℕ) → PassthruCmd
get_lba_status_cmd slba mndw atype rl addr = record zero_cmd {
  opcode = AdminOpcode.get_lba_status;
  addr = addr;
  cdw10 = u32 (bit_and slba 0xffff_ffff);
  cdw11 = u32 (shr slba 32);
  cdw12 = mndw;
  cdw13 = u32 (bit_or (shl atype 24) rl);
}

unfoldable pub dir_send_cmd : (nsid dspec dtype doper data_len dw12 addr : ℕ) → PassthruCmd
dir_send_cmd nsid dspec dtype doper data_len dw12 addr = record zero_cmd {
  opcode = AdminOpcode.directive_send;
  addr = addr;
  data_len = data_len;
  nsid = nsid;
  cdw10 = if data_len == 0 then 0 else sub32 (shr data_len 2) 1;
  cdw11 = u32 (bit_or (bit_or (shl dspec 16) (shl dtype 8)) doper);
  cdw12 = dw12;
}

unfoldable pub dir_recv_cmd : (nsid dspec dtype doper data_len dw12 addr : ℕ) → PassthruCmd
dir_recv_cmd nsid dspec dtype doper data_len dw12 addr = record zero_cmd {
  opcode = AdminOpcode.directive_recv;
  addr = addr;
  data_len = data_len;
  nsid = nsid;
  cdw10 = if data_len == 0 then 0 else sub32 (shr data_len 2) 1;
  cdw11 = u32 (bit_or (bit_or (shl dspec 16) (shl dtype 8)) doper);
  cdw12 = dw12;
}

-- `NVME_SANITIZE_OWPASS_SHIFT`
abbrev pub sanitize_owpass_shift : ℕ
sanitize_owpass_shift = 4

unfoldable pub sanitize_cmd : (sanact ause owpass oipbp no_dealloc ovrpat : ℕ) → PassthruCmd
sanitize_cmd sanact ause owpass oipbp no_dealloc ovrpat = record zero_cmd {
  opcode = AdminOpcode.sanitize_nvm;
  cdw10 = u32 (
      bit_or
        (bit_or
          (bit_or (bit_or (shl no_dealloc 9) (shl oipbp 8)) (shl owpass sanitize_owpass_shift))
          (shl ause 3))
        sanact);
  cdw11 = ovrpat;
}

unfoldable pub self_test_start_cmd : (nsid cdw10 : ℕ) → PassthruCmd
self_test_start_cmd nsid cdw10 = record zero_cmd {
  opcode = AdminOpcode.dev_self_test;
  nsid = nsid;
  cdw10 = cdw10;
}

unfoldable pub virtual_mgmt_cmd : (cdw10 cdw11 : ℕ) → PassthruCmd
virtual_mgmt_cmd cdw10 cdw11 = record zero_cmd {
  opcode = AdminOpcode.virtual_mgmt;
  cdw10 = cdw10;
  cdw11 = cdw11;
}

module _ {D : Type 0} (ops : DeviceOps D) (fd : ℕ) where
  unfoldable pub format : (nsid lbaf ses pi pil ms timeout : ℕ) → World D → Outcome D
  format nsid lbaf ses pi pil ms timeout w =
      status_of (ops.submit_admin_passthru fd (format_cmd nsid lbaf ses pi pil ms timeout) w)

  unfoldable pub ns_delete : (nsid timeout : ℕ) → World D → Outcome D
  ns_delete nsid timeout w = status_of (ops.submit_admin_passthru fd (ns_delete_cmd nsid timeout) w)

  unfoldable pub fw_download : (offset data_len addr : ℕ) → World D → Outcome D
  fw_download offset data_len addr w =
      status_of (ops.submit_admin_passthru fd (fw_download_cmd offset data_len addr) w)

  unfoldable pub fw_commit : (slot action bpid : ℕ) → World D → Outcome D
  fw_commit slot action bpid w =
      status_of (ops.submit_admin_passthru fd (fw_commit_cmd slot action bpid) w)

  unfoldable pub sec_send :
      (nsid nssf spsp secp tl data_len addr : ℕ) → Option ℕ → World D → Answer D
  sec_send nsid nssf spsp secp tl data_len addr result w =
      answer result
        (ops.submit_admin_passthru fd (sec_send_cmd nsid nssf spsp secp tl data_len addr) w)

  unfoldable pub sec_recv :
      (nsid nssf spsp secp al data_len addr : ℕ) → Option ℕ → World D → Answer D
  sec_recv nsid nssf spsp secp al data_len addr result w =
      answer result
        (ops.submit_admin_passthru fd (sec_recv_cmd nsid nssf spsp secp al data_len addr) w)

  unfoldable pub get_lba_status : (slba mndw atype rl addr : ℕ) → World D → Outcome D
  get_lba_status slba mndw atype rl addr w =
      status_of (ops.submit_admin_passthru fd (get_lba_status_cmd slba mndw atype rl addr) w)

  unfoldable pub dir_send :
      (nsid dspec dtype doper data_len dw12 addr : ℕ) → Option ℕ → World D → Answer D
  dir_send nsid dspec dtype doper data_len dw12 addr result w =
      answer result
        (ops.submit_admin_passthru fd (dir_send_cmd nsid dspec dtype doper data_len dw12 addr) w)

  unfoldable pub dir_recv :
      (nsid dspec dtype doper data_len dw12 addr : ℕ) → Option ℕ → World D → Answer D
  dir_recv nsid dspec dtype doper data_len dw12 addr result w =
      answer result
        (ops.submit_admin_passthru fd (dir_recv_cmd nsid dspec dtype doper data_len dw12 addr) w)

  unfoldable pub sanitize : (sanact ause owpass oipbp no_dealloc ovrpat : ℕ) → World D → Outcome D
  sanitize sanact ause owpass oipbp no_dealloc ovrpat w =
      status_of
        (ops.submit_admin_passthru fd (sanitize_cmd sanact ause owpass oipbp no_dealloc ovrpat) w)

  unfoldable pub self_test_start : (nsid cdw10 : ℕ) → World D → Outcome D
  self_test_start nsid cdw10 w =
      status_of (ops.submit_admin_passthru fd (self_test_start_cmd nsid cdw10) w)

  unfoldable pub virtual_mgmt : (cdw10 cdw11 : ℕ) → Option ℕ → World D → Answer D
  virtual_mgmt cdw10 cdw11 result w =
      answer result (ops.submit_admin_passthru fd (virtual_mgmt_cmd cdw10 cdw11) w)
