-- ===== src/Ioctl/Log.antt =====
-- nvme-ioctl.c: the log pages. `get_log` runs on fuel, with `none` for fuel that ran out:
-- one round for every whole piece of 4096 bytes, and one for the rest.
pub mod Pieces
pub mod Fields
use switchtec_nvme_cli.Base.{
  ℕ, zero, suc, ◌+◌, ◌*◌, ◌/◌, ◌^◌, Bool, true, false, not, ℤ, pos, is_zero, to_unsigned, Option,
  none, some, bit_and, bit_or, u16, u32, sub32, shl, shr, flag, ltb, if◌then◌else◌,
}
use switchtec_nvme_cli.Device.{World, PassthruCmd, zero_cmd, Outcome, DeviceOps, status_of}
use switchtec_nvme_cli.Ioctl.AdminOpcode
use switchtec_nvme_cli.Ioctl.LogId

-- `NVME_NSID_ALL`
abbrev pub nsid_all : ℕ
nsid_all = 0xffff_ffff

-- `NVME_NO_LOG_LSP` and `NVME_TELEM_LSP_CREATE`
abbrev pub no_log_lsp : ℕ
no_log_lsp = 0x0

abbrev pub telem_lsp_create : ℕ
telem_lsp_create = 0x1

unfoldable pub get_log_cmd :
    (nsid log_id lsp lpo lsi : ℕ) → Bool → (uuid_ix data_len addr : ℕ) → PassthruCmd
get_log_cmd nsid log_id lsp lpo lsi rae uuid_ix data_len addr =
    let numd = sub32 (shr data_len 2) 1 in
    let numdu = u16 (shr numd 16) in
    let numdl = u16 (bit_and numd 0xffff) in
    record zero_cmd {
      opcode = AdminOpcode.get_log_page;
      nsid = nsid;
      addr = addr;
      data_len = data_len;
      cdw10 =
          u32 (bit_or (bit_or (bit_or log_id (shl numdl 16)) (flag rae (shl 1 15))) (shl lsp 8));
      cdw11 = u32 (bit_or numdu (shl lsi 16));
      cdw12 = u32 (bit_and lpo 0xffff_ffff);
      cdw13 = u32 (shr lpo 32);
      cdw14 = uuid_ix;
    }

module _ {D : Type 0} (ops : DeviceOps D) (fd : ℕ) where
  unfoldable pub get_log14 :
      (nsid log_id lsp lpo lsi : ℕ) → Bool → (uuid_ix data_len addr : ℕ) → World D → Outcome D
  get_log14 nsid log_id lsp lpo lsi rae uuid_ix data_len addr w = status_of (
      ops.submit_admin_passthru fd (get_log_cmd nsid log_id lsp lpo lsi rae uuid_ix data_len addr)
        w)

  unfoldable pub get_log13 :
      (nsid log_id lsp lpo lsi : ℕ) → Bool → (data_len addr : ℕ) → World D → Outcome D
  get_log13 nsid log_id lsp lpo lsi rae data_len addr =
      get_log14 nsid log_id lsp lpo lsi rae 0 data_len addr

  -- The `do` loop of `nvme_get_log`, from `offset` on.
  unfoldable pub log_loop :
      ℕ → (nsid log_id : ℕ) → Bool → (data_len offset ptr : ℕ) → World D → Option (Outcome D)
  log_loop zero nsid log_id rae data_len offset ptr w = none
  log_loop (suc fuel) nsid log_id rae data_len offset ptr w =
      let left = sub32 data_len offset in
      let xfer_len = if ltb 4096 left then 4096 else left in
      let ret = get_log13 nsid log_id no_log_lsp offset 0 rae xfer_len ptr w in
      let rest =
        log_loop fuel nsid log_id rae data_len (u32 (offset + xfer_len)) (ptr + xfer_len)
          ret.world in
      if not (is_zero ret.err)
      then some ret
      else if ltb (u32 (offset + xfer_len)) data_len
      then rest
      else some (record { err = pos 0; world = ret.world })

  unfoldable pub get_log :
      (nsid log_id : ℕ) → Bool → (data_len addr : ℕ) → World D → Option (Outcome D)
  get_log nsid log_id rae data_len addr w =
      log_loop (data_len / 4096 + 1) nsid log_id rae data_len 0 addr w

  unfoldable pub get_telemetry_log :
      (lp : ℕ) (generate_report ctrl_init : Bool) (log_page_size offset : ℕ) → World D → Outcome D
  get_telemetry_log lp generate_report ctrl_init log_page_size offset =
      if ctrl_init
      then get_log13 nsid_all LogId.telemetry_ctrl no_log_lsp offset 0 true (u32 log_page_size) lp
      else if generate_report
      then get_log13 nsid_all LogId.telemetry_host telem_lsp_create offset 0 true
          (u32 log_page_size) lp
      else get_log13 nsid_all LogId.telemetry_host no_log_lsp offset 0 true (u32 log_page_size) lp

  -- The sizes are those of the structures of linux/nvme.h.
  unfoldable pub fw_log : ℕ → World D → Option (Outcome D)
  fw_log addr = get_log nsid_all LogId.fw_slot true 512 addr

  unfoldable pub changed_ns_list_log : ℕ → World D → Option (Outcome D)
  changed_ns_list_log addr = get_log 0 LogId.changed_ns true 4096 addr

  unfoldable pub error_log : ℤ → ℕ → World D → Option (Outcome D)
  error_log entries addr =
      get_log nsid_all LogId.error false (u32 (to_unsigned 64 entries * 64)) addr

  unfoldable pub endurance_log : (group_id addr : ℕ) → World D → Outcome D
  endurance_log group_id addr = get_log13 0 LogId.endurance_group 0 0 group_id false 512 addr

  unfoldable pub smart_log : (nsid addr : ℕ) → World D → Option (Outcome D)
  smart_log nsid addr = get_log nsid LogId.smart false 512 addr

  unfoldable pub ana_log : (addr ana_log_len rgo : ℕ) → World D → Outcome D
  ana_log addr ana_log_len rgo = get_log13 nsid_all LogId.ana rgo 0 0 true (u32 ana_log_len) addr

  unfoldable pub self_test_log : (nsid addr : ℕ) → World D → Option (Outcome D)
  self_test_log nsid addr = get_log nsid LogId.device_self_test false 564 addr

  unfoldable pub effects_log : ℕ → World D → Option (Outcome D)
  effects_log addr = get_log nsid_all LogId.cmd_effects false 4096 addr

  unfoldable pub discovery_log : (addr size : ℕ) → World D → Option (Outcome D)
  discovery_log addr size = get_log 0 LogId.disc false size addr

  unfoldable pub sanitize_log : ℕ → World D → Option (Outcome D)
  sanitize_log addr = get_log 0 LogId.sanitize false 32 addr
