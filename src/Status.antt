-- ===== src/Status.antt =====
-- nvme-status.c and nvme_status_type of nvme-status.h: a completion's status as an errno.
pub mod Sc
pub mod Errno
pub mod Laws
use switchtec_nvme_cli.Base.{
  ℕ, Bool, true, false, ◌&&◌, ◌||◌, not, List, [], ◌∷◌, ℤ, is_zero, is_negative, to_unsigned, shr,
  u16, bit_and, ◌==◌, if◌then◌else◌,
}

-- The labels of a `switch` that share a `return`.
is_one_of : ℕ → List ℕ → Bool
is_one_of status [] = false
is_one_of status (code ∷ codes) = status == code || is_one_of status codes

unfoldable pub status_type : ℕ → ℕ
status_type status = shr (bit_and status 0x700) 8

unfoldable pub generic_status_to_errno : ℕ → ℕ
unfolding is_one_of
generic_status_to_errno status =
    if is_one_of status (
      Sc.invalid_opcode ∷ Sc.invalid_field ∷ Sc.invalid_ns ∷ Sc.sgl_invalid_last
      ∷ Sc.sgl_invalid_count ∷ Sc.sgl_invalid_data ∷ Sc.sgl_invalid_metadata ∷ Sc.sgl_invalid_type
      ∷ Sc.sgl_invalid_offset ∷ Sc.cmb_invalid_use ∷ Sc.prp_invalid_offset ∷ [])
    then Errno.einval
    else if is_one_of status (Sc.cmdid_conflict ∷ [])
    then Errno.eaddrinuse
    else if is_one_of status (Sc.data_xfer_error ∷ Sc.internal ∷ Sc.sanitize_failed ∷ [])
    then Errno.eio
    else if is_one_of status
        (Sc.power_loss ∷ Sc.abort_req ∷ Sc.abort_queue ∷ Sc.fused_fail ∷ Sc.fused_missing ∷ [])
    then Errno.ewouldblock
    else if is_one_of status (Sc.cmd_seq_error ∷ [])
    then Errno.eilseq
    else if is_one_of status (Sc.sanitize_in_progress ∷ Sc.format_in_progress ∷ [])
    then Errno.einprogress
    else if is_one_of status
        (Sc.ns_write_protected ∷ Sc.ns_not_ready ∷ Sc.reservation_conflict ∷ [])
    then Errno.eacces
    else if is_one_of status (Sc.lba_range ∷ [])
    then Errno.eremoteio
    else if is_one_of status (Sc.cap_exceeded ∷ [])
    then Errno.enospc
    else if is_one_of status (Sc.operation_denied ∷ [])
    then Errno.eperm
    else Errno.eio

unfoldable pub cmd_specific_status_to_errno : ℕ → ℕ
unfolding is_one_of
cmd_specific_status_to_errno status =
    if is_one_of status (
      Sc.cq_invalid ∷ Sc.qid_invalid ∷ Sc.queue_size ∷ Sc.firmware_slot ∷ Sc.firmware_image
      ∷ Sc.invalid_vector ∷ Sc.invalid_log_page ∷ Sc.invalid_format ∷ Sc.invalid_queue
      ∷ Sc.ns_insufficient_cap ∷ Sc.ns_id_unavailable ∷ Sc.ctrl_list_invalid ∷ Sc.bad_attributes
      ∷ Sc.invalid_pi ∷ Sc.invalid_ctrl_id ∷ Sc.invalid_secondary_ctrl_state
      ∷ Sc.invalid_num_ctrl_resource ∷ Sc.invalid_resource_id ∷ Sc.ana_invalid_group_id ∷ [])
    then Errno.einval
    else if is_one_of status (Sc.abort_limit ∷ Sc.async_limit ∷ [])
    then Errno.edquot
    else if is_one_of status
        (Sc.fw_needs_conv_reset ∷ Sc.fw_needs_subsys_reset ∷ Sc.fw_needs_max_time ∷ [])
    then Errno.erestart
    else if is_one_of status (
        Sc.feature_not_saveable ∷ Sc.feature_not_changeable ∷ Sc.feature_not_per_ns
        ∷ Sc.fw_activate_prohibited ∷ Sc.ns_is_private ∷ Sc.bp_write_prohibited ∷ Sc.read_only
        ∷ Sc.pmr_san_prohibited ∷ [])
    then Errno.eperm
    else if is_one_of status (Sc.overlapping_range ∷ Sc.ns_not_attached ∷ [])
    then Errno.enospc
    else if is_one_of status (Sc.ns_already_attached ∷ [])
    then Errno.ealready
    else if is_one_of status (Sc.thin_prov_not_supp ∷ Sc.oncs_not_supported ∷ [])
    then Errno.eopnotsupp
    else if is_one_of status (Sc.device_self_test_in_progress ∷ [])
    then Errno.einprogress
    else Errno.eio

unfoldable pub fabrics_status_to_errno : ℕ → ℕ
unfolding is_one_of
fabrics_status_to_errno status =
    if is_one_of status (Sc.connect_format ∷ Sc.connect_invalid_param ∷ [])
    then Errno.einval
    else if is_one_of status (Sc.connect_ctrl_busy ∷ [])
    then Errno.ebusy
    else if is_one_of status (Sc.connect_restart_disc ∷ [])
    then Errno.erestart
    else if is_one_of status (Sc.connect_invalid_host ∷ [])
    then Errno.econnrefused
    else if is_one_of status (Sc.discovery_restart ∷ [])
    then Errno.eagain
    else if is_one_of status (Sc.auth_required ∷ [])
    then Errno.eperm
    else Errno.eio

-- `NVME_SCT_GENERIC` and `NVME_SCT_CMD_SPECIFIC`.
abbrev pub sct_generic : ℕ
sct_generic = 0x0

abbrev pub sct_cmd_specific : ℕ
sct_cmd_specific = 0x1

-- The part of `nvme_status_to_errno` behind the mask.
unfoldable pub masked_status_to_errno : ℕ → Bool → ℕ
unfolding status_type generic_status_to_errno cmd_specific_status_to_errno fabrics_status_to_errno
masked_status_to_errno status fabrics =
    let sct = status_type status in
    if sct == sct_generic
    then generic_status_to_errno status
    else if sct == sct_cmd_specific && not fabrics
    then cmd_specific_status_to_errno status
    else if sct == sct_cmd_specific && fabrics
    then fabrics_status_to_errno status
    else Errno.eio

unfoldable pub status_to_errno : ℤ → Bool → ℕ
status_to_errno status fabrics =
    if is_zero status
    then 0
    else if is_negative status
    then Errno.ecomm
    else masked_status_to_errno (bit_and (to_unsigned 32 status) 0x7ff) fabrics
