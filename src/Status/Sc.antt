-- ===== src/Status/Sc.antt =====
-- Status codes of a completion, from the enumeration in linux/nvme.h. A code holds the status code
-- type in bits 8 to 10 and the status code in bits 0 to 7.
use switchtec_nvme_cli.Base.{ℕ}

abbrev pub invalid_opcode : ℕ
invalid_opcode = 0x1

abbrev pub invalid_field : ℕ
invalid_field = 0x2

abbrev pub cmdid_conflict : ℕ
cmdid_conflict = 0x3

abbrev pub data_xfer_error : ℕ
data_xfer_error = 0x4

abbrev pub power_loss : ℕ
power_loss = 0x5

abbrev pub internal : ℕ
internal = 0x6

abbrev pub abort_req : ℕ
abort_req = 0x7

abbrev pub abort_queue : ℕ
abort_queue = 0x8

abbrev pub fused_fail : ℕ
fused_fail = 0x9

abbrev pub fused_missing : ℕ
fused_missing = 0xa

abbrev pub invalid_ns : ℕ
invalid_ns = 0xb

abbrev pub cmd_seq_error : ℕ
cmd_seq_error = 0xc

abbrev pub sgl_invalid_last : ℕ
sgl_invalid_last = 0xd

abbrev pub sgl_invalid_count : ℕ
sgl_invalid_count = 0xe

abbrev pub sgl_invalid_data : ℕ
sgl_invalid_data = 0xf

abbrev pub sgl_invalid_metadata : ℕ
sgl_invalid_metadata = 0x10

abbrev pub sgl_invalid_type : ℕ
sgl_invalid_type = 0x11

abbrev pub cmb_invalid_use : ℕ
cmb_invalid_use = 0x12

abbrev pub prp_invalid_offset : ℕ
prp_invalid_offset = 0x13

abbrev pub operation_denied : ℕ
operation_denied = 0x15

abbrev pub sgl_invalid_offset : ℕ
sgl_invalid_offset = 0x16

abbrev pub sanitize_failed : ℕ
sanitize_failed = 0x1c

abbrev pub sanitize_in_progress : ℕ
sanitize_in_progress = 0x1d

abbrev pub ns_write_protected : ℕ
ns_write_protected = 0x20

abbrev pub lba_range : ℕ
lba_range = 0x80

abbrev pub cap_exceeded : ℕ
cap_exceeded = 0x81

abbrev pub ns_not_ready : ℕ
ns_not_ready = 0x82

abbrev pub reservation_conflict : ℕ
reservation_conflict = 0x83

abbrev pub format_in_progress : ℕ
format_in_progress = 0x84

abbrev pub cq_invalid : ℕ
cq_invalid = 0x100

abbrev pub qid_invalid : ℕ
qid_invalid = 0x101

abbrev pub queue_size : ℕ
queue_size = 0x102

abbrev pub abort_limit : ℕ
abort_limit = 0x103

abbrev pub async_limit : ℕ
async_limit = 0x105

abbrev pub firmware_slot : ℕ
firmware_slot = 0x106

abbrev pub firmware_image : ℕ
firmware_image = 0x107

abbrev pub invalid_vector : ℕ
invalid_vector = 0x108

abbrev pub invalid_log_page : ℕ
invalid_log_page = 0x109

abbrev pub invalid_format : ℕ
invalid_format = 0x10a

abbrev pub fw_needs_conv_reset : ℕ
fw_needs_conv_reset = 0x10b

abbrev pub invalid_queue : ℕ
invalid_queue = 0x10c

abbrev pub feature_not_saveable : ℕ
feature_not_saveable = 0x10d

abbrev pub feature_not_changeable : ℕ
feature_not_changeable = 0x10e

abbrev pub feature_not_per_ns : ℕ
feature_not_per_ns = 0x10f

abbrev pub fw_needs_subsys_reset : ℕ
fw_needs_subsys_reset = 0x110

abbrev pub fw_needs_max_time : ℕ
fw_needs_max_time = 0x112

abbrev pub fw_activate_prohibited : ℕ
fw_activate_prohibited = 0x113

abbrev pub overlapping_range : ℕ
overlapping_range = 0x114

abbrev pub ns_insufficient_cap : ℕ
ns_insufficient_cap = 0x115

abbrev pub ns_id_unavailable : ℕ
ns_id_unavailable = 0x116

abbrev pub ns_already_attached : ℕ
ns_already_attached = 0x118

abbrev pub ns_is_private : ℕ
ns_is_private = 0x119

abbrev pub ns_not_attached : ℕ
ns_not_attached = 0x11a

abbrev pub thin_prov_not_supp : ℕ
thin_prov_not_supp = 0x11b

abbrev pub ctrl_list_invalid : ℕ
ctrl_list_invalid = 0x11c

abbrev pub device_self_test_in_progress : ℕ
device_self_test_in_progress = 0x11d

abbrev pub bp_write_prohibited : ℕ
bp_write_prohibited = 0x11e

abbrev pub invalid_ctrl_id : ℕ
invalid_ctrl_id = 0x11f

abbrev pub invalid_secondary_ctrl_state : ℕ
invalid_secondary_ctrl_state = 0x120

abbrev pub invalid_num_ctrl_resource : ℕ
invalid_num_ctrl_resource = 0x121

abbrev pub invalid_resource_id : ℕ
invalid_resource_id = 0x122

abbrev pub pmr_san_prohibited : ℕ
pmr_san_prohibited = 0x123

abbrev pub ana_invalid_group_id : ℕ
ana_invalid_group_id = 0x124

abbrev pub bad_attributes : ℕ
bad_attributes = 0x180

abbrev pub invalid_pi : ℕ
invalid_pi = 0x181

abbrev pub read_only : ℕ
read_only = 0x182

abbrev pub oncs_not_supported : ℕ
oncs_not_supported = 0x183

abbrev pub connect_format : ℕ
connect_format = 0x180

abbrev pub connect_ctrl_busy : ℕ
connect_ctrl_busy = 0x181

abbrev pub connect_invalid_param : ℕ
connect_invalid_param = 0x182

abbrev pub connect_restart_disc : ℕ
connect_restart_disc = 0x183

abbrev pub connect_invalid_host : ℕ
connect_invalid_host = 0x184

abbrev pub discovery_restart : ℕ
discovery_restart = 0x190

abbrev pub auth_required : ℕ
auth_required = 0x191
