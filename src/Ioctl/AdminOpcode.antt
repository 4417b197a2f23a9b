-- ===== src/Ioctl/AdminOpcode.antt =====
-- Opcodes of the admin commands, `enum nvme_admin_opcode` of linux/nvme.h.
use switchtec_nvme_cli.Base.{ℕ}

abbrev pub get_log_page : ℕ
get_log_page = 0x02

abbrev pub identify : ℕ
identify = 0x06

abbrev pub set_features : ℕ
set_features = 0x09

abbrev pub get_features : ℕ
get_features = 0x0a

abbrev pub ns_mgmt : ℕ
ns_mgmt = 0x0d

abbrev pub activate_fw : ℕ
activate_fw = 0x10

abbrev pub download_fw : ℕ
download_fw = 0x11

abbrev pub dev_self_test : ℕ
dev_self_test = 0x14

abbrev pub ns_attach : ℕ
ns_attach = 0x15

abbrev pub directive_send : ℕ
directive_send = 0x19

abbrev pub directive_recv : ℕ
directive_recv = 0x1a

abbrev pub virtual_mgmt : ℕ
virtual_mgmt = 0x1c

abbrev pub format_nvm : ℕ
format_nvm = 0x80

abbrev pub security_send : ℕ
security_send = 0x81

abbrev pub security_recv : ℕ
security_recv = 0x82

abbrev pub sanitize_nvm : ℕ
sanitize_nvm = 0x84

abbrev pub get_lba_status : ℕ
get_lba_status = 0x86
