-- ===== src/Ioctl/Cns.antt =====
-- Identify structures, from linux/nvme.h.
use switchtec_nvme_cli.Base.{ℕ}

abbrev pub ns : ℕ
ns = 0x00

abbrev pub ns_active_list : ℕ
ns_active_list = 0x02

abbrev pub ns_desc_list : ℕ
ns_desc_list = 0x03

abbrev pub nvmset_list : ℕ
nvmset_list = 0x04

abbrev pub ns_present_list : ℕ
ns_present_list = 0x10

abbrev pub ns_present : ℕ
ns_present = 0x11

abbrev pub ctrl_ns_list : ℕ
ctrl_ns_list = 0x12

abbrev pub ctrl_list : ℕ
ctrl_list = 0x13

abbrev pub scndry_ctrl_list : ℕ
scndry_ctrl_list = 0x15

abbrev pub ns_granularity : ℕ
ns_granularity = 0x16

abbrev pub uuid_list : ℕ
uuid_list = 0x17
