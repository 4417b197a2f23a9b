-- ===== src/Ioctl/LogId.antt =====
-- Log identifiers, from linux/nvme.h.
use switchtec_nvme_cli.Base.{ℕ}

abbrev pub error : ℕ
error = 0x01

abbrev pub smart : ℕ
smart = 0x02

abbrev pub fw_slot : ℕ
fw_slot = 0x03

abbrev pub changed_ns : ℕ
changed_ns = 0x04

abbrev pub cmd_effects : ℕ
cmd_effects = 0x05

abbrev pub device_self_test : ℕ
device_self_test = 0x06

abbrev pub telemetry_host : ℕ
telemetry_host = 0x07

abbrev pub telemetry_ctrl : ℕ
telemetry_ctrl = 0x08

abbrev pub endurance_group : ℕ
endurance_group = 0x09

abbrev pub ana : ℕ
ana = 0x0c

abbrev pub disc : ℕ
disc = 0x70

abbrev pub sanitize : ℕ
sanitize = 0x81
