-- ===== src/Ioctl/NvmOpcode.antt =====
-- Opcodes of the I/O commands, `enum nvme_opcode` of linux/nvme.h.
use switchtec_nvme_cli.Base.{ℕ}

abbrev pub flush : ℕ
flush = 0x00

abbrev pub write : ℕ
write = 0x01

abbrev pub read : ℕ
read = 0x02

abbrev pub write_uncor : ℕ
write_uncor = 0x04

abbrev pub compare : ℕ
compare = 0x05

abbrev pub write_zeroes : ℕ
write_zeroes = 0x08

abbrev pub dsm : ℕ
dsm = 0x09

abbrev pub verify : ℕ
verify = 0x0c

abbrev pub resv_register : ℕ
resv_register = 0x0d

abbrev pub resv_report : ℕ
resv_report = 0x0e

abbrev pub resv_acquire : ℕ
resv_acquire = 0x11

abbrev pub resv_release : ℕ
resv_release = 0x15
