-- ===== src/Ioctl/Reg.antt =====
-- Offsets of the controller registers, from linux/nvme.h.
use switchtec_nvme_cli.Base.{ℕ}

abbrev pub cap : ℕ
cap = 0x0000

abbrev pub asq : ℕ
asq = 0x0028

abbrev pub acq : ℕ
acq = 0x0030

abbrev pub cmbsz : ℕ
cmbsz = 0x003c

abbrev pub bpmbl : ℕ
bpmbl = 0x0048
