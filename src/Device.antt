-- ===== src/Device.antt =====
-- The structures of linux/nvme_ioctl.h and the operations table of nvme-device.h. A `World` is what
-- the operations act on: the process's memory, `errno`, and the state `D` of the device behind the
-- table. Pointers are addresses of that memory, and a structure that is passed by reference to the
-- table is passed and returned by value.
pub mod Rc
pub mod Pax
use switchtec_nvme_cli.Base.{ℕ, Bool, ℤ, Option, some, none, is_zero, if◌then◌else◌}
use switchtec_nvme_cli.Base.Memory.{Mem}

pub record World (D : Type 0) : Type 0 where
  pub mem : Mem
  pub errno : ℤ
  pub dev : D

-- `struct nvme_passthru_cmd`, which `struct nvme_admin_cmd` is another name of.
pub record PassthruCmd : Type 0 where
  pub opcode : ℕ
  pub flags : ℕ
  pub rsvd1 : ℕ
  pub nsid : ℕ
  pub cdw2 : ℕ
  pub cdw3 : ℕ
  pub metadata : ℕ
  pub addr : ℕ
  pub metadata_len : ℕ
  pub data_len : ℕ
  pub cdw10 : ℕ
  pub cdw11 : ℕ
  pub cdw12 : ℕ
  pub cdw13 : ℕ
  pub cdw14 : ℕ
  pub cdw15 : ℕ
  pub timeout_ms : ℕ
  pub result : ℕ

-- The members that an initialiser does not name are 0.
abbrev pub zero_cmd : PassthruCmd
zero_cmd = record {
  opcode = 0;
  flags = 0;
  rsvd1 = 0;
  nsid = 0;
  cdw2 = 0;
  cdw3 = 0;
  metadata = 0;
  addr = 0;
  metadata_len = 0;
  data_len = 0;
  cdw10 = 0;
  cdw11 = 0;
  cdw12 = 0;
  cdw13 = 0;
  cdw14 = 0;
  cdw15 = 0;
  timeout_ms = 0;
  result = 0;
}

-- `struct nvme_user_io`
pub record UserIo : Type 0 where
  pub opcode : ℕ
  pub flags : ℕ
  pub control : ℕ
  pub nblocks : ℕ
  pub rsvd : ℕ
  pub metadata : ℕ
  pub addr : ℕ
  pub slba : ℕ
  pub dsmgmt : ℕ
  pub reftag : ℕ
  pub apptag : ℕ
  pub appmask : ℕ

-- A call returns an `int` and leaves a new world; a command may come back with a result in it.
pub record Outcome (D : Type 0) : Type 0 where
  pub err : ℤ
  pub world : World D

pub record Reply (D : Type 0) : Type 0 where
  pub err : ℤ
  pub cmd : PassthruCmd
  pub world : World D

-- `struct nvme_device_ops`
pub record DeviceOps (D : Type 0) : Type 0 where
  pub submit_admin_passthru : ℕ → PassthruCmd → World D → Reply D
  pub get_nsid : ℕ → World D → Outcome D
  pub io : ℕ → UserIo → World D → Outcome D
  pub subsystem_reset : ℕ → World D → Outcome D
  pub reset_controller : ℕ → World D → Outcome D
  pub ns_rescan : ℕ → World D → Outcome D
  pub submit_passthru : ℕ → ℕ → PassthruCmd → World D → Reply D
  pub submit_io_passthru : ℕ → PassthruCmd → World D → Reply D
  pub is_blk : World D → Bool

abbrev pub status_of : {D : Type 0} → Reply D → Outcome D
status_of r = record { err = r.err; world = r.world }
