-- ===== src/Ioctl/Feature.antt =====
-- nvme-ioctl.c: features, and the controller's properties of a fabrics device.
pub mod Registers
use mathlib.Core.Option
use switchtec_nvme_cli.Base.{
  ℕ, zero, suc, ◌+◌, ◌-◌, ◌*◌, ◌/◌, ◌^◌, Bool, true, false, ◌&&◌, ◌||◌, not, ℤ, pos, neg, is_zero,
  is_negative, to_unsigned, Option, none, some, bit_and, bit_or, u32, shl, shr, flag, replicate,
  ◌==◌, leb, if◌then◌else◌,
}
use switchtec_nvme_cli.Base.Memory.{Mem, le_bytes, store_bytes}
use switchtec_nvme_cli.Device.{World, PassthruCmd, zero_cmd, Outcome, DeviceOps, status_of}
use switchtec_nvme_cli.Status.Sc
use switchtec_nvme_cli.Ioctl.{Answer, answer}
use switchtec_nvme_cli.Ioctl.AdminOpcode
use switchtec_nvme_cli.Ioctl.Reg

unfoldable pub feature_cmd : (opcode nsid cdw10 cdw11 cdw12 data_len addr : ℕ) → PassthruCmd
feature_cmd opcode nsid cdw10 cdw11 cdw12 data_len addr = record zero_cmd {
  opcode = opcode;
  nsid = nsid;
  cdw10 = cdw10;
  cdw11 = cdw11;
  cdw12 = cdw12;
  addr = addr;
  data_len = data_len;
}

unfoldable pub set_feature_cdw10 : ℕ → Bool → ℕ
set_feature_cdw10 fid save = u32 (bit_or fid (flag save (shl 1 31)))

unfoldable pub get_feature_cdw10 : (fid sel : ℕ) → ℕ
get_feature_cdw10 fid sel = u32 (bit_or fid (shl sel 8))

unfoldable pub is_64bit_reg : ℕ → Bool
is_64bit_reg offset =
    offset == Reg.cap || (offset == Reg.asq || (offset == Reg.acq || offset == Reg.bpmbl))

-- `nvme_fabrics_command`, and the capsule commands that get and set a property.
abbrev pub fabrics_command : ℕ
fabrics_command = 0x7f

abbrev pub fabrics_type_property_set : ℕ
fabrics_type_property_set = 0x00

abbrev pub fabrics_type_property_get : ℕ
fabrics_type_property_get = 0x04

unfoldable pub get_property_cmd : ℕ → PassthruCmd
unfolding is_64bit_reg
get_property_cmd offset = record zero_cmd {
  opcode = fabrics_command;
  nsid = fabrics_type_property_get;
  cdw10 = flag (is_64bit_reg offset) 1;
  cdw11 = offset;
}

unfoldable pub set_property_cmd : (offset value : ℕ) → PassthruCmd
unfolding is_64bit_reg
set_property_cmd offset value = record zero_cmd {
  opcode = fabrics_command;
  nsid = fabrics_type_property_set;
  cdw10 = flag (is_64bit_reg offset) 1;
  cdw11 = offset;
  cdw12 = u32 (bit_and value 0xffff_ffff);
  cdw13 = u32 (shr value 32);
}

abbrev pub enomem : ℕ
enomem = 12

-- The store of a register's value, and the step to the next register.
abbrev pub store_property : {D : Type 0} (bar offset value : ℕ) → World D → World D
store_property bar offset value w = record w {
  mem = store_bytes (bar + offset) (le_bytes (if is_64bit_reg offset then 8 else 4) value) w.mem;
}

abbrev pub next_offset : ℕ → ℕ
next_offset offset = if is_64bit_reg offset then offset + 8 else offset + 4

-- `err > 0 && (err & 0xff) == NVME_SC_INVALID_FIELD`
abbrev pub is_invalid_field : ℤ → Bool
is_invalid_field err =
    not (is_negative err)
    && (not (is_zero err) && bit_and (to_unsigned 32 err) 0xff == Sc.invalid_field)

-- What `nvme_get_properties` leaves: the return value, the pointer in `*pbar`, and whether the block
-- that it leads to is still allocated.
pub record Properties (D : Type 0) : Type 0 where
  pub err : ℤ
  pub pbar : Option ℕ
  pub live : Bool
  pub world : World D

module _ {D : Type 0} (ops : DeviceOps D) (fd : ℕ) where
  unfoldable pub feature :
      (opcode nsid cdw10 cdw11 cdw12 data_len addr : ℕ) → Option ℕ → World D → Answer D
  feature opcode nsid cdw10 cdw11 cdw12 data_len addr result w =
      answer result
        (ops.submit_admin_passthru fd (feature_cmd opcode nsid cdw10 cdw11 cdw12 data_len addr) w)

  unfoldable pub set_feature :
      (nsid fid value cdw12 : ℕ) → Bool → (data_len addr : ℕ) → Option ℕ → World D → Answer D
  unfolding feature
  set_feature nsid fid value cdw12 save data_len addr =
      feature AdminOpcode.set_features nsid (set_feature_cdw10 fid save) value cdw12 data_len addr

  unfoldable pub get_feature :
      (nsid fid sel cdw11 data_len addr : ℕ) → Option ℕ → World D → Answer D
  unfolding feature
  get_feature nsid fid sel cdw11 data_len addr =
      feature AdminOpcode.get_features nsid (get_feature_cdw10 fid sel) cdw11 0 data_len addr

  unfoldable pub get_property : ℕ → Option ℕ → World D → Answer D
  get_property offset value w =
      answer value (ops.submit_admin_passthru fd (get_property_cmd offset) w)

  unfoldable pub set_property : (offset value : ℕ) → World D → Outcome D
  set_property offset value w =
      status_of (ops.submit_admin_passthru fd (set_property_cmd offset value) w)

  -- The loop of `nvme_get_properties`; `value` is the local variable, and `err` the result so far.
  -- `none` means that the fuel ran out.
  unfoldable pub properties_loop : ℕ → (bar offset value : ℕ) → ℤ → World D → Option (Properties D)
  properties_loop zero bar offset value err w = none
  properties_loop (suc fuel) bar offset value err w =
      let got = get_property offset (some value) w in
      let read = Option.get_or got.result value in
      let skip =
        properties_loop fuel bar (next_offset offset) (2 ^ 64 - 1) (pos 0)
          (store_property bar offset (2 ^ 64 - 1) got.world) in
      let keep =
        properties_loop fuel bar (next_offset offset) read got.err
          (store_property bar offset read got.world) in
      if leb offset Reg.cmbsz
      then if is_invalid_field got.err
        then skip
        else if not (is_zero got.err)
        then some (record { err = got.err; pbar = some bar; live = false; world = got.world })
        else keep
      else some (record { err = err; pbar = some bar; live = true; world = w })

  -- The option is what `malloc` gives, and `size` the size of a page. `err` and `value` are not read
  -- before the first register sets them. The 16 rounds are more than the 13 registers.
  unfoldable pub get_properties : Option ℕ → ℕ → World D → Option (Properties D)
  get_properties none size w =
      some (record { err = neg enomem; pbar = none; live = false; world = w })
  get_properties (some bar) size w =
      properties_loop 16 bar Reg.cap 0 (pos 0)
        (record w { mem = store_bytes bar (replicate size 0xff) w.mem })
