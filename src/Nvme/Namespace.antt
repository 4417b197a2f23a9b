-- ===== src/Nvme/Namespace.antt =====
-- nvme.c: `delete_ns`, `attach_ns` and `detach_ns`, and `create_ns`, from the open device on. The local
-- structures whose address a command carries stand at addresses that are parameters.
pub mod Attach
pub mod Delete
use switchtec_nvme_cli.Base.{
  ℕ, zero, suc, ◌+◌, ◌-◌, ◌*◌, ◌%◌, ◌^◌, Bool, true, false, not, ◌&&◌, ℤ, pos, neg, is_zero,
  to_signed, to_unsigned, List, Option, none, some, get_or, ◌==◌, if◌then◌else◌,
}
use switchtec_nvme_cli.Base.Memory.{Mem}
use switchtec_nvme_cli.Device.{World, Outcome, DeviceOps}
use switchtec_nvme_cli.Ioctl.{Stat, Answer, get_nsid}
use switchtec_nvme_cli.Ioctl.Identify.{identify_ns}
use switchtec_nvme_cli.Ioctl.Log.{nsid_all}
use switchtec_nvme_cli.Ioctl.Manage.{ns_delete}
use switchtec_nvme_cli.Ioctl.Payload.{ns_attachment, ns_create}
use switchtec_nvme_cli.Argconfig.{parse_comma_sep_array, failed}
use switchtec_nvme_cli.Nvme.Format.{ds_at, ms_at, is_power}

abbrev einval : {D : Type 0} → World D → Outcome D
einval w = record { err = neg 22; world = w }

-- `(uint16_t)list[i]`
abbrev pub ctrlist : List ℤ → ℕ → ℕ
ctrlist list i = to_unsigned 16 (get_or list i (pos 0))

-- `struct config` of `create_ns`
pub record Create : Type 0 where
  pub nsze : ℕ
  pub ncap : ℕ
  pub flbas : ℕ
  pub dps : ℕ
  pub nmic : ℕ
  pub anagrpid : ℕ
  pub nvmsetid : ℕ
  pub bs : ℕ
  pub timeout : ℕ

-- `(1 << ns.lbaf[i].ds) == cfg.bs && ns.lbaf[i].ms == 0`, with an `int` that is shifted.
abbrev pub fits_int : (ns : ℕ) → Mem → (bs i : ℕ) → Bool
fits_int ns m bs i =
    to_unsigned 64 (to_signed 32 (2 ^ (ds_at ns i m % 32))) == bs && ms_at ns i m == 0

-- The loop over the formats, with the number of those that are left.
unfoldable pub find_flbas : (ns : ℕ) → Mem → (bs flbas i left : ℕ) → ℕ
find_flbas ns m bs flbas i zero = flbas
find_flbas ns m bs flbas i (suc left) =
    let rest = find_flbas ns m bs flbas (i + 1) left in if fits_int ns m bs i then i else rest

module _ {D : Type 0} (fstat : ℕ → World D → Stat D) (ops : DeviceOps D) (fd : ℕ) where
  -- The result of `nvme_get_nsid` is stored in a `__u32`, which is never below 0.
  unfoldable pub delete_ns : (namespace_id timeout : ℕ) → World D → Outcome D
  delete_ns namespace_id timeout w =
      let got = get_nsid fstat ops fd w in
      let nsid = to_unsigned 32 got.err in
      if not (namespace_id == 0)
      then ns_delete ops fd namespace_id timeout w
      else if nsid == 0
      then einval got.world
      else ns_delete ops fd nsid timeout got.world

module _ {D : Type 0} (ops : DeviceOps D) (fd at : ℕ) where
  -- `attach_ns`, and `detach_ns`, with the text of the controllers.
  unfoldable pub attach_ns :
      (namespace_id : ℕ) → (cntlist : Option (List ℕ)) → (attach : Bool) → World D → Outcome D
  attach_ns namespace_id cntlist attach w =
      let (num, list) = parse_comma_sep_array cntlist 2047 in
      if namespace_id == 0
      then einval w
      else if num == failed
      then einval w
      else ns_attachment ops fd at namespace_id num (ctrlist list) attach w

module _ {D : Type 0} (ops : DeviceOps D) (fd ns at result : ℕ) where
  -- With the format; 0xff stands for none.
  unfoldable pub create_with : Create → (flbas : ℕ) → World D → Outcome D
  create_with cfg flbas w =
      let r =
        ns_create ops fd at cfg.nsze cfg.ncap flbas cfg.dps cfg.nmic cfg.anagrpid cfg.nvmsetid
          cfg.timeout (some result) w in
      if flbas == 0xff then einval w else record { err = r.err; world = r.world }

  unfoldable pub create_ns : Create → World D → Outcome D
  create_ns cfg w =
      let r = identify_ns ops fd nsid_all false ns w in
      let found = find_flbas ns r.world.mem cfg.bs cfg.flbas 0 16 in
      if not (cfg.flbas == 0xff) && not (cfg.bs == 0)
      then einval w
      else if cfg.bs == 0
      then create_with cfg cfg.flbas w
      else if not (is_power cfg.bs)
      then einval w
      else if not (is_zero r.err)
      then r
      else create_with cfg found r.world
