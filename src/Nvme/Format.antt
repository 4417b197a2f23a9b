-- ===== src/Nvme/Format.antt =====
-- nvme.c: `format`, from the open device on. The two structures that the device fills stand at
-- addresses that are parameters, and so do reading the partition table again and the mode of the device.
pub mod Sizes
pub mod Namespaces
use switchtec_nvme_cli.Base.{
  ℕ, zero, suc, ◌+◌, ◌-◌, ◌*◌, ◌%◌, ◌^◌, Bool, true, false, not, ◌&&◌, ◌||◌, ℤ, pos, neg, negate,
  is_zero, is_negative, to_unsigned, Option, none, some, bit_and, u64, ltb, ◌==◌, if◌then◌else◌,
}
use switchtec_nvme_cli.Base.Memory.{Mem, load_le}
use switchtec_nvme_cli.Device.{World, Outcome, DeviceOps}
use switchtec_nvme_cli.Ioctl.{Stat, get_nsid, reset_controller}
use switchtec_nvme_cli.Ioctl.Identify.{identify_ctrl, identify_ns}
use switchtec_nvme_cli.Ioctl.Log.{nsid_all}
use switchtec_nvme_cli.Ioctl.Manage.{format}

-- `struct config`
pub record Config : Type 0 where
  pub namespace_id : ℕ
  pub timeout : ℕ
  pub lbaf : ℕ
  pub ses : ℕ
  pub pi : ℕ
  pub pil : ℕ
  pub ms : ℕ
  pub bs : ℕ
  pub reset : Bool

-- The value of `lbaf` that stands for none.
abbrev pub no_lbaf : ℕ
no_lbaf = 0xff

-- `(cfg.bs & (~cfg.bs + 1)) == cfg.bs`, in 64 bits
abbrev pub is_power : ℕ → Bool
is_power bs = bit_and bs (u64 (2 ^ 64 - bs)) == bs

-- The members of the structures: `fna`, `flbas`, and `ds` and `ms` of a format.
abbrev pub fna_at : ℕ → Mem → ℕ
fna_at ctrl m = m (ctrl + 524)

abbrev pub flbas_at : ℕ → Mem → ℕ
flbas_at ns m = m (ns + 26)

abbrev pub ds_at : ℕ → ℕ → Mem → ℕ
ds_at ns i m = m (ns + 128 + 4 * i + 2)

abbrev pub ms_at : ℕ → ℕ → Mem → ℕ
ms_at ns i m = load_le 2 (ns + 128 + 4 * i) m

-- `(1ULL << ns.lbaf[i].ds) == cfg.bs && ns.lbaf[i].ms == 0`; a shift by more than 63 is taken by its low bits.
abbrev pub fits : (ns : ℕ) → Mem → (bs i : ℕ) → Bool
fits ns m bs i = 2 ^ (ds_at ns i m % 64) == bs && ms_at ns i m == 0

-- The loop over the formats, with the number of those that are left.
unfoldable pub find_lbaf : (ns : ℕ) → Mem → (bs i left : ℕ) → Option ℕ
find_lbaf ns m bs i zero = none
find_lbaf ns m bs i (suc left) =
    let rest = find_lbaf ns m bs (i + 1) left in if fits ns m bs i then some i else rest

-- "invalid secure erase settings", "invalid lbaf", and so on.
unfoldable pub is_invalid : Config → (lbaf : ℕ) → Bool
is_invalid cfg lbaf =
    ltb 7 cfg.ses || (ltb 15 lbaf || (ltb 7 cfg.pi || (ltb 1 cfg.pil || ltb 1 cfg.ms)))

-- A value that the code goes on with, or an error.
pub data Next (A D : Type 0) : Type 0 where
  go : A → World D → Next A D
  stop : Outcome D → Next A D

abbrev pub einval : {A D : Type 0} → World D → Next A D
einval w = Next.stop (record { err = neg 22; world = w })

abbrev pub and_then : {A D : Type 0} → Next A D → (A → World D → Outcome D) → Outcome D
and_then (Next.go a w) f = f a w
and_then (Next.stop r) f = r

-- What the device's system calls are.
pub record Calls (D : Type 0) : Type 0 where
  pub fstat : ℕ → World D → Stat D
  pub reread : ℕ → World D → Outcome D
  pub is_chr : Bool

module _ {D : Type 0} (calls : Calls D) (ops : DeviceOps D) (fd ctrl ns : ℕ) where
  unfoldable pub check_size : Config → World D → Next ℕ D
  check_size cfg w =
      if not (cfg.lbaf == no_lbaf) && not (cfg.bs == 0)
      then einval w
      else if not (cfg.bs == 0) && not (is_power cfg.bs)
      then einval w
      else Next.go cfg.bs w

  -- "FNA bit 0 set to 1: all namespaces"; otherwise that which is given, or the one of the device. The
  -- result of `nvme_get_nsid` is stored in a `__u32`, which is never below 0.
  unfoldable pub choose_nsid : Config → World D → Next ℕ D
  choose_nsid cfg w =
      let r = identify_ctrl ops fd ctrl w in
      let got = get_nsid calls.fstat ops fd r.world in
      if not (is_zero r.err)
      then Next.stop r
      else if bit_and (fna_at ctrl r.world.mem) 1 == 1
      then Next.go nsid_all r.world
      else if not (cfg.namespace_id == 0)
      then Next.go cfg.namespace_id r.world
      else if to_unsigned 32 got.err == 0
      then einval got.world
      else Next.go (to_unsigned 32 got.err) got.world

  abbrev format_or_einval : {E : Type 0} → Option ℕ → (prev : ℕ) → World E → Next (ℕ × ℕ) E
  format_or_einval none prev w = einval w
  format_or_einval (some i) prev w = Next.go (i, prev) w

  -- The format to ask for, and the one before.
  unfoldable pub choose_lbaf : Config → (nsid : ℕ) → World D → Next (ℕ × ℕ) D
  choose_lbaf cfg nsid w =
      let r = identify_ns ops fd nsid false ns w in
      let prev = bit_and (flbas_at ns r.world.mem) 0xf in
      if nsid == nsid_all
      then Next.go (if cfg.lbaf == no_lbaf then 0 else cfg.lbaf, 0) w
      else if not (is_zero r.err)
      then Next.stop r
      else if not (cfg.bs == 0)
      then format_or_einval (find_lbaf ns r.world.mem cfg.bs 0 16) prev r.world
      else Next.go (if cfg.lbaf == no_lbaf then prev else cfg.lbaf, prev) r.world

  -- Behind a format that went well.
  unfoldable pub after_format : Config → (lbaf prev : ℕ) → Outcome D → Outcome D
  after_format cfg lbaf prev r =
      let again = calls.reread fd r.world in
      let w = if lbaf == prev then r.world else again.world in
      if not (lbaf == prev) && is_negative again.err
      then record { err = negate again.world.errno; world = again.world }
      else if cfg.reset && calls.is_chr
      then record { err = r.err; world = (reset_controller calls.fstat ops fd w).world }
      else record { err = r.err; world = w }

  unfoldable pub send_format : Config → (nsid : ℕ) → ℕ × ℕ → World D → Outcome D
  send_format cfg nsid (lbaf, prev) w =
      let r = format ops fd nsid lbaf cfg.ses cfg.pi cfg.pil cfg.ms cfg.timeout w in
      let done = after_format cfg lbaf prev r in
      if is_invalid cfg lbaf
      then record { err = neg 22; world = w }
      else if is_zero r.err
      then done
      else r

  -- The error, before it becomes an errno.
  unfoldable pub format_error : Config → World D → Outcome D
  format_error cfg w = and_then (check_size cfg w) (λ bs v.
      and_then (choose_nsid cfg v)
        (λ nsid u. and_then (choose_lbaf cfg nsid u) (send_format cfg nsid)))
