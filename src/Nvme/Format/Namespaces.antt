-- ===== src/Nvme/Format/Namespaces.antt =====
-- The namespace that `format` formats.
use switchtec_nvme_cli.Base.{
  ℕ, ◌/◌, ◌%◌, ◌^◌, ◌<◌, ◌≡◌, refl, arith, if◌then◌else◌, true, false, negsuc, is_zero, is_negative,
  bit_and, ◌==◌, Bool-cases, inl, inr,
}
use switchtec_nvme_cli.Device.{World, PassthruCmd, Outcome, DeviceOps, status_of}
use switchtec_nvme_cli.Ioctl.{Stat, get_nsid}
use switchtec_nvme_cli.Ioctl.Identify.{identify_ctrl}
use switchtec_nvme_cli.Ioctl.Log.{nsid_all}
use switchtec_nvme_cli.Ioctl.Manage.{format, format_cmd}
use switchtec_nvme_cli.Ioctl.Manage.Fields.{format_cmd-fields}
use switchtec_nvme_cli.Nvme.Format.{
  Config, Next, Calls, no_lbaf, is_power, fna_at, check_size, choose_nsid, choose_lbaf,
  after_format, is_invalid, send_format, format_error,
}

-- The format that is given, or 0.
abbrev pub given_or_0 : Config → ℕ
given_or_0 cfg = if cfg.lbaf == no_lbaf then 0 else cfg.lbaf

-- Settings that pass the checks of `format`.
abbrev pub IsValid : Config → (lbaf : ℕ) → Type 0
IsValid cfg lbaf = (lbaf < 16) × (cfg.ses < 8) × (cfg.pi < 8) × (cfg.pil < 2) × (cfg.ms < 2)

-- Format NVM for all namespaces, with the format `lbaf` and the secure erase setting.
abbrev pub FormatsAll : Config → (lbaf : ℕ) → PassthruCmd → Type 0
FormatsAll cfg lbaf c =
    (c.opcode ≡ 0x80)
    × (c.nsid ≡ 0xffff_ffff)
    × (c.cdw10 % 2 ^ 4 ≡ lbaf)
    × (c.cdw10 / 2 ^ 9 ≡ cfg.ses)

module _ {D : Type 0} (calls : Calls D) (ops : DeviceOps D) (fd ctrl ns : ℕ) where
  get_nsid-failed :
      (w : World D) (s : Stat D) (got : World D)
      → calls.fstat fd w ≡ s
      → is_negative s.err ≡ false
      → ops.is_blk s.world ≡ true
      → ops.get_nsid fd s.world ≡ record { err = negsuc 0; world = got }
      → get_nsid calls.fstat ops fd w ≡ record { err = negsuc 0; world = got }
  unfolding get_nsid
  get_nsid-failed w s got stat opened blk failed = rw (get_nsid, stat, opened, blk, failed) refl

  choose_nsid-failed :
      (cfg : Config) (w got : World D)
      → (cfg.namespace_id == 0) ≡ true
      → let r = identify_ctrl ops fd ctrl w in
        is_zero r.err ≡ true
        → (bit_and (fna_at ctrl r.world.mem) 1 == 1) ≡ false
        → get_nsid calls.fstat ops fd r.world ≡ record { err = negsuc 0; world = got }
        → choose_nsid calls ops fd ctrl ns cfg w ≡ Next.go nsid_all got
  unfolding choose_nsid
  choose_nsid-failed cfg w got none_given ok single failed =
      rw (choose_nsid, ok, single, none_given, failed) refl

  -- The outcome of `format` for the answer of the device to a command.
  abbrev pub answered : Config → (lbaf : ℕ) → Outcome D → Outcome D
  answered cfg lbaf r = if is_zero r.err then after_format calls ops fd ctrl ns cfg lbaf 0 r else r

  send_format-FormatsAll :
      (cfg : Config) (lbaf : ℕ) (w : World D)
      → IsValid cfg lbaf
      → (c : PassthruCmd) × (send_format calls ops fd ctrl ns cfg nsid_all (lbaf, 0) w
          ≡ answered cfg lbaf (status_of (ops.submit_admin_passthru fd c w)))
        × FormatsAll cfg lbaf c
  unfolding send_format is_invalid format format_cmd
  send_format-FormatsAll cfg lbaf w (l, e, p, q, m) =
      let valid : is_invalid cfg lbaf ≡ false = ground arith in
      let (f0, f1, f2, f3, f4) =
        format_cmd-fields nsid_all lbaf cfg.ses cfg.pi cfg.pil cfg.ms cfg.timeout (omega arith)
          (omega arith) (omega arith) (omega arith) (omega arith) in
      (
        format_cmd nsid_all lbaf cfg.ses cfg.pi cfg.pil cfg.ms cfg.timeout,
        rw (send_format, valid) refl,
        (refl, refl, f0, f4),
      )

  choose_lbaf-all :
      (cfg : Config) (w : World D)
      → choose_lbaf calls ops fd ctrl ns cfg nsid_all w ≡ Next.go (given_or_0 cfg, 0) w
  unfolding choose_lbaf
  choose_lbaf-all cfg w = refl

  check_size-none :
      (cfg : Config) (w : World D)
      → (cfg.bs == 0) ≡ true
      → check_size calls ops fd ctrl ns cfg w ≡ Next.go cfg.bs w
  unfolding check_size
  check_size-none cfg w no_size = elim (Bool-cases (cfg.lbaf == no_lbaf)) [
    | inl q ↦ rw (check_size, q, no_size) refl
    | inr q ↦ rw (check_size, q, no_size) refl
  ]

  -- When the device is to be asked for its namespace and the call of its driver returns -1, as the kernel's
  -- driver does for every error, all namespaces are formatted: the command that is sent is Format NVM for the
  -- namespace 0xffffffff, with the format that is given, or format 0, and with the secure erase setting. No
  -- block size and no namespace is given, the settings are valid, and the controller formats single namespaces.
  pub format_error_all :
      (cfg : Config) (w : World D) (s : Stat D) (got : World D)
      → (cfg.namespace_id == 0) ≡ true
      → (cfg.bs == 0) ≡ true
      → IsValid cfg (given_or_0 cfg)
      → let r = identify_ctrl ops fd ctrl w in
        is_zero r.err ≡ true
        → (bit_and (fna_at ctrl r.world.mem) 1 == 1) ≡ false
        → calls.fstat fd r.world ≡ s
        → is_negative s.err ≡ false
        → ops.is_blk s.world ≡ true
        → ops.get_nsid fd s.world ≡ record { err = negsuc 0; world = got }
        → (c : PassthruCmd) × (format_error calls ops fd ctrl ns cfg w
            ≡ answered cfg (given_or_0 cfg) (status_of (ops.submit_admin_passthru fd c got)))
          × FormatsAll cfg (given_or_0 cfg) c
  unfolding format_error
  format_error_all cfg w s got none_given no_size valid ok single stat opened blk failed =
      let chosen =
        choose_nsid-failed cfg w got none_given ok single
          (get_nsid-failed (identify_ctrl ops fd ctrl w).world s got stat opened blk failed) in
      let (c, sent, all) = send_format-FormatsAll cfg (given_or_0 cfg) got valid in
      (
        c,
        rw (format_error, check_size-none cfg w no_size, chosen, choose_lbaf-all cfg got) sent,
        all,
      )

  choose_nsid-all :
      (cfg : Config) (w : World D)
      → let r = identify_ctrl ops fd ctrl w in
        is_zero r.err ≡ true
        → (bit_and (fna_at ctrl r.world.mem) 1 == 1) ≡ true
        → choose_nsid calls ops fd ctrl ns cfg w
          ≡ Next.go nsid_all (identify_ctrl ops fd ctrl w).world
  unfolding choose_nsid
  choose_nsid-all cfg w ok all = rw (choose_nsid, ok, all) refl

  check_size-power :
      (cfg : Config) (w : World D)
      → (cfg.lbaf == no_lbaf) ≡ true
      → is_power cfg.bs ≡ true
      → check_size calls ops fd ctrl ns cfg w ≡ Next.go cfg.bs w
  unfolding check_size
  check_size-power cfg w none_given power = elim (Bool-cases (cfg.bs == 0)) [
    | inl q ↦ rw (check_size, none_given, q) refl
    | inr q ↦ rw (check_size, none_given, q, power) refl
  ]

  -- Where a controller formats all namespaces alike, a block size that is asked for is ignored: for any
  -- power of two, and for none, the command that is sent is Format NVM for all namespaces with format 0. No format
  -- is given, and the settings are valid.
  pub format_error-ignores_size :
      (cfg : Config) (w : World D)
      → (cfg.lbaf == no_lbaf) ≡ true
      → is_power cfg.bs ≡ true
      → IsValid cfg 0
      → let r = identify_ctrl ops fd ctrl w in
        is_zero r.err ≡ true
        → (bit_and (fna_at ctrl r.world.mem) 1 == 1) ≡ true
        → (c : PassthruCmd) × (format_error calls ops fd ctrl ns cfg w
            ≡ answered cfg 0 (status_of (ops.submit_admin_passthru fd c r.world)))
          × FormatsAll cfg 0 c
  unfolding format_error choose_lbaf
  format_error-ignores_size cfg w none_given power valid ok all =
      let v = (identify_ctrl ops fd ctrl w).world in
      let (c, sent, formats) = send_format-FormatsAll cfg 0 v valid in
      (
        c,
        rw
            (
              format_error,
              check_size-power cfg w none_given power,
              choose_nsid-all cfg w ok all,
              choose_lbaf,
              none_given,
            )
            sent,
        formats,
      )
