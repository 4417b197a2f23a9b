-- ===== src/Fabrics/Commands/Connect.antt =====
-- What `fabrics_connect` writes to the kernel.
use switchtec_nvme_cli.Base.{
  ℕ, suc, ◌+◌, ◌-◌, ◌≤◌, ◌<◌, ◌≡◌, refl, ◌∙◌, ap, ◌⊎◌, true, false, Bool-cases, sym, inl, inr, ◌==◌,
  ℤ, pos, negsuc, negate, is_negative, Option, List, ◌++◌, length, some, arith,
}
use switchtec_nvme_cli.Base.Memory.{Mem, load_bytes}
use mathlib.Core.Path.{subst}
use switchtec_nvme_cli.Device.{World}
use switchtec_nvme_cli.Text.Search.{codes, until}
use switchtec_nvme_cli.Fabrics.Args.Occurrences.{Plain, until-append}
use switchtec_nvme_cli.Fabrics.Args.Laws.{join}
use switchtec_nvme_cli.Fabrics.Config.{Config, HostFiles}
use switchtec_nvme_cli.Fabrics.Options.{build_options, lacks_argument}
use switchtec_nvme_cli.Fabrics.Options.Pieces.{load_bytes-append}
use switchtec_nvme_cli.Fabrics.Options.Laws.{
  nqn_item, option_items, with_host, build_options-written,
}
use switchtec_nvme_cli.Fabrics.Ctrl.{System, same_length, read_instance, add_ctrl}
use switchtec_nvme_cli.Fabrics.Commands.{
  Resolver, traddr_is_hostname, resolve, buf_size, text_at, or_error, connect_built,
  connect_options, connect_error,
}

-- A text that ends inside the buffer is read whole.
text_at-content :
    (at : ℕ) (m : Mem) (text : List ℕ)
    → length text < buf_size
    → Plain 0 text
    → load_bytes (length text) at m ≡ text
    → m (at + length text) ≡ 0
    → text_at at m ≡ text
unfolding load_bytes
text_at-content at m text fits plain content end =
    let n = length text in
    let rest = buf_size - n - 1 in
    let whole : buf_size ≡ n + suc rest = omega arith in
    ap (λ (k : ℕ). until 0 (load_bytes k at m)) whole
    ∙ ap (until 0) (
        load_bytes-append n (suc rest) at m
        ∙ ap (λ s. s ++ load_bytes (suc rest) (at + n) m) content)
    ∙ until-append 0 text (load_bytes (suc rest) (at + n) m) plain end

module _ {D : Type 0} (sys : System D) (files : HostFiles) (names : Resolver) (argstr : ℕ) where
  connect_options-added :
      (cfg : Config) (nqn text : List ℕ) (w : World D)
      → let built = build_options files argstr (pos buf_size) false cfg w.mem in
        built.err ≡ pos 0
        → built.cfg.nqn ≡ some nqn
        → text_at argstr built.mem ≡ text
        → connect_options sys files names argstr cfg w
          ≡ or_error (add_ctrl sys text (record w { mem = built.mem }))
  unfolding connect_options connect_built
  connect_options-added cfg nqn text w ok named read =
      rw (connect_options, ok, connect_built, named, read) refl

  -- What becomes of a text that is written to /dev/nvme-fabrics, `text` being the bytes of the one write: no
  -- device to open, all of it written and the kernel's answer read, or not all of it written.
  abbrev pub Outcomes : (text : List ℕ) → World D → Option (ℤ × World D) → Type 0
  Outcomes text w result =
      let (fd, v) = sys.calls.open_path (codes "/dev/nvme-fabrics") w in
      let (ret, u) = sys.write fd text v in
      ((is_negative fd ≡ true) × (result ≡ or_error (some (negate v.errno, v))))
      ⊎ (((is_negative fd ≡ false)
            × (ret ≡ pos (length text))
            × (result ≡ or_error (read_instance sys fd u)))
          ⊎ ((is_negative fd ≡ false)
              × ¬ (ret ≡ pos (length text))
              × (result ≡ or_error (some (negate u.errno, u)))))

  same_length-true : (ret : ℤ) (n : ℕ) → same_length sys ret n ≡ true → ret ≡ pos n
  same_length-true (pos m) n e = ap pos (equal m n e)
    where
      equal : (a b : ℕ) → (a == b) ≡ true → a ≡ b
      equal a b f = ground arith
  same_length-true (negsuc m) n e = cc

  same_length-false : (ret : ℤ) (n : ℕ) → same_length sys ret n ≡ false → ¬ (ret ≡ pos n)
  same_length-false ret n e same = absurd (opposite (ap (λ r. same_length sys r n) (sym same) ∙ e))
    where
      opposite : (n == n) ≡ false → ⊥
      opposite f = ground arith

  add_ctrl-Outcomes :
      (text : List ℕ) (w : World D) → Outcomes text w (or_error (add_ctrl sys text w))
  unfolding add_ctrl
  add_ctrl-Outcomes text w =
      let (fd, v) = sys.calls.open_path (codes "/dev/nvme-fabrics") w in
      let (ret, u) = sys.write fd text v in
      elim (Bool-cases (is_negative fd)) [
        | inl q ↦ inl (q, rw (add_ctrl, q) refl)
        | inr q ↦ elim (Bool-cases (same_length sys ret (length text))) [
          | inl e ↦ inr (inl (q, same_length-true ret (length text) e, rw (add_ctrl, q, e) refl))
          | inr e ↦ inr (inr (q, same_length-false ret (length text) e, rw (add_ctrl, q, e) refl))
        ]
      ]

  -- With a subsystem's name and nothing missing, `fabrics_connect` opens /dev/nvme-fabrics and writes to it, in one
  -- write, exactly the options that are given, in order and with commas between them; nothing else in memory than
  -- the buffer has changed before, and the device and `errno` are as they were. When the open fails, or fewer bytes
  -- are written, the outcome is its errno; otherwise it is that of the kernel's answer, with 0 for an instance. The
  -- address is no host name, no text has a 0 in it, and with a 0 behind them the options fit the buffer of 4096
  -- bytes.
  pub connect_error-writes :
      (cfg : Config) (nqn : List ℕ) (w : World D)
      → traddr_is_hostname names cfg ≡ some false
      → lacks_argument cfg.transport cfg.traddr ≡ false
      → cfg.nqn ≡ some nqn
      → let text = join b',' (nqn_item cfg) (option_items false (with_host files cfg)) in
        length text < buf_size
        → Plain 0 text
        → (m : Mem) × Outcomes text
            (record w { mem = m })
            (connect_error sys files names argstr cfg w)
          × ((i : ℕ) → (i < argstr) ⊎ (argstr + buf_size ≤ i) → m i ≡ w.mem i)
  unfolding connect_error resolve
  connect_error-writes cfg nqn w address complete named fits plain =
      let text = join b',' (nqn_item cfg) (option_items false (with_host files cfg)) in
      let built =
        build_options-written files argstr buf_size false cfg w.mem (omega arith) complete fits in
      let r = build_options files argstr (pos buf_size) false cfg w.mem in
      let added =
        connect_options-added cfg nqn text w built.success
          (ap (λ (c : Config). c.nqn) built.host ∙ named)
          (text_at-content argstr r.mem text fits plain built.content built.terminated) in
      let whole : connect_error sys files names argstr cfg w
          ≡ or_error (add_ctrl sys text (record w { mem = r.mem })) =
        rw (connect_error, resolve, address) added in
      (
        r.mem,
        subst (Outcomes text (record w { mem = r.mem })) (sym whole)
            (add_ctrl-Outcomes text (record w { mem = r.mem })),
        built.outside,
      )
