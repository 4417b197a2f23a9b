-- ===== src/Fabrics/Options/Laws.antt =====
-- The text that `build_options` writes, and where.
use mathlib.Core.List.{append_assoc}
use mathlib.Core.Path.{subst}
use switchtec_nvme_cli.Base.{
  ℕ, ◌+◌, ◌^◌, ◌≤◌, ◌<◌, ◌≡◌, refl, ◌∙◌, ap, sym, ◌⊎◌, Bool, true, false, ℤ, pos, List, [], ◌∷◌,
  ◌++◌, length, length-append, arith,
}
use switchtec_nvme_cli.Base.Memory.{Mem, load_bytes}
use switchtec_nvme_cli.Text.Search.{codes}
use switchtec_nvme_cli.Json.{or_null}
use switchtec_nvme_cli.Fabrics.Args.Laws.{join}
use switchtec_nvme_cli.Fabrics.Config.{Config, HostFiles}
use switchtec_nvme_cli.Fabrics.Builder.{Builder}
use switchtec_nvme_cli.Fabrics.Options.{
  Built, network_arguments, tuning_arguments, with_hostnqn, with_hostid, write_tuning, write_hostid,
  write_host, write_options, lacks_argument, build_options,
}
use switchtec_nvme_cli.Fabrics.Options.Pieces.{IsAt, IsWritten, format-fits}
use switchtec_nvme_cli.Fabrics.Options.Items.{
  named, numbered, flagged, unless_discover, flatten, with_commas, with_commas-append,
  join-with_commas, AllWrite, add_argument-Writes, add_int_argument-Writes,
  add_bool_argument-Writes, unless-Writes, chain-Writes,
}

abbrev pub network_items : Config → List (List (List ℕ))
network_items cfg =
    named (codes "transport") cfg.transport
    ∷ named (codes "traddr") cfg.traddr
    ∷ named (codes "host_traddr") cfg.host_traddr
    ∷ named (codes "trsvcid") cfg.trsvcid
    ∷ []

abbrev pub tuning_items : (discover : Bool) → Config → List (List (List ℕ))
tuning_items discover cfg =
    unless_discover discover (numbered (codes "nr_io_queues") cfg.nr_io_queues false)
    ∷ numbered (codes "nr_write_queues") cfg.nr_write_queues false
    ∷ numbered (codes "nr_poll_queues") cfg.nr_poll_queues false
    ∷ unless_discover discover (numbered (codes "queue_size") cfg.queue_size false)
    ∷ unless_discover discover (numbered (codes "keep_alive_tmo") cfg.keep_alive_tmo false)
    ∷ numbered (codes "reconnect_delay") cfg.reconnect_delay false
    ∷ numbered (codes "ctrl_loss_tmo") cfg.ctrl_loss_tmo false
    ∷ numbered (codes "tos") cfg.tos true
    ∷ flagged (codes "duplicate_connect") cfg.duplicate_connect
    ∷ flagged (codes "disable_sqflow") cfg.disable_sqflow
    ∷ flagged (codes "hdr_digest") cfg.hdr_digest
    ∷ flagged (codes "data_digest") cfg.data_digest
    ∷ []

-- The first item, and those behind it, for a `cfg` with the host's identifiers.
abbrev pub nqn_item : Config → List ℕ
nqn_item cfg = codes "nqn=" ++ or_null cfg.nqn

abbrev pub option_items : (discover : Bool) → Config → List (List ℕ)
option_items discover cfg =
    flatten (network_items cfg)
    ++ named (codes "hostnqn") cfg.hostnqn
    ++ named (codes "hostid") cfg.hostid
    ++ flatten (tuning_items discover cfg)

abbrev pub with_host : HostFiles → Config → Config
with_host files cfg = with_hostid files (with_hostnqn files cfg)

behind :
    (text : List ℕ) (xs ys : List (List ℕ))
    → text ++ with_commas (xs ++ ys) ≡ text ++ with_commas xs ++ with_commas ys
behind text xs ys =
    ap (λ s. text ++ s) (with_commas-append xs ys)
    ∙ sym (append_assoc text (with_commas xs) (with_commas ys))

module _ (m : Mem) (at size : ℕ) (small : size < 2 ^ 31) where
  network_arguments-AllWrite :
      (cfg : Config) → AllWrite m at size small (network_items cfg) (network_arguments cfg)
  unfolding network_arguments
  network_arguments-AllWrite cfg =
      let add = add_argument-Writes m at size small in
      (add _ _, (add _ _, (add _ _, (add _ _, tt))))

  tuning_arguments-AllWrite :
      (discover : Bool) (cfg : Config)
      → AllWrite m at size small (tuning_items discover cfg) (tuning_arguments discover cfg)
  unfolding tuning_arguments
  tuning_arguments-AllWrite discover cfg =
      let add = add_int_argument-Writes m at size small in
      let flag = add_bool_argument-Writes m at size small in
      let hidden = unless-Writes m at size small discover in
      (
        hidden _ _ (add _ _ _),
        (
          add _ _ _,
          (
            add _ _ _,
            (
              hidden _ _ (add _ _ _),
              (
                hidden _ _ (add _ _ _),
                (
                  add _ _ _,
                  (add _ _ _, (add _ _ _, (flag _ _, (flag _ _, (flag _ _, (flag _ _, tt)))))),
                ),
              ),
            ),
          ),
        ),
      )

  start-IsAt : 0 < size → IsAt m at size [] (record { mem = m; argstr = at; max_len = pos size })
  unfolding load_bytes
  start-IsAt h = record {
    room = h;
    at_end = omega arith;
    left = ap pos (omega arith);
    content = refl;
    outside = λ i o. refl;
  }

  -- The text of all options is written.
  write_options-IsWritten :
      (files : HostFiles) (discover : Bool) (cfg : Config)
      → let T = nqn_item cfg ++ with_commas (option_items discover (with_host files cfg)) in
        length T < size
        → (b : Builder) × IsWritten m at size T b
          × (write_options files discover cfg (record { mem = m; argstr = at; max_len = pos size })
              ≡ record { err = pos 0; mem = b.mem; cfg = with_host files cfg })
  unfolding write_options write_host write_hostid write_tuning
  write_options-IsWritten files discover cfg h =
      let cfg2 = with_host files cfg in
      let nqn = nqn_item cfg in
      let ns = flatten (network_items cfg) in
      let qs = named (codes "hostnqn") cfg2.hostnqn in
      let is = named (codes "hostid") cfg2.hostid in
      let ts = flatten (tuning_items discover cfg2) in
      let t1 = nqn ++ with_commas ns in
      let t2 = t1 ++ with_commas qs in
      let t3 = t2 ++ with_commas is in
      let whole : nqn ++ with_commas (ns ++ qs ++ is ++ ts) ≡ t3 ++ with_commas ts =
        behind nqn (ns ++ qs ++ is) ts
        ∙ ap (λ s. s ++ with_commas ts)
            (behind nqn (ns ++ qs) is ∙ ap (λ s. s ++ with_commas is) (behind nqn ns qs)) in
      let fits : length nqn
            + length (with_commas ns)
            + length (with_commas qs)
            + length (with_commas is)
            + length (with_commas ts)
          < size =
        omega (
          arith,
          h,
          ap length whole,
          length-append t3 (with_commas ts),
          length-append t2 (with_commas is),
          length-append t1 (with_commas qs),
          length-append nqn (with_commas ns),
        ) in
      let (b1, e1, w1) =
        format-fits m at size [] nqn (record { mem = m; argstr = at; max_len = pos size }) small
          (start-IsAt (omega arith)) (omega arith) in
      let (b2, e2, w2) =
        chain-Writes m at size small (network_items cfg) (network_arguments cfg)
          (network_arguments-AllWrite cfg) nqn b1 w1 (omega arith) in
      let (b3, e3, w3) =
        add_argument-Writes m at size small (codes "hostnqn") cfg2.hostnqn t1 b2 w2
          (omega (arith, length-append nqn (with_commas ns))) in
      let (b4, e4, w4) =
        add_argument-Writes m at size small (codes "hostid") cfg2.hostid t2 b3 w3
          (omega (arith, length-append t1 (with_commas qs), length-append nqn (with_commas ns))) in
      let (b5, e5, w5) =
        chain-Writes m at size small (tuning_items discover cfg2) (tuning_arguments discover cfg2)
          (tuning_arguments-AllWrite discover cfg2) t3 b4 w4
          (omega (
            arith,
            length-append t2 (with_commas is),
            length-append t1 (with_commas qs),
            length-append nqn (with_commas ns),
          )) in
      (
        b5,
        subst (λ s. IsWritten m at size s b5) (sym whole) w5,
        rw (write_options, e1, e2, write_host, e3, write_hostid, e4, write_tuning, e5) refl,
      )

pub build_options_complete :
    (files : HostFiles) (at : ℕ) (max_len : ℤ) (discover : Bool) (cfg : Config) (m : Mem)
    → lacks_argument cfg.transport cfg.traddr ≡ false
    → build_options files at max_len discover cfg m
      ≡ write_options files discover cfg (record { mem = m; argstr = at; max_len = max_len })
unfolding build_options
build_options_complete files at max_len discover cfg m e = rw (build_options, e)

-- What a call that goes well leaves: the text and a 0 in the buffer, all else in memory as it was, and
-- `cfg` with the host's identifiers.
pub record IsBuilt (m : Mem) (at size : ℕ) (text : List ℕ) (cfg : Config) (r : Built) : Type 0 where
  pub success : r.err ≡ pos 0
  pub content : load_bytes (length text) at r.mem ≡ text
  pub terminated : r.mem (at + length text) ≡ 0
  pub outside : (i : ℕ) → (i < at) ⊎ (at + size ≤ i) → r.mem i ≡ m i
  pub host : r.cfg ≡ cfg

-- With a transport, an address (unless the transport begins with "loop") and room for the whole text
-- and a 0, `build_options` returns 0 and leaves in the buffer exactly the options that are given, in
-- order, with commas between them, and the 0 behind; no byte outside the buffer changes, and `cfg`
-- has the host's identifiers. The buffer is shorter than 2 GiB.
pub build_options-written :
    (files : HostFiles) (at size : ℕ) (discover : Bool) (cfg : Config) (m : Mem)
    → size < 2 ^ 31
    → lacks_argument cfg.transport cfg.traddr ≡ false
    → let text = join b',' (nqn_item cfg) (option_items discover (with_host files cfg)) in
      length text < size
      → IsBuilt m at size text
          (with_host files cfg)
          (build_options files at (pos size) discover cfg m)
build_options-written files at size discover cfg m small complete h =
    let items = option_items discover (with_host files cfg) in
    let same = join-with_commas (nqn_item cfg) items in
    let (b, w, done) =
      write_options-IsWritten m at size small files discover cfg
        (subst (λ s. length s < size) same h) in
    let built : IsBuilt m at size (nqn_item cfg ++ with_commas items) (with_host files cfg)
        (record { err = pos 0; mem = b.mem; cfg = with_host files cfg }) =
      record {
        success = refl;
        content = w.0.content;
        terminated = w.1;
        outside = w.0.outside;
        host = refl;
      } in
    subst
      (λ s.
        IsBuilt m at size s (with_host files cfg)
          (build_options files at (pos size) discover cfg m))
      (sym same)
      (subst (IsBuilt m at size (nqn_item cfg ++ with_commas items) (with_host files cfg))
        (sym (build_options_complete files at (pos size) discover cfg m complete ∙ done)) built)
