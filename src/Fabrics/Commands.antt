-- ===== src/Fabrics/Commands.antt =====
-- fabrics.c: `fabrics_connect`, `fabrics_discover` and `fabrics_disconnect` from the parsed options on, with
-- `disconnect_by_nqn`. Whether a text is an address (`inet_pton`) and `hostname2traddr` are a record. Without a
-- transport and an address, `fabrics_discover` reads a configuration file, which is left out.
pub mod Connect
use switchtec_nvme_cli.Base.{
  ℕ, zero, suc, ◌+◌, Bool, true, false, not, ◌&&◌, ◌||◌, ℤ, pos, neg, is_zero, is_negative, ltb,
  List, [], ◌∷◌, length, Option, none, some, ◌==◌, if◌then◌else◌,
}
use switchtec_nvme_cli.Base.Memory.{Mem, load_bytes}
use switchtec_nvme_cli.Device.{World}
use switchtec_nvme_cli.Text.Search.{codes, until}
use switchtec_nvme_cli.Parser.Match.{same_text}
use switchtec_nvme_cli.Fabrics.Config.{Config, HostFiles, nqn_size}
use switchtec_nvme_cli.Fabrics.Options.{build_options}
use switchtec_nvme_cli.Fabrics.Entry.{Session}
use switchtec_nvme_cli.Fabrics.Ctrl.{
  System, sys_nvme, keep, add_ctrl, disconnect_subsys, disconnect_by_device,
}
use switchtec_nvme_cli.Fabrics.Discover.{do_discover}

pub record Resolver : Type 0 where
  pub is_address : List ℕ → Bool
  pub hostname2traddr : Config → ℤ × Config

-- `none` stands for a transport that is NULL, which `strcmp` is called with.
unfoldable pub traddr_is_hostname : Resolver → Config → Option Bool
traddr_is_hostname names cfg = elim cfg.traddr [
  | none ↦ some false
  | some traddr ↦ elim cfg.transport [
    | none ↦ none
    | some transport ↦ some (
        (same_text transport (codes "tcp") || same_text transport (codes "rdma"))
        && not (names.is_address traddr))
  ]
]

-- The options with an address in place of a name, or an error.
unfoldable pub resolve : Resolver → Config → Option (ℤ × Config)
resolve names cfg = elim (traddr_is_hostname names cfg) [
  | none ↦ none
  | some is_name ↦ some (if is_name then names.hostname2traddr cfg else (pos 0, cfg))
]

abbrev pub buf_size : ℕ
buf_size = 4096

-- The text in a buffer that it fits.
abbrev pub text_at : (argstr : ℕ) → Mem → List ℕ
text_at argstr m = until 0 (load_bytes buf_size argstr m)

-- A number of a controller is a success.
abbrev pub or_error : {D : Type 0} → Option (ℤ × World D) → Option (ℤ × World D)
or_error none = none
or_error (some (instance_no, w)) = some (if is_negative instance_no then instance_no else pos 0, w)

abbrev pub is_dots : List ℕ → Bool
is_dots name = same_text name (codes ".") || same_text name (codes "..")

module _ {D : Type 0} (sys : System D) (files : HostFiles) (names : Resolver) (argstr : ℕ) where
  -- Behind `build_options`.
  unfoldable pub connect_built : Config → World D → Option (ℤ × World D)
  connect_built cfg w = elim cfg.nqn [
    | none ↦ some (neg 22, w)
    | some nqn ↦ or_error (add_ctrl sys (text_at argstr w.mem) w)
  ]

  unfoldable pub connect_options : Config → World D → Option (ℤ × World D)
  connect_options cfg w =
      let built = build_options files argstr (pos buf_size) false cfg w.mem in
      let v = record w { mem = built.mem } in
      let rest = connect_built built.cfg v in
      if is_zero built.err then rest else some (built.err, v)

  -- The error of `fabrics_connect`, before it becomes an errno.
  unfoldable pub connect_error : Config → World D → Option (ℤ × World D)
  connect_error cfg w = elim (resolve names cfg) [
    | none ↦ none
    | some (ret, found) ↦
        let rest = connect_options found w in if is_zero ret then rest else some (ret, w)
  ]

  -- "cfg.persistent && !cfg.keep_alive_tmo", and `NVMF_DEF_DISC_TMO`.
  abbrev pub with_timeout : Config → Config
  with_timeout cfg =
      if cfg.persistent && is_zero cfg.keep_alive_tmo
      then record cfg { keep_alive_tmo = pos 30 }
      else cfg

  unfoldable pub discover_options :
      (retries depth : ℕ) → (connect : Bool) → Config → World D → Option (ℤ × Session (World D))
  discover_options retries depth connect cfg w =
      let built = build_options files argstr (pos buf_size) true cfg w.mem in
      let s : Session (World D) = record { cfg = built.cfg; sys = record w { mem = built.mem } } in
      let run = do_discover sys retries depth (text_at argstr built.mem) connect s in
      if is_zero built.err then run else some (built.err, s)

  -- The error of `fabrics_discover` with a transport or an address.
  unfoldable pub discover_error :
      (retries depth : ℕ) → (connect : Bool) → Config → World D → Option (ℤ × Session (World D))
  discover_error retries depth connect cfg w = elim (resolve names (with_timeout cfg)) [
    | none ↦ none
    | some (ret, found) ↦
        let rest = discover_options retries depth connect found w in
        if is_zero ret then rest else some (ret, record { cfg = found; sys = w })
  ]

module _ {D : Type 0} (sys : System D) where
  -- The number of controllers that were disconnected.
  unfoldable pub disconnect_each : (nqn : List ℕ) → List (List ℕ) → World D → ℕ × World D
  disconnect_each nqn [] w = (0, w)
  disconnect_each nqn (d_name ∷ devices) w =
      let (one, v) = disconnect_subsys sys nqn d_name w in
      let (more, u) = disconnect_each nqn devices v in (one + more, u)

  unfoldable pub disconnect_by_nqn : (nqn : List ℕ) → World D → ℤ × World D
  disconnect_by_nqn nqn w =
      if ltb nqn_size (length nqn) then (neg 22, w) else elim (sys.scandir sys_nvme w) [
        | none ↦ (neg 1, w)
        | some found ↦
            let (count, v) = disconnect_each nqn (keep sys (λ name. not (is_dots name)) found) w in
            (pos count, v)
      ]

  abbrev pub only_error : ℤ × World D → ℤ × World D
  only_error (ret, w) = (if is_negative ret then ret else pos 0, w)

  -- The error of `fabrics_disconnect`: that of the device counts, if both are given.
  unfoldable pub disconnect_error : Config → World D → ℤ × World D
  disconnect_error cfg w = elim cfg.nqn [
    | none ↦ elim cfg.device [
      | none ↦ (neg 22, w)
      | some device ↦ disconnect_by_device sys device w
    ]
    | some nqn ↦
        let by_nqn = only_error (disconnect_by_nqn nqn w) in
        elim cfg.device [ none ↦ by_nqn | some device ↦ disconnect_by_device sys device by_nqn.1 ]
  ]
