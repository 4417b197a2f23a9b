-- ===== src/Fabrics/Discover.antt =====
-- fabrics.c: `do_discover`, which finds or makes a discovery controller, fetches its log, and connects to
-- the entries; one that is a discovery subsystem itself is discovered in turn. The depth of these
-- referrals and the retries of an entry run on fuel. Writing a log to a file or to the terminal is left out.
use switchtec_nvme_cli.Base.{
  ℕ, zero, suc, ◌+◌, ◌*◌, Bool, true, false, not, ◌&&◌, ◌||◌, ℤ, pos, neg, is_zero, is_negative,
  List, ◌++◌, upto, map, Option, none, some, ◌==◌, if◌then◌else◌,
}
use switchtec_nvme_cli.Base.Memory.{Mem, load_bytes}
use switchtec_nvme_cli.Device.{World}
use switchtec_nvme_cli.Text.Search.{codes, is_some}
use switchtec_nvme_cli.Fabrics.Args.{parse_conn_arg, conarg_nqn, conarg_transport}
use switchtec_nvme_cli.Fabrics.Config.{ConnectArgs}
use switchtec_nvme_cli.Fabrics.Builder.{int_text}
use switchtec_nvme_cli.Fabrics.Discovery.{
  Fetched, disc_ok, disc_no_log, disc_get_numrecs, disc_get_log, disc_retry_exhausted,
  disc_not_equal, get_log_page_discovery,
}
use switchtec_nvme_cli.Fabrics.Ctrl.{
  System, args_of, attr, ctrl_instance, ctrl_matches_connectargs, find_ctrl_with_connectargs,
  add_ctrl, remove_ctrl, sys_nvme,
}
use switchtec_nvme_cli.Fabrics.Entry.{DiscEntry, Session, Run, connect_ctrls}

-- An entry of the log at `log`.
unfoldable pub entry_at : (log i : ℕ) → Mem → DiscEntry
entry_at log i m =
    let at = log + 1024 + 1024 * i in
    record {
      trtype = m at;
      adrfam = m (at + 1);
      subtype = m (at + 2);
      treq = m (at + 3);
      trsvcid = load_bytes 32 (at + 32) m;
      subnqn = load_bytes 256 (at + 256) m;
      traddr = load_bytes 256 (at + 512) m;
      tsas = load_bytes 256 (at + 768) m;
    }

abbrev pub count_of : ℤ → ℕ
count_of (pos n) = n
count_of _ = 0

-- The entries, as long as `i < numrec`.
abbrev pub entries : (log : ℕ) → (numrec : ℤ) → Mem → List DiscEntry
entries log numrec m = map (λ i. entry_at log i m) (upto 0 (count_of numrec))

-- The connect arguments in a text.
unfoldable pub connect_args : (argstr : List ℕ) → Option ConnectArgs
connect_args argstr = elim (parse_conn_arg argstr b',' conarg_nqn) [
  | none ↦ none
  | some subsysnqn ↦ elim (parse_conn_arg argstr b',' conarg_transport) [
    | none ↦ none
    | some transport ↦ args_of b',' argstr subsysnqn transport
  ]
]

-- `cfg.device`, once it is compared with the connect arguments of `argstr`.
unfoldable pub device_for :
    {D : Type 0} → System D → (argstr device : List ℕ) → World D → Option (Option (List ℕ))
device_for sys argstr device w = elim (connect_args argstr) [
  | none ↦ none
  | some cargs ↦ elim (ctrl_matches_connectargs sys device cargs w) [
    | none ↦ none
    | some matches ↦ if matches then some (some device) else find_ctrl_with_connectargs sys cargs w
  ]
]

-- The instance to ask: that of `cfg.device`, whose host identifiers are taken over, or a new one.
unfoldable pub find_instance :
    {D : Type 0} → System D → (argstr : List ℕ) → Session (World D) → Option (ℤ × Session (World D))
find_instance sys argstr s = elim s.cfg.device [
  | none ↦ elim (add_ctrl sys argstr s.sys) [
    | none ↦ none
    | some (instance_no, w) ↦ some (instance_no, record s { sys = w })
  ]
  | some device ↦
      let instance_no = ctrl_instance device in
      let path = sys_nvme ++ codes "/nvme" ++ int_text instance_no in
      some (
        instance_no,
        record s {
          cfg = record (s.cfg) {
            hostnqn = attr sys path (codes "hostnqn") s.sys;
            hostid = attr sys path (codes "hostid") s.sys;
          };
        },
      )
]

-- The result for each outcome of the fetch but `DISC_OK`: EAGAIN is 11 and EBADSLT 57.
unfoldable pub result_of : (error status : ℤ) → ℤ
result_of (pos n) status =
    if n == disc_get_numrecs || n == disc_get_log
    then status
    else if n == disc_no_log
    then pos disc_ok
    else if n == disc_retry_exhausted
    then neg 11
    else if n == disc_not_equal
    then neg 57
    else pos n
result_of error status = error

abbrev pub is_ok : ℤ → Bool
is_ok (pos n) = n == disc_ok
is_ok _ = false

-- `logp` is set where the result is `DISC_OK`.
abbrev pub log_of : Option ℕ → ℕ
log_of none = 0
log_of (some log) = log

module _ {D : Type 0} (sys : System D) where
  -- "else if no ctrl matches the connect args, cfg.device is set to null"
  unfoldable pub choose_device : (argstr : List ℕ) → Session (World D) → Option (Session (World D))
  choose_device argstr s = elim s.cfg.device [
    | none ↦ some s
    | some device ↦ elim (device_for sys argstr device s.sys) [
      | none ↦ none
      | some found ↦ some (record s { cfg = record (s.cfg) { device = found } })
    ]
  ]

  -- A controller that was made for the discovery, and is not to persist, is removed.
  unfoldable pub release : (instance_no : ℤ) → Session (World D) → ℤ × Session (World D)
  release instance_no s =
      let (err, w) = remove_ctrl sys instance_no s.sys in
      if not (is_some s.cfg.device) && not s.cfg.persistent
      then (err, record s { sys = w })
      else (pos 0, s)

  abbrev add_in_session : List ℕ → Run (World D)
  add_in_session argstr s = elim (add_ctrl sys argstr s.sys) [
    | none ↦ none
    | some (ret, w) ↦ some (ret, record s { sys = w })
  ]

  module _ (retries : ℕ) (discover_entry : List ℕ → Run (World D)) where
    -- Behind the fetch.
    unfoldable pub use_log : (connect : Bool) → Fetched D → Run (World D)
    use_log connect f s =
        let log = log_of f.logp in
        let run =
          connect_ctrls add_in_session discover_entry retries (entries log f.numrec s.sys.mem) s in
        if not (is_ok f.error)
        then some (result_of f.error f.status, s)
        else if connect
        then run
        else some (pos disc_ok, s)

    -- With an instance to ask.
    unfoldable pub ask : (instance_no : ℤ) → (connect : Bool) → Run (World D)
    ask instance_no connect s =
        elim (get_log_page_discovery sys.calls sys.ops (codes "/dev/nvme" ++ int_text instance_no)
          (pos 0) s.sys) [
            | none ↦ none
            | some f ↦
                let (err, t) = release instance_no (record s { sys = f.world }) in
                if is_zero err then use_log connect f t else some (err, t)
          ]

    unfoldable pub discover_once : (argstr : List ℕ) → (connect : Bool) → Run (World D)
    discover_once argstr connect s = elim (choose_device argstr s) [
      | none ↦ none
      | some t ↦ elim (find_instance sys argstr t) [
        | none ↦ none
        | some (instance_no, u) ↦
            if is_negative instance_no then some (instance_no, u) else ask instance_no connect u
      ]
    ]

  -- `do_discover`, at a depth of referrals.
  unfoldable pub do_discover :
      (retries depth : ℕ) → (argstr : List ℕ) → (connect : Bool) → Run (World D)
  do_discover retries zero argstr connect s = none
  do_discover retries (suc depth) argstr connect s =
      discover_once retries (λ entry_args. do_discover retries depth entry_args true) argstr connect
        s
