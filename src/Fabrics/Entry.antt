-- ===== src/Fabrics/Entry.antt =====
-- fabrics.c: `connect_ctrl`, which connects to one entry of a discovery log, and `connect_ctrls`. The
-- text is built by `sprintf` into a buffer on the stack, and is here the text alone. `add_ctrl` and
-- `do_discover` are parameters over a state `S`. The loop of retries runs on fuel.
pub mod Endings
pub mod Retries
pub mod Strip
use switchtec_nvme_cli.Base.{
  ℕ, zero, suc, ◌-◌, Bool, true, false, not, ◌&&◌, ◌||◌, ℤ, pos, negsuc, neg, is_zero, is_negative,
  List, [], ◌∷◌, ◌++◌, take, get_or, Option, none, some, bit_and, ◌==◌, if◌then◌else◌,
}
use switchtec_nvme_cli.Text.Search.{codes, until}
use switchtec_nvme_cli.Parser.Match.{same_text}
use switchtec_nvme_cli.Fabrics.Config.{Config}
use switchtec_nvme_cli.Fabrics.Builder.{argument, int_argument, bool_argument}
use switchtec_nvme_cli.Fabrics.Names.{trtype_str, unrecognized}

-- `struct nvmf_disc_rsp_page_entry`: the members that are used, the texts as arrays of bytes. `tsas`
-- stands for what is behind `traddr`.
pub record DiscEntry : Type 0 where
  pub trtype : ℕ
  pub adrfam : ℕ
  pub subtype : ℕ
  pub treq : ℕ
  pub trsvcid : List ℕ
  pub subnqn : List ℕ
  pub traddr : List ℕ
  pub tsas : List ℕ

-- From the index below `i` down: the length without spaces and zeros at the end.
unfoldable pub strip_from : ℕ → List ℕ → ℕ
strip_from zero str = 0
strip_from (suc i) str =
    let shorter = strip_from i str in
    let c = get_or str i 0 in if not (c == 0) && not (c == b' ') then suc i else shorter

unfoldable pub space_strip_len : (max : ℕ) → List ℕ → ℕ
space_strip_len max str = strip_from max str

-- "%.*s" with that length, which also stops at a 0.
unfoldable pub stripped : (max : ℕ) → List ℕ → List ℕ
stripped max str = until 0 (take (space_strip_len max str) str)

abbrev pub traddr_size : ℕ
traddr_size = 256

abbrev pub trsvcid_size : ℕ
trsvcid_size = 32

-- `NVMF_TREQ_DISABLE_SQFLOW`
abbrev pub treq_disable_sqflow : ℕ
treq_disable_sqflow = 4

abbrev pub has_sqflow : DiscEntry → Bool
has_sqflow e = not (bit_and e.treq treq_disable_sqflow == 0)

abbrev pub text_of : Option (List ℕ) → List ℕ
text_of none = []
text_of (some text) = text

-- An option that is left out for a discovery subsystem.
abbrev pub unless : (discover : Bool) → List ℕ → List ℕ
unless discover text = if discover then [] else text

abbrev pub number : List ℕ → ℤ → List ℕ
number name n = text_of (int_argument name n false)

-- The options from `cfg`.
unfoldable pub entry_options : Config → (discover : Bool) → DiscEntry → List ℕ
entry_options cfg discover e =
    codes "nqn="
    ++ until 0 (e.subnqn ++ e.traddr ++ e.tsas)
    ++ text_of (argument (codes "hostnqn") cfg.hostnqn)
    ++ text_of (argument (codes "hostid") cfg.hostid)
    ++ unless discover (number (codes "queue_size") cfg.queue_size)
    ++ unless discover (number (codes "nr_io_queues") cfg.nr_io_queues)
    ++ number (codes "nr_write_queues") cfg.nr_write_queues
    ++ number (codes "nr_poll_queues") cfg.nr_poll_queues
    ++ text_of (argument (codes "host_traddr") cfg.host_traddr)
    ++ number (codes "ctrl_loss_tmo") cfg.ctrl_loss_tmo
    ++ text_of (int_argument (codes "tos") cfg.tos true)
    ++ number (codes "keep_alive_tmo") cfg.keep_alive_tmo

abbrev pub addressed : DiscEntry → List ℕ
addressed e = codes ",traddr=" ++ stripped traddr_size e.traddr

abbrev pub served : DiscEntry → List ℕ
served e = codes ",trsvcid=" ++ stripped trsvcid_size e.trsvcid

-- The addresses, by transport and address family; `none` for "skipping unsupported adrfam".
unfoldable pub entry_address : DiscEntry → Option (List ℕ)
entry_address e =
    if e.trtype == 1 || e.trtype == 3
    then (if e.adrfam == 1 || e.adrfam == 2 then some (addressed e ++ served e) else none)
    else if e.trtype == 2
    then (if e.adrfam == 4 then some (addressed e) else none)
    else some []

-- The text for an entry, or `none` where it is skipped.
unfoldable pub entry_text : Config → (discover disable_sqflow : Bool) → DiscEntry → Option (List ℕ)
entry_text cfg discover disable_sqflow e =
    if same_text (trtype_str e.trtype) unrecognized then none else elim (entry_address e) [
      | none ↦ none
      | some address ↦ some (
          entry_options cfg discover e
          ++ codes ",transport="
          ++ trtype_str e.trtype
          ++ text_of (bool_argument (codes "hdr_digest") cfg.hdr_digest)
          ++ text_of (bool_argument (codes "data_digest") cfg.data_digest)
          ++ address
          ++ (if has_sqflow e && disable_sqflow then codes ",disable_sqflow" else []))
    ]

-- A discovery subsystem, another subsystem, or "skipping unsupported subtype".
unfoldable pub is_discovery : DiscEntry → Option Bool
is_discovery e = if e.subtype == 1 then some true else if e.subtype == 2 then some false else none

abbrev pub is_einval : ℤ → Bool
is_einval (pos n) = false
is_einval (negsuc n) = n == 21

-- The global `cfg`, which connecting to a discovery subsystem may change, and the rest of the world.
pub record Session (S : Type 0) : Type 0 where
  pub cfg : Config
  pub sys : S

-- What a call returns and leaves: `none` for fuel that ran out in it.
abbrev pub Run : Type 0 → Type 0
Run S = Session S → Option (ℤ × Session S)

module _ {S : Type 0} (add_ctrl do_discover : List ℕ → Run S) where
  -- The call at the end of a round.
  abbrev pub connect_by : (discover : Bool) → List ℕ → Run S
  connect_by discover argstr s = if discover then do_discover argstr s else add_ctrl argstr s

  -- A round up to that call, and what it returns; -EINVAL where the entry is skipped.
  unfoldable pub connect_once :
      (disable_sqflow : Bool) → DiscEntry → Session S → Option (Bool × ℤ × Session S)
  connect_once disable_sqflow e s = elim (is_discovery e) [
    | none ↦ some (true, neg 22, s)
    | some discover ↦ elim (entry_text s.cfg discover disable_sqflow e) [
      | none ↦ some (true, neg 22, s)
      | some argstr ↦ elim (connect_by discover argstr s) [
        | none ↦ none
        | some (ret, t) ↦ some (not (is_einval ret && has_sqflow e), ret, t)
      ]
    ]
  ]

  -- "disable_sqflow param might not be supported, try without it"
  unfoldable pub connect_loop : ℕ → (disable_sqflow : Bool) → DiscEntry → Run S
  connect_loop zero disable_sqflow e s = none
  connect_loop (suc fuel) disable_sqflow e s = elim (connect_once disable_sqflow e s) [
    | none ↦ none
    | some (finished, ret, t) ↦
        let again = connect_loop fuel false e t in if finished then some (ret, t) else again
  ]

  unfoldable pub connect_ctrl : (fuel : ℕ) → DiscEntry → Run S
  connect_ctrl fuel e = connect_loop fuel true e

  -- An entry that cannot be connected to is passed over, and the result is 0.
  unfoldable pub connect_ctrls : (fuel : ℕ) → List DiscEntry → Run S
  connect_ctrls fuel [] s = some (pos 0, s)
  connect_ctrls fuel (e ∷ entries) s = elim (connect_ctrl fuel e s) [
    | none ↦ none
    | some (_, t) ↦ connect_ctrls fuel entries t
  ]
