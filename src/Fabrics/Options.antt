-- ===== src/Fabrics/Options.antt =====
-- fabrics.c: `build_options`, which writes the options of a connect command to a text in memory.
pub mod Pieces
pub mod Items
pub mod Overflow
pub mod Fields
pub mod Found
pub mod RoundTrip
pub mod Laws
use switchtec_nvme_cli.Base.{
  ℕ, Bool, true, false, not, ◌&&◌, ℤ, pos, neg, List, [], ◌∷◌, ◌++◌, Option, none, some,
  if◌then◌else◌,
}
use switchtec_nvme_cli.Base.Memory.{Mem}
use switchtec_nvme_cli.Text.Search.{codes, starts_with, is_some}
use switchtec_nvme_cli.Json.{or_null}
use switchtec_nvme_cli.Fabrics.Config.{Config, HostFiles, hostnqn_read, hostid_read, or_else}
use switchtec_nvme_cli.Fabrics.Builder.{
  Builder, Added, format, add_argument, add_int_argument, add_bool_argument, chain,
}

abbrev pub einval : ℕ
einval = 22

-- What `build_options` returns and leaves: it may read the host's identifiers into `cfg`.
pub record Built : Type 0 where
  pub err : ℤ
  pub mem : Mem
  pub cfg : Config

-- The arguments in front of the host's identifiers.
unfoldable pub network_arguments : Config → List (Builder → Added)
network_arguments cfg =
    add_argument (codes "transport") cfg.transport
    ∷ add_argument (codes "traddr") cfg.traddr
    ∷ add_argument (codes "host_traddr") cfg.host_traddr
    ∷ add_argument (codes "trsvcid") cfg.trsvcid
    ∷ []

-- A call that stands behind `!discover &&`.
unfoldable pub unless : (discover : Bool) → (Builder → Added) → Builder → Added
unless true add b = Added.added b
unless false add b = add b

-- The arguments behind the host's identifiers.
unfoldable pub tuning_arguments : (discover : Bool) → Config → List (Builder → Added)
tuning_arguments discover cfg =
    unless discover (add_int_argument (codes "nr_io_queues") cfg.nr_io_queues false)
    ∷ add_int_argument (codes "nr_write_queues") cfg.nr_write_queues false
    ∷ add_int_argument (codes "nr_poll_queues") cfg.nr_poll_queues false
    ∷ unless discover (add_int_argument (codes "queue_size") cfg.queue_size false)
    ∷ unless discover (add_int_argument (codes "keep_alive_tmo") cfg.keep_alive_tmo false)
    ∷ add_int_argument (codes "reconnect_delay") cfg.reconnect_delay false
    ∷ add_int_argument (codes "ctrl_loss_tmo") cfg.ctrl_loss_tmo false
    ∷ add_int_argument (codes "tos") cfg.tos true
    ∷ add_bool_argument (codes "duplicate_connect") cfg.duplicate_connect
    ∷ add_bool_argument (codes "disable_sqflow") cfg.disable_sqflow
    ∷ add_bool_argument (codes "hdr_digest") cfg.hdr_digest
    ∷ add_bool_argument (codes "data_digest") cfg.data_digest
    ∷ []

-- `cfg` once the host's name is read, and once its identifier is.
abbrev pub with_hostnqn : HostFiles → Config → Config
with_hostnqn files cfg = record cfg { hostnqn = or_else cfg.hostnqn (hostnqn_read files) }

abbrev pub with_hostid : HostFiles → Config → Config
with_hostid files cfg = record cfg { hostid = or_else cfg.hostid (hostid_read files) }

-- What follows a call: -EINVAL if it failed.
abbrev next : Added → Config → (Builder → Built) → Built
next (Added.refused b) cfg go = record { err = neg einval; mem = b.mem; cfg = cfg }
next (Added.added b) cfg go = go b

-- The arguments behind the host's identifiers, the host's identifier, and the host's name.
unfoldable pub write_tuning : (discover : Bool) → Config → Builder → Built
write_tuning discover cfg b =
    next (chain (tuning_arguments discover cfg) b) cfg
      (λ c. record { err = pos 0; mem = c.mem; cfg = cfg })

unfoldable pub write_hostid : HostFiles → (discover : Bool) → Config → Builder → Built
write_hostid files discover cfg b =
    let found = with_hostid files cfg in
    next (add_argument (codes "hostid") found.hostid b) found (write_tuning discover found)

unfoldable pub write_host : HostFiles → (discover : Bool) → Config → Builder → Built
write_host files discover cfg b =
    let found = with_hostnqn files cfg in
    next (add_argument (codes "hostnqn") found.hostnqn b) found (write_hostid files discover found)

unfoldable pub write_options : HostFiles → (discover : Bool) → Config → Builder → Built
write_options files discover cfg b =
    next (format (codes "nqn=" ++ or_null cfg.nqn) b) cfg
      (λ b1. next (chain (network_arguments cfg) b1) cfg (write_host files discover cfg))

-- "need a transport (-t) argument", or "need a address (-a) argument".
unfoldable pub lacks_argument : (transport traddr : Option (List ℕ)) → Bool
lacks_argument none traddr = true
lacks_argument (some transport) traddr =
    not (starts_with (codes "loop") transport) && not (is_some traddr)

unfoldable pub build_options :
    HostFiles → (argstr : ℕ) → (max_len : ℤ) → (discover : Bool) → Config → Mem → Built
build_options files argstr max_len discover cfg m =
    if lacks_argument cfg.transport cfg.traddr
    then record { err = neg einval; mem = m; cfg = cfg }
    else write_options files discover cfg (record { mem = m; argstr = argstr; max_len = max_len })
