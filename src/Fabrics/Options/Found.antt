-- ===== src/Fabrics/Options/Found.antt =====
-- What the fields of the options are among the items that `build_options` writes.
use mathlib.Core.List.{append-nil}
use switchtec_nvme_cli.Base.{ℕ, ◌≡◌, refl, ◌∙◌, ap, sym, Bool, true, false, List, [], ◌∷◌, ◌++◌}
use switchtec_nvme_cli.Text.Search.{codes}
use switchtec_nvme_cli.Fabrics.Args.Laws.{first_value, AllPlain}
use switchtec_nvme_cli.Fabrics.Config.{Config, HostFiles}
use switchtec_nvme_cli.Fabrics.Options.Items.{named, flatten}
use switchtec_nvme_cli.Fabrics.Options.Fields.{
  PlainOption, Passes, IsOther, AllOther, others-AllOther, AllOther, others-AllOther, named-Passes,
  numbered-Passes, flagged-Passes, unless_discover-Passes, flatten-Passes, Passes-append, shown,
  Gives, named-Gives, Gives-then, Gives-behind,
}
use switchtec_nvme_cli.Fabrics.Options.Laws.{network_items, tuning_items, option_items, with_host}

-- No text of the options has a comma.
pub record IsPlain (cfg : Config) : Type 0 where
  pub nqn : PlainOption cfg.nqn
  pub transport : PlainOption cfg.transport
  pub traddr : PlainOption cfg.traddr
  pub host_traddr : PlainOption cfg.host_traddr
  pub trsvcid : PlainOption cfg.trsvcid
  pub hostnqn : PlainOption cfg.hostnqn
  pub hostid : PlainOption cfg.hostid

-- How the options for the queues and the timers begin.
abbrev pub tuning_names : List (List ℕ)
tuning_names =
    codes "nr_io_queues="
    ∷ codes "nr_write_queues="
    ∷ codes "nr_poll_queues="
    ∷ codes "queue_size="
    ∷ codes "keep_alive_tmo="
    ∷ codes "reconnect_delay="
    ∷ codes "ctrl_loss_tmo="
    ∷ codes "tos="
    ∷ codes "duplicate_connect"
    ∷ codes "disable_sqflow"
    ∷ codes "hdr_digest"
    ∷ codes "data_digest"
    ∷ []

tuning_items-Passes :
    (field : List ℕ) (discover : Bool) (cfg : Config)
    → AllOther field tuning_names
    → Passes field (flatten (tuning_items discover cfg))
tuning_items-Passes field discover cfg
      (a, (b, (c, (d, (e, (f, (g, (h, (i, (j, (k, (l, _)))))))))))) =
    let number = numbered-Passes field in
    let hidden = unless_discover-Passes field discover in
    let flag = flagged-Passes field in
    flatten-Passes field (tuning_items discover cfg) (
      hidden _ (number (codes "nr_io_queues") cfg.nr_io_queues false a),
      (
        number (codes "nr_write_queues") cfg.nr_write_queues false b,
        (
          number (codes "nr_poll_queues") cfg.nr_poll_queues false c,
          (
            hidden _ (number (codes "queue_size") cfg.queue_size false d),
            (
              hidden _ (number (codes "keep_alive_tmo") cfg.keep_alive_tmo false e),
              (
                number (codes "reconnect_delay") cfg.reconnect_delay false f,
                (
                  number (codes "ctrl_loss_tmo") cfg.ctrl_loss_tmo false g,
                  (
                    number (codes "tos") cfg.tos true h,
                    (
                      flag (codes "duplicate_connect") cfg.duplicate_connect i,
                      (
                        flag (codes "disable_sqflow") cfg.disable_sqflow j,
                        (
                          flag (codes "hdr_digest") cfg.hdr_digest k,
                          (flag (codes "data_digest") cfg.data_digest l, tt),
                        ),
                      ),
                    ),
                  ),
                ),
              ),
            ),
          ),
        ),
      ),
    )

module _ (files : HostFiles) (discover : Bool) (cfg : Config)
    (plain : IsPlain (with_host files cfg)) where
  -- A field that the items in front of the host's identifiers give.
  pub option_items-Gives :
      (field value : List ℕ)
      → Gives field value (flatten (network_items cfg))
      → IsOther field (codes "hostnqn=")
      → IsOther field (codes "hostid=")
      → AllOther field tuning_names
      → first_value field (option_items discover (with_host files cfg)) ≡ value
  option_items-Gives field value g name id tuning =
      let cfg2 = with_host files cfg in
      let ns = flatten (network_items cfg) in
      let qs = named (codes "hostnqn") cfg2.hostnqn in
      let is = named (codes "hostid") cfg2.hostid in
      let ts = flatten (tuning_items discover cfg2) in
      let all : Gives field value (ns ++ qs ++ is ++ ts) =
        Gives-then field value (ns ++ qs ++ is) ts
          (Gives-then field value (ns ++ qs) is
            (Gives-then field value ns qs g
              (named-Passes field (codes "hostnqn") cfg2.hostnqn name plain.hostnqn))
            (named-Passes field (codes "hostid") cfg2.hostid id plain.hostid))
          (tuning_items-Passes field discover cfg2 tuning) in
      ap (first_value field) (sym (append-nil (ns ++ qs ++ is ++ ts))) ∙ all [] refl

  pub option_items-AllPlain : AllPlain b',' (option_items discover (with_host files cfg))
  option_items-AllPlain =
      let cfg2 = with_host files cfg in
      let x = codes "x" in
      let ns = flatten (network_items cfg) in
      let qs = named (codes "hostnqn") cfg2.hostnqn in
      let is = named (codes "hostid") cfg2.hostid in
      let ts = flatten (tuning_items discover cfg2) in
      let network : Passes x ns = flatten-Passes x (network_items cfg) (
        named-Passes x (codes "transport") cfg.transport (refl, refl) plain.transport,
        (
          named-Passes x (codes "traddr") cfg.traddr (refl, refl) plain.traddr,
          (
            named-Passes x (codes "host_traddr") cfg.host_traddr (refl, refl) plain.host_traddr,
            (named-Passes x (codes "trsvcid") cfg.trsvcid (refl, refl) plain.trsvcid, tt),
          ),
        ),
      ) in
      let tuning = tuning_items-Passes x discover cfg2 (others-AllOther x tuning_names refl) in
      (Passes-append x (ns ++ qs ++ is) ts
        (Passes-append x (ns ++ qs) is
          (Passes-append x ns qs network
            (named-Passes x (codes "hostnqn") cfg2.hostnqn (refl, refl) plain.hostnqn))
          (named-Passes x (codes "hostid") cfg2.hostid (refl, refl) plain.hostid))
        tuning).plain

  pub transport-Gives :
      Gives (codes "transport") (shown cfg.transport) (flatten (network_items cfg))
  transport-Gives =
      let f = codes "transport" in
      Gives-then f (shown cfg.transport) (named f cfg.transport) _ (named-Gives f cfg.transport) (
        flatten-Passes f
          (named (codes "traddr") cfg.traddr
            ∷ named (codes "host_traddr") cfg.host_traddr
            ∷ named (codes "trsvcid") cfg.trsvcid
            ∷ [])
          (
            named-Passes f (codes "traddr") cfg.traddr (refl, refl) plain.traddr,
            (
              named-Passes f (codes "host_traddr") cfg.host_traddr (refl, refl) plain.host_traddr,
              (named-Passes f (codes "trsvcid") cfg.trsvcid (refl, refl) plain.trsvcid, tt),
            ),
          ))

  pub traddr-Gives : Gives (codes "traddr") (shown cfg.traddr) (flatten (network_items cfg))
  traddr-Gives =
      let f = codes "traddr" in
      Gives-behind f (shown cfg.traddr) (named (codes "transport") cfg.transport) _
        (named-Passes f (codes "transport") cfg.transport (refl, refl) plain.transport)
        (Gives-then f (shown cfg.traddr) (named f cfg.traddr) _ (named-Gives f cfg.traddr) (
          flatten-Passes f
            (named (codes "host_traddr") cfg.host_traddr ∷ named (codes "trsvcid") cfg.trsvcid ∷ [])
            (
              named-Passes f (codes "host_traddr") cfg.host_traddr (refl, refl) plain.host_traddr,
              (named-Passes f (codes "trsvcid") cfg.trsvcid (refl, refl) plain.trsvcid, tt),
            )))

  pub host_traddr-Gives :
      Gives (codes "host_traddr") (shown cfg.host_traddr) (flatten (network_items cfg))
  host_traddr-Gives =
      let f = codes "host_traddr" in
      Gives-behind f (shown cfg.host_traddr) (named (codes "transport") cfg.transport) _
        (named-Passes f (codes "transport") cfg.transport (refl, refl) plain.transport)
        (Gives-behind f (shown cfg.host_traddr) (named (codes "traddr") cfg.traddr) _
          (named-Passes f (codes "traddr") cfg.traddr (refl, refl) plain.traddr)
          (Gives-then f (shown cfg.host_traddr) (named f cfg.host_traddr) _
            (named-Gives f cfg.host_traddr)
            (flatten-Passes f (named (codes "trsvcid") cfg.trsvcid ∷ [])
              (named-Passes f (codes "trsvcid") cfg.trsvcid (refl, refl) plain.trsvcid, tt))))

  pub trsvcid-Gives : Gives (codes "trsvcid") (shown cfg.trsvcid) (flatten (network_items cfg))
  trsvcid-Gives =
      let f = codes "trsvcid" in
      Gives-behind f (shown cfg.trsvcid) (named (codes "transport") cfg.transport) _
        (named-Passes f (codes "transport") cfg.transport (refl, refl) plain.transport)
        (Gives-behind f (shown cfg.trsvcid) (named (codes "traddr") cfg.traddr) _
          (named-Passes f (codes "traddr") cfg.traddr (refl, refl) plain.traddr)
          (Gives-behind f (shown cfg.trsvcid) (named (codes "host_traddr") cfg.host_traddr) _
            (named-Passes f (codes "host_traddr") cfg.host_traddr (refl, refl) plain.host_traddr)
            (Gives-then f (shown cfg.trsvcid) (named f cfg.trsvcid) [] (named-Gives f cfg.trsvcid)
              (flatten-Passes f [] tt))))
