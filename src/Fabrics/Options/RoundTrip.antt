-- ===== src/Fabrics/Options/RoundTrip.antt =====
-- `parse_conn_arg` on what `build_options` writes, as `do_discover` composes them.
use mathlib.Core.Path.{subst}
use switchtec_nvme_cli.Base.{
  ℕ, ◌^◌, ◌<◌, ◌≡◌, refl, ◌∙◌, ap, sym, Bool, false, pos, List, ◌∷◌, length, Option, none, some,
  arith,
}
use switchtec_nvme_cli.Base.Memory.{Mem, load_bytes}
use switchtec_nvme_cli.Text.Search.{codes}
use switchtec_nvme_cli.Parser.Match.{strip_prefix}
use switchtec_nvme_cli.Json.{or_null}
use switchtec_nvme_cli.Fabrics.Args.{
  parse_conn_arg, conarg_nqn, conarg_transport, conarg_traddr, conarg_trsvcid, conarg_host_traddr,
}
use switchtec_nvme_cli.Fabrics.Args.Occurrences.{Plain}
use switchtec_nvme_cli.Fabrics.Args.Laws.{join, AllPlain, parse_conn_arg-join}
use switchtec_nvme_cli.Fabrics.Config.{Config, HostFiles}
use switchtec_nvme_cli.Fabrics.Options.{lacks_argument, build_options}
use switchtec_nvme_cli.Fabrics.Options.Fields.{
  PlainOption, Plain-append, every-Plain, others-AllOther, others-AllOther, shown,
}
use switchtec_nvme_cli.Fabrics.Options.Laws.{
  nqn_item, option_items, with_host, build_options-written,
}
use switchtec_nvme_cli.Fabrics.Options.Found.{
  IsPlain, tuning_names, option_items-Gives, option_items-AllPlain, transport-Gives, traddr-Gives,
  host_traddr-Gives, trsvcid-Gives,
}

-- What `parse_conn_arg` finds in a text is what the options were.
pub record ReadsBack (cfg : Config) (text : List ℕ) : Type 0 where
  pub nqn : parse_conn_arg text b',' conarg_nqn ≡ some (or_null cfg.nqn)
  pub transport : parse_conn_arg text b',' conarg_transport ≡ some (shown cfg.transport)
  pub traddr : parse_conn_arg text b',' conarg_traddr ≡ some (shown cfg.traddr)
  pub trsvcid : parse_conn_arg text b',' conarg_trsvcid ≡ some (shown cfg.trsvcid)
  pub host_traddr : parse_conn_arg text b',' conarg_host_traddr ≡ some (shown cfg.host_traddr)

nqn_item-Plain : (cfg : Config) → PlainOption cfg.nqn → Plain b',' (nqn_item cfg)
nqn_item-Plain cfg h =
    Plain-append (codes "nqn=") (or_null cfg.nqn) (every-Plain (codes "nqn=") refl)
      (or_null-Plain cfg.nqn h)
  where
    or_null-Plain : (nqn : Option (List ℕ)) → PlainOption nqn → Plain b',' (or_null nqn)
    or_null-Plain none p = every-Plain (or_null none) refl
    or_null-Plain (some s) p = p

join-ReadsBack :
    (files : HostFiles) (discover : Bool) (cfg : Config)
    → IsPlain (with_host files cfg)
    → ReadsBack cfg (join b',' (nqn_item cfg) (option_items discover (with_host files cfg)))
unfolding strip_prefix
join-ReadsBack files discover cfg plain =
    let items = option_items discover (with_host files cfg) in
    let all : AllPlain b',' (nqn_item cfg ∷ items) =
      (nqn_item-Plain cfg plain.nqn, option_items-AllPlain files discover cfg plain) in
    let read = λ (f : ℕ) (field : List ℕ) (p : Plain b',' (f ∷ field)).
      parse_conn_arg-join b',' f field (nqn_item cfg) items (λ e. omega arith) p all in
    let given = option_items-Gives files discover cfg plain in
    record {
      nqn = read b'n' (codes "qn") (every-Plain conarg_nqn refl);
      transport =
          read b't' (codes "ransport") (every-Plain conarg_transport refl)
          ∙ ap some (
              given conarg_transport (shown cfg.transport)
                (transport-Gives files discover cfg plain) (refl, refl) (refl, refl)
                (others-AllOther conarg_transport tuning_names refl));
      traddr =
          read b't' (codes "raddr") (every-Plain conarg_traddr refl)
          ∙ ap some (
              given conarg_traddr (shown cfg.traddr) (traddr-Gives files discover cfg plain)
                (refl, refl) (refl, refl) (others-AllOther conarg_traddr tuning_names refl));
      trsvcid =
          read b't' (codes "rsvcid") (every-Plain conarg_trsvcid refl)
          ∙ ap some (
              given conarg_trsvcid (shown cfg.trsvcid) (trsvcid-Gives files discover cfg plain)
                (refl, refl) (refl, refl) (others-AllOther conarg_trsvcid tuning_names refl));
      host_traddr =
          read b'h' (codes "ost_traddr") (every-Plain conarg_host_traddr refl)
          ∙ ap some (
              given conarg_host_traddr (shown cfg.host_traddr)
                (host_traddr-Gives files discover cfg plain) (refl, refl) (refl, refl)
                (others-AllOther conarg_host_traddr tuning_names refl));
    }

-- Through the buffer of `build_options`, `parse_conn_arg` gives `do_discover` the subsystem's name, the
-- transport, the addresses and the service back as they were given, and the empty text for one that is missing
-- or "none" (a missing name reads "(null)"). No text that is given, and neither of the host's identifiers, has a comma;
-- the text fits the buffer, which is shorter than 2 GiB, and no argument that `build_options` asks for is missing.
pub build_options-ReadsBack :
    (files : HostFiles) (at size : ℕ) (discover : Bool) (cfg : Config) (m : Mem)
    → size < 2 ^ 31
    → lacks_argument cfg.transport cfg.traddr ≡ false
    → IsPlain (with_host files cfg)
    → let n = length (join b',' (nqn_item cfg) (option_items discover (with_host files cfg))) in
      n < size
      → ReadsBack cfg (load_bytes n at (build_options files at (pos size) discover cfg m).mem)
build_options-ReadsBack files at size discover cfg m small complete plain fits =
    let built = build_options-written files at size discover cfg m small complete fits in
    subst (ReadsBack cfg) (sym built.content) (join-ReadsBack files discover cfg plain)
