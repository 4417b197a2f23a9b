-- ===== src/Examples/Connect.antt =====
-- Connecting: an option text in a buffer, arguments read from one, retries, and names of controllers.
use switchtec_nvme_cli.Base.{
  ℕ, ◌==◌, suc, ◌+◌, ◌≤◌, ◌≡◌, ◌⊎◌, ◌<◌, ◌==◌, not, refl, ap, ◌∙◌, if◌then◌else◌, Bool, true, false,
  ℤ, pos, neg, List, [], ◌∷◌, ◌++◌, length, Option, none, some, arith,
}
use switchtec_nvme_cli.Base.Memory.{Mem, load_bytes}
use switchtec_nvme_cli.Text.Search.{codes, starts_with, until}
use switchtec_nvme_cli.Text.Decimal.{decimal}
use switchtec_nvme_cli.Parser.Match.{same_text, strip_prefix}
use switchtec_nvme_cli.Fabrics.Options.Fields.{every-Plain, every-Every}
use switchtec_nvme_cli.Fabrics.Commands.{Resolver, traddr_is_hostname, buf_size, connect_error}
use switchtec_nvme_cli.Fabrics.Commands.Connect.{Outcomes, connect_error-writes}
use switchtec_nvme_cli.Device.{World}
use switchtec_nvme_cli.Fabrics.Args.{parse_conn_arg, conarg_traddr}
use switchtec_nvme_cli.Fabrics.Args.Laws.{join, first_value, parse_conn_arg-join}
use switchtec_nvme_cli.Fabrics.Config.{
  Config, HostFiles, hostnqn_read, hostid_read, hostnqn_read_file,
}
use switchtec_nvme_cli.Fabrics.Builder.{
  Builder, add_argument, add_int_argument, add_bool_argument, int_text, is_given,
}
use switchtec_nvme_cli.Fabrics.Options.{build_options, lacks_argument}
use switchtec_nvme_cli.Fabrics.Options.Pieces.{Goes, IsWritten}
use switchtec_nvme_cli.Fabrics.Options.Items.{with_commas, named, numbered, flagged, add-IsWritten}
use switchtec_nvme_cli.Fabrics.Options.Laws.{
  nqn_item, option_items, with_host, IsBuilt, build_options-written,
}
use switchtec_nvme_cli.Fabrics.Options.Found.{IsPlain}
use switchtec_nvme_cli.Fabrics.Options.RoundTrip.{ReadsBack, build_options-ReadsBack}
use switchtec_nvme_cli.Fabrics.Options.Overflow.{build_options_overflow}
use switchtec_nvme_cli.Fabrics.Entry.{
  DiscEntry, Session, stripped, space_strip_len, strip_from, connect_ctrl, is_discovery,
  entry_address, connect_by, is_einval,
}
use switchtec_nvme_cli.Fabrics.Names.{trtype_str, arg_str}
use switchtec_nvme_cli.Fabrics.Entry.Endings.{last_item, sqflow_item}
use switchtec_nvme_cli.Fabrics.Entry.Retries.{connect_ctrl-ends, connect_ctrl_diverges}
use switchtec_nvme_cli.Fabrics.Ctrl.{System, basename, ctrl_instance}
use switchtec_nvme_cli.Fabrics.Ctrl.Instance.{same_text-eq, ctrl_instance-ctrl_named}
use switchtec_nvme_cli.Filters.Names.{ctrl_named}

-- No memory is set, and the host has no name.
abbrev sevens : Mem
sevens i = 7

abbrev no_files : HostFiles
no_files = record { hostnqn = none; hostid = none; generated = none }

-- The subsystem "s" over the transport "loop", with a timer.
abbrev loop_cfg : Config
loop_cfg = record {
  nqn = some (codes "s");
  transport = some (codes "loop");
  traddr = none;
  trsvcid = none;
  host_traddr = none;
  hostnqn = none;
  hostid = some (codes "h");
  nr_io_queues = pos 0;
  nr_write_queues = pos 0;
  nr_poll_queues = pos 0;
  queue_size = pos 0;
  keep_alive_tmo = pos 5;
  reconnect_delay = pos 0;
  ctrl_loss_tmo = pos 0;
  tos = neg 1;
  raw = none;
  device = none;
  duplicate_connect = false;
  disable_sqflow = false;
  hdr_digest = true;
  data_digest = false;
  persistent = false;
  quiet = false;
}

loop_cfg-IsPlain : IsPlain (with_host no_files loop_cfg)
unfolding hostnqn_read hostid_read hostnqn_read_file
loop_cfg-IsPlain = record {
  nqn = every-Plain (codes "s") refl;
  transport = every-Plain (codes "loop") refl;
  traddr = tt;
  host_traddr = tt;
  trsvcid = tt;
  hostnqn = tt;
  hostid = every-Plain (codes "h") refl;
}

parse_conn_arg-join_example :
    parse_conn_arg
      (join b',' (codes "nqn=traddr=1") (codes "host_traddr=2" ∷ codes "traddr=3" ∷ []))
      b','
      conarg_traddr
    ≡ some (
        first_value conarg_traddr
          (codes "nqn=traddr=1" ∷ codes "host_traddr=2" ∷ codes "traddr=3" ∷ []))
parse_conn_arg-join_example =
    parse_conn_arg-join b',' b't' (codes "raddr") (codes "nqn=traddr=1")
      (codes "host_traddr=2" ∷ codes "traddr=3" ∷ []) (λ e. omega arith)
      (every-Plain conarg_traddr refl)
      (
        every-Plain (codes "nqn=traddr=1") refl,
        (every-Plain (codes "host_traddr=2") refl, (every-Plain (codes "traddr=3") refl, tt)),
      )

build_options-written_example :
    IsBuilt sevens 16 100
      (join b',' (nqn_item loop_cfg) (option_items false (with_host no_files loop_cfg)))
      (with_host no_files loop_cfg)
      (build_options no_files 16 (pos 100) false loop_cfg sevens)
unfolding lacks_argument strip_prefix starts_with same_text int_text decimal is_given hostnqn_read
    hostid_read hostnqn_read_file
build_options-written_example =
    build_options-written no_files 16 100 false loop_cfg sevens (omega arith) refl (omega arith)

build_options-ReadsBack_example :
    ReadsBack loop_cfg
      (load_bytes 57 16 (build_options no_files 16 (pos 100) false loop_cfg sevens).mem)
unfolding lacks_argument strip_prefix starts_with same_text int_text decimal is_given hostnqn_read
    hostid_read hostnqn_read_file
build_options-ReadsBack_example =
    build_options-ReadsBack no_files 16 100 false loop_cfg sevens (omega arith) refl
      loop_cfg-IsPlain (omega arith)

build_options_overflow_example :
    (16 + 3 ≤ 16 + length (nqn_item loop_cfg))
    × ((build_options no_files 16 (pos 3) false loop_cfg sevens).mem
          (16 + length (nqn_item loop_cfg))
        ≡ b',')
unfolding lacks_argument strip_prefix starts_with same_text
build_options_overflow_example =
    build_options_overflow no_files 16 3 false loop_cfg sevens (codes "loop") refl refl refl
      (omega arith) (omega arith) (omega arith)

ctrl_instance-ctrl_named_example :
    ((dir : List ℕ) → ctrl_instance (dir ++ b'/' ∷ ctrl_named 12) ≡ pos 12)
    × ((path : List ℕ) → ctrl_instance path ≡ pos 12 → basename path ≡ ctrl_named 12)
ctrl_instance-ctrl_named_example = ctrl_instance-ctrl_named 12 (omega arith)

-- An entry for a subsystem over RDMA, on an address of IPv4, whose flow control may be disabled.
abbrev rdma_entry : DiscEntry
rdma_entry = record {
  trtype = 1;
  adrfam = 1;
  subtype = 2;
  treq = 4;
  trsvcid = codes "4420 ";
  subnqn = b's' ∷ 0 ∷ [];
  traddr = codes "10.0.0.1 ";
  tsas = [];
}

abbrev idle : Session ℕ
idle = record { cfg = loop_cfg; sys = 0 }

-- A kernel that takes every connect, and one that answers each with -EINVAL.
abbrev accept : List ℕ → Session ℕ → Option (ℤ × Session ℕ)
accept argstr s = some (pos 0, record s { sys = suc s.sys })

abbrev refuse : List ℕ → Session ℕ → Option (ℤ × Session ℕ)
refuse argstr s = some (neg 22, s)

connect_ctrl_diverges_example : connect_ctrl refuse refuse 100 rdma_entry idle ≡ none
unfolding is_discovery trtype_str entry_address same_text arg_str
connect_ctrl_diverges_example =
    connect_ctrl_diverges refuse refuse rdma_entry idle 100 (refl, refl, refl, (_, refl))
      (λ argstr t. (t, refl))

-- A kernel that does not know the flow control option, and takes every other text: it refuses the first round
-- for the entry, and takes the second.
abbrev old_result : List ℕ → ℤ
old_result argstr = if same_text (last_item argstr) sqflow_item then neg 22 else pos 0

abbrev old_kernel : List ℕ → Session ℕ → Option (ℤ × Session ℕ)
old_kernel argstr s = some (old_result argstr, record s { sys = suc s.sys })

connect_ctrl-ends_example :
    (r : ℤ × Session ℕ) × (connect_ctrl old_kernel old_kernel 2 rdma_entry idle ≡ some r)
unfolding stripped space_strip_len strip_from until
connect_ctrl-ends_example =
    connect_ctrl-ends old_kernel old_kernel rdma_entry idle
      (every-Plain (stripped 256 rdma_entry.traddr) refl)
      (every-Plain (stripped 32 rdma_entry.trsvcid) refl) total refuses
  where
    total :
        (discover : Bool) (argstr : List ℕ) (s : Session ℕ)
        → (r : ℤ × Session ℕ) × (connect_by old_kernel old_kernel discover argstr s ≡ some r)
    total true argstr s = (_, refl)
    total false argstr s = (_, refl)

    by_option :
        (argstr : List ℕ) → is_einval (old_result argstr) ≡ true → last_item argstr ≡ sqflow_item
    by_option argstr e = same_text-eq (last_item argstr) sqflow_item (ground arith)

    result_of : Option (ℤ × Session ℕ) → Bool
    result_of none = false
    result_of (some r) = is_einval r.0

    refuses :
        (discover : Bool) (argstr : List ℕ) (s : Session ℕ) (r : ℤ × Session ℕ)
        → connect_by old_kernel old_kernel discover argstr s ≡ some r
        → is_einval r.0 ≡ true
        → last_item argstr ≡ sqflow_item
    refuses true argstr s r called q = by_option argstr (ap result_of called ∙ q)
    refuses false argstr s r called q = by_option argstr (ap result_of called ∙ q)

-- A text that is empty so far, in memory full of zeros.
abbrev noughts : Mem
noughts i = 0

abbrev beginning : Builder
beginning = record { mem = noughts; argstr = 16; max_len = pos 100 }

beginning-IsWritten : IsWritten noughts 16 100 [] beginning
unfolding load_bytes
beginning-IsWritten = (
  record { room = omega arith; at_end = refl; left = refl; content = refl; outside = λ i h. refl },
  refl,
)

add-IsWritten_example :
    Goes noughts 16 100
      ([] ++ with_commas (named (codes "tos") (some (codes "7"))))
      (add_argument (codes "tos") (some (codes "7")) beginning)
    × Goes noughts 16 100
        ([] ++ with_commas (numbered (codes "tos") (pos 0) true))
        (add_int_argument (codes "tos") (pos 0) true beginning)
    × Goes noughts 16 100
        ([] ++ with_commas (flagged (codes "tos") true))
        (add_bool_argument (codes "tos") true beginning)
unfolding same_text int_text decimal is_given
add-IsWritten_example =
    add-IsWritten noughts 16 100 [] beginning (codes "tos") (some (codes "7")) (pos 0) true true
      (omega arith) beginning-IsWritten (omega arith) (omega arith) (omega arith)

-- A system where every call fails with ENODEV.
abbrev nowhere : System ℕ
nowhere = record {
  calls = record {
    open_path = λ path w. (neg 1, record w { errno = pos 19 });
    calloc = λ size w. (none, w);
  };
  ops = record {
    submit_admin_passthru = λ fd cmd w. record { err = neg 1; cmd = cmd; world = w };
    get_nsid = λ fd w. record { err = neg 1; world = w };
    io = λ fd request w. record { err = neg 1; world = w };
    subsystem_reset = λ fd w. record { err = neg 1; world = w };
    reset_controller = λ fd w. record { err = neg 1; world = w };
    ns_rescan = λ fd w. record { err = neg 1; world = w };
    submit_passthru = λ fd request cmd w. record { err = neg 1; cmd = cmd; world = w };
    submit_io_passthru = λ fd cmd w. record { err = neg 1; cmd = cmd; world = w };
    is_blk = λ w. false;
  };
  file = λ path w. none;
  scandir = λ path w. none;
  write = λ fd text w. (neg 1, w);
  read = λ fd w. (neg 1, [], w);
  allocated = true;
}

abbrev numbers_only : Resolver
numbers_only = record { is_address = λ s. false; hostname2traddr = λ cfg. (neg 2, cfg) }

-- A kernel that keeps the text it is given, and answers with instance 3.
abbrev kernel : System (List ℕ)
kernel = record {
  calls = record { open_path = λ path w. (pos 5, w); calloc = λ size w. (none, w) };
  ops = record {
    submit_admin_passthru = λ fd cmd w. record { err = neg 1; cmd = cmd; world = w };
    get_nsid = λ fd w. record { err = neg 1; world = w };
    io = λ fd request w. record { err = neg 1; world = w };
    subsystem_reset = λ fd w. record { err = neg 1; world = w };
    reset_controller = λ fd w. record { err = neg 1; world = w };
    ns_rescan = λ fd w. record { err = neg 1; world = w };
    submit_passthru = λ fd request cmd w. record { err = neg 1; cmd = cmd; world = w };
    submit_io_passthru = λ fd cmd w. record { err = neg 1; cmd = cmd; world = w };
    is_blk = λ w. false;
  };
  file = λ path w. none;
  scandir = λ path w. none;
  write = λ fd text w. (pos (length text), record w { dev = text });
  read = λ fd w. (pos 19, codes "instance=3,cntlid=1", w);
  allocated = true;
}

abbrev world : World (List ℕ)
world = record { mem = sevens; errno = pos 0; dev = [] }

connect_error-writes_example :
    (m : Mem) × Outcomes kernel no_files numbers_only 16
      (join b',' (nqn_item loop_cfg) (option_items false (with_host no_files loop_cfg)))
      (record world { mem = m })
      (connect_error kernel no_files numbers_only 16 loop_cfg world)
    × ((i : ℕ) → (i < 16) ⊎ (16 + buf_size ≤ i) → m i ≡ world.mem i)
unfolding lacks_argument strip_prefix starts_with same_text int_text decimal is_given hostnqn_read
    hostid_read hostnqn_read_file traddr_is_hostname
connect_error-writes_example =
    connect_error-writes kernel no_files numbers_only 16 loop_cfg (codes "s") world refl refl refl
      (omega arith)
      (every-Every (λ c. not (c == 0))
        (join b',' (nqn_item loop_cfg) (option_items false (with_host no_files loop_cfg))) refl)
