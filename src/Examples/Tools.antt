-- ===== src/Examples/Tools.antt =====
-- Names of devices, the choice of a command, and some commands of the tool on the recording device.
use switchtec_nvme_cli.Base.{
  if◌then◌else◌, ◌+◌, ◌^◌, ◌≡◌, refl, true, false, pos, negsuc, List, [], ◌∷◌, none, some, ◌==◌,
  arith, map, ◌*◌, ◌-◌, not, flag, upto, inl,
}
use switchtec_nvme_cli.Base.Memory.{store_bytes, load_le}
use switchtec_nvme_cli.Device.{World, PassthruCmd, DeviceOps, status_of}
use switchtec_nvme_cli.Text.Search.{codes, starts_with}
use switchtec_nvme_cli.Ioctl.Log.Pieces.{Piece, submit_all}
use switchtec_nvme_cli.Ioctl.Identify.{identify_ctrl, identify}
use switchtec_nvme_cli.Filters.{
  scan_namespace_filter, scan_ctrl_paths_filter, scan_ctrls_filter, scan_dev_filter,
}
use switchtec_nvme_cli.Filters.Names.{
  ctrl_named, ns_named, path_named, partition_named, filters-names,
}
use switchtec_nvme_cli.Plugin.{
  Command, Plugin, handle_plugin, own_call, find_command, find_named, find_prefix,
}
use switchtec_nvme_cli.Parser.Match.{same_text, strip_prefix}
use switchtec_nvme_cli.Plugin.Dispatch.{handle_plugin-one_word}
use switchtec_nvme_cli.Nvme.Firmware.{download_loop}
use switchtec_nvme_cli.Nvme.Firmware.Chunks.{chunk_cmd, Covers, download_loop-Covers}
use switchtec_nvme_cli.Nvme.Format.{Config, Calls, no_lbaf, format_error, choose_lbaf}
use switchtec_nvme_cli.Nvme.Format.Sizes.{ChoosesFirst, choose_lbaf-ChoosesFirst}
use switchtec_nvme_cli.Nvme.Format.Namespaces.{
  answered, FormatsAll, format_error_all, format_error-ignores_size,
}
use switchtec_nvme_cli.Ioctl.{get_nsid}
use switchtec_nvme_cli.Ioctl.Identify.{identify_ns}
use switchtec_nvme_cli.Ioctl.Manage.{ns_delete}
use switchtec_nvme_cli.Argconfig.Arrays.{join}
use switchtec_nvme_cli.Nvme.Namespace.{delete_ns, attach_ns}
use switchtec_nvme_cli.Nvme.Namespace.Delete.{delete_ns_error}
use switchtec_nvme_cli.Nvme.Namespace.Attach.{attach_ns-join}
use switchtec_nvme_cli.Examples.Fixtures.{start, recorder, fstat}

filters-names_example :
    (scan_ctrls_filter (ctrl_named 0) ≡ true)
    × (scan_namespace_filter (ctrl_named 0) ≡ false)
    × (scan_ctrl_paths_filter (ctrl_named 0) ≡ false)
    × (scan_dev_filter (pos 0) (ctrl_named 0) ≡ false)
    × (scan_ctrls_filter (ns_named 0 1) ≡ false)
    × (scan_namespace_filter (ns_named 0 1) ≡ true)
    × (scan_ctrl_paths_filter (ns_named 0 1) ≡ true)
    × (scan_dev_filter (pos 0) (ns_named 0 1) ≡ (0 == 0))
    × (scan_ctrls_filter (path_named 0 2 1) ≡ true)
    × (scan_namespace_filter (path_named 0 2 1) ≡ false)
    × (scan_ctrl_paths_filter (path_named 0 2 1) ≡ true)
    × (scan_dev_filter (pos 0) (path_named 0 2 1) ≡ false)
    × (scan_ctrls_filter (partition_named 0 1 3) ≡ false)
    × (scan_namespace_filter (partition_named 0 1 3) ≡ true)
    × (scan_ctrl_paths_filter (partition_named 0 1 3) ≡ true)
    × (scan_dev_filter (pos 0) (partition_named 0 1 3) ≡ false)
filters-names_example =
    filters-names 0 2 1 3 0 (omega arith) (omega arith) (omega arith) (omega arith)

abbrev intel : Plugin
intel = record {
  name = codes "intel";
  commands = record { name = codes "smart-log-add"; alias = none; fn = 7 } ∷ [];
}

abbrev list_command : List Command
list_command = record { name = codes "list"; alias = none; fn = 1 } ∷ []

handle_plugin-one_word_example :
    handle_plugin list_command (intel ∷ []) (codes "intel-smart-log-add" ∷ codes "/dev/nvme0" ∷ [])
    ≡ handle_plugin list_command
        (intel ∷ [])
        (codes "intel" ∷ codes "smart-log-add" ∷ codes "/dev/nvme0" ∷ [])
unfolding same_text own_call find_command find_named find_prefix starts_with strip_prefix
handle_plugin-one_word_example =
    handle_plugin-one_word list_command (intel ∷ []) intel (codes "smart-log-add")
      (codes "/dev/nvme0" ∷ []) (λ e. omega arith) (λ e. omega arith) (λ e. omega arith) refl refl
      refl refl refl

-- An image of 12 bytes in chunks of 8.
download_loop-Covers_example :
    (ps : List Piece) × (download_loop recorder 3 13 8 16 4096 12 start
      ≡ some (submit_all recorder 3 (map (chunk_cmd 16 4096) ps) start))
    × Covers 8 0 ps 12
download_loop-Covers_example =
    download_loop-Covers recorder 3 8 16 4096 12 start (omega arith) refl refl (omega arith)

-- A block device in the file system whose driver does not say its namespace.
abbrev nameless : DeviceOps (List PassthruCmd)
nameless = record recorder {
  is_blk = λ w. true;
  get_nsid = λ fd w. record { err = negsuc 0; world = w };
}

abbrev calls : Calls (List PassthruCmd)
calls = record { fstat = fstat; reread = λ fd w. record { err = pos 0; world = w }; is_chr = false }

abbrev no_options : Config
no_options = record {
  namespace_id = 0;
  timeout = 600000;
  lbaf = no_lbaf;
  ses = 0;
  pi = 0;
  pil = 0;
  ms = 0;
  bs = 0;
  reset = false;
}

abbrev blank : World (List PassthruCmd)
blank = record start { mem = λ i. 0 }

abbrev identified : World (List PassthruCmd)
identified = (identify_ctrl nameless 4 4096 blank).world

-- A namespace whose format 2 has blocks of 512 bytes, for the structure at 4096.
abbrev third_has_512 : World (List PassthruCmd)
third_has_512 = record start { mem = λ i. if i == 4096 + 128 + 4 * 2 + 2 then 9 else 0 }

choose_lbaf-ChoosesFirst_example :
    ChoosesFirst 4096 512
      (identify_ns recorder 4 1 false 4096 third_has_512).world
      (choose_lbaf calls recorder 4 8192 4096 (record no_options { bs = 512 }) 1 third_has_512)
unfolding identify_ns identify
choose_lbaf-ChoosesFirst_example =
    choose_lbaf-ChoosesFirst calls recorder 4 8192 4096 (record no_options { bs = 512 }) 1
      third_has_512 refl refl refl (λ j low. ground arith)

format_error_all_example :
    (c : PassthruCmd) × (format_error calls nameless 4 4096 8192 no_options blank
      ≡ answered calls nameless 4 4096 8192 no_options 0
          (status_of (nameless.submit_admin_passthru 4 c identified)))
    × FormatsAll no_options 0 c
unfolding identify_ctrl identify store_bytes
format_error_all_example =
    format_error_all calls nameless 4 4096 8192 no_options blank (fstat 4 identified) identified
      refl refl (omega arith, omega arith, omega arith, omega arith, omega arith) refl refl refl
      refl refl refl

-- A device that fills what it is asked for with ones.
abbrev ones : DeviceOps (List PassthruCmd)
ones = record recorder {
  submit_admin_passthru =
      λ fd cmd w. record { err = pos 0; cmd = cmd; world = record w { mem = λ i. 0xff } };
}

format_error-ignores_size_example :
    (c : PassthruCmd) × (format_error calls ones 4 4096 8192 (record no_options { bs = 512 }) start
      ≡ answered calls ones 4 4096 8192
          (record no_options { bs = 512 })
          0
          (status_of (ones.submit_admin_passthru 4 c (identify_ctrl ones 4 4096 start).world)))
    × FormatsAll (record no_options { bs = 512 }) 0 c
unfolding identify_ctrl identify
format_error-ignores_size_example =
    format_error-ignores_size calls ones 4 4096 8192 (record no_options { bs = 512 }) start refl
      refl (omega arith, omega arith, omega arith, omega arith, omega arith) refl refl

-- What is left when a character device is asked for its namespace.
abbrev not_block : World (List PassthruCmd)
not_block = record start { errno = pos 15 }

delete_ns_error_example :
    delete_ns fstat recorder 3 0 0 start ≡ ns_delete recorder 3 (2 ^ 32 - 1 - 14) 0 not_block
unfolding get_nsid
delete_ns_error_example = delete_ns_error fstat recorder 3 0 14 start not_block (omega arith) refl

attach_ns-join_example :
    (c : PassthruCmd) × (v : World (List PassthruCmd)) × (attach_ns recorder 3 4096 1
        (some (join 2 (30 ∷ [])))
        true
        start
      ≡ status_of (recorder.submit_admin_passthru 3 c v))
    × (c.cdw10 ≡ flag (not true) 1)
    × (load_le 2 c.addr v.mem ≡ 2)
    × (map (λ j. load_le 2 (c.addr + 2 + 2 * j) v.mem) (upto 0 2) ≡ 2 ∷ 30 ∷ [])
    × (v.mem 100 ≡ start.mem 100)
attach_ns-join_example =
    attach_ns-join recorder 3 4096 1 2 (30 ∷ []) true start 100 (λ e. omega arith)
      (omega arith, (omega arith, tt)) (omega arith) (inl (omega arith))
