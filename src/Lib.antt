-- ===== src/Lib.antt =====
-- nvme-cli with support for Switchtec PAX switches: a command line tool that builds NVMe commands and
-- hands them to a device, either through the kernel's driver or through a PAX switch.
--
-- The parts and how they interact. A subcommand reads its options, and calls a function of the
-- command layer (nvme-ioctl.c), which fills a `struct nvme_passthru_cmd`, builds a payload in memory
-- where there is one, and gives both to the operations table of the open device (nvme-device.h). The
-- table is one of two: that of the kernel's driver (plugins/microchip/rc-nvme-device.c), or that of a
-- device behind a switch (plugins/microchip/switchtec-nvme-device.c). A status that comes back becomes
-- an errno (nvme-status.c). Option values pass through the readers of util. The
-- commands on fabrics (fabrics.c) write an option text to /dev/nvme-fabrics, read the number of the new
-- controller from the reply, and fetch a discovery log by the command layer. The first word of the
-- command line chooses the subcommand or the plugin (plugin.c).
--
-- Which file models what:
--   Base, Base/*       Boolean tests, lists, C integers, words, bit operations, memory.
--   Status, Status/*   nvme-status.c and nvme_status_type of nvme-status.h. Sc has the status codes of
--                      linux/nvme.h, Errno the numbers of errno.h on Linux.
--   Device             linux/nvme_ioctl.h (the structures) and nvme-device.h (the table). `World` is
--                      the memory of the process, errno, and the device's state.
--   Device/Rc          plugins/microchip/rc-nvme-device.c. `Kernel` is the system call, and where the
--                      request of a transfer and the pointer to it stand in memory.
--   Device/Pax         plugins/microchip/switchtec-nvme-device.c. `Switchtec` is the switchtec library, and
--                      where the response of the 4k call stands in memory.
--   Ioctl              nvme-ioctl.c: the checks of a handle and nvme_passthru. A function nvme_x is
--                      the definition x, and x_cmd is the command that it fills.
--   Ioctl/Io           nvme-ioctl.c: read, write, compare, verify, write zeroes, flush, dsm.
--   Ioctl/Payload      nvme-ioctl.c: reservations, dsm ranges, namespace creation and attachment.
--   Ioctl/Identify     nvme-ioctl.c: the identify commands.
--   Ioctl/Log          nvme-ioctl.c: the log pages.
--   Ioctl/Feature      nvme-ioctl.c: features and the properties of a controller.
--   Ioctl/Manage       nvme-ioctl.c: format, firmware, security, directives, sanitize, self-test.
--   Ioctl/NvmOpcode, AdminOpcode, Cns, LogId, Reg    constants of linux/nvme.h.
--   Text               the character tests and number readers of the C library.
--   Suffix             util/suffix.c.
--   Text/Decimal, Rest what the readers make of numbers in decimal, and where they stop.
--   Parser/Match       util/parser.c: match_one, match_token, the number readers, the copies.
--   Parser/Wildcard    util/parser.c: match_wildcard.
--   Text/Search, Sscanf strstr, strchr and sscanf of the C library, as far as they are used.
--   Fabrics            fabrics.c: the loop of add_ctrl over the kernel's reply.
--   Fabrics/Args       fabrics.c: parse_conn_arg.
--   Fabrics/Names      fabrics.c: the tables of names, trtype_str and so on.
--   Fabrics/Config     fabrics.c: cfg, and the identifiers of the host from their files.
--   Fabrics/Builder    fabrics.c: add_argument, add_int_argument and add_bool_argument.
--   Fabrics/Options    fabrics.c: build_options.
--   Fabrics/Discovery  fabrics.c: nvmf_get_log_page_discovery, over the log pages of Ioctl/Log.
--   Fabrics/Entry      fabrics.c: connect_ctrl and connect_ctrls, with add_ctrl and do_discover as
--                      parameters.
--   Fabrics/Ctrl       fabrics.c: ctrl_instance, add_ctrl, remove_ctrl, the search for a controller
--                      by its attributes, and disconnecting; nvme_get_ctrl_attr of nvme-topology.c.
--   Fabrics/Discover   fabrics.c: do_discover, which puts these together.
--   Fabrics/Commands   fabrics.c: fabrics_connect, fabrics_discover and fabrics_disconnect, from the
--                      parsed options on.
--   Filters            nvme-filters.c.
--   Plugin             plugin.c: handle_plugin.
--   Nvme/*             nvme.c: Firmware (fw_download, fw_commit), Format (format), Namespace
--                      (create_ns, delete_ns, attach_ns, detach_ns), Blocks (write_uncor,
--                      write_zeroes), each from the open device on.
--   Json               util/json.c: escaping, adding values, printing.
--   Argconfig          util/argconfig.c: arrays of numbers.
--   Examples/*         tests, and the properties at concrete inputs.
--
-- Pointers are addresses of a memory that maps every address to a byte; a local array or structure
-- whose address a command carries is placed by a parameter. Arguments are natural numbers: those of
-- fixed width are below the bound of their type, which a theorem states where it needs it, and every
-- computed member of a command is cut to its width.
--
-- Fuel. `log_loop` (nvme_get_log) runs on data_len / 4096 + 1 rounds and `properties_loop`
-- (nvme_get_properties) on 16, for 13 registers and the test that ends the loop.
-- `log_loop` with an empty log asks for 0 bytes once.
-- `match_loop` (match_wildcard) runs on `rounds`, one pass of the pattern for each start in the text, and
-- `one_loop` (match_one) on one round more than the pattern has characters, since each round but the last
-- takes a percent sign of it.
-- `arg_loop` (parse_conn_arg) runs on one round more than the text has characters: each round but the last
-- passes a delimiter. `disc_loop` (nvmf_get_log_page_discovery) has the 10 rounds of MAX_DISC_RETRIES, and
-- `download_loop` (fw_download) one round for each byte of the image and one more. `connect_loop`
-- (connect_ctrl) takes the number of rounds as an argument, since the code sets no limit to them, and
-- `do_discover` the depth of referrals.
--
-- Not modelled: printing (nvme-print.c, and of a discovery log), option tables, help texts, the other
-- subcommands of nvme.c (most of which end at once as not yet supported), host names (getaddrinfo) and the
-- configuration file of fabrics.c, the scans of sysfs of nvme-topology.c, nvme-models.c, LightNVM, the
-- vendor plugins, freeing JSON trees, and everything on floating point numbers.
-- `fstat`, `ioctl`, `malloc`, the files and directories of the system and the switchtec library are
-- parameters.
pub mod Base
pub mod Status
pub mod Device
pub mod Ioctl
pub mod Text
pub mod Suffix
pub mod Parser
pub mod Fabrics
pub mod Json
pub mod Argconfig
pub mod Filters
pub mod Nvme
pub mod Plugin
mod Examples
