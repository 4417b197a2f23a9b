-- ===== src/Nvme.antt =====
-- nvme.c: subcommands with logic of their own, in the child modules.
pub mod Firmware
pub mod Format
pub mod Namespace
pub mod Blocks
