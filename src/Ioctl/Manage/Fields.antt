-- ===== src/Ioctl/Manage/Fields.antt =====
-- The dwords of the management commands, read back as the device reads them.
use switchtec_nvme_cli.Base.{ℕ, ◌+◌, ◌*◌, ◌/◌, ◌%◌, ◌^◌, ◌<◌, ◌≡◌, bit_or, arith}
use switchtec_nvme_cli.Base.Bits.{or_shifted, shifted_or, multiple_or}
use switchtec_nvme_cli.Ioctl.Manage.{
  format_cmd, fw_download_cmd, fw_commit_cmd, sec_send_cmd, sec_recv_cmd, sanitize_cmd,
}

-- Format NVM: the LBA format, the metadata setting, the protection information, its location and
-- the secure erase setting each fill their own bits, when each fits its field.
pub format_cmd-fields :
    (nsid lbaf ses pi pil ms timeout : ℕ)
    → lbaf < 2 ^ 4
    → ms < 2
    → pi < 2 ^ 3
    → pil < 2
    → ses < 2 ^ 3
    → let c = format_cmd nsid lbaf ses pi pil ms timeout in
      (c.cdw10 % 2 ^ 4 ≡ lbaf)
      × (c.cdw10 / 2 ^ 4 % 2 ≡ ms)
      × (c.cdw10 / 2 ^ 5 % 2 ^ 3 ≡ pi)
      × (c.cdw10 / 2 ^ 8 % 2 ≡ pil)
      × (c.cdw10 / 2 ^ 9 ≡ ses)
unfolding format_cmd
format_cmd-fields nsid lbaf ses pi pil ms timeout l m p q s =
    rw
      (
        or_shifted 4 ms lbaf (omega arith),
        or_shifted 5 pi (lbaf + ms * 2 ^ 4) (omega arith),
        or_shifted 8 pil (lbaf + ms * 2 ^ 4 + pi * 2 ^ 5) (omega arith),
        or_shifted 9 ses (lbaf + ms * 2 ^ 4 + pi * 2 ^ 5 + pil * 2 ^ 8) (omega arith),
      )
      (omega arith)

-- Sanitize: the action, the unrestricted exit, the number of overwrite passes, the inversion of the
-- pattern and the no-deallocate bit each fill their own bits, when each fits its field.
pub sanitize_cmd-fields :
    (sanact ause owpass oipbp no_dealloc ovrpat : ℕ)
    → sanact < 2 ^ 3
    → ause < 2
    → owpass < 2 ^ 4
    → oipbp < 2
    → no_dealloc < 2
    → let c = sanitize_cmd sanact ause owpass oipbp no_dealloc ovrpat in
      (c.cdw10 % 2 ^ 3 ≡ sanact)
      × (c.cdw10 / 2 ^ 3 % 2 ≡ ause)
      × (c.cdw10 / 2 ^ 4 % 2 ^ 4 ≡ owpass)
      × (c.cdw10 / 2 ^ 8 % 2 ≡ oipbp)
      × (c.cdw10 / 2 ^ 9 ≡ no_dealloc)
      × (c.cdw11 ≡ ovrpat)
unfolding sanitize_cmd
sanitize_cmd-fields sanact ause owpass oipbp no_dealloc ovrpat s a o i d =
    rw
      (
        shifted_or 9 no_dealloc (oipbp * 2 ^ 8) (omega arith),
        multiple_or 8 (oipbp + no_dealloc * 2) (owpass * 2 ^ 4) (oipbp * 2 ^ 8 + no_dealloc * 2 ^ 9)
            (omega arith) (omega arith),
        multiple_or 4 (owpass + oipbp * 2 ^ 4 + no_dealloc * 2 ^ 5) (ause * 2 ^ 3)
            (oipbp * 2 ^ 8 + no_dealloc * 2 ^ 9 + owpass * 2 ^ 4) (omega arith) (omega arith),
        multiple_or 3 (ause + owpass * 2 + oipbp * 2 ^ 5 + no_dealloc * 2 ^ 6) sanact
            (oipbp * 2 ^ 8 + no_dealloc * 2 ^ 9 + owpass * 2 ^ 4 + ause * 2 ^ 3) (omega arith)
            (omega arith),
      )
      (omega arith)

-- Firmware Commit: the slot, the action and the boot partition each fill their own bits, when each
-- fits its field.
pub fw_commit_cmd-fields :
    (slot action bpid : ℕ)
    → slot < 2 ^ 3
    → action < 2 ^ 3
    → bpid < 2
    → let c = fw_commit_cmd slot action bpid in
      (c.cdw10 % 2 ^ 3 ≡ slot) × (c.cdw10 / 2 ^ 3 % 2 ^ 3 ≡ action) × (c.cdw10 / 2 ^ 31 ≡ bpid)
unfolding fw_commit_cmd
fw_commit_cmd-fields slot action bpid s a b =
    rw
      (
        shifted_or 31 bpid (action * 2 ^ 3) (omega arith),
        multiple_or 3 (action + bpid * 2 ^ 28) slot (action * 2 ^ 3 + bpid * 2 ^ 31) s
            (omega arith),
      )
      (omega arith)

-- Security Send and Receive and the directives put three values into one dword in the same way.
three_fields :
    (hi mid low : ℕ)
    → low < 2 ^ 8
    → mid * 2 ^ 8 < 2 ^ 24
    → bit_or (bit_or (hi * 2 ^ 24) (mid * 2 ^ 8)) low ≡ low + mid * 2 ^ 8 + hi * 2 ^ 24
three_fields hi mid low l m =
    rw
      (
        shifted_or 24 hi (mid * 2 ^ 8) m,
        multiple_or 8 (mid + hi * 2 ^ 16) low (mid * 2 ^ 8 + hi * 2 ^ 24) l (omega arith),
      )
      (omega arith)

-- Security Send and Security Receive name the protocol, its specific field and the NVMe specific
-- field in dword 10, and the length of the transfer in dword 11.
pub sec_cmd-fields :
    (nsid nssf spsp secp tl data_len addr : ℕ)
    → nssf < 2 ^ 8
    → spsp < 2 ^ 16
    → secp < 2 ^ 8
    → let s = sec_send_cmd nsid nssf spsp secp tl data_len addr in
      let r = sec_recv_cmd nsid nssf spsp secp tl data_len addr in
      (s.cdw10 % 2 ^ 8 ≡ nssf)
      × (s.cdw10 / 2 ^ 8 % 2 ^ 16 ≡ spsp)
      × (s.cdw10 / 2 ^ 24 ≡ secp)
      × (s.cdw11 ≡ tl)
      × (r.cdw10 ≡ s.cdw10)
      × (r.cdw11 ≡ tl)
unfolding sec_send_cmd sec_recv_cmd
sec_cmd-fields nsid nssf spsp secp tl data_len addr n p q =
    let whole = three_fields secp spsp nssf n (omega arith) in
    (omega arith, omega arith, omega arith, omega arith, omega arith, omega arith)

-- Firmware Download moves `data_len` bytes to the byte `offset`, both counted in dwords, when they
-- are multiples of 4 and there is something to move.
pub fw_download_cmd-fields :
    (offset data_len addr : ℕ)
    → 0 < data_len
    → data_len % 4 ≡ 0
    → offset % 4 ≡ 0
    → data_len < 2 ^ 32
    → let c = fw_download_cmd offset data_len addr in
      (4 * (c.cdw10 + 1) ≡ data_len) × (4 * c.cdw11 ≡ offset) × (c.data_len ≡ data_len)
unfolding fw_download_cmd
fw_download_cmd-fields offset data_len addr p d o f = (omega arith, omega arith, omega arith)
