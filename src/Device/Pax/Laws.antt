-- ===== src/Device/Pax/Laws.antt =====
-- What a command meets on its way through a PAX switch.
use switchtec_nvme_cli.Base.{
  ℕ, suc, ◌+◌, ◌-◌, ◌*◌, ◌/◌, ◌%◌, ◌^◌, ◌≤◌, ◌<◌, ◌≡◌, ◌≢◌, refl, ◌∙◌, ap, ◌⊎◌, true, pos, is_zero,
  Bool-cases, inl, inr, get_elem?, length, some, bit_and, bit_or, shl, arith, ltb, leb,
}
use switchtec_nvme_cli.Base.Bits.{and_mask, and_high_mask, or_shifted, or_multiple}
use switchtec_nvme_cli.Base.Memory.{Mem}
use switchtec_nvme_cli.Device.{World, PassthruCmd}
use switchtec_nvme_cli.Device.Pax.{
  Request, Response, Switchtec, copy_to, sqe, copy_len, completion_status, finish, request,
  response_at, clear_response, admin_rsp_size, admin_call, submit_admin_passthru_1k_rsp,
  submit_admin_passthru_4k_rsp,
}

-- The status of a completion is the top 15 bits of its dword 3, which has 32.
pub completion_status_lem : (cqe3 : ℕ) → cqe3 < 2 ^ 32 → completion_status cqe3 ≡ cqe3 / 2 ^ 17
unfolding completion_status
completion_status_lem cqe3 h = omega (
  arith,
  ap (λ (a : ℕ). bit_and a 0xfffe_0000) (split cqe3),
  and_high_mask 17 (cqe3 / 2 ^ 17) (cqe3 % 2 ^ 17) (2 ^ 15 - 1) (omega arith),
  and_mask 15 (cqe3 / 2 ^ 17),
)
  where
    split : (a : ℕ) → a ≡ a % 2 ^ 17 + a / 2 ^ 17 * 2 ^ 17
    split a = omega arith

-- The submission queue entry has 16 dwords. Dword 9, where the command has its `data_len`, is 0;
-- dword 0 has the opcode, the flags and the reserved half word one above the other, when these fit
-- their widths, and dwords 6, 7 and 10 have the two halves of the address and `cdw10`.
pub sqe-dwords :
    (cmd : PassthruCmd)
    → cmd.opcode < 2 ^ 8
    → cmd.flags < 2 ^ 8
    → cmd.rsvd1 < 2 ^ 16
    → (length (sqe cmd) ≡ 16)
      × (get_elem? (sqe cmd) 9 ≡ some 0)
      × (get_elem? (sqe cmd) 0 ≡ some (cmd.opcode + cmd.flags * 2 ^ 8 + cmd.rsvd1 * 2 ^ 16))
      × (get_elem? (sqe cmd) 6 ≡ some (cmd.addr % 2 ^ 32))
      × (get_elem? (sqe cmd) 7 ≡ some (cmd.addr / 2 ^ 32))
      × (get_elem? (sqe cmd) 10 ≡ some cmd.cdw10)
unfolding sqe
sqe-dwords cmd o f r = (refl, refl, ap some first, refl, refl, refl)
  where
    first :
        bit_or cmd.opcode (bit_or (shl cmd.flags 8) (shl cmd.rsvd1 16))
        ≡ cmd.opcode + cmd.flags * 2 ^ 8 + cmd.rsvd1 * 2 ^ 16
    first =
        rw
          (
            or_shifted 16 cmd.rsvd1 (cmd.flags * 2 ^ 8) (omega arith),
            or_multiple 8 (cmd.flags + cmd.rsvd1 * 2 ^ 8) cmd.opcode
                (cmd.flags * 2 ^ 8 + cmd.rsvd1 * 2 ^ 16) o (omega arith),
          )
          (omega arith)

copy_to-outside :
    (n at : ℕ) (bytes : ℕ → ℕ) (m : Mem) (i : ℕ)
    → (i < at) ⊎ (at + n ≤ i)
    → copy_to n at bytes m i ≡ m i
unfolding copy_to
copy_to-outside n at bytes m i h = ground arith

copy_to-inside :
    (n at : ℕ) (bytes : ℕ → ℕ) (m : Mem) (k : ℕ) → k < n → copy_to n at bytes m (at + k) ≡ bytes k
unfolding copy_to
copy_to-inside n at bytes m k h =
    let low : leb at (at + k) ≡ true = ground arith in
    let high : ltb (at + k) (at + n) ≡ true = ground arith in
    let here : at + k - at ≡ k = omega arith in rw (low, high, here)

-- The copy of a response of at least 16 bytes is as long as its data.
finish-outside :
    {D : Type 0} (cmd : PassthruCmd) (rsp : Response D) (len i : ℕ)
    → (is_zero rsp.err ≡ true → (16 ≤ rsp.rsp_len) × (rsp.rsp_len ≤ 16 + len))
    → 16 + len < 2 ^ 64
    → (i < cmd.addr) ⊎ (cmd.addr + len ≤ i)
    → (finish cmd rsp).world.mem i ≡ rsp.world.mem i
unfolding finish copy_len
finish-outside cmd rsp len i counts fits out = elim (Bool-cases (is_zero rsp.err)) [
  | inr failed ↦ rw failed refl
  | inl ok ↦
      let low = counts ok in
      rw ok (
        ground (
          arith,
          copy_to-outside ((rsp.rsp_len + 2 ^ 64 - 16) % 2 ^ 64) cmd.addr rsp.payload rsp.world.mem
              i,
        ))
]

finish-inside :
    {D : Type 0} (cmd : PassthruCmd) (rsp : Response D) (k : ℕ)
    → rsp.err ≡ pos 0
    → completion_status rsp.cqe3 ≡ 0
    → cmd.addr ≢ 0
    → 16 + k < rsp.rsp_len
    → rsp.rsp_len < 2 ^ 64
    → (finish cmd rsp).world.mem (cmd.addr + k) ≡ rsp.payload k
unfolding finish copy_len
finish-inside cmd rsp k ok good at long fits = ground (
  arith,
  copy_to-inside ((rsp.rsp_len + 2 ^ 64 - 16) % 2 ^ 64) cmd.addr rsp.payload rsp.world.mem k,
)

module _ {D : Type 0} (sw : Switchtec D) where
  -- What the library says of `switchtec_nvme_admin_passthru`: it writes to the response alone, up to the
  -- length asked for, and the length that a successful call returns counts the 16 bytes of the completion and is at
  -- most the length asked for, if that has room for a completion.
  pub record IsBounded : Type 0 where
    pub keeps :
        (pdfid n : ℕ) (req : Request) (len rsp : ℕ) (w : World D) (i : ℕ)
        → (i < rsp) ⊎ (rsp + len ≤ i)
        → (sw.admin_passthru pdfid n req len rsp w).world.mem i ≡ w.mem i
    pub counts :
        (pdfid n : ℕ) (req : Request) (len rsp : ℕ) (w : World D)
        → 16 ≤ len
        → is_zero (sw.admin_passthru pdfid n req len rsp w).err ≡ true
        → (16 ≤ (sw.admin_passthru pdfid n req len rsp w).rsp_len)
          × ((sw.admin_passthru pdfid n req len rsp w).rsp_len ≤ len)

  admin_call-outside :
      IsBounded
      → (cmd : PassthruCmd) (w : World D) (i : ℕ) → cmd.data_len ≤ 4096
      → (i < sw.rsp_at) ⊎ (sw.rsp_at + admin_rsp_size ≤ i)
      → (admin_call sw cmd w).world.mem i ≡ w.mem i
  unfolding admin_call
  admin_call-outside b cmd w i fits out =
      b.keeps _ _ _ (16 + cmd.data_len) sw.rsp_at (clear_response sw.rsp_at w) i (omega arith)
      ∙ copy_to-outside admin_rsp_size sw.rsp_at (λ j. 0) w.mem i out

  -- Through the 4k call, for a command with at most 4096 bytes of data, no byte outside the command's buffer
  -- and outside the call's own response structure changes, whether it succeeds or not, when the library writes
  -- no more of the response than it was asked for and never returns more than that.
  pub submit_admin_passthru_4k_rsp-outside :
      IsBounded
      → (fd : ℕ) (cmd : PassthruCmd) (w : World D) (i : ℕ) → cmd.data_len ≤ 4096
      → (i < cmd.addr) ⊎ (cmd.addr + cmd.data_len ≤ i)
      → (i < sw.rsp_at) ⊎ (sw.rsp_at + admin_rsp_size ≤ i)
      → (submit_admin_passthru_4k_rsp sw fd cmd w).world.mem i ≡ w.mem i
  unfolding submit_admin_passthru_4k_rsp admin_call
  submit_admin_passthru_4k_rsp-outside b fd cmd w i fits out apart =
      finish-outside cmd (response_at sw.rsp_at (admin_call sw cmd w)) cmd.data_len i
        (b.counts _ _ _ _ _ _ (omega arith)) (omega arith) out
      ∙ admin_call-outside b cmd w i fits apart

  -- A library that fills the whole response with the given bytes, as long as it is asked for.
  abbrev pub Fills : (ℕ → ℕ) → Type 0
  Fills bytes =
      (pdfid n : ℕ) (req : Request) (len rsp : ℕ) (w : World D) (k : ℕ)
      → k < len
      → (sw.admin_passthru pdfid n req len rsp w).world.mem (rsp + k) ≡ bytes k

  -- The 4k call asks for a response as long as the command's buffer, though its structure has room for 4096 bytes of
  -- data: for a longer buffer, a library that keeps to its contract and fills what it is asked for overwrites
  -- the byte behind the structure. That byte is not one of the command's buffer, whose length fits 32 bits.
  pub submit_admin_passthru_4k_rsp_overflow :
      IsBounded
      → (bytes : ℕ → ℕ) → Fills bytes
      → (fd : ℕ) (cmd : PassthruCmd) (w : World D) → 4096 < cmd.data_len
      → cmd.data_len < 2 ^ 32
      → let behind = sw.rsp_at + admin_rsp_size in
        (behind < cmd.addr) ⊎ (cmd.addr + cmd.data_len ≤ behind)
        → (submit_admin_passthru_4k_rsp sw fd cmd w).world.mem behind ≡ bytes admin_rsp_size
  unfolding submit_admin_passthru_4k_rsp admin_call
  submit_admin_passthru_4k_rsp_overflow b bytes fills fd cmd w long fits out =
      finish-outside cmd (response_at sw.rsp_at (admin_call sw cmd w)) cmd.data_len
        (sw.rsp_at + admin_rsp_size) (b.counts _ _ _ _ _ _ (omega arith)) (omega arith) out
      ∙ fills _ _ _ _ _ _ admin_rsp_size (omega arith)

  -- The 1k call does not look at the command's `data_len`: a successful response with more data
  -- than the buffer holds overwrites the byte behind the buffer, for a command whose address is
  -- not null.
  pub submit_admin_passthru_1k_rsp_overflow :
      (fd : ℕ) (cmd : PassthruCmd) (w : World D) (rsp : Response D) (extra : ℕ)
      → sw.device_manage sw.pdfid (request sw sw.manage_data_size cmd w) (16 + sw.manage_rsp_size) w
        ≡ rsp
      → rsp.err ≡ pos 0
      → completion_status rsp.cqe3 ≡ 0
      → cmd.addr ≢ 0
      → rsp.rsp_len ≡ 16 + cmd.data_len + suc extra
      → rsp.rsp_len < 2 ^ 64
      → (submit_admin_passthru_1k_rsp sw fd cmd w).world.mem (cmd.addr + cmd.data_len)
        ≡ rsp.payload cmd.data_len
  unfolding submit_admin_passthru_1k_rsp
  submit_admin_passthru_1k_rsp_overflow fd cmd w rsp extra e ok good at len fits =
      rw e (finish-inside cmd rsp cmd.data_len ok good at (omega arith) fits)
