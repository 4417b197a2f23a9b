-- ===== src/Device/Pax/Errno.antt =====
-- `errno` over two commands through a PAX switch.
use switchtec_nvme_cli.Base.{ℕ, ◌+◌, ◌≡◌, ◌≢◌, ◌∙◌, ap, true, false, pos, is_zero, arith}
use switchtec_nvme_cli.Base.Memory.{load_le}
use switchtec_nvme_cli.Device.{World, PassthruCmd, Reply}
use switchtec_nvme_cli.Device.Pax.{
  Request, Response, Switchtec, completion_status, finish, request, admin_call,
  submit_admin_passthru_1k_rsp, submit_admin_passthru_4k_rsp, submit_admin_passthru,
}

finish_errno :
    {D : Type 0} (cmd : PassthruCmd) (rsp : Response D)
    → (finish cmd rsp).world.errno ≡ rsp.world.errno
unfolding finish
finish_errno cmd rsp = ground arith

module _ {D : Type 0} (sw : Switchtec D) where
  -- The library's call in the 1k routine.
  abbrev pub manage_call : PassthruCmd → World D → Response D
  manage_call cmd w =
      sw.device_manage sw.pdfid (request sw sw.manage_data_size cmd w) (16 + sw.manage_rsp_size) w

  -- Calls of the library that succeed leave `errno` as it is.
  pub record KeepsErrno : Type 0 where
    pub admin :
        (pdfid n : ℕ) (req : Request) (len rsp : ℕ) (w : World D)
        → is_zero (sw.admin_passthru pdfid n req len rsp w).err ≡ true
        → (sw.admin_passthru pdfid n req len rsp w).world.errno ≡ w.errno
    pub manage :
        (pdfid : ℕ) (req : Request) (len : ℕ) (w : World D)
        → is_zero (sw.device_manage pdfid req len w).err ≡ true
        → (sw.device_manage pdfid req len w).world.errno ≡ w.errno

  -- A command for which the switch has no 4k call, and what is left of `errno` behind it.
  fallback :
      (fd : ℕ) (cmd : PassthruCmd) (w : World D)
      → is_zero (admin_call sw cmd w).err ≡ false
      → (admin_call sw cmd w).world.errno ≡ pos sw.invalid_mrpc_cmd
      → submit_admin_passthru sw fd cmd w
        ≡ submit_admin_passthru_1k_rsp sw fd cmd (admin_call sw cmd w).world
  unfolding submit_admin_passthru submit_admin_passthru_4k_rsp finish
  fallback fd cmd w failed old = ground arith

  fallback_errno :
      KeepsErrno
      → (fd : ℕ) (cmd : PassthruCmd) (v : World D) → is_zero (manage_call cmd v).err ≡ true
      → (submit_admin_passthru_1k_rsp sw fd cmd v).world.errno ≡ v.errno
  unfolding submit_admin_passthru_1k_rsp finish
  fallback_errno b fd cmd v ok = finish_errno cmd _ ∙ b.manage _ _ _ v ok

  executed_twice :
      (fd : ℕ) (cmd : PassthruCmd) (w : World D)
      → is_zero (admin_call sw cmd w).err ≡ true
      → completion_status (load_le 4 (sw.rsp_at + 12) (admin_call sw cmd w).world.mem) ≢ 0
      → (admin_call sw cmd w).world.errno ≡ pos sw.invalid_mrpc_cmd
      → submit_admin_passthru sw fd cmd w
        ≡ submit_admin_passthru_1k_rsp sw fd cmd (admin_call sw cmd w).world
  unfolding submit_admin_passthru submit_admin_passthru_4k_rsp finish
  executed_twice fd cmd w ok bad stale = ground arith

  -- Nothing resets `errno` between two commands. After a command for which the switch has no 4k call, and which the
  -- 1k call then served, a second command that the device itself completes with an error status, through the 4k
  -- call, is handed to the device once more, by `switchtec_device_manage`, and the result of that is returned.
  -- Calls of the library that succeed leave `errno` as it is.
  pub submit_admin_passthru_stale_errno :
      KeepsErrno
      → (fd : ℕ) (first second : PassthruCmd) (w : World D)
      → let old = (admin_call sw first w).world in
        is_zero (admin_call sw first w).err ≡ false
        → old.errno ≡ pos sw.invalid_mrpc_cmd
        → is_zero (manage_call first old).err ≡ true
        → let v = (submit_admin_passthru sw fd first w).world in
          let c = admin_call sw second v in
          is_zero c.err ≡ true
          → completion_status (load_le 4 (sw.rsp_at + 12) c.world.mem) ≢ 0
          → submit_admin_passthru sw fd second v ≡ finish second (manage_call second c.world)
  unfolding submit_admin_passthru_1k_rsp admin_call
  submit_admin_passthru_stale_errno b fd first second w failed old served ok bad =
      let v = (submit_admin_passthru sw fd first w).world in
      let left : v.errno ≡ pos sw.invalid_mrpc_cmd =
        ap (λ (r : Reply D). r.world.errno) (fallback fd first w failed old)
        ∙ fallback_errno b fd first (admin_call sw first w).world served
        ∙ old in
      executed_twice fd second v ok bad (b.admin _ _ _ _ _ _ ok ∙ left)
