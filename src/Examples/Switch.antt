-- ===== src/Examples/Switch.antt =====
-- Commands through a PAX switch and through the kernel's driver.
use switchtec_nvme_cli.Base.{
  ℕ, ◌≡◌, true, refl, inl, inr, pos, neg, is_zero, leb, ◌==◌, if◌then◌else◌, List, arith,
}
use switchtec_nvme_cli.Base.Memory.{load_le}
use switchtec_nvme_cli.Device.{World, PassthruCmd, zero_cmd}
use switchtec_nvme_cli.Device.Rc.{Kernel, rc_ops}
use switchtec_nvme_cli.Device.Pax.{
  Answer, Response, Switchtec, copy_to, completion_status, finish, admin_call,
  submit_admin_passthru, submit_admin_passthru_1k_rsp, submit_admin_passthru_4k_rsp,
}
use switchtec_nvme_cli.Device.Pax.Laws.{
  IsBounded, submit_admin_passthru_4k_rsp-outside, submit_admin_passthru_4k_rsp_overflow,
  submit_admin_passthru_1k_rsp_overflow,
}
use switchtec_nvme_cli.Device.Pax.Errno.{KeepsErrno, manage_call, submit_admin_passthru_stale_errno}
use switchtec_nvme_cli.Ioctl.Io.{read, write, compare}
use switchtec_nvme_cli.Ioctl.Laws.{HandsPointer, transfers-HandsPointer}
use switchtec_nvme_cli.Examples.Fixtures.{start, record_cmd}

-- A response of ones but for its byte 15, where the status of a completion is.
abbrev filled : (status_byte : ℕ) → ℕ → ℕ
filled status_byte i = if i == 15 then status_byte else 1

abbrev answered : (status_byte len rsp : ℕ) → World (List PassthruCmd) → Answer (List PassthruCmd)
answered status_byte len rsp w = record {
  err = pos 0;
  rsp_len = len;
  world = record w { mem = copy_to len rsp (filled status_byte) w.mem };
}

-- A 1k response always has 968 bytes of data.
abbrev managed : World (List PassthruCmd) → Response (List PassthruCmd)
managed w = record { err = pos 0; cqe0 = 9; cqe3 = 0; payload = λ i. 2; rsp_len = 984; world = w }

abbrev switch : (status_byte : ℕ) → Switchtec (List PassthruCmd)
switch status_byte = record {
  pdfid = 1;
  admin_data_size = 4096;
  manage_data_size = 968;
  manage_rsp_size = 968;
  invalid_mrpc_cmd = 100;
  rsp_at = 0x9000;
  admin_passthru = λ pdfid n req len rsp w. answered status_byte len rsp w;
  device_manage = λ pdfid req len w. managed w;
}

switch-IsBounded : (status_byte : ℕ) → IsBounded (switch status_byte)
unfolding copy_to
switch-IsBounded status_byte = record {
  keeps = λ pdfid n req len rsp w i out. ground arith;
  counts = λ pdfid n req len rsp w h ok. (h, omega arith);
}

-- A switch that refuses the 4k call for a command without data, and completes others with an error.
abbrev refuses_or_fails : (len rsp : ℕ) → World (List PassthruCmd) → Answer (List PassthruCmd)
refuses_or_fails len rsp w =
    if leb len 16
    then record { err = neg 1; rsp_len = 0; world = record w { errno = pos 100 } }
    else answered 0x40 len rsp w

abbrev old_switch : Switchtec (List PassthruCmd)
old_switch = record (switch 0) {
  admin_passthru = λ pdfid n req len rsp w. refuses_or_fails len rsp w;
}

old_switch-KeepsErrno : KeepsErrno old_switch
old_switch-KeepsErrno = record {
  admin = λ pdfid n req len rsp w ok. kept len rsp w ok;
  manage = λ pdfid req len w ok. refl;
}
  where
    kept :
        (len rsp : ℕ) (w : World (List PassthruCmd))
        → is_zero (refuses_or_fails len rsp w).err ≡ true
        → (refuses_or_fails len rsp w).world.errno ≡ w.errno
    kept len rsp w ok = ground arith

-- An identify command with a buffer of 512 bytes.
abbrev identify : PassthruCmd
identify = record zero_cmd { opcode = 6; addr = 0x1000; data_len = 512; cdw10 = 1 }

submit_admin_passthru_4k_rsp-outside_example :
    (submit_admin_passthru_4k_rsp (switch 0) 3 identify start).world.mem 0xfff ≡ 7
submit_admin_passthru_4k_rsp-outside_example =
    submit_admin_passthru_4k_rsp-outside (switch 0) (switch-IsBounded 0) 3 identify start 0xfff
      (omega arith) (inl (omega arith)) (inl (omega arith))

-- A command with 8192 bytes of data.
abbrev long_command : PassthruCmd
long_command = record identify { addr = 0x1000; data_len = 8192 }

submit_admin_passthru_4k_rsp_overflow_example :
    (submit_admin_passthru_4k_rsp (switch 0) 3 long_command start).world.mem 0xa010 ≡ 1
unfolding copy_to
submit_admin_passthru_4k_rsp_overflow_example =
    submit_admin_passthru_4k_rsp_overflow (switch 0) (switch-IsBounded 0) (filled 0)
      (λ pdfid n req len rsp w k low. ground arith) 3 long_command start (omega arith) (omega arith)
      (inr (omega arith))

-- 968 bytes come back to a buffer of 512.
submit_admin_passthru_1k_rsp_overflow_example :
    (submit_admin_passthru_1k_rsp (switch 0) 3 identify start).world.mem 0x1200 ≡ 2
unfolding completion_status
submit_admin_passthru_1k_rsp_overflow_example =
    submit_admin_passthru_1k_rsp_overflow (switch 0) 3 identify start
      (record { err = pos 0; cqe0 = 9; cqe3 = 0; payload = λ i. 2; rsp_len = 984; world = start })
      455 refl refl refl (omega arith) refl (omega arith)

-- A command without data, and then one that identifies.
abbrev no_data : PassthruCmd
no_data = record zero_cmd { opcode = 10 }

abbrev behind_first : World (List PassthruCmd)
behind_first = (submit_admin_passthru old_switch 3 no_data start).world

submit_admin_passthru_stale_errno_example :
    submit_admin_passthru old_switch 3 identify behind_first
    ≡ finish identify
        (manage_call old_switch identify (admin_call old_switch identify behind_first).world)
unfolding completion_status load_le admin_call copy_to
submit_admin_passthru_stale_errno_example =
    submit_admin_passthru_stale_errno old_switch old_switch-KeepsErrno 3 no_data identify start refl
      refl refl refl (omega arith)

abbrev kernel : Kernel (List PassthruCmd)
kernel = record {
  ioctl = λ fd request arg w. record { err = pos 0; world = w };
  ioctl_cmd = λ fd request. record_cmd;
  request_at = 0x7f40;
  variable_at = 0x7f08;
  st_mode = 0x6180;
}

transfers-HandsPointer_example :
    HandsPointer kernel 3 2 start (read (rc_ops kernel) 3 0 7 0 0 0 0 0 0x1000 0 start)
    × HandsPointer kernel 3 1 start (write (rc_ops kernel) 3 0 7 0 0 0 0 0 0x1000 0 start)
    × HandsPointer kernel 3 5 start (compare (rc_ops kernel) 3 0 7 0 0 0 0 0 0x1000 0 start)
transfers-HandsPointer_example =
    transfers-HandsPointer kernel 3 start 0 7 0 0 0 0 0 0x1000 0 (omega arith) (inl (omega arith))
