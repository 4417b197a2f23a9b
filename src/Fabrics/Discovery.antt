-- ===== src/Fabrics/Discovery.antt =====
-- fabrics.c: `nvmf_get_log_page_discovery`, which reads a discovery log by the command layer's
-- `nvme_discovery_log`. `open` and `calloc` are parameters, and `free` does nothing. The loop runs at
-- most `MAX_DISC_RETRIES` rounds; `none` stands for a log fetch that runs out of its fuel.

pub mod Rounds
pub mod Laws
use switchtec_nvme_cli.Base.{
  ℕ, zero, suc, ◌+◌, ◌-◌, ◌*◌, Bool, true, false, not, ℤ, pos, neg, negate, is_zero, is_negative,
  to_signed, to_unsigned, Option, none, some, List, u32, ◌==◌, if◌then◌else◌,
}
use switchtec_nvme_cli.Base.Memory.{Mem, load_le}
use switchtec_nvme_cli.Device.{World, Outcome, DeviceOps}
use switchtec_nvme_cli.Ioctl.Log.{discovery_log}
use switchtec_nvme_cli.Status.{status_to_errno}

abbrev pub disc_ok : ℕ
disc_ok = 0

abbrev pub disc_no_log : ℕ
disc_no_log = 1

abbrev pub disc_get_numrecs : ℕ
disc_get_numrecs = 2

abbrev pub disc_get_log : ℕ
disc_get_log = 3

abbrev pub disc_retry_exhausted : ℕ
disc_retry_exhausted = 4

abbrev pub disc_not_equal : ℕ
disc_not_equal = 5

abbrev pub max_disc_retries : ℕ
max_disc_retries = 10

abbrev pub enomem : ℕ
enomem = 12

-- The bytes of the header up to and with `numrec`.
abbrev pub hdr_size : ℕ
hdr_size = 16

-- The members of `struct nvmf_disc_rsp_page_hdr`.
abbrev pub genctr_at : ℕ → Mem → ℕ
genctr_at log m = load_le 8 log m

abbrev pub numrec_at : ℕ → Mem → ℕ
numrec_at log m = load_le 8 (log + 8) m

-- The system calls. `calloc` gives the address of a block, or `none` for NULL.
pub record Calls (D : Type 0) : Type 0 where
  pub open_path : List ℕ → World D → ℤ × World D
  pub calloc : ℕ → World D → Option ℕ × World D

-- What a call leaves: its result, `*logp` where it is set, `*numrec`, and `*status`.
pub record Fetched (D : Type 0) : Type 0 where
  pub error : ℤ
  pub logp : Option ℕ
  pub numrec : ℤ
  pub status : ℤ
  pub world : World D

-- A round of the loop: an error, or what is known at the test of the loop.
pub data Round (D : Type 0) : Type 0 where
  failed : (error numrec : ℤ) → World D → Round D
  fetched : (numrec : ℤ) (genctr log : ℕ) → World D → Round D

-- The label `out`.
abbrev pub out : {D : Type 0} → (error : ℤ) → Option ℕ → (numrec : ℤ) → World D → Fetched D
out error logp numrec w = record {
  error = error;
  logp = logp;
  numrec = numrec;
  status = pos (status_to_errno error true);
  world = w;
}

-- The size of a log with `numrec` entries, as an `unsigned int`.
abbrev pub log_size : ℤ → ℕ
log_size numrec = u32 (1024 + 1024 * to_unsigned 64 numrec)

module _ {D : Type 0} (calls : Calls D) (ops : DeviceOps D) (fd : ℕ) where
  -- The second fetch of the header, into the start of the log.
  unfoldable pub fetch_again : (numrec : ℤ) → (log : ℕ) → World D → Option (Round D)
  fetch_again numrec log w =
      let genctr = genctr_at log w.mem in
      elim (discovery_log ops fd log hdr_size w) [
        | none ↦ none
        | some r ↦ some (
            if is_zero r.err
            then Round.fetched numrec genctr log r.world
            else Round.failed (pos disc_get_log) numrec r.world)
      ]

  unfoldable pub fetch_log : (numrec : ℤ) → Option ℕ × World D → Option (Round D)
  fetch_log numrec (none, w) = some (Round.failed (neg enomem) numrec w)
  fetch_log numrec (some log, w) = elim (discovery_log ops fd log (log_size numrec) w) [
    | none ↦ none
    | some r ↦
        let again = fetch_again numrec log r.world in
        if is_zero r.err then again else some (Round.failed (pos disc_get_log) numrec r.world)
  ]

  unfoldable pub round : (log : ℕ) → World D → Option (Round D)
  round log w =
      let numrec = to_signed 32 (u32 (numrec_at log w.mem)) in
      if is_zero numrec
      then some (Round.failed (pos disc_no_log) numrec w)
      else fetch_log numrec (calls.calloc (log_size numrec) w)

  -- Behind the loop.
  unfoldable pub finish : (numrec : ℤ) → (genctr log : ℕ) → World D → Fetched D
  finish numrec genctr log w =
      if not (genctr == genctr_at log w.mem)
      then out (pos disc_retry_exhausted) none numrec w
      else if not (to_unsigned 64 numrec == numrec_at log w.mem)
      then out (pos disc_not_equal) none numrec w
      else out (pos disc_ok) (some log) numrec w

  -- The test of the loop: it is left when the generation counter is what it was.
  unfoldable pub test :
      Round D
      → (again : (numrec : ℤ) → (genctr log : ℕ) → World D → Option (Fetched D))
      → Option (Fetched D)
  test (Round.failed error numrec w) again = some (out error none numrec w)
  test (Round.fetched numrec genctr log w) again =
      if genctr == genctr_at log w.mem
      then some (finish numrec genctr log w)
      else again numrec genctr log w

  -- The loop, with the number of retries that are left.
  unfoldable pub disc_loop : ℕ → (log : ℕ) → World D → Option (Fetched D)
  disc_loop zero log w = elim (round log w) [
    | none ↦ none
    | some r ↦ test r (λ numrec genctr log2 v. some (finish numrec genctr log2 v))
  ]
  disc_loop (suc left) log w = elim (round log w) [
    | none ↦ none
    | some r ↦ test r (λ numrec genctr log2 v. disc_loop left log2 v)
  ]

  -- The first fetch of the header, to learn the number of entries.
  unfoldable pub fetch_header : (numrec : ℤ) → Option ℕ × World D → Option (Fetched D)
  fetch_header numrec (none, w) = some (out (neg enomem) none numrec w)
  fetch_header numrec (some log, w) = elim (discovery_log ops fd log hdr_size w) [
    | none ↦ none
    | some r ↦
        let rest = disc_loop (max_disc_retries - 1) log r.world in
        if is_zero r.err then rest else some (out (pos disc_get_numrecs) none numrec r.world)
  ]

module _ {D : Type 0} (calls : Calls D) (ops : DeviceOps D) where
  -- Behind `open`.
  unfoldable pub fetch_from : (numrec : ℤ) → ℤ × World D → Option (Fetched D)
  fetch_from numrec (fd, w) =
      if is_negative fd
      then some (out (negate w.errno) none numrec w)
      else fetch_header calls ops (to_unsigned 32 fd) numrec (calls.calloc hdr_size w)

  -- `numrec` is what the number of entries was before the call.
  unfoldable pub get_log_page_discovery :
      (dev_path : List ℕ) (numrec : ℤ) → World D → Option (Fetched D)
  get_log_page_discovery dev_path numrec w = fetch_from numrec (calls.open_path dev_path w)
