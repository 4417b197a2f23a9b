-- ===== src/Fabrics/Discovery/Laws.antt =====
-- The loop of `nvmf_get_log_page_discovery`: it ends, and what it gives is one generation of the log.
use switchtec_nvme_cli.Base.{
  ℕ, zero, suc, ◌⊎◌, ◌≤◌, ◌≡◌, refl, ◌∙◌, ap, sym, inl, inr, true, false, ℤ, pos, is_zero,
  is_negative, negate, to_unsigned, ◌+◌, ◌*◌, ◌^◌, Option, none, some, List, arith, Bool-cases,
  ◌==◌,
}
use native.Mathlib.Decide.{dec_lt}
use switchtec_nvme_cli.Device.{World, Outcome, DeviceOps}
use switchtec_nvme_cli.Ioctl.Log.{discovery_log}
use switchtec_nvme_cli.Status.{
  status_to_errno, masked_status_to_errno, generic_status_to_errno, status_type,
}
use switchtec_nvme_cli.Fabrics.Discovery.{
  Calls, Fetched, Round, disc_ok, disc_get_numrecs, hdr_size, log_size, genctr_at, numrec_at, out,
  finish, test, disc_loop, fetch_header, fetch_from, get_log_page_discovery,
}
use switchtec_nvme_cli.Fabrics.Discovery.Rounds.{
  Gives, either-Gives, true-false, HasFetched, RoundOk, discovery_log-total, round-Gives,
}

-- What a log is when the call returns `DISC_OK`: `size` bytes of it were fetched, which is its header and as
-- many entries of 1024 bytes as the header says, unless these are 2^22 - 1 or more; then its header was fetched once
-- more, and between the two the generation did not change and the number of entries is the one that the log was
-- fetched for.
pub record IsSnapshot {D : Type 0} (ops : DeviceOps D) (fd : ℕ) (f : Fetched D) : Type 0 where
  pub log : ℕ
  pub before : World D
  pub whole : Outcome D
  pub header : Outcome D
  pub logp : f.logp ≡ some log
  pub size : ℕ
  pub fetches : discovery_log ops fd log size before ≡ some whole
  pub succeeds : is_zero whole.err ≡ true
  pub fetches_again : discovery_log ops fd log hdr_size whole.world ≡ some header
  pub succeeds_again : is_zero header.err ≡ true
  pub last : f.world ≡ header.world
  pub generation : genctr_at log whole.world.mem ≡ genctr_at log header.world.mem
  pub covers :
      (size ≡ 1024 * (numrec_at log header.world.mem + 1))
      ⊎ (2 ^ 22 ≤ numrec_at log header.world.mem + 1)
  pub count : numrec_at log header.world.mem ≡ to_unsigned 64 f.numrec

-- The header and the entries, or so many that their size is reduced.
whole_size :
    (numrec : ℤ) (count : ℕ)
    → count ≡ to_unsigned 64 numrec
    → (log_size numrec ≡ 1024 * (count + 1)) ⊎ (2 ^ 22 ≤ count + 1)
whole_size numrec count same = elim (dec_lt (count + 1) (2 ^ 22)) [
  | yes low ↦ inl (rw (sym same) (omega arith))
  | no high ↦ inr (omega arith)
]

FetchedOk : {D : Type 0} → DeviceOps D → ℕ → Fetched D → Type 0
FetchedOk ops fd f = is_zero f.error ≡ true → IsSnapshot ops fd f

module _ {D : Type 0} (calls : Calls D) (ops : DeviceOps D) (fd : ℕ) where
  -- Behind the loop, whatever the reason that it was left.
  finish-Ok :
      (numrec : ℤ) (genctr log : ℕ) (w : World D)
      → HasFetched ops fd numrec genctr log w
      → FetchedOk ops fd (finish calls ops fd numrec genctr log w)
  unfolding finish FetchedOk
  finish-Ok numrec genctr log w h ok = elim (Bool-cases (genctr == genctr_at log w.mem)) [
    | inr q ↦ absurd (true-false (sym ok ∙ rw (finish, q) refl))
    | inl q ↦ elim (Bool-cases (to_unsigned 64 numrec == numrec_at log w.mem)) [
      | inr n ↦ absurd (true-false (sym ok ∙ rw (finish, q, n) refl))
      | inl n ↦
          rw (finish, q, n)
            (record {
              log = log;
              before = h.before;
              whole = h.whole;
              header = h.header;
              logp = refl;
              size = log_size numrec;
              fetches = h.fetches;
              covers = whole_size numrec (numrec_at log h.header.world.mem) (counted h.last n);
              succeeds = h.succeeds;
              fetches_again = h.fetches_again;
              succeeds_again = h.succeeds_again;
              last = h.last;
              generation =
                  sym h.counter ∙ same_genctr q ∙ ap (λ (v : World D). genctr_at log v.mem) h.last;
              count = counted h.last n;
            })
    ]
  ]
    where
      same_genctr : (genctr == genctr_at log w.mem) ≡ true → genctr ≡ genctr_at log w.mem
      same_genctr q = ground arith

      same_numrec :
          (to_unsigned 64 numrec == numrec_at log w.mem) ≡ true
          → to_unsigned 64 numrec ≡ numrec_at log w.mem
      same_numrec n = ground arith

      counted :
          {u : World D}
          → w ≡ u
          → (to_unsigned 64 numrec == numrec_at log w.mem) ≡ true
          → numrec_at log u.mem ≡ to_unsigned 64 numrec
      counted e n = ap (λ (v : World D). numrec_at log v.mem) (sym e) ∙ sym (same_numrec n)

  test-Gives :
      (r : Round D) (again : (numrec : ℤ) → (genctr log : ℕ) → World D → Option (Fetched D))
      → RoundOk ops fd r
      → ((numrec : ℤ) (genctr log : ℕ) (w : World D)
          → HasFetched ops fd numrec genctr log w
          → Gives (FetchedOk ops fd) (again numrec genctr log w))
      → Gives (FetchedOk ops fd) (test calls ops fd r again)
  unfolding test RoundOk FetchedOk
  test-Gives (Round.failed error numrec w) again ok h =
      (_, refl, λ zero_error. absurd (true-false (sym zero_error ∙ ok)))
  test-Gives (Round.fetched numrec genctr log w) again ok h =
      either-Gives (FetchedOk ops fd) (genctr == genctr_at log w.mem)
        (some (finish calls ops fd numrec genctr log w)) (again numrec genctr log w)
        (λ q. (_, refl, finish-Ok numrec genctr log w ok)) (λ q. h numrec genctr log w ok)

  disc_loop-Gives :
      (retries log : ℕ) (w : World D)
      → Gives (FetchedOk ops fd) (disc_loop calls ops fd retries log w)
  unfolding disc_loop
  disc_loop-Gives zero log w =
      let (r, e, ok) = round-Gives calls ops fd log w in
      let (f, g, found) =
        test-Gives r (λ numrec genctr log2 v. some (finish calls ops fd numrec genctr log2 v)) ok
          (λ numrec genctr log2 v has. (_, refl, finish-Ok numrec genctr log2 v has)) in
      (f, rw (disc_loop, e) g, found)
  disc_loop-Gives (suc left) log w =
      let (r, e, ok) = round-Gives calls ops fd log w in
      let (f, g, found) =
        test-Gives r (λ numrec genctr log2 v. disc_loop calls ops fd left log2 v) ok
          (λ numrec genctr log2 v has. disc_loop-Gives left log2 v) in
      (f, rw (disc_loop, e) g, found)

  fetch_header-Gives :
      (numrec : ℤ) (block : Option ℕ × World D)
      → Gives (FetchedOk ops fd) (fetch_header calls ops fd numrec block)
  unfolding fetch_header FetchedOk
  fetch_header-Gives numrec (none, w) = (_, refl, λ e. absurd (true-false (sym e)))
  fetch_header-Gives numrec (some log, w) =
      let (r, e) = discovery_log-total ops fd log hdr_size w (omega arith) in
      let (f, g, found) =
        either-Gives (FetchedOk ops fd) (is_zero r.err) (disc_loop calls ops fd 9 log r.world)
          (some (out (pos disc_get_numrecs) none numrec r.world))
          (λ q. disc_loop-Gives 9 log r.world) (λ q. (_, refl, λ z. absurd (true-false (sym z)))) in
      (f, rw (fetch_header, e) g, found)

-- `open` that fails sets `errno`.
abbrev pub OpenReports : {D : Type 0} → Calls D → Type 0
OpenReports calls =
    (path : List ℕ) (w : World _)
    → let r = calls.open_path path w in is_negative r.0 ≡ true → is_zero (negate r.1.errno) ≡ false

module _ {D : Type 0} (calls : Calls D) (ops : DeviceOps D) where
  -- The call always ends, whatever the device does. When it returns `DISC_OK`, the log at `*logp` was fetched
  -- without an error, then its header again, the generation counter was the same both times, and the number of
  -- entries in that header is `*numrec`, as 64 bits. What was fetched is the header and all the entries, 1024
  -- bytes each, for fewer than 2^22 - 1 entries (for more, the size is reduced to 32 bits). An `open` that fails
  -- sets `errno`.
  pub get_log_page_discovery-IsSnapshot :
      (dev_path : List ℕ) (numrec : ℤ) (w : World D)
      → OpenReports calls
      → (f : Fetched D) × (get_log_page_discovery calls ops dev_path numrec w ≡ some f)
        × (f.error ≡ pos disc_ok → IsSnapshot ops (to_unsigned 32 (calls.open_path dev_path w).0) f)
  unfolding get_log_page_discovery fetch_from FetchedOk
  get_log_page_discovery-IsSnapshot dev_path numrec w reports =
      let r = calls.open_path dev_path w in
      let fd = to_unsigned 32 r.0 in
      let (f, e, found) =
        either-Gives (FetchedOk ops fd) (is_negative r.0)
          (some (out (negate r.1.errno) none numrec r.1))
          (fetch_header calls ops fd numrec (calls.calloc hdr_size r.1))
          (λ q. (_, refl, λ z. absurd (true-false (sym z ∙ reports dev_path w q))))
          (λ q. fetch_header-Gives calls ops fd numrec (calls.calloc hdr_size r.1)) in
      (f, e, λ z. found (ap is_zero z))

  fetch_header_status :
      (fd : ℕ) (numrec : ℤ) (log : ℕ) (u : World D) (r : Outcome D)
      → discovery_log ops fd log hdr_size u ≡ some r
      → is_zero r.err ≡ false
      → fetch_header calls ops fd numrec (some log, u)
        ≡ some (record {
          error = pos disc_get_numrecs;
          logp = none;
          numrec = numrec;
          status = pos 22;
          world = r.world;
        })
  unfolding fetch_header status_to_errno masked_status_to_errno generic_status_to_errno status_type
  fetch_header_status fd numrec log u r failed e = rw (fetch_header, failed, e) refl

  -- When the first fetch of the header fails, the call returns `DISC_GET_NUMRECS`, and the errno that
  -- it stores in `*status` is always EINVAL: the status that the device returned is lost.
  pub get_log_page_discovery_status :
      (dev_path : List ℕ) (numrec : ℤ) (w : World D) (fd log : ℕ) (v u : World D) (r : Outcome D)
      → calls.open_path dev_path w ≡ (pos fd, v)
      → calls.calloc hdr_size v ≡ (some log, u)
      → discovery_log ops (to_unsigned 32 (pos fd)) log hdr_size u ≡ some r
      → is_zero r.err ≡ false
      → get_log_page_discovery calls ops dev_path numrec w
        ≡ some (record {
          error = pos disc_get_numrecs;
          logp = none;
          numrec = numrec;
          status = pos 22;
          world = r.world;
        })
  unfolding get_log_page_discovery fetch_from
  get_log_page_discovery_status dev_path numrec w fd log v u r opened block failed e =
      ap (fetch_from calls ops numrec) opened
      ∙ ap (fetch_header calls ops (to_unsigned 32 (pos fd)) numrec) block
      ∙ fetch_header_status (to_unsigned 32 (pos fd)) numrec log u r failed e
