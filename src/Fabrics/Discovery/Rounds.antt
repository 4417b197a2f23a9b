-- ===== src/Fabrics/Discovery/Rounds.antt =====
-- A round of `nvmf_get_log_page_discovery`: the fetch ends, and what it has fetched.
use switchtec_nvme_cli.Base.{
  ℕ, zero, suc, ◌^◌, ◌<◌, ◌≡◌, refl, inl, inr, Bool, true, false, not, ℤ, pos, is_zero, to_signed,
  Option, none, some, u32, arith, Bool-cases, if◌then◌else◌,
}
use switchtec_nvme_cli.Device.{World, Outcome, DeviceOps}
use switchtec_nvme_cli.Ioctl.Log.{discovery_log, get_log, get_log13, no_log_lsp, log_loop}
use switchtec_nvme_cli.Ioctl.Log.Pieces.{get_log-Follow}
use switchtec_nvme_cli.Fabrics.Discovery.{
  Calls, Round, disc_no_log, disc_get_log, hdr_size, log_size, genctr_at, numrec_at, fetch_again,
  fetch_log, round,
}

either-some {ℓ} :
    {A : Type ℓ} (b : Bool) (x y : A) → (r : A) × ((if b then some x else some y) ≡ some r)
either-some true x y = (x, refl)
either-some false x y = (y, refl)

-- A result that is there, and what holds of it.
abbrev pub Gives {ℓ} : {A : Type ℓ} → (A → Type 0) → Option A → Type ℓ
Gives P x = (r : _) × (x ≡ some r) × P r

pub either-Gives {ℓ} :
    {A : Type ℓ} (P : A → Type 0) (b : Bool) (x y : Option A)
    → (b ≡ true → Gives P x)
    → (b ≡ false → Gives P y)
    → Gives P (if b then x else y)
either-Gives P true x y p q = p refl
either-Gives P false x y p q = q refl

pub true-false : true ≡ false → ⊥
true-false p = cc

module _ {D : Type 0} (ops : DeviceOps D) (fd : ℕ) where
  -- An empty log asks for nothing once.
  log_loop-empty :
      (addr : ℕ) (w : World D)
      → (r : Outcome D) × (log_loop ops fd 1 0 0x70 false 0 0 addr w ≡ some r)
  unfolding log_loop
  log_loop-empty addr w =
      let r = get_log13 ops fd 0 0x70 no_log_lsp 0 0 false 0 addr w in
      either-some (not (is_zero r.err)) r (record { err = pos 0; world = r.world })

  pub discovery_log-total :
      (addr size : ℕ) (w : World D)
      → size < 2 ^ 32
      → (r : Outcome D) × (discovery_log ops fd addr size w ≡ some r)
  unfolding discovery_log get_log
  discovery_log-total addr zero w h = log_loop-empty addr w
  discovery_log-total addr (suc size) w h =
      let (ps, e, follow) = get_log-Follow ops fd 0 0x70 false addr (suc size) w (omega arith) h in
      (_, e)

-- A round that ends without an error has fetched a log and its header, from some world on.
pub record HasFetched {D : Type 0} (ops : DeviceOps D) (fd : ℕ) (numrec : ℤ) (genctr log : ℕ)
    (w : World D) : Type 0 where
  pub before : World D
  pub whole : Outcome D
  pub header : Outcome D
  pub fetches : discovery_log ops fd log (log_size numrec) before ≡ some whole
  pub succeeds : is_zero whole.err ≡ true
  pub fetches_again : discovery_log ops fd log hdr_size whole.world ≡ some header
  pub succeeds_again : is_zero header.err ≡ true
  pub last : w ≡ header.world
  pub counter : genctr ≡ genctr_at log whole.world.mem

unfoldable pub RoundOk : {D : Type 0} → DeviceOps D → ℕ → Round D → Type 0
RoundOk ops fd (Round.failed error numrec w) = is_zero error ≡ false
RoundOk ops fd (Round.fetched numrec genctr log w) = HasFetched ops fd numrec genctr log w

module _ {D : Type 0} (calls : Calls D) (ops : DeviceOps D) (fd : ℕ) where
  fetch_again-Gives :
      (numrec : ℤ) (log : ℕ) (before : World D) (whole : Outcome D)
      → discovery_log ops fd log (log_size numrec) before ≡ some whole
      → is_zero whole.err ≡ true
      → Gives (RoundOk ops fd) (fetch_again calls ops fd numrec log whole.world)
  unfolding fetch_again RoundOk
  fetch_again-Gives numrec log before whole e ok =
      let (header, again) = discovery_log-total ops fd log hdr_size whole.world (omega arith) in
      let got = Round.fetched numrec (genctr_at log whole.world.mem) log header.world in
      let lost = Round.failed (pos disc_get_log) numrec header.world in
      elim (Bool-cases (is_zero header.err)) [
        | inl q ↦ (
          got,
          rw (fetch_again, again, q) refl,
          record {
            before = before;
            whole = whole;
            header = header;
            fetches = e;
            succeeds = ok;
            fetches_again = again;
            succeeds_again = q;
            last = refl;
            counter = refl;
          },
        )
        | inr q ↦ (lost, rw (fetch_again, again, q) refl, refl)
      ]

  fetch_log-Gives :
      (numrec : ℤ) (block : Option ℕ × World D)
      → Gives (RoundOk ops fd) (fetch_log calls ops fd numrec block)
  unfolding fetch_log RoundOk
  fetch_log-Gives numrec (none, w) = (_, refl, refl)
  fetch_log-Gives numrec (some log, w) =
      let (whole, e) = discovery_log-total ops fd log (log_size numrec) w (omega arith) in
      let (r, f, ok) =
        either-Gives (RoundOk ops fd) (is_zero whole.err)
          (fetch_again calls ops fd numrec log whole.world)
          (some (Round.failed (pos disc_get_log) numrec whole.world))
          (λ q. fetch_again-Gives numrec log w whole e q) (λ q. (_, refl, refl)) in
      (r, rw (fetch_log, e) f, ok)

  pub round-Gives : (log : ℕ) (w : World D) → Gives (RoundOk ops fd) (round calls ops fd log w)
  unfolding round RoundOk
  round-Gives log w =
      let numrec = to_signed 32 (u32 (numrec_at log w.mem)) in
      let block = calls.calloc (log_size numrec) w in
      either-Gives (RoundOk ops fd) (is_zero numrec)
        (some (Round.failed (pos disc_no_log) numrec w)) (fetch_log calls ops fd numrec block)
        (λ q. (_, refl, refl)) (λ q. fetch_log-Gives numrec block)
