-- ===== src/Nvme/Format/Sizes.antt =====
-- The search for a format by its block size.
use switchtec_nvme_cli.Base.{
  ℕ, zero, suc, ◌+◌, ◌*◌, ◌^◌, ◌⊎◌, neg, ◌==◌, bit_and, is_zero, ◌∙◌, sym, refl, Bool, ◌≤◌, ◌<◌,
  ◌≡◌, true, false, Bool-cases, inl, inr, Option, none, some, arith,
}
use switchtec_nvme_cli.Base.Memory.{Mem, load_le}
use switchtec_nvme_cli.Device.{World, DeviceOps}
use switchtec_nvme_cli.Ioctl.Identify.{identify_ns}
use switchtec_nvme_cli.Ioctl.Log.{nsid_all}
use switchtec_nvme_cli.Nvme.Format.{
  Config, Next, Calls, fits, ds_at, flbas_at, find_lbaf, choose_lbaf, format_or_einval,
}
use native.Mathlib.Decide.{dec_lt}
use mathlib.Core.Path.{subst}

-- What the outcome of the search says of the formats from `i` to below `end`.
abbrev pub IsFirst : (ns : ℕ) → Mem → (bs i end : ℕ) → Option ℕ → Type 0
IsFirst ns m bs i end none = (j : ℕ) → i ≤ j → j < end → fits ns m bs j ≡ false
IsFirst ns m bs i end (some k) =
    (i ≤ k)
    × (k < end)
    × (fits ns m bs k ≡ true)
    × ((j : ℕ) → i ≤ j → j < k → fits ns m bs j ≡ false)

module _ (ns : ℕ) (m : Mem) (bs : ℕ) where
  -- What does not fit at `i` and in a range behind it.
  extend :
      (i end : ℕ)
      → fits ns m bs i ≡ false
      → ((j : ℕ) → i + 1 ≤ j → j < end → fits ns m bs j ≡ false)
      → (j : ℕ) → i ≤ j
      → j < end
      → fits ns m bs j ≡ false
  extend i end f h j low high = elim (dec_lt i j) [
    | yes later ↦ h j (omega arith) high
    | no first ↦ subst (λ (k : ℕ). fits ns m bs k ≡ false) (omega arith) f
  ]

  -- A format that does not fit, in front of the search.
  IsFirst-before :
      (i end : ℕ) (o : Option ℕ)
      → fits ns m bs i ≡ false
      → IsFirst ns m bs (i + 1) end o
      → IsFirst ns m bs i end o
  IsFirst-before i end none f h = extend i end f h
  IsFirst-before i end (some k) f (a, b, c, d) = (omega arith, b, c, extend i k f d)

  IsFirst-end :
      (i : ℕ) {e f : ℕ} (o : Option ℕ) → e ≡ f → IsFirst ns m bs i e o → IsFirst ns m bs i f o
  IsFirst-end i o p h = subst (λ (e : ℕ). IsFirst ns m bs i e o) p h

  find_lbaf-IsFirst : (i left : ℕ) → IsFirst ns m bs i (i + left) (find_lbaf ns m bs i left)
  unfolding find_lbaf
  find_lbaf-IsFirst i zero = λ j low high. absurd (omega arith)
  find_lbaf-IsFirst i (suc left) = elim (Bool-cases (fits ns m bs i)) [
    | inl q ↦ rw q (omega arith, omega arith, q, λ j low high. absurd (omega arith))
    | inr q ↦
        let rest = find_lbaf-IsFirst (i + 1) left in
        rw q (
          IsFirst-end i (find_lbaf ns m bs (i + 1) left) (omega arith)
            (IsFirst-before i (i + 1 + left) (find_lbaf ns m bs (i + 1) left) q rest))
  ]

-- Format `j` of the structure has blocks of `bs` bytes and no metadata: the byte that is the power of the
-- block size, and the two bytes that are the size of the metadata.
abbrev pub HasSize : (ns : ℕ) → Mem → (bs j : ℕ) → Type 0
HasSize ns m bs j =
    (2 ^ m (ns + 128 + 4 * j + 2) ≡ bs)
    × (m (ns + 128 + 4 * j) ≡ 0)
    × (m (ns + 128 + 4 * j + 1) ≡ 0)

-- The format that is chosen for a block size: the first of the 16 that has it, or an error.
abbrev pub ChoosesFirst : {D : Type 0} → (ns : ℕ) → (bs : ℕ) → World D → Next (ℕ × ℕ) D → Type 0
ChoosesFirst ns bs v next =
    ((k : ℕ) × (prev : ℕ) × (next ≡ Next.go (k, prev) v)
      × (k < 16)
      × HasSize ns v.mem bs k
      × ((j : ℕ) → j < k → ¬ (HasSize ns v.mem bs j)))
    ⊎ ((next ≡ Next.stop (record { err = neg 22; world = v }))
        × ((j : ℕ) → j < 16 → ¬ (HasSize ns v.mem bs j)))

fits-HasSize :
    (ns : ℕ) (m : Mem) (bs j : ℕ) → ds_at ns j m < 64 → fits ns m bs j ≡ true → HasSize ns m bs j
unfolding load_le
fits-HasSize ns m bs j small h = ground arith

HasSize-fits :
    (ns : ℕ) (m : Mem) (bs j : ℕ) → ds_at ns j m < 64 → HasSize ns m bs j → fits ns m bs j ≡ true
unfolding load_le
HasSize-fits ns m bs j small (a, b, c) = ground arith

opposite : {b : Bool} → b ≡ true → b ≡ false → ⊥
opposite p q = absurd (true_is_false (sym p ∙ q))
  where
    true_is_false : true ≡ false → ⊥
    true_is_false e = cc

-- What the outcome of the loop says, in bytes.
ChoosesFirst-found :
    {D : Type 0} (calls : Calls D) (ops : DeviceOps D) (fd ctrl ns bs prev : ℕ) (v : World D)
    → ((j : ℕ) → j < 16 → ds_at ns j v.mem < 64)
    → (o : Option ℕ) → IsFirst ns v.mem bs 0 16 o
    → ChoosesFirst ns bs v (format_or_einval calls ops fd ctrl ns o prev v)
ChoosesFirst-found calls ops fd ctrl ns bs prev v small none h = inr (
  refl,
  λ j low has.
      absurd (opposite (HasSize-fits ns v.mem bs j (small j low) has) (h j (omega arith) low)),
)
ChoosesFirst-found calls ops fd ctrl ns bs prev v small (some k) (a, b, c, d) = inl (
  k,
  prev,
  refl,
  b,
  fits-HasSize ns v.mem bs k (small k b) c,
  λ j low has.
      absurd
        (opposite (HasSize-fits ns v.mem bs j (small j (omega arith)) has) (d j (omega arith) low)),
)

-- When a block size is given, and the device identified the namespace, the format that is asked for is the
-- first of the 16 in the structure that has blocks of this many bytes and no metadata, read from the bytes of
-- the structure; when there is none, the outcome is -EINVAL. The namespace is a single one, and each power of a
-- block size is below 64.
pub choose_lbaf-ChoosesFirst :
    {D : Type 0} (calls : Calls D) (ops : DeviceOps D) (fd ctrl ns : ℕ) (cfg : Config) (nsid : ℕ)
    (w : World D)
    → (nsid == nsid_all) ≡ false
    → (cfg.bs == 0) ≡ false
    → let r = identify_ns ops fd nsid false ns w in
      is_zero r.err ≡ true
      → ((j : ℕ) → j < 16 → r.world.mem (ns + 128 + 4 * j + 2) < 64)
      → ChoosesFirst ns cfg.bs r.world (choose_lbaf calls ops fd ctrl ns cfg nsid w)
unfolding choose_lbaf
choose_lbaf-ChoosesFirst calls ops fd ctrl ns cfg nsid w single sized ok small =
    let r = identify_ns ops fd nsid false ns w in
    rw (choose_lbaf, single, ok, sized)
      (ChoosesFirst-found calls ops fd ctrl ns cfg.bs (bit_and (flbas_at ns r.world.mem) 0xf)
        r.world small (find_lbaf ns r.world.mem cfg.bs 0 16)
        (find_lbaf-IsFirst ns r.world.mem cfg.bs 0 16))
