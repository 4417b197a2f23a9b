-- ===== src/Ioctl/Feature/Registers.antt =====
-- The loop of `nvme_get_properties` as a walk over a list of registers.
use mathlib.Core.Option
use switchtec_nvme_cli.Base.{
  Bool, ◌&&◌, ◌==◌, false, ℕ, zero, suc, ◌-◌, ◌^◌, ◌<◌, ◌≡◌, refl, ◌∙◌, sym, ap, length, true,
  false, not, ℤ, pos, is_zero, List, [], ◌∷◌, some, arith, leb, if◌then◌else◌, replicate,
}
use switchtec_nvme_cli.Base.Memory.{store_bytes}
use switchtec_nvme_cli.Device.{World, DeviceOps}
use switchtec_nvme_cli.Ioctl.Feature.{
  Properties, get_property, store_property, next_offset, is_invalid_field, is_64bit_reg,
  properties_loop, get_properties,
}

-- The offsets of linux/nvme.h up to CMBSZ: CAP, VS, INTMS, INTMC, CC, a reserved word, CSTS, NSSR,
-- AQA, ASQ, ACQ, CMBLOC and CMBSZ. CAP, ASQ and ACQ take 8 bytes.
abbrev pub register_offsets : List ℕ
register_offsets =
    0x0 ∷ 0x8 ∷ 0xc ∷ 0x10 ∷ 0x14 ∷ 0x18 ∷ 0x1c ∷ 0x20 ∷ 0x24 ∷ 0x28 ∷ 0x30 ∷ 0x38 ∷ 0x3c ∷ []

module _ {D : Type 0} (ops : DeviceOps D) (fd bar : ℕ) where
  -- The registers of a list, one after the other. A field that is not supported reads as all ones.
  abbrev pub read_registers : List ℕ → ℕ → ℤ → World D → Properties D
  read_registers [] value err w = record { err = err; pbar = some bar; live = true; world = w }
  read_registers (offset ∷ offsets) value err w =
      let got = get_property ops fd offset (some value) w in
      let read = Option.get_or got.result value in
      if is_invalid_field got.err
      then read_registers offsets (2 ^ 64 - 1) (pos 0)
          (store_property bar offset (2 ^ 64 - 1) got.world)
      else if not (is_zero got.err)
      then record { err = got.err; pbar = some bar; live = false; world = got.world }
      else read_registers offsets read got.err (store_property bar offset read got.world)

  abbrev Reads : ℕ → ℕ → List ℕ → Type 0
  Reads fuel offset offsets =
      (value : ℕ) (err : ℤ) (w : World D)
      → properties_loop ops fd fuel bar offset value err w
        ≡ some (read_registers offsets value err w)

  properties_loop-round :
      (fuel offset : ℕ) (offsets : List ℕ)
      → leb offset 0x3c ≡ true
      → Reads fuel (next_offset offset) offsets
      → Reads (suc fuel) offset (offset ∷ offsets)
  unfolding properties_loop
  properties_loop-round fuel offset offsets low rest value err w =
      rw (low, rest, rest) (ground arith)

  -- Whether a list has the offsets that the steps of the loop lead to, up to CMBSZ.
  abbrev is_walk : ℕ → List ℕ → Bool
  is_walk offset [] = not (leb offset 0x3c)
  is_walk offset (o ∷ offsets) =
      o == offset && (leb offset 0x3c && is_walk (next_offset offset) offsets)

  not-true : (b : Bool) → not b ≡ true → b ≡ false
  not-true true h = sym h
  not-true false h = refl

  is_walk-cons :
      (o offset : ℕ) (offsets : List ℕ)
      → is_walk offset (o ∷ offsets) ≡ true
      → (o ≡ offset) × ((leb offset 0x3c ≡ true) × (is_walk (next_offset offset) offsets ≡ true))
  is_walk-cons o offset offsets h = (ground arith, (ground arith, ground arith))

  properties_loop-walk :
      (offsets : List ℕ) (fuel offset : ℕ)
      → is_walk offset offsets ≡ true
      → length offsets < fuel
      → Reads fuel offset offsets
  unfolding properties_loop
  properties_loop-walk offsets zero offset walk enough value err w = absurd (omega arith)
  properties_loop-walk [] (suc fuel) offset walk enough value err w =
      rw (not-true (leb offset 0x3c) walk) refl
  properties_loop-walk (o ∷ offsets) (suc fuel) offset walk enough value err w =
      let (at, (low, more)) = is_walk-cons o offset offsets walk in
      properties_loop-round fuel offset offsets low
        (properties_loop-walk offsets fuel (next_offset offset) more (omega arith)) value err w
      ∙ ap (λ (k : ℕ). some (read_registers (k ∷ offsets) value err w)) (sym at)

  registers_walk : is_walk 0x0 register_offsets ≡ true
  unfolding is_64bit_reg
  registers_walk = refl

  -- With a page for the values, `nvme_get_properties` reads the 13 registers from CAP to CMBSZ,
  -- each once and in the order of their offsets, and stores each value at its offset; a register
  -- that is an invalid field reads as ones, and any other error ends the walk, with the block
  -- freed and `*pbar` still leading to it. The page is filled with ones first, and the loop always
  -- ends.
  pub get_properties-eq-read_registers :
      (size : ℕ) (w : World D)
      → get_properties ops fd (some bar) size w
        ≡ some (
            read_registers register_offsets 0
              (pos 0)
              (record w { mem = store_bytes bar (replicate size 0xff) w.mem }))
  unfolding get_properties
  get_properties-eq-read_registers size w =
      properties_loop-walk register_offsets 16 0x0 registers_walk (omega arith) 0 (pos 0)
        (record w { mem = store_bytes bar (replicate size 0xff) w.mem })
