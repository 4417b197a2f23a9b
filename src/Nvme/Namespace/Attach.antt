-- ===== src/Nvme/Namespace/Attach.antt =====
-- The controllers that `attach_ns` and `detach_ns` hand to the device, from their text on.
use switchtec_nvme_cli.Base.{
  ℕ, suc, ◌+◌, ◌*◌, ◌^◌, ◌≤◌, ◌<◌, ◌≡◌, ◌≢◌, refl, ◌∙◌, ap, ◌⊎◌, Bool, false, not, flag, ℤ, pos,
  to_unsigned, List, [], ◌∷◌, length, map, upto, get_or, Option, some, arith, ◌==◌,
}
use switchtec_nvme_cli.Base.Memory.{load_le}
use switchtec_nvme_cli.Device.{World, PassthruCmd, DeviceOps, status_of}
use switchtec_nvme_cli.Ioctl.Payload.{ns_attachment}
use switchtec_nvme_cli.Ioctl.Payload.Laws.{ns_attachment_lem}
use switchtec_nvme_cli.Argconfig.{parse_comma_sep_array, failed}
use switchtec_nvme_cli.Argconfig.Arrays.{join, AllInts, parse_comma_sep_array-join}
use switchtec_nvme_cli.Nvme.Namespace.{ctrlist, attach_ns}

-- Identifiers of 16 bits.
abbrev pub AllShort : List ℕ → Type 0
AllShort [] = Unit {0}
AllShort (n ∷ ns) = (n < 2 ^ 16) × AllShort ns

AllShort-AllInts : (ns : List ℕ) → AllShort ns → AllInts ns
AllShort-AllInts [] h = tt
AllShort-AllInts (n ∷ ns) h = (let k = h.0 in omega arith, AllShort-AllInts ns h.1)

map-ctrlist :
    (f : ℕ → ℕ) (k : ℕ) (ns : List ℕ)
    → AllShort ns
    → ((j : ℕ) → f (k + j) ≡ ctrlist (map pos ns) j)
    → map f (upto k (length ns)) ≡ ns
map-ctrlist f k [] h same = refl
map-ctrlist f k (n ∷ ns) h same =
    let first : f k ≡ n =
      ap f (let e : k ≡ k + 0 = omega arith in e) ∙ same 0 ∙ (let p = h.0 in omega arith) in
    let rest =
      map-ctrlist f (k + 1) ns h.1
        (λ j. ap f (let e : k + 1 + j ≡ k + suc j = omega arith in e) ∙ same (suc j)) in
    rw (first, rest) refl

module _ {D : Type 0} (ops : DeviceOps D) (fd at : ℕ) where
  attach_ns-parsed :
      (nsid num : ℕ) (list : List ℤ) (cntlist : Option (List ℕ)) (attach : Bool) (w : World D)
      → nsid ≢ 0
      → num ≢ failed
      → parse_comma_sep_array cntlist 2047 ≡ (num, list)
      → attach_ns ops fd at nsid cntlist attach w
        ≡ ns_attachment ops fd at nsid num (ctrlist list) attach w
  unfolding attach_ns
  attach_ns-parsed nsid num list cntlist attach w given ok parsed =
      let a : (nsid == 0) ≡ false = ground arith in
      let b : (num == failed) ≡ false = ground arith in rw (attach_ns, parsed, a, b) refl

  -- Identifiers of controllers, written in decimal with commas between them, reach the device: one command
  -- asks to attach or to detach as it was told, and in the structure at its address the device finds
  -- their number and behind it every identifier in order; memory outside the structure is as it was. There
  -- are at most 2047, each has 16 bits, and the namespace is not 0.
  pub attach_ns-join :
      (nsid first : ℕ) (ns : List ℕ) (attach : Bool) (w : World D) (i : ℕ)
      → nsid ≢ 0
      → AllShort (first ∷ ns)
      → length (first ∷ ns) ≤ 2047
      → (i < at) ⊎ (at + 4096 ≤ i)
      → let n = length (first ∷ ns) in
        (c : PassthruCmd) × (v : World D) × (attach_ns ops fd at nsid
            (some (join first ns))
            attach
            w
          ≡ status_of (ops.submit_admin_passthru fd c v))
        × (c.cdw10 ≡ flag (not attach) 1)
        × (load_le 2 c.addr v.mem ≡ n)
        × (map (λ j. load_le 2 (c.addr + 2 + 2 * j) v.mem) (upto 0 n) ≡ first ∷ ns)
        × (v.mem i ≡ w.mem i)
  attach_ns-join nsid first ns attach w i given short fits out =
      let n = length (first ∷ ns) in
      let list = map pos (first ∷ ns) in
      let parsed =
        parse_comma_sep_array-join first ns 2047 (AllShort-AllInts (first ∷ ns) short) fits in
      let (c, v, sent, op, num, ids, kept) =
        ns_attachment_lem ops fd at nsid n (ctrlist list) attach w i fits
          (λ j. bound (get_or list j (pos 0))) out in
      (
        c,
        v,
        attach_ns-parsed nsid n list (some (join first ns)) attach w given (λ e. omega arith) parsed
            ∙ sent,
        op,
        num,
        ids
            ∙ map-ctrlist (ctrlist list) 0 (first ∷ ns) short
                (λ j. ap (ctrlist list) (let e : 0 + j ≡ j = omega arith in e)),
        kept,
      )
    where
      bound : (x : ℤ) → to_unsigned 16 x < 2 ^ 16
      bound (pos m) = omega arith
      bound (ℤ.negsuc m) = omega arith
