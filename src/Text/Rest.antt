-- ===== src/Text/Rest.antt =====
-- The end pointer of a conversion leads into the text that was converted.
use switchtec_nvme_cli.Base.{
  ℕ, suc, ◌+◌, ◌*◌, ◌≤◌, Bool, true, false, List, [], ◌∷◌, Option, none, some, length, arith, ◌==◌,
  if◌then◌else◌,
}
use switchtec_nvme_cli.Text.{
  digit_in, skip_space, scan_digits, Scan, starts_with_digit, base_for, has_hex_prefix, drop_two,
  scan_unsigned, scan_signed, scan_number, strtoul,
}

scan_digits-rest : (base acc : ℕ) (s : List ℕ) → length (scan_digits base acc s).1 ≤ length s
unfolding scan_digits
scan_digits-rest base acc [] = omega arith
scan_digits-rest base acc (c ∷ s) =
    go (λ d. scan_digits-rest base (acc * base + d) s) (digit_in base c)
  where
    go :
        ((d : ℕ) → length (scan_digits base (acc * base + d) s).1 ≤ length s)
        → (o : Option ℕ)
        → length
            (elim o as (λ x. ℕ × List ℕ) [
              | none ↦ (acc, c ∷ s)
              | some d ↦ scan_digits base (acc * base + d) s
            ]).1
          ≤ suc (length s)
    go shorter none = omega arith
    go shorter (some d) = omega (arith, shorter d)

-- A conversion leaves at most `k` characters.
Leaves : ℕ → Scan → Type 0
Leaves k n = length n.rest ≤ k

Leaves-if :
    (k : ℕ) (b : Bool) (m n : Scan) → Leaves k m → Leaves k n → Leaves k (if b then m else n)
Leaves-if k true m n p q = p
Leaves-if k false m n p q = q

length-drop_two : (s : List ℕ) → length (drop_two s) ≤ length s
length-drop_two [] = omega arith
length-drop_two (c ∷ []) = omega arith
length-drop_two (c ∷ d ∷ s) = omega arith

scan_unsigned-Leaves :
    (base : ℕ) (negative : Bool) (whole s : List ℕ)
    → length s ≤ length whole
    → Leaves (length whole) (scan_unsigned base negative whole s)
unfolding Leaves scan_unsigned
scan_unsigned-Leaves base negative whole [] h = omega arith
scan_unsigned-Leaves base negative whole (c ∷ s) h =
    Leaves-if (length whole) (has_hex_prefix base (c ∷ s)) _ _
      (omega (arith, scan_digits-rest 16 0 (drop_two (c ∷ s)), length-drop_two (c ∷ s)))
      (Leaves-if (length whole) (starts_with_digit (base_for base c) (c ∷ s)) _ _
        (omega (arith, scan_digits-rest (base_for base c) 0 (c ∷ s))) (omega arith))

scan_signed-Leaves :
    (base : ℕ) (whole s : List ℕ)
    → length s ≤ length whole
    → Leaves (length whole) (scan_signed base whole s)
unfolding scan_signed
scan_signed-Leaves base whole [] h = scan_unsigned-Leaves base false whole [] h
scan_signed-Leaves base whole (c ∷ s) h =
    Leaves-if (length whole) (c == b'-') _ _ (scan_unsigned-Leaves base true whole s (omega arith))
      (Leaves-if (length whole) (c == b'+') _ _
        (scan_unsigned-Leaves base false whole s (omega arith))
        (scan_unsigned-Leaves base false whole (c ∷ s) h))

length-skip_space : (s : List ℕ) → length (skip_space s) ≤ length s
unfolding skip_space
length-skip_space [] = omega arith
length-skip_space (c ∷ s) = ground (arith, length-skip_space s)

pub strtoul-rest : (base : ℕ) (s : List ℕ) → length (strtoul base s).rest ≤ length s
unfolding Leaves strtoul scan_number
strtoul-rest base s = scan_signed-Leaves base s (skip_space s) (length-skip_space s)
