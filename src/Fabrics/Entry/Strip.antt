-- ===== src/Fabrics/Entry/Strip.antt =====
-- `space_strip_len`: where the text of a field ends.
use switchtec_nvme_cli.Base.{
  ℕ, zero, suc, ◌-◌, ◌≤◌, ◌<◌, ◌≡◌, refl, ap, ◌⊎◌, inl, inr, Bool, true, false, not, ◌&&◌,
  Bool-cases, List, get_or, arith, ◌==◌,
}
use mathlib.Core.Path.{subst}
use native.Mathlib.Decide.{dec_lt}
use switchtec_nvme_cli.Fabrics.Entry.{strip_from, space_strip_len}

-- A 0 or a space.
abbrev pub is_blank : List ℕ → ℕ → Bool
is_blank str i = not (not (get_or str i 0 == 0) && not (get_or str i 0 == b' '))

-- The length `n` of a text in `max` bytes: what is behind is blank, and what it ends in is not.
abbrev pub IsStripped : (max : ℕ) → List ℕ → ℕ → Type 0
IsStripped max str n =
    (n ≤ max)
    × ((i : ℕ) → n ≤ i → i < max → is_blank str i ≡ true)
    × ((n ≡ 0) ⊎ (is_blank str (n - 1) ≡ false))

-- The length that `space_strip_len` gives is that of the text without the spaces and zeros at its end.
pub space_strip_len-IsStripped :
    (max : ℕ) (str : List ℕ) → IsStripped max str (space_strip_len max str)
unfolding space_strip_len strip_from
space_strip_len-IsStripped zero str = (omega arith, λ i low high. absurd (omega arith), inl refl)
space_strip_len-IsStripped (suc max) str =
    let c = get_or str max 0 in
    let (low, behind, end) = space_strip_len-IsStripped max str in
    elim (Bool-cases (not (c == 0) && not (c == b' '))) [
      | inl q ↦ rw q (
        omega arith,
        λ i l h. absurd (omega arith),
        inr (subst (λ (k : ℕ). is_blank str k ≡ false) (omega arith) (ap not q)),
      )
      | inr q ↦ rw q (omega arith, λ i l h. at_or_behind i l h (ap not q) behind, end)
    ]
  where
    at_or_behind :
        (i : ℕ)
        → strip_from max str ≤ i
        → i < suc max
        → is_blank str max ≡ true
        → ((j : ℕ) → strip_from max str ≤ j → j < max → is_blank str j ≡ true)
        → is_blank str i ≡ true
    at_or_behind i l h here behind = elim (dec_lt i max) [
      | yes before ↦ behind i l before
      | no last ↦ subst (λ (k : ℕ). is_blank str k ≡ true) (omega arith) here
    ]
