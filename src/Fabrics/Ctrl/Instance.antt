-- ===== src/Fabrics/Ctrl/Instance.antt =====
-- `ctrl_instance`: which device names have an instance number.
use switchtec_nvme_cli.Base.{
  ℕ, ◌^◌, ◌<◌, ◌≡◌, refl, ◌∙◌, ap, true, false, not, ℤ, pos, neg, List, [], ◌∷◌, ◌++◌, Bool-cases,
  inl, inr, arith, ◌==◌,
}
use switchtec_nvme_cli.Text.Decimal.{Every, decimal-Every}
use switchtec_nvme_cli.Text.Search.{codes}
use switchtec_nvme_cli.Text.Sscanf.{sscanf}
use switchtec_nvme_cli.Parser.Match.{same_text, strip_prefix}
use switchtec_nvme_cli.Filters.Names.{ctrl_named, scan_int-decimal}
use switchtec_nvme_cli.Fabrics.Builder.{int_text}
use switchtec_nvme_cli.Fabrics.Ctrl.{
  without_slashes, last_part, basename, checked, name_instance, ctrl_instance,
}

same_text_self : (s : List ℕ) → same_text s s ≡ true
unfolding same_text
same_text_self [] = refl
same_text_self (c ∷ s) = ground (arith, same_text_self s)

pub same_text-eq : (s t : List ℕ) → same_text s t ≡ true → s ≡ t
unfolding same_text
same_text-eq [] [] e = refl
same_text-eq [] (d ∷ t) e = absurd cc
same_text-eq (c ∷ s) [] e = absurd cc
same_text-eq (c ∷ s) (d ∷ t) e = elim (Bool-cases (c == d)) [
  | inl q ↦ let first : c ≡ d = ground arith in rw (first, same_text-eq s t (rw q at e)) refl
  | inr q ↦ absurd (false-true (rw q at e))
]
  where
    false-true : false ≡ true → ⊥
    false-true p = cc

NoSlash : List ℕ → Type 0
NoSlash = Every (λ c. not (c == b'/'))

last_part-NoSlash : (found s : List ℕ) → NoSlash s → last_part found s ≡ found
unfolding last_part NoSlash
last_part-NoSlash found [] h = refl
last_part-NoSlash found (c ∷ s) h = ground (arith, h.0, last_part-NoSlash found s h.1)

last_part-slash :
    (found dir name : List ℕ) → NoSlash name → last_part found (dir ++ b'/' ∷ name) ≡ name
unfolding last_part
last_part-slash found [] name h = last_part-NoSlash name name h
last_part-slash found (c ∷ dir) name h =
    ground
      (arith, last_part-slash found dir name h, last_part-slash (dir ++ b'/' ∷ name) dir name h)

without_slashes-NoSlash : (s : List ℕ) → NoSlash s → without_slashes s ≡ s
unfolding NoSlash
without_slashes-NoSlash [] h = refl
without_slashes-NoSlash (c ∷ s) h = ground (arith, h.0, without_slashes-NoSlash s h.1)

without_slashes-before :
    (d c : ℕ) (s : List ℕ)
    → without_slashes (c ∷ s) ≡ c ∷ s
    → without_slashes (d ∷ c ∷ s) ≡ d ∷ c ∷ s
without_slashes-before d c s e = elim (Bool-cases (d == b'/')) [
  | inl q ↦ rw (without_slashes, e, q) refl
  | inr q ↦ rw (without_slashes, e, q) refl
]

without_slashes-kept :
    (dir name : List ℕ) (c : ℕ)
    → NoSlash (c ∷ name)
    → without_slashes (dir ++ b'/' ∷ c ∷ name) ≡ dir ++ b'/' ∷ c ∷ name
without_slashes-kept [] name c h =
    without_slashes-before b'/' c name (without_slashes-NoSlash (c ∷ name) h)
without_slashes-kept (d ∷ []) name c h =
    without_slashes-before d b'/' (c ∷ name) (without_slashes-kept [] name c h)
without_slashes-kept (d ∷ e ∷ dir) name c h =
    without_slashes-before d e (dir ++ b'/' ∷ c ∷ name) (without_slashes-kept (e ∷ dir) name c h)

ctrl_named-NoSlash : (n : ℕ) → NoSlash (ctrl_named n)
unfolding NoSlash
ctrl_named-NoSlash n =
    (refl, (refl, (refl, (refl, decimal-Every (λ c. not (c == b'/')) n (λ d h. ground arith)))))

name_instance-ctrl_named : (n : ℕ) → n < 2 ^ 31 → name_instance (ctrl_named n) ≡ pos n
unfolding name_instance sscanf strip_prefix int_text
name_instance-ctrl_named n small =
    rw (name_instance, sscanf, scan_int-decimal n [] small tt, same_text_self (ctrl_named n)) refl

checked-pos :
    (device : List ℕ) (ns : List ℤ) (n : ℕ) → checked device ns ≡ pos n → device ≡ ctrl_named n
unfolding int_text
checked-pos device [] n e = absurd cc
checked-pos device (m ∷ rest) n e =
    elim (Bool-cases (same_text device (codes "nvme" ++ int_text m))) [
      | inl q ↦
          let same : m ≡ pos n = rw q at e in
          same_text-eq device (codes "nvme" ++ int_text m) q
          ∙ ap (λ k. codes "nvme" ++ int_text k) same
      | inr q ↦ absurd (negative (rw q at e))
    ]
  where
    negative : neg 22 ≡ pos n → ⊥
    negative p = cc

-- The name of a controller behind any directory has the controller's number as its instance; and a
-- path with an instance that is not negative ends in the name of that controller, so names of namespaces
-- and numbers with a sign or with zeros in front have none. The number is an int.
pub ctrl_instance-ctrl_named :
    (n : ℕ)
    → n < 2 ^ 31
    → ((dir : List ℕ) → ctrl_instance (dir ++ b'/' ∷ ctrl_named n) ≡ pos n)
      × ((path : List ℕ) → ctrl_instance path ≡ pos n → basename path ≡ ctrl_named n)
unfolding ctrl_instance basename name_instance
ctrl_instance-ctrl_named n small = (
  λ dir. ap name_instance (named dir) ∙ name_instance-ctrl_named n small,
  λ path e. checked-pos (basename path) _ n e,
)
  where
    named : (dir : List ℕ) → basename (dir ++ b'/' ∷ ctrl_named n) ≡ ctrl_named n
    named dir =
        let kept = without_slashes-kept dir _ b'n' (ctrl_named-NoSlash n) in
        ap (λ p. last_part p p) kept
        ∙ last_part-slash (dir ++ b'/' ∷ ctrl_named n) dir (ctrl_named n) (ctrl_named-NoSlash n)
