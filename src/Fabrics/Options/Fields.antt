-- ===== src/Fabrics/Options/Fields.antt =====
-- Items without commas, and items that are no value of a field.
use mathlib.Core.List.{append-nil, append_assoc}
use mathlib.Core.Path.{subst}
use switchtec_nvme_cli.Base.{
  ℕ, ◌≡◌, refl, ◌∙◌, ap, sym, Bool, true, false, not, ◌&&◌, ℤ, pos, negsuc, suc, List, [], ◌∷◌,
  ◌++◌, Option, none, some, Bool-cases, inl, inr, arith, ◌==◌, if◌then◌else◌,
}
use switchtec_nvme_cli.Text.Decimal.{Every, decimal-Every}
use switchtec_nvme_cli.Text.Search.{codes}
use switchtec_nvme_cli.Parser.Match.{same_text, strip_prefix}
use switchtec_nvme_cli.Fabrics.Args.Occurrences.{Plain}
use switchtec_nvme_cli.Fabrics.Args.Laws.{first_value, AllPlain}
use switchtec_nvme_cli.Fabrics.Builder.{int_text}
use switchtec_nvme_cli.Fabrics.Options.Items.{
  listed, named, is_set, numbered, flagged, unless_discover, flatten,
}

abbrev pub PlainOption : Option (List ℕ) → Type 0
PlainOption none = Unit {0}
PlainOption (some s) = Plain b',' s

-- The items of one call: no comma in them, and none of them a value of the field.
pub record Passes (field : List ℕ) (items : List (List ℕ)) : Type 0 where
  pub plain : AllPlain b',' items
  pub other : (rest : List (List ℕ)) → first_value field (items ++ rest) ≡ first_value field rest

AllPlain-append :
    (xs ys : List (List ℕ)) → AllPlain b',' xs → AllPlain b',' ys → AllPlain b',' (xs ++ ys)
AllPlain-append [] ys p q = q
AllPlain-append (x ∷ xs) ys p q = (p.0, AllPlain-append xs ys p.1 q)

pub Plain-append : (xs ys : List ℕ) → Plain b',' xs → Plain b',' ys → Plain b',' (xs ++ ys)
Plain-append [] ys p q = q
Plain-append (x ∷ xs) ys p q = (p.0, Plain-append xs ys p.1 q)

pub Passes-append :
    (field : List ℕ) (xs ys : List (List ℕ))
    → Passes field xs
    → Passes field ys
    → Passes field (xs ++ ys)
Passes-append field xs ys p q = record {
  plain = AllPlain-append xs ys p.plain q.plain;
  other = λ rest.
      ap (first_value field) (append_assoc xs ys rest) ∙ p.other (ys ++ rest) ∙ q.other rest;
}

listed-Passes :
    (field : List ℕ) (given : Bool) (item : List ℕ)
    → Plain b',' item
    → strip_prefix (field ++ b'=' ∷ []) item ≡ none
    → Passes field (listed given item)
listed-Passes field true item p e = record {
  plain = (p, tt);
  other = λ rest. rw (first_value, e) refl;
}
listed-Passes field false item p e = record { plain = tt; other = λ rest. refl }

-- A text that is closed is plain when a test says so.
abbrev pub every : (ℕ → Bool) → List ℕ → Bool
every p [] = true
every p (c ∷ s) = p c && every p s

pub every-Every : (p : ℕ → Bool) (s : List ℕ) → every p s ≡ true → Every p s
every-Every p [] e = tt
every-Every p (c ∷ s) e =
    let (first, second) = both (p c) (every p s) e in (first, every-Every p s second)
  where
    both : (a b : Bool) → (a && b) ≡ true → (a ≡ true) × (b ≡ true)
    both true b q = (refl, q)
    both false b q = absurd (cc)

pub every-Plain : (s : List ℕ) → every (λ c. not (c == b',')) s ≡ true → Plain b',' s
every-Plain = every-Every (λ c. not (c == b','))

int_text-Plain : (n : ℤ) → Plain b',' (int_text n)
unfolding int_text
int_text-Plain (pos n) = decimal-Every (λ c. not (c == b',')) n (λ d h. ground arith)
int_text-Plain (negsuc n) =
    (refl, decimal-Every (λ c. not (c == b',')) (suc n) (λ d h. ground arith))

-- Two texts that differ before either ends.
abbrev pub clash : List ℕ → List ℕ → Bool
clash [] ys = false
clash (x ∷ xs) [] = false
clash (x ∷ xs) (y ∷ ys) = let rest = clash xs ys in if x == y then rest else true

strip_prefix-clash : (xs ys v : List ℕ) → clash xs ys ≡ true → strip_prefix xs (ys ++ v) ≡ none
unfolding strip_prefix
strip_prefix-clash [] ys v e = absurd cc
strip_prefix-clash (x ∷ xs) [] v e = absurd cc
strip_prefix-clash (x ∷ xs) (y ∷ ys) v e = elim (Bool-cases (x == y)) [
  | inl q ↦ rw q (strip_prefix-clash xs ys v (rw q at e))
  | inr q ↦ rw q refl
]

-- A name that is not that of the field, and has no comma.
abbrev pub IsOther : (field name : List ℕ) → Type 0
IsOther field name =
    (clash (field ++ b'=' ∷ []) name ≡ true) × (every (λ c. not (c == b',')) name ≡ true)

abbrev pub AllOther : (field : List ℕ) → List (List ℕ) → Type 0
AllOther field [] = Unit {0}
AllOther field (name ∷ names) = IsOther field name × AllOther field names

-- The test that finds out.
abbrev pub others : (field : List ℕ) → List (List ℕ) → Bool
others field [] = true
others field (name ∷ names) =
    let rest = others field names in
    if clash (field ++ b'=' ∷ []) name
    then (if every (λ c. not (c == b',')) name then rest else false)
    else false

pub others-AllOther :
    (field : List ℕ) (names : List (List ℕ)) → others field names ≡ true → AllOther field names
others-AllOther field [] e = tt
others-AllOther field (name ∷ names) e = elim (Bool-cases (clash (field ++ b'=' ∷ []) name)) [
  | inr q ↦ absurd (false-true (rw q at e))
  | inl q ↦ elim (Bool-cases (every (λ c. not (c == b',')) name)) [
    | inr r ↦ absurd (false-true (rw (q, r) at e))
    | inl r ↦ ((q, r), others-AllOther field names (rw (q, r) at e))
  ]
]
  where
    false-true : false ≡ true → ⊥
    false-true p = cc

module _ (field : List ℕ) where
  pub named-Passes :
      (name : List ℕ) (arg : Option (List ℕ))
      → IsOther field (name ++ b'=' ∷ [])
      → PlainOption arg
      → Passes field (named name arg)
  named-Passes name none h p = record { plain = tt; other = λ rest. refl }
  named-Passes name (some arg) h p =
      let split = append_assoc name (b'=' ∷ []) arg in
      listed-Passes field (not (same_text arg (codes "none"))) (name ++ b'=' ∷ arg)
        (subst (Plain b',') split
          (Plain-append (name ++ b'=' ∷ []) arg (every-Plain (name ++ b'=' ∷ []) h.1) p))
        (ap (strip_prefix (field ++ b'=' ∷ [])) (sym split)
          ∙ strip_prefix-clash (field ++ b'=' ∷ []) (name ++ b'=' ∷ []) arg h.0)

  pub numbered-Passes :
      (name : List ℕ) (arg : ℤ) (allow_zero : Bool)
      → IsOther field (name ++ b'=' ∷ [])
      → Passes field (numbered name arg allow_zero)
  numbered-Passes name arg allow_zero h =
      let split = append_assoc name (b'=' ∷ []) (int_text arg) in
      listed-Passes field (is_set arg allow_zero) (name ++ b'=' ∷ int_text arg)
        (subst (Plain b',') split (
          Plain-append (name ++ b'=' ∷ []) (int_text arg) (every-Plain (name ++ b'=' ∷ []) h.1)
            (int_text-Plain arg)))
        (ap (strip_prefix (field ++ b'=' ∷ [])) (sym split)
          ∙ strip_prefix-clash (field ++ b'=' ∷ []) (name ++ b'=' ∷ []) (int_text arg) h.0)

  pub flagged-Passes :
      (name : List ℕ) (arg : Bool) → IsOther field name → Passes field (flagged name arg)
  flagged-Passes name arg h = listed-Passes field arg name (every-Plain name h.1) (
      ap (strip_prefix (field ++ b'=' ∷ [])) (sym (append-nil name))
      ∙ strip_prefix-clash (field ++ b'=' ∷ []) name [] h.0)

  pub unless_discover-Passes :
      (discover : Bool) (items : List (List ℕ))
      → Passes field items
      → Passes field (unless_discover discover items)
  unless_discover-Passes true items h = record { plain = tt; other = λ rest. refl }
  unless_discover-Passes false items h = h

  abbrev pub AllPass : List (List (List ℕ)) → Type 0
  AllPass [] = Unit {0}
  AllPass (items ∷ rest) = Passes field items × AllPass rest

  pub flatten-Passes :
      (itemss : List (List (List ℕ))) → AllPass itemss → Passes field (flatten itemss)
  flatten-Passes [] all = record { plain = tt; other = λ rest. refl }
  flatten-Passes (items ∷ rest) all =
      Passes-append field items (flatten rest) all.0 (flatten-Passes rest all.1)

-- An item of the field, among items that are not: its value.
abbrev pub shown : Option (List ℕ) → List ℕ
shown none = []
shown (some arg) = if same_text arg (codes "none") then [] else arg

-- Items that give the value of the field, where none behind them does.
abbrev pub Gives : (field value : List ℕ) → List (List ℕ) → Type 0
Gives field value items =
    (rest : List (List ℕ)) → first_value field rest ≡ [] → first_value field (items ++ rest) ≡ value

strip_prefix_self : (xs ys : List ℕ) → strip_prefix xs (xs ++ ys) ≡ some ys
unfolding strip_prefix
strip_prefix_self [] ys = refl
strip_prefix_self (x ∷ xs) ys = ground (arith, strip_prefix_self xs ys)

pub named-Gives :
    (field : List ℕ) (arg : Option (List ℕ)) → Gives field (shown arg) (named field arg)
named-Gives field none rest h = h
named-Gives field (some arg) rest h = elim (Bool-cases (same_text arg (codes "none"))) [
  | inl q ↦ rw q h
  | inr q ↦
      let split = append_assoc field (b'=' ∷ []) arg in
      let found : strip_prefix (field ++ b'=' ∷ []) (field ++ b'=' ∷ arg) ≡ some arg =
        ap (strip_prefix (field ++ b'=' ∷ [])) (sym split)
        ∙ strip_prefix_self (field ++ b'=' ∷ []) arg in
      rw (q, first_value, found) refl
]

pub Gives-then :
    (field value : List ℕ) (xs ys : List (List ℕ))
    → Gives field value xs
    → Passes field ys
    → Gives field value (xs ++ ys)
Gives-then field value xs ys g p rest h =
    ap (first_value field) (append_assoc xs ys rest) ∙ g (ys ++ rest) (p.other rest ∙ h)

pub Gives-behind :
    (field value : List ℕ) (xs ys : List (List ℕ))
    → Passes field xs
    → Gives field value ys
    → Gives field value (xs ++ ys)
Gives-behind field value xs ys p g rest h =
    ap (first_value field) (append_assoc xs ys rest) ∙ p.other (ys ++ rest) ∙ g rest h
