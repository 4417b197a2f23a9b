-- ===== src/Fabrics/Args/Occurrences.antt =====
-- Fields in an argument, and in a text that goes on behind it, as `parse_conn_arg` looks for them.
use mathlib.Core.Path.{subst}
use switchtec_nvme_cli.Base.{
  ℕ, ◌≡◌, ◌≢◌, refl, sym, inl, inr, false, not, List, [], ◌∷◌, ◌++◌, length, drop, Option, none,
  some, Option-cases, Bool-cases, arith, ◌==◌,
}
use switchtec_nvme_cli.Text.Decimal.{Every}
use switchtec_nvme_cli.Text.Search.{starts_with, strstr, strchr, until, behind}
use switchtec_nvme_cli.Parser.Match.{strip_prefix}
use switchtec_nvme_cli.Fabrics.Args.{at_boundary, assigned}

-- A text without the delimiter.
abbrev pub Plain : ℕ → List ℕ → Type 0
Plain d s = Every (λ c. not (c == d)) s

-- What may follow an argument: nothing, or a delimiter.
abbrev pub Cut : ℕ → List ℕ → Type 0
Cut d [] = Unit {0}
Cut d (c ∷ s) = c ≡ d

abbrev pub glue : List ℕ → Option (List ℕ) → Option (List ℕ)
glue tail none = none
glue tail (some s) = some (s ++ tail)

pub strip_prefix-append :
    (d : ℕ) (field item tail : List ℕ)
    → Plain d field
    → Cut d tail
    → strip_prefix field (item ++ tail) ≡ glue tail (strip_prefix field item)
unfolding strip_prefix
strip_prefix-append d [] item tail p cut = refl
strip_prefix-append d (f ∷ field) [] [] p cut = refl
strip_prefix-append d (f ∷ field) [] (c ∷ tail) p cut = ground (arith, p.0)
strip_prefix-append d (f ∷ field) (c ∷ item) tail p cut =
    ground (arith, strip_prefix-append d field item tail p.1 cut)

-- An argument, looked at by `strstr`: the field is not in it, it is at its start, or it is further
-- behind, where no delimiter is in front of it.
pub data Found (d : ℕ) (field item : List ℕ) : Type 0 where
  nowhere : strstr item field ≡ none → strip_prefix field item ≡ none → Found d field item
  first :
      (t : List ℕ)
      → strstr item field ≡ some ([], item)
      → strip_prefix field item ≡ some t
      → Found d field item
  inside :
      (c : ℕ) (before s : List ℕ)
      → strstr item field ≡ some (c ∷ before, s)
      → strip_prefix field item ≡ none
      → Plain d (c ∷ before)
      → Plain d s
      → Found d field item

pub at_boundary-Plain :
    (d c : ℕ) (before : List ℕ) → Plain d (c ∷ before) → at_boundary d (c ∷ before) ≡ false
unfolding at_boundary
at_boundary-Plain d c [] p = ground (arith, p.0)
at_boundary-Plain d c (e ∷ before) p = at_boundary-Plain d e before p.1

pub find : (d f : ℕ) (field item : List ℕ) → Plain d item → Found d (f ∷ field) item
unfolding strstr starts_with strip_prefix
find d f field [] p = Found.nowhere refl refl
find d f field (c ∷ item) p = elim (Option-cases (strip_prefix (f ∷ field) (c ∷ item))) [
  | inr (t, e) ↦ Found.first t (rw (strstr, starts_with, e) refl) e
  | inl none_first ↦ elim (find d f field item p.1) [
    | Found.nowhere e q ↦ Found.nowhere (rw (strstr, starts_with, none_first, e) refl) none_first
    | Found.first t e q ↦
        Found.inside c [] item (rw (strstr, starts_with, none_first, e) refl) none_first (p.0, tt)
          p.1
    | Found.inside x before s e q a b ↦
        Found.inside c (x ∷ before) s (rw (strstr, starts_with, none_first, e) refl) none_first
          (p.0, a) b
  ]
]

abbrev pub in_front : List ℕ → Option (List ℕ × List ℕ) → Option (List ℕ × List ℕ)
in_front item none = none
in_front item (some (before, s)) = some (item ++ before, s)

behind-in_front :
    (c : ℕ) (item : List ℕ) (o : Option (List ℕ × List ℕ))
    → behind c (in_front item o) ≡ in_front (c ∷ item) o
behind-in_front c item none = refl
behind-in_front c item (some (before, s)) = refl

pub some-none {ℓ} : {A : Type ℓ} {a : A} → some a ≡ none → ⊥
some-none p = cc

some-injective {ℓ} : {A : Type ℓ} {a b : A} → some a ≡ some b → a ≡ b
some-injective q = cc

-- Where the field is not in an argument, the search goes on behind it.
pub strstr-nowhere :
    (d f : ℕ) (field item tail : List ℕ)
    → Plain d (f ∷ field)
    → Cut d tail
    → strstr item (f ∷ field) ≡ none
    → strstr (item ++ tail) (f ∷ field) ≡ in_front item (strstr tail (f ∷ field))
unfolding strstr starts_with
strstr-nowhere d f field [] tail p cut e = elim (Option-cases (strstr tail (f ∷ field))) [
  | inl q ↦ rw q refl
  | inr ((b, s), q) ↦ rw q refl
]
strstr-nowhere d f field (c ∷ item) tail p cut e =
    elim (Option-cases (strip_prefix (f ∷ field) (c ∷ item))) [
      | inr (t, q) ↦ absurd (some-none (rw (strstr, starts_with, q) at e))
      | inl q ↦ elim (Option-cases (strstr item (f ∷ field))) [
        | inl later ↦
            let same = strip_prefix-append d (f ∷ field) (c ∷ item) tail p cut in
            rw (strstr, starts_with, same, q, strstr-nowhere d f field item tail p cut later)
              (behind-in_front c item (strstr tail (f ∷ field)))
        | inr ((b, s), later) ↦ absurd (some-none (rw (strstr, starts_with, q, later) at e))
      ]
    ]

-- What is found in an argument is found in the whole text.
pub strstr-within :
    (d f : ℕ) (field item tail before s : List ℕ)
    → Plain d (f ∷ field)
    → Cut d tail
    → strstr item (f ∷ field) ≡ some (before, s)
    → strstr (item ++ tail) (f ∷ field) ≡ some (before, s ++ tail)
unfolding strstr starts_with strip_prefix
strstr-within d f field [] tail before s p cut e = absurd (some-none (sym e))
strstr-within d f field (c ∷ item) tail before s p cut e =
    let same = strip_prefix-append d (f ∷ field) (c ∷ item) tail p cut in
    elim (Option-cases (strip_prefix (f ∷ field) (c ∷ item))) [
      | inr (t, q) ↦
          let here : ◌≡◌ {A = Option (List ℕ × List ℕ)} (some ([], c ∷ item)) (some (before, s)) =
            rw (strstr, starts_with, q) at e in
          rw (strstr, starts_with, same, q) cc
      | inl q ↦ elim (Option-cases (strstr item (f ∷ field))) [
        | inl later ↦ absurd (some-none (sym (rw (strstr, starts_with, q, later) at e)))
        | inr ((b, r), later) ↦
            let there : ◌≡◌ {A = Option (List ℕ × List ℕ)} (some (c ∷ b, r)) (some (before, s)) =
              rw (strstr, starts_with, q, later) at e in
            rw (strstr, starts_with, same, q, strstr-within d f field item tail b r p cut later) cc
      ]
    ]

pub until-append : (d : ℕ) (s tail : List ℕ) → Plain d s → Cut d tail → until d (s ++ tail) ≡ s
unfolding until
until-append d [] [] p cut = refl
until-append d [] (c ∷ tail) p cut = ground arith
until-append d (c ∷ s) tail p cut = rw (until-append d s tail p.1 cut) (ground (arith, p.0))

pub strchr-Plain : (d : ℕ) (s : List ℕ) → Plain d s → strchr s d ≡ none
unfolding strchr
strchr-Plain d [] p = refl
strchr-Plain d (c ∷ s) p = ground (arith, p.0, strchr-Plain d s p.1)

pub strchr-append :
    (d : ℕ) (s rest : List ℕ) → Plain d s → strchr (s ++ d ∷ rest) d ≡ some (d ∷ rest)
unfolding strchr
strchr-append d [] rest p = ground arith
strchr-append d (c ∷ s) rest p = ground (arith, p.0, strchr-append d s rest p.1)

pub assigned-append :
    (d : ℕ) (t tail : List ℕ)
    → d ≢ b'='
    → Cut d tail
    → assigned (t ++ tail) ≡ glue tail (assigned t)
assigned-append d [] [] ne cut = refl
assigned-append d [] (c ∷ tail) ne cut = ground arith
assigned-append d (c ∷ t) tail ne cut = ground arith

pub assigned-Plain : (d : ℕ) (t v : List ℕ) → Plain d t → assigned t ≡ some v → Plain d v
assigned-Plain d [] v p e = absurd (some-none (sym e))
assigned-Plain d (c ∷ t) v p e = elim (Bool-cases (c == b'=')) [
  | inl yes_it ↦
      let same : ◌≡◌ {A = Option (List ℕ)} (some t) (some v) = rw yes_it at e in
      subst (Plain d) (some-injective same) p.1
  | inr no_it ↦ absurd (some-none (sym (rw no_it at e)))
]

-- A field and the assignment character, against an argument that starts with the field.
pub strip_prefix-assign :
    (field item : List ℕ)
    → strip_prefix (field ++ b'=' ∷ []) item
      ≡ (elim (strip_prefix field item) [ none ↦ none | some t ↦ assigned t ])
unfolding strip_prefix
strip_prefix-assign [] [] = refl
strip_prefix-assign [] (c ∷ item) = ground arith
strip_prefix-assign (f ∷ field) [] = refl
strip_prefix-assign (f ∷ field) (c ∷ item) = ground (arith, strip_prefix-assign field item)

pub drop-strip_prefix :
    (field item t tail : List ℕ)
    → strip_prefix field item ≡ some t
    → drop (length field) (item ++ tail) ≡ t ++ tail
unfolding strip_prefix
drop-strip_prefix [] item t tail e = cc
drop-strip_prefix (f ∷ field) [] t tail e = absurd (some-none (sym e))
drop-strip_prefix (f ∷ field) (c ∷ item) t tail e =
    drop-strip_prefix field item t tail (ground arith)

pub Plain-strip_prefix :
    (d : ℕ) (field item t : List ℕ) → Plain d item → strip_prefix field item ≡ some t → Plain d t
unfolding strip_prefix
Plain-strip_prefix d [] item t p e = subst (Plain d) (some-injective e) p
Plain-strip_prefix d (f ∷ field) [] t p e = absurd (some-none (sym e))
Plain-strip_prefix d (f ∷ field) (c ∷ item) t p e =
    Plain-strip_prefix d field item t p.1 (ground arith)
