-- ===== src/Fabrics/Entry/Endings.antt =====
-- What the text for an entry of a discovery log ends in, where it has no flow control option.
use switchtec_nvme_cli.Base.{
  ℕ, ◌≡◌, refl, ap, sym, ◌∙◌, Bool, true, false, ◌&&◌, ◌||◌, ◌⊎◌, Option-cases, List, [], ◌∷◌, ◌++◌,
  none, some, ◌==◌, if◌then◌else◌, Bool-cases, inl, inr, arith,
}
use mathlib.Core.Path.{subst}
use switchtec_nvme_cli.Text.Search.{codes}
use switchtec_nvme_cli.Parser.Match.{same_text, strip_prefix}
use switchtec_nvme_cli.Fabrics.Args.Occurrences.{Plain}
use switchtec_nvme_cli.Fabrics.Options.Fields.{every-Plain, Plain-append}
use switchtec_nvme_cli.Fabrics.Config.{Config}
use switchtec_nvme_cli.Fabrics.Builder.{bool_argument}
use switchtec_nvme_cli.Fabrics.Names.{trtype_str, arg_str, unrecognized}
use switchtec_nvme_cli.Fabrics.Entry.{
  DiscEntry, stripped, traddr_size, trsvcid_size, has_sqflow, text_of, entry_options, addressed,
  served, entry_address, entry_text,
}

-- What stands behind the last comma of a text, with `item` for a text without one.
unfoldable pub behind : (item : List ℕ) → List ℕ → List ℕ
behind item [] = item
behind item (c ∷ s) =
    let here = behind item s in let later = behind s s in if c == b',' then later else here

abbrev pub last_item : List ℕ → List ℕ
last_item text = behind text text

abbrev pub sqflow_item : List ℕ
sqflow_item = codes "disable_sqflow"

behind-append : (item a b : List ℕ) → behind item (a ++ b',' ∷ b) ≡ behind b b
unfolding behind
behind-append item [] b = refl
behind-append item (c ∷ a) b = elim (Bool-cases (c == b',')) [
  | inl q ↦ rw q (behind-append (a ++ b',' ∷ b) a b)
  | inr q ↦ rw q (behind-append item a b)
]

behind-Plain : (item b : List ℕ) → Plain b',' b → behind item b ≡ item
unfolding behind
behind-Plain item [] p = refl
behind-Plain item (c ∷ b) p = ground (arith, p.0, behind-Plain item b p.1)

-- A text whose last item is another than the flow control option.
abbrev pub EndsOtherwise : List ℕ → Type 0
EndsOtherwise t =
    (a : List ℕ) × (item : List ℕ) × (t ≡ a ++ b',' ∷ item)
    × Plain b',' item
    × (same_text item sqflow_item ≡ false)

some-none {ℓ} : {A : Type ℓ} {a : A} → some a ≡ none → ⊥
some-none p = cc

some-eq : {s t : List ℕ} → some s ≡ some t → s ≡ t
some-eq p = cc

append-append : (a b c : List ℕ) → a ++ (b ++ c) ≡ (a ++ b) ++ c
append-append [] b c = refl
append-append (x ∷ a) b c = ap (λ (s : List ℕ). x ∷ s) (append-append a b c)

append-nil : (a : List ℕ) → a ++ [] ≡ a
append-nil [] = refl
append-nil (x ∷ a) = ap (λ (s : List ℕ). x ∷ s) (append-nil a)

EndsOtherwise-append : (p t : List ℕ) → EndsOtherwise t → EndsOtherwise (p ++ t)
EndsOtherwise-append p t (a, item, e, plain, other) =
    (p ++ a, item, ap (λ (s : List ℕ). p ++ s) e ∙ append-append p a (b',' ∷ item), plain, other)

EndsOtherwise-last_item :
    (t : List ℕ) → EndsOtherwise t → same_text (last_item t) sqflow_item ≡ false
EndsOtherwise-last_item t (a, item, e, plain, other) =
    ap (λ (s : List ℕ). same_text s sqflow_item)
      (ap last_item e ∙ behind-append (a ++ b',' ∷ item) a item ∙ behind-Plain item item plain)
    ∙ other

trtype_str-Plain : (t : ℕ) → Plain b',' (trtype_str t)
unfolding trtype_str arg_str
trtype_str-Plain t = every-Plain (trtype_str t) (ground arith)

module _ (e : DiscEntry) (address_plain : Plain b',' (stripped traddr_size e.traddr))
    (service_plain : Plain b',' (stripped trsvcid_size e.trsvcid)) where
  addressed-EndsOtherwise : EndsOtherwise (addressed e)
  unfolding same_text strip_prefix
  addressed-EndsOtherwise = (
    [],
    codes "traddr=" ++ stripped traddr_size e.traddr,
    refl,
    Plain-append (codes "traddr=") (stripped traddr_size e.traddr)
        (every-Plain (codes "traddr=") refl) address_plain,
    refl,
  )

  served-EndsOtherwise : EndsOtherwise (served e)
  unfolding same_text strip_prefix
  served-EndsOtherwise = (
    [],
    codes "trsvcid=" ++ stripped trsvcid_size e.trsvcid,
    refl,
    Plain-append (codes "trsvcid=") (stripped trsvcid_size e.trsvcid)
        (every-Plain (codes "trsvcid=") refl) service_plain,
    refl,
  )

  transport-EndsOtherwise : EndsOtherwise (codes ",transport=" ++ trtype_str e.trtype)
  unfolding same_text strip_prefix
  transport-EndsOtherwise = (
    [],
    codes "transport=" ++ trtype_str e.trtype,
    refl,
    Plain-append (codes "transport=") (trtype_str e.trtype) (every-Plain (codes "transport=") refl)
        (trtype_str-Plain e.trtype),
    refl,
  )

  -- The text up to the addresses, with the two digests or without.
  digests-EndsOtherwise :
      (front : List ℕ) (h d : Bool)
      → EndsOtherwise (
          front
          ++ codes ",transport="
          ++ trtype_str e.trtype
          ++ text_of (bool_argument (codes "hdr_digest") h)
          ++ text_of (bool_argument (codes "data_digest") d))
  unfolding bool_argument same_text
  digests-EndsOtherwise front h true =
      EndsOtherwise-append _ _
        ([], codes "data_digest", refl, every-Plain (codes "data_digest") refl, refl)
  digests-EndsOtherwise front true false = rw append-nil (
      EndsOtherwise-append _ _
        ([], codes "hdr_digest", refl, every-Plain (codes "hdr_digest") refl, refl))
  digests-EndsOtherwise front false false =
      rw (append-nil, append-nil)
        (subst EndsOtherwise (append-append front (codes ",transport=") (trtype_str e.trtype))
          (EndsOtherwise-append front _ transport-EndsOtherwise))

  -- The addresses, when there are any.
  entry_address-EndsOtherwise :
      (address : List ℕ) → entry_address e ≡ some address → (address ≡ []) ⊎ EndsOtherwise address
  unfolding entry_address
  entry_address-EndsOtherwise address h = elim (Bool-cases (e.trtype == 1 || e.trtype == 3)) [
    | inl q ↦ elim (Bool-cases (e.adrfam == 1 || e.adrfam == 2)) [
      | inl ip ↦ inr (
          subst EndsOtherwise (some-eq (sym (rw (q, ip) refl) ∙ h))
            (EndsOtherwise-append (addressed e) (served e) served-EndsOtherwise))
      | inr other ↦ absurd (some-none (sym h ∙ rw (q, other) refl))
    ]
    | inr q ↦ elim (Bool-cases (e.trtype == 2)) [
      | inl fc ↦ elim (Bool-cases (e.adrfam == 4)) [
        | inl known ↦ inr (
            subst EndsOtherwise (some-eq (sym (rw (q, fc, known) refl) ∙ h))
              addressed-EndsOtherwise)
        | inr other ↦ absurd (some-none (sym h ∙ rw (q, fc, other) refl))
      ]
      | inr loop ↦ inl (some-eq (sym h ∙ rw (q, loop) refl))
    ]
  ]

  text-EndsOtherwise :
      (cfg : Config) (discover : Bool) (address : List ℕ)
      → (address ≡ []) ⊎ EndsOtherwise address
      → EndsOtherwise (
          entry_options cfg discover e
          ++ codes ",transport="
          ++ trtype_str e.trtype
          ++ text_of (bool_argument (codes "hdr_digest") cfg.hdr_digest)
          ++ text_of (bool_argument (codes "data_digest") cfg.data_digest)
          ++ address
          ++ [])
  text-EndsOtherwise cfg discover address (inl empty) =
      rw (empty, append-nil, append-nil)
        (digests-EndsOtherwise (entry_options cfg discover e) cfg.hdr_digest cfg.data_digest)
  text-EndsOtherwise cfg discover address (inr other) =
      rw append-nil (EndsOtherwise-append _ address other)

  -- The text without the flow control option ends in another.
  pub entry_text-EndsOtherwise :
      (cfg : Config) (discover : Bool) (text : List ℕ)
      → entry_text cfg discover false e ≡ some text
      → same_text (last_item text) sqflow_item ≡ false
  unfolding entry_text
  entry_text-EndsOtherwise cfg discover text h =
      elim (Bool-cases (same_text (trtype_str e.trtype) unrecognized)) [
        | inl q ↦ absurd (some-none (sym h ∙ rw q refl))
        | inr q ↦ elim (Option-cases (entry_address e)) [
          | inl a ↦ absurd (some-none (sym h ∙ rw (q, a) refl))
          | inr (address, a) ↦ EndsOtherwise-last_item text (
              subst EndsOtherwise (some-eq (sym (rw (q, a, no_option) refl) ∙ h))
                (text-EndsOtherwise cfg discover address (entry_address-EndsOtherwise address a)))
        ]
      ]
    where
      no_option : (has_sqflow e && false) ≡ false
      no_option = ground arith
