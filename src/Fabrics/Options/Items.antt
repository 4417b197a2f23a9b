-- ===== src/Fabrics/Options/Items.antt =====
-- What each call of an `add` function writes: nothing, or a comma and an item.
use mathlib.Core.List.{append-nil, append_assoc}
use mathlib.Core.Path.{subst}
use switchtec_nvme_cli.Base.{
  ℕ, zero, suc, ◌+◌, ◌^◌, ◌<◌, ◌≡◌, refl, ◌∙◌, ap, sym, Bool, Bool-cases, inl, inr, true, false,
  not, ℤ, pos, negsuc, List, [], ◌∷◌, ◌++◌, length, length-append, Option, none, some, arith,
  if◌then◌else◌,
}
use switchtec_nvme_cli.Base.Memory.{Mem}
use switchtec_nvme_cli.Text.Search.{codes}
use switchtec_nvme_cli.Parser.Match.{same_text}
use switchtec_nvme_cli.Fabrics.Args.Laws.{join}
use switchtec_nvme_cli.Fabrics.Builder.{
  Builder, Added, format_piece, argument, int_argument, bool_argument, is_given, int_text,
  add_argument, add_int_argument, add_bool_argument, chain,
}
use switchtec_nvme_cli.Fabrics.Options.{unless}
use switchtec_nvme_cli.Fabrics.Options.Pieces.{IsWritten, Goes, format-fits}

-- Items with a comma in front of each.
abbrev pub with_commas : List (List ℕ) → List ℕ
with_commas [] = []
with_commas (item ∷ items) = b',' ∷ item ++ with_commas items

abbrev pub flatten : List (List (List ℕ)) → List (List ℕ)
flatten [] = []
flatten (items ∷ rest) = items ++ flatten rest

-- An item that is there or not.
abbrev pub listed : Bool → List ℕ → List (List ℕ)
listed given item = if given then item ∷ [] else []

-- "name=value", where the value is there and not "none".
abbrev pub named : (name : List ℕ) → Option (List ℕ) → List (List ℕ)
named name none = []
named name (some arg) = listed (not (same_text arg (codes "none"))) (name ++ b'=' ∷ arg)

-- A number that is there: 0 stands for none, or -1 where 0 is a value.
abbrev pub is_set : ℤ → (allow_zero : Bool) → Bool
is_set (pos zero) allow_zero = allow_zero
is_set (pos (suc n)) allow_zero = true
is_set (negsuc zero) allow_zero = not allow_zero
is_set (negsuc (suc n)) allow_zero = true

is_given-eq-is_set : (arg : ℤ) (allow_zero : Bool) → is_given arg allow_zero ≡ is_set arg allow_zero
unfolding is_given
is_given-eq-is_set (pos zero) true = refl
is_given-eq-is_set (pos zero) false = refl
is_given-eq-is_set (pos (suc n)) true = refl
is_given-eq-is_set (pos (suc n)) false = refl
is_given-eq-is_set (negsuc zero) true = refl
is_given-eq-is_set (negsuc zero) false = refl
is_given-eq-is_set (negsuc (suc n)) true = refl
is_given-eq-is_set (negsuc (suc n)) false = refl

abbrev pub numbered : (name : List ℕ) → ℤ → (allow_zero : Bool) → List (List ℕ)
numbered name arg allow_zero = listed (is_set arg allow_zero) (name ++ b'=' ∷ int_text arg)

abbrev pub flagged : (name : List ℕ) → Bool → List (List ℕ)
flagged name arg = listed arg name

abbrev pub unless_discover : (discover : Bool) → List (List ℕ) → List (List ℕ)
unless_discover discover items = if discover then [] else items

pub join-with_commas :
    (first : List ℕ) (items : List (List ℕ)) → join b',' first items ≡ first ++ with_commas items
join-with_commas first [] = sym (append-nil first)
join-with_commas first (item ∷ items) = rw (join-with_commas item items) refl

pub with_commas-append :
    (xs ys : List (List ℕ)) → with_commas (xs ++ ys) ≡ with_commas xs ++ with_commas ys
with_commas-append [] ys = refl
with_commas-append (x ∷ xs) ys =
    rw (with_commas-append xs ys) (ap (λ s. b',' ∷ s) (sym (append_assoc x _ _)))

module _ (m : Mem) (at size : ℕ) (small : size < 2 ^ 31) where
  -- A call that puts items behind a text, where there is room.
  abbrev pub Writes : List (List ℕ) → (Builder → Added) → Type 0
  Writes items add =
      (text : List ℕ) (b : Builder)
      → IsWritten m at size text b
      → length text + length (with_commas items) < size
      → Goes m at size (text ++ with_commas items) (add b)

  abbrev pub AllWrite : List (List (List ℕ)) → List (Builder → Added) → Type 0
  AllWrite [] [] = Unit {0}
  AllWrite (items ∷ rest) (add ∷ adds) = Writes items add × AllWrite rest adds
  AllWrite _ _ = ⊥

  nothing-Writes : (add : Builder → Added) → ((b : Builder) → add b ≡ Added.added b) → Writes [] add
  nothing-Writes add same text b w h =
      (b, same b, subst (λ s. IsWritten m at size s b) (sym (append-nil text)) w)

  listed-Writes :
      (given : Bool) (item : List ℕ) (add : Builder → Added)
      → ((b : Builder) → add b ≡ format_piece (if given then some (b',' ∷ item) else none) b)
      → Writes (listed given item) add
  unfolding format_piece
  listed-Writes false item add same text b w h = nothing-Writes add same text b w h
  listed-Writes true item add same text b w h =
      let one = append-nil item in
      let fits = subst (λ s. length text + length (b',' ∷ s) < size) one h in
      let (c, e, written) = format-fits m at size text (b',' ∷ item) b small w.0 fits in
      (c, same b ∙ e, subst (λ s. IsWritten m at size (text ++ b',' ∷ s) c) (sym one) written)

  pub add_argument-Writes :
      (name : List ℕ) (arg : Option (List ℕ)) → Writes (named name arg) (add_argument name arg)
  unfolding add_argument argument format_piece
  add_argument-Writes name none = nothing-Writes (add_argument name none) (λ b. refl)
  add_argument-Writes name (some arg) =
      listed-Writes (not (same_text arg (codes "none"))) (name ++ b'=' ∷ arg)
        (add_argument name (some arg))
        (λ b. elim (Bool-cases (same_text arg (codes "none"))) [
          | inl q ↦ rw (add_argument, argument, q) refl
          | inr q ↦ rw (add_argument, argument, q) refl
        ])

  pub add_int_argument-Writes :
      (name : List ℕ) (arg : ℤ) (allow_zero : Bool)
      → Writes (numbered name arg allow_zero) (add_int_argument name arg allow_zero)
  unfolding add_int_argument int_argument
  add_int_argument-Writes name arg allow_zero =
      listed-Writes (is_set arg allow_zero) (name ++ b'=' ∷ int_text arg)
        (add_int_argument name arg allow_zero)
        (λ b.
          ap
            (λ given.
              format_piece (if given then some (b',' ∷ name ++ b'=' ∷ int_text arg) else none) b)
            (is_given-eq-is_set arg allow_zero))

  pub add_bool_argument-Writes :
      (name : List ℕ) (arg : Bool) → Writes (flagged name arg) (add_bool_argument name arg)
  unfolding add_bool_argument bool_argument
  add_bool_argument-Writes name arg =
      listed-Writes arg name (add_bool_argument name arg) (λ b. refl)

  pub unless-Writes :
      (discover : Bool) (items : List (List ℕ)) (add : Builder → Added)
      → Writes items add
      → Writes (unless_discover discover items) (unless discover add)
  unfolding unless
  unless-Writes true items add w = nothing-Writes (unless true add) (λ b. refl)
  unless-Writes false items add w = w

  -- A chain writes the items of its calls.
  pub chain-Writes :
      (itemss : List (List (List ℕ))) (adds : List (Builder → Added))
      → AllWrite itemss adds
      → Writes (flatten itemss) (chain adds)
  unfolding chain
  chain-Writes [] [] all text b w h = nothing-Writes (chain []) (λ b. refl) text b w h
  chain-Writes [] (add ∷ adds) all text b w h = absurd all
  chain-Writes (items ∷ rest) [] all text b w h = absurd all
  chain-Writes (items ∷ rest) (add ∷ adds) all text b w h =
      let split = with_commas-append items (flatten rest) in
      let both = ap length split ∙ length-append (with_commas items) (with_commas (flatten rest)) in
      let (c, e, written) = all.0 text b w (omega (arith, both)) in
      let (d, f, done) =
        chain-Writes rest adds all.1 (text ++ with_commas items) c written
          (omega (arith, both, length-append text (with_commas items))) in
      (
        d,
        rw (chain, e) f,
        subst (λ s. IsWritten m at size s d)
            (append_assoc text (with_commas items) (with_commas (flatten rest))
              ∙ ap (λ s. text ++ s) (sym split))
            done,
      )

-- Each of the three `add` functions keeps the invariant of the text under construction: with room for its item,
-- it is not refused, the text goes on with a comma and the item where there is one, the position and the
-- room that is left are those of the new text, a 0 stands behind it, and no byte outside the buffer has changed. The
-- buffer is shorter than 2 GiB.
pub add-IsWritten :
    (m : Mem) (at size : ℕ) (text : List ℕ) (b : Builder) (name : List ℕ) (string : Option (List ℕ))
    (number : ℤ) (allow_zero flag : Bool)
    → size < 2 ^ 31
    → IsWritten m at size text b
    → length text + length (with_commas (named name string)) < size
    → length text + length (with_commas (numbered name number allow_zero)) < size
    → length text + length (with_commas (flagged name flag)) < size
    → Goes m at size (text ++ with_commas (named name string)) (add_argument name string b)
      × Goes m at size
          (text ++ with_commas (numbered name number allow_zero))
          (add_int_argument name number allow_zero b)
      × Goes m at size (text ++ with_commas (flagged name flag)) (add_bool_argument name flag b)
add-IsWritten m at size text b name string number allow_zero flag small w h k l = (
  add_argument-Writes m at size small name string text b w h,
  add_int_argument-Writes m at size small name number allow_zero text b w k,
  add_bool_argument-Writes m at size small name flag text b w l,
)
