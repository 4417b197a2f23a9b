-- ===== src/Parser/Wildcard/Glob.antt =====
-- What a pattern means, read off its definition: `?` is any one character, `*` any number of them,
-- and any other character itself.
use switchtec_nvme_cli.Base.{
  ℕ, zero, suc, ◌+◌, ◌≡◌, ◌≢◌, refl, ◌∙◌, sym, ap, Bool, true, false, ◌&&◌, ◌||◌, List, [], ◌∷◌,
  ◌++◌, length, drop, arith, ◌==◌, if◌then◌else◌, Bool-cases, inl, inr,
}
use switchtec_nvme_cli.Parser.Wildcard.{tail, at_end}

unfoldable pub glob : List ℕ → List ℕ → Bool
glob [] [] = true
glob [] (c ∷ s) = false
glob (q ∷ p) [] = q == b'*' && glob p []
glob (q ∷ p) (c ∷ s) =
    if q == b'*'
    then glob p (c ∷ s) || glob (q ∷ p) s
    else if q == b'?'
    then glob p s
    else c == q && glob p s

-- The part of a pattern between two stars.
abbrev pub NoStar : List ℕ → Type 0
NoStar [] = Unit {0}
NoStar (q ∷ p) = (q ≢ b'*') × NoStar p

-- No two stars stand side by side.
abbrev pub NoDoubleStar : List ℕ → Type 0
NoDoubleStar [] = Unit {0}
NoDoubleStar (q ∷ []) = Unit {0}
NoDoubleStar (q ∷ r ∷ p) = ((q == b'*' && r == b'*') ≡ false) × NoDoubleStar (r ∷ p)

pub drop-nil : (k : ℕ) → drop {A = ℕ} k [] ≡ []
drop-nil zero = refl
drop-nil (suc k) = refl

drop-add : (n m : ℕ) (s : List ℕ) → drop m (drop n s) ≡ drop (n + m) s
drop-add zero m s = ap (λ (k : ℕ). drop k s) (omega arith)
drop-add (suc n) m [] = drop-nil m ∙ sym (drop-nil (suc n + m))
drop-add (suc n) m (c ∷ s) =
    let one_more : suc (n + m) ≡ suc n + m = omega arith in
    drop-add n m s ∙ ap (λ (k : ℕ). drop k (c ∷ s)) one_more

pub drop-drop : (m n : ℕ) (s : List ℕ) → drop m (drop n s) ≡ drop n (drop m s)
drop-drop m n s = drop-add n m s ∙ ap (λ (k : ℕ). drop k s) (omega arith) ∙ sym (drop-add m n s)

-- The rest of a rest.
pub drop-step : (n : ℕ) (s : List ℕ) (c : ℕ) (t : List ℕ) → c ∷ t ≡ drop n s → t ≡ drop (suc n) s
drop-step zero [] c t e = ap tail e
drop-step zero (d ∷ s) c t e = ap tail e
drop-step (suc n) [] c t e = ap tail e
drop-step (suc n) (d ∷ s) c t e = drop-step n s c t e

-- A star takes what stands in front of a match too.
pub glob-star_drop :
    (p : List ℕ) (k : ℕ) (s : List ℕ) → glob (b'*' ∷ p) (drop k s) ≡ true → glob (b'*' ∷ p) s ≡ true
unfolding glob
glob-star_drop p zero s h = h
glob-star_drop p (suc k) [] h = h
glob-star_drop p (suc k) (c ∷ s) h = ground (arith, glob-star_drop p k s h)

-- A match behind a star begins somewhere.
pub glob-star_inv : (p s : List ℕ) → glob (b'*' ∷ p) s ≡ true → (k : ℕ) × (glob p (drop k s) ≡ true)
unfolding glob
glob-star_inv p [] h = (0, h)
glob-star_inv p (c ∷ s) h = elim (Bool-cases (glob p (c ∷ s))) [
  | inl here ↦ (0, here)
  | inr later ↦ let (k, found) = glob-star_inv p s (ground arith) in (suc k, found)
]

-- A part without stars takes as many characters as it has itself.
pub glob-NoStar_append :
    (w q t : List ℕ) → NoStar w → glob (w ++ q) t ≡ true → glob q (drop (length w) t) ≡ true
unfolding glob
glob-NoStar_append [] q t n h = h
glob-NoStar_append (a ∷ w) q [] n h = ground arith
glob-NoStar_append (a ∷ w) q (c ∷ t) n h = ground (arith, glob-NoStar_append w q t n.1)

-- A star alone takes everything.
pub glob-star : (s : List ℕ) → glob (b'*' ∷ []) s ≡ true
unfolding glob
glob-star [] = refl
glob-star (c ∷ s) = rw (glob-star s) (ground arith)

pub NoDoubleStar-tail : (q : ℕ) (p : List ℕ) → NoDoubleStar (q ∷ p) → NoDoubleStar p
NoDoubleStar-tail q [] n = tt
NoDoubleStar-tail q (r ∷ p) n = n.1

-- The code's last test is what a pattern means at the end of a text.
pub at_end_lem : (p : List ℕ) → NoDoubleStar p → at_end p ≡ glob p []
unfolding glob
at_end_lem [] n = refl
at_end_lem (q ∷ []) n = ground arith
at_end_lem (q ∷ r ∷ p) n = let apart = n.0 in ground arith

-- A star in front of a pattern that fails here leaves out one character.
pub glob-star_next :
    (p : List ℕ) (c : ℕ) (s : List ℕ)
    → glob p (c ∷ s) ≡ false
    → glob (b'*' ∷ p) (c ∷ s) ≡ glob (b'*' ∷ p) s
unfolding glob
glob-star_next p c s h = rw h refl

-- A star in front of a pattern that matches here leaves out nothing.
pub glob-star_here : (p s : List ℕ) → glob p s ≡ true → glob (b'*' ∷ p) s ≡ true
unfolding glob
glob-star_here p [] h = h
glob-star_here p (c ∷ s) h = rw h refl

-- Whether a part without stars and then a rest match behind a star, when the part took its
-- characters here: if the rest does not match from there on, whatever is left out, nothing does.
pub glob-star_split :
    (w q s : List ℕ)
    → NoStar w
    → ((k : ℕ) → glob q (drop k (drop (length w) s)) ≡ true → glob (w ++ q) s ≡ true)
    → glob (b'*' ∷ w ++ q) s ≡ glob (w ++ q) s
glob-star_split w q s n h = elim (Bool-cases (glob (w ++ q) s)) [
  | inl here ↦ glob-star_here (w ++ q) s here ∙ sym here
  | inr fails ↦ elim (Bool-cases (glob (b'*' ∷ w ++ q) s)) [
    | inr never ↦ never ∙ sym fails
    | inl later ↦
        let (k, found) = glob-star_inv (w ++ q) s later in
        later
        ∙ sym (
            h k (
              sym (ap (glob q) (drop-drop (length w) k s))
              ∙ glob-NoStar_append w q (drop k s) n found))
  ]
]
