-- ===== src/Parser/Wildcard/Rounds.antt =====
-- The loop of `match_wildcard` behind a star: it tries the pattern behind the star at one start after
-- the other.
use switchtec_nvme_cli.Base.{
  ℕ, zero, suc, ◌+◌, ◌≤◌, ◌<◌, ◌≡◌, ◌≢◌, refl, ◌∙◌, sym, ap, Bool, true, false, List, [], ◌∷◌, ◌++◌,
  length, drop, length-append, some, arith, ◌==◌, if◌then◌else◌, ◌&&◌,
}
use switchtec_nvme_cli.Parser.Wildcard.{tail, is_empty, match_loop, rounds}
use switchtec_nvme_cli.Parser.Wildcard.Glob.{
  glob, NoStar, NoDoubleStar, drop-step, NoDoubleStar-tail,
}

-- One round of the loop with characters on both sides.
pub match_loop-round :
    (fuel : ℕ) (star : Bool) (pattern str : List ℕ) (q : ℕ) (p : List ℕ) (c : ℕ) (s : List ℕ)
    → match_loop (suc fuel) star pattern str (q ∷ p) (c ∷ s) ≡ (
        if q == b'?'
        then match_loop fuel star pattern str p s
        else if q == b'*'
        then (if is_empty p then some true else match_loop fuel true p (c ∷ s) p (c ∷ s))
        else if c == q
        then match_loop fuel star pattern str p s
        else if star
        then match_loop fuel star pattern (tail str) pattern (tail str)
        else some false)
unfolding match_loop
match_loop-round fuel star pattern str q p c s = refl

-- Where the loop is: the part `w` of the pattern has taken its characters from `str` on, and `p` and
-- `s` are left.
pub record IsTrying (fuel bound : ℕ) (w pattern str p s : List ℕ) : Type 0 where
  pub split : pattern ≡ w ++ p
  pub rest : s ≡ drop (length w) str
  pub plain : NoStar w
  pub whole_apart : NoDoubleStar pattern
  pub apart : NoDoubleStar p
  pub agrees : glob pattern str ≡ glob p s
  pub whole_fits : length pattern ≤ bound
  pub fits : length p ≤ bound
  pub enough : rounds str bound + length p < fuel

snoc : (w : List ℕ) (q : ℕ) (p : List ℕ) → (w ++ q ∷ []) ++ p ≡ w ++ q ∷ p
snoc [] q p = refl
snoc (a ∷ w) q p = rw (snoc w q p) refl

length-snoc : (w : List ℕ) (q : ℕ) → length (w ++ q ∷ []) ≡ suc (length w)
length-snoc w q = omega (arith, length-append w (q ∷ []))

NoStar-snoc : (w : List ℕ) (q : ℕ) → NoStar w → q ≢ b'*' → NoStar (w ++ q ∷ [])
NoStar-snoc [] q n h = (h, tt)
NoStar-snoc (a ∷ w) q n h = (n.0, NoStar-snoc w q n.1 h)

pub rounds-drop : (n : ℕ) (str : List ℕ) (bound : ℕ) → rounds (drop n str) bound ≤ rounds str bound
rounds-drop zero str bound = omega arith
rounds-drop (suc n) [] bound = omega arith
rounds-drop (suc n) (c ∷ str) bound = omega (arith, rounds-drop n str bound)

-- What a character means that is not a star.
pub glob-char :
    (q : ℕ) (p : List ℕ) (c : ℕ) (s : List ℕ)
    → q ≢ b'*'
    → glob (q ∷ p) (c ∷ s) ≡ (if q == b'?' then glob p s else c == q && glob p s)
unfolding glob
glob-char q p c s h = ground arith

pub advance :
    {fuel bound : ℕ} {w pattern str : List ℕ} {q : ℕ} {p : List ℕ} {c : ℕ} {s : List ℕ}
    → IsTrying (suc fuel) bound w pattern str (q ∷ p) (c ∷ s)
    → q ≢ b'*'
    → glob (q ∷ p) (c ∷ s) ≡ glob p s
    → IsTrying fuel bound (w ++ q ∷ []) pattern str p s
advance {w = w} {str = str} {q = q} {p = p} {c = c} {s = s} t h e = record {
  split = t.split ∙ sym (snoc w q p);
  rest = drop-step (length w) str c s t.rest ∙ ap (λ (n : ℕ). drop n str) (sym (length-snoc w q));
  plain = NoStar-snoc w q t.plain h;
  whole_apart = t.whole_apart;
  apart = NoDoubleStar-tail q p t.apart;
  agrees = t.agrees ∙ e;
  whole_fits = t.whole_fits;
  fits = let f = t.fits in omega arith;
  enough = let f = t.enough in omega arith;
}

-- At a star the loop forgets what is in front of it.
pub restart :
    (fuel bound : ℕ) (p s : List ℕ)
    → NoDoubleStar p
    → length p ≤ bound
    → rounds s bound + length p < fuel
    → IsTrying fuel bound [] p s p s
restart fuel bound p s n f e = record {
  split = refl;
  rest = refl;
  plain = tt;
  whole_apart = n;
  apart = n;
  agrees = refl;
  whole_fits = f;
  fits = f;
  enough = e;
}

-- The four branches of a round.
pub four_ways {ℓ} :
    {A : Type ℓ} (any star same : Bool) (x y z u goal : A)
    → (any ≡ true → x ≡ goal)
    → (any ≡ false → star ≡ true → y ≡ goal)
    → (any ≡ false → star ≡ false → same ≡ true → z ≡ goal)
    → (any ≡ false → star ≡ false → same ≡ false → u ≡ goal)
    → (if any then x else if star then y else if same then z else u) ≡ goal
four_ways true star same x y z u goal a b c d = a refl
four_ways false true same x y z u goal a b c d = b refl refl
four_ways false false true x y z u goal a b c d = c refl refl refl
four_ways false false false x y z u goal a b c d = d refl refl refl
