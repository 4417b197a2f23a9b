-- ===== src/Parser/Wildcard/Laws.antt =====
-- `match_wildcard` against the meaning of a pattern.
use mathlib.Core.Path.{subst}
use switchtec_nvme_cli.Base.{
  ℕ, zero, suc, ◌+◌, ◌≤◌, ◌<◌, ◌≡◌, refl, ◌∙◌, sym, ap, true, false, List, [], ◌∷◌, ◌++◌, length,
  drop, some, arith, ◌==◌, if◌then◌else◌,
}
use switchtec_nvme_cli.Parser.Wildcard.{tail, is_empty, match_loop, rounds, match_wildcard}
use switchtec_nvme_cli.Parser.Wildcard.Glob.{
  glob, NoDoubleStar, drop-nil, glob-star, glob-star_drop, glob-star_next, glob-star_split,
  at_end_lem, NoDoubleStar-tail,
}
use switchtec_nvme_cli.Parser.Wildcard.Rounds.{
  IsTrying, rounds-drop, glob-char, advance, restart, four_ways,
}

-- Where the rest of the pattern cannot match later unless it matches here, neither can the whole.
sticks :
    {fuel bound : ℕ} {w pattern str p s : List ℕ}
    → IsTrying fuel bound w pattern str p s
    → ((k : ℕ) → glob p (drop k s) ≡ true → glob p s ≡ true)
    → glob (b'*' ∷ pattern) str ≡ glob p s
sticks {w = w} {str = str} {p = p} t h =
    ap (λ v. glob (b'*' ∷ v) str) t.split
    ∙ glob-star_split w p str t.plain (λ k found.
      ap (λ v. glob v str) (sym t.split)
      ∙ t.agrees
      ∙ h k (ap (λ v. glob p (drop k v)) t.rest ∙ found))
    ∙ ap (λ v. glob v str) (sym t.split)
    ∙ t.agrees

-- What the loop gives behind a star.
Starred : (fuel : ℕ) (pattern str p s : List ℕ) → Type 0
Starred fuel pattern str p s =
    match_loop fuel true pattern str p s ≡ some (glob (b'*' ∷ pattern) str)

-- After a mismatch the next start is tried.
back :
    {fuel bound : ℕ} {w pattern p : List ℕ} {c : ℕ} {s : List ℕ} (str : List ℕ)
    → IsTrying (suc fuel) bound w pattern str p (c ∷ s)
    → glob p (c ∷ s) ≡ false
    → ((t : List ℕ) → IsTrying fuel bound [] pattern t pattern t → Starred fuel pattern t pattern t)
    → match_loop fuel true pattern (tail str) pattern (tail str) ≡ some (glob (b'*' ∷ pattern) str)
unfolding Starred
back {w = w} {c = c} {s = s} [] t h next =
    let e = ap length (t.rest ∙ drop-nil (length w)) in absurd (omega arith)
back {fuel = fuel} {bound = bound} {pattern = pattern} (d ∷ str) t h next =
    next str (
      restart fuel bound pattern str t.whole_apart t.whole_fits
        (let f = t.whole_fits in let e = t.enough in omega arith))
    ∙ ap some (sym (glob-star_next pattern d str (t.agrees ∙ h)))

empty_fails : (c : ℕ) (s : List ℕ) → glob [] (c ∷ s) ≡ false
unfolding glob
empty_fails c s = refl

-- A star: the rest of the pattern is tried from here on, and a last star ends the loop.
from_star :
    (fuel : ℕ) (p : List ℕ) (c : ℕ) (s : List ℕ)
    → Starred fuel p (c ∷ s) p (c ∷ s)
    → (if is_empty p then some true else match_loop fuel true p (c ∷ s) p (c ∷ s))
      ≡ some (glob (b'*' ∷ p) (c ∷ s))
unfolding Starred
from_star fuel [] c s h = ap some (sym (glob-star (c ∷ s)))
from_star fuel (r ∷ p) c s h = h

restarted :
    {fuel bound : ℕ} {w pattern str : List ℕ} {q : ℕ} {p : List ℕ} {c : ℕ} {s : List ℕ}
    → IsTrying (suc fuel) bound w pattern str (q ∷ p) (c ∷ s)
    → IsTrying fuel bound [] p (c ∷ s) p (c ∷ s)
restarted {fuel} {bound} {w} {pattern} {str} {q} {p} {c} {s} t =
    restart fuel bound p (c ∷ s) (NoDoubleStar-tail q p t.apart) (let f = t.fits in omega arith)
      (let f = t.enough in let shorter = later in omega arith)
  where
    later : rounds (c ∷ s) bound ≤ rounds str bound
    later =
        subst (λ v. rounds v bound ≤ rounds str bound) (sym t.rest)
          (rounds-drop (length w) str bound)

at_star :
    {fuel bound : ℕ} {w pattern str : List ℕ} {q : ℕ} {p : List ℕ} {c : ℕ} {s : List ℕ}
    → IsTrying fuel bound w pattern str (q ∷ p) (c ∷ s)
    → q ≡ b'*'
    → glob (b'*' ∷ p) (c ∷ s) ≡ glob (b'*' ∷ pattern) str
at_star {p = p} {c = c} {s = s} t e = sym (
    sticks t (λ k found.
      ap (λ a. glob (a ∷ p) (c ∷ s)) e
      ∙ glob-star_drop p k (c ∷ s) (ap (λ a. glob (a ∷ p) (drop k (c ∷ s))) (sym e) ∙ found))
    ∙ ap (λ a. glob (a ∷ p) (c ∷ s)) e)

match_loop-star :
    (fuel bound : ℕ) (w pattern str p s : List ℕ)
    → IsTrying fuel bound w pattern str p s
    → Starred fuel pattern str p s
unfolding Starred match_loop
match_loop-star zero bound w pattern str p s t = let e = t.enough in absurd (omega arith)
match_loop-star (suc fuel) bound w pattern str p [] t =
    ap some
      (at_end_lem p t.apart ∙ sym (sticks t (λ k found. ap (glob p) (sym (drop-nil k)) ∙ found)))
match_loop-star (suc fuel) bound w pattern str [] (c ∷ s) t =
    back str t (empty_fails c s) (λ v u. match_loop-star fuel bound [] pattern v pattern v u)
match_loop-star (suc fuel) bound w pattern str (q ∷ p) (c ∷ s) t =
    four_ways (q == b'?') (q == b'*') (c == q) _ _ _ _ _
      (λ any.
        match_loop-star fuel bound (w ++ q ∷ []) pattern str p s
          (advance t (ground arith) (glob-char q p c s (ground arith) ∙ ground arith)))
      (λ any star.
        from_star fuel p c s (match_loop-star fuel bound [] p (c ∷ s) p (c ∷ s) (restarted t))
        ∙ ap some (at_star t (ground arith)))
      (λ any star same.
        match_loop-star fuel bound (w ++ q ∷ []) pattern str p s
          (advance t (ground arith) (glob-char q p c s (ground arith) ∙ ground arith)))
      (λ any star same.
        back str t (glob-char q p c s (ground arith) ∙ ground arith)
          (λ v u. match_loop-star fuel bound [] pattern v pattern v u))

==→eq : (q : ℕ) → (q == b'*') ≡ true → q ≡ b'*'
==→eq q h = ground arith

-- Before the first star: the loop fails at the first mismatch.
match_loop-plain :
    (fuel bound : ℕ) (pattern str p s : List ℕ)
    → NoDoubleStar p
    → length p ≤ bound
    → rounds s bound + length p < fuel
    → match_loop fuel false pattern str p s ≡ some (glob p s)
unfolding Starred match_loop
match_loop-plain zero bound pattern str p s n f e = absurd (omega arith)
match_loop-plain (suc fuel) bound pattern str p [] n f e = ap some (at_end_lem p n)
match_loop-plain (suc fuel) bound pattern str [] (c ∷ s) n f e = ap some (sym (empty_fails c s))
match_loop-plain (suc fuel) bound pattern str (q ∷ p) (c ∷ s) n f e =
    four_ways (q == b'?') (q == b'*') (c == q) _ _ _ _ _
      (λ any.
        match_loop-plain fuel bound pattern str p s (NoDoubleStar-tail q p n) (omega arith)
          (omega arith)
        ∙ ap some (sym (glob-char q p c s (ground arith) ∙ ground arith)))
      (λ any star.
        from_star fuel p c s (
          match_loop-star fuel bound [] p (c ∷ s) p (c ∷ s)
            (restart fuel bound p (c ∷ s) (NoDoubleStar-tail q p n) (omega arith) (omega arith)))
        ∙ ap (λ a. some (glob (a ∷ p) (c ∷ s))) (sym (==→eq q star)))
      (λ any star same.
        match_loop-plain fuel bound pattern str p s (NoDoubleStar-tail q p n) (omega arith)
          (omega arith)
        ∙ ap some (sym (glob-char q p c s (ground arith) ∙ ground arith)))
      (λ any star same. ap some (sym (glob-char q p c s (ground arith) ∙ ground arith)))

-- Whether a text matches a pattern without two stars side by side: the loop ends, and it says what
-- the pattern means, where `?` is any one character, `*` any number of characters, and any other
-- character itself.
pub match_wildcard-eq-glob :
    (pattern str : List ℕ)
    → NoDoubleStar pattern
    → match_wildcard pattern str ≡ some (glob pattern str)
unfolding match_wildcard
match_wildcard-eq-glob pattern str n =
    match_loop-plain (suc (rounds str (length pattern) + length pattern)) (length pattern) pattern
      str pattern str n (omega arith) (omega arith)
