-- ===== src/Parser/Wildcard.antt =====
-- `match_wildcard` of util/parser.c. The pointers are the texts that they lead to, and the end of a
-- text is the terminating 0. The loop runs on fuel, and `none` says that it ran out.
pub mod Glob
pub mod Rounds
pub mod Laws
use switchtec_nvme_cli.Base.{
  ℕ, zero, suc, ◌+◌, ◌*◌, Bool, true, false, List, [], ◌∷◌, Option, none, some, length, ◌==◌,
  if◌then◌else◌,
}

abbrev pub tail : List ℕ → List ℕ
tail [] = []
tail (c ∷ s) = s

abbrev pub is_empty : List ℕ → Bool
is_empty [] = true
is_empty (c ∷ s) = false

-- The last three lines: one trailing star is skipped.
abbrev pub at_end : List ℕ → Bool
at_end [] = true
at_end (q ∷ p) = if q == b'*' then is_empty p else false

-- The loop: `pattern` and `str` are where it goes back to on a mismatch, if there was a star.
unfoldable pub match_loop : (fuel : ℕ) (star : Bool) (pattern str p s : List ℕ) → Option Bool
match_loop zero star pattern str p s = none
match_loop (suc fuel) star pattern str p [] = some (at_end p)
match_loop (suc fuel) star pattern str [] (c ∷ s) =
    let back = match_loop fuel star pattern (tail str) pattern (tail str) in
    if star then back else some false
match_loop (suc fuel) star pattern str (q ∷ p) (c ∷ s) =
    let next = match_loop fuel star pattern str p s in
    let starred = match_loop fuel true p (c ∷ s) p (c ∷ s) in
    let back = match_loop fuel star pattern (tail str) pattern (tail str) in
    if q == b'?'
    then next
    else if q == b'*'
    then (if is_empty p then some true else starred)
    else if c == q
    then next
    else if star
    then back
    else some false

-- The rounds that the loop takes at most: for each start in the text, the pattern once.
abbrev pub rounds : List ℕ → ℕ → ℕ
rounds [] bound = 0
rounds (c ∷ s) bound = suc bound + rounds s bound

unfoldable pub match_wildcard : (pattern str : List ℕ) → Option Bool
match_wildcard pattern str =
    match_loop (suc (rounds str (length pattern) + length pattern)) false pattern str pattern str
