-- ===== src/Examples/Patterns.antt =====
-- Wildcard patterns on a few texts.
use switchtec_nvme_cli.Base.{◌≡◌, refl, [], ◌∷◌, true, false, some}
use switchtec_nvme_cli.Parser.Wildcard.{match_wildcard, match_loop}
use switchtec_nvme_cli.Parser.Wildcard.Glob.{glob}
use switchtec_nvme_cli.Parser.Wildcard.Laws.{match_wildcard-eq-glob}

-- "n*e?" on "neme0", which it has to try twice.
match_wildcard-eq-glob_example :
    match_wildcard (b'n' ∷ b'*' ∷ b'e' ∷ b'?' ∷ []) (b'n' ∷ b'e' ∷ b'm' ∷ b'e' ∷ b'0' ∷ [])
    ≡ some (glob (b'n' ∷ b'*' ∷ b'e' ∷ b'?' ∷ []) (b'n' ∷ b'e' ∷ b'm' ∷ b'e' ∷ b'0' ∷ []))
match_wildcard-eq-glob_example =
    match_wildcard-eq-glob (b'n' ∷ b'*' ∷ b'e' ∷ b'?' ∷ []) (b'n' ∷ b'e' ∷ b'm' ∷ b'e' ∷ b'0' ∷ [])
      (refl, (refl, (refl, tt)))

tried_twice :
    match_wildcard (b'n' ∷ b'*' ∷ b'e' ∷ b'?' ∷ []) (b'n' ∷ b'e' ∷ b'm' ∷ b'e' ∷ b'0' ∷ [])
    ≡ some true
unfolding match_wildcard match_loop
tried_twice = refl

-- Two stars on an empty text do not match, though each of them may take no character.
two_stars : match_wildcard (b'*' ∷ b'*' ∷ []) [] ≡ some false
unfolding match_wildcard match_loop
two_stars = refl
