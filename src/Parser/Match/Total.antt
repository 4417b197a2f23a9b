-- ===== src/Parser/Match/Total.antt =====
-- The progress of `match_one`.
use mathlib.Core.Option.{none-ne-some}
use switchtec_nvme_cli.Base.{
  ℕ, zero, suc, ◌+◌, ◌≤◌, ◌<◌, ◌≡◌, refl, Bool, true, false, List, [], ◌∷◌, Option, none, some,
  length, arith, leb, ◌==◌, if◌then◌else◌, Bool-cases, inl, inr,
}
use switchtec_nvme_cli.Text.{is_digit}
use switchtec_nvme_cli.Text.Rest.{strtoul-rest}
use switchtec_nvme_cli.Parser.Wildcard.{tail}
use switchtec_nvme_cli.Parser.Match.{
  Substring, max_opt_args, char_at, split_percent, strip_prefix, same_text, width, Round, return,
  continue, convert, behind_percent, round, one_loop, match_one, match_token,
}

-- A round that goes on does so with a pattern of less than `k` characters.
Shrinks : ℕ → Round → Type 0
Shrinks k (return found args) = Unit {0}
Shrinks k (continue p s argc args) = length p < k

Shrinks-if :
    (k : ℕ) (b : Bool) (x y : Round) → Shrinks k x → Shrinks k y → Shrinks k (if b then x else y)
Shrinks-if k true x y p q = p
Shrinks-if k false x y p q = q

length-tail : (s : List ℕ) → length (tail s) ≤ length s
length-tail [] = omega arith
length-tail (c ∷ s) = omega arith

length-width : (p : List ℕ) → length (width p).1 ≤ length p
unfolding width
length-width p = ground (arith, strtoul-rest 10 p)

stored-Shrinks :
    (k : ℕ) (o : Option (List ℕ)) (ok : Bool) (q : List ℕ) (argc : ℕ) (out : List Substring)
    → length q < k
    → Shrinks k (elim o as (λ x. Round) [
      | none ↦ return false out
      | some rest ↦ if ok then continue q rest argc out else return false out
    ])
unfolding Shrinks
stored-Shrinks k none ok q argc out h = tt
stored-Shrinks k (some rest) true q argc out h = h
stored-Shrinks k (some rest) false q argc out h = tt

convert-Shrinks :
    (k : ℕ) (p s : List ℕ) (argc : ℕ) (args : List Substring)
    → length p < k
    → Shrinks k (convert p s argc args)
unfolding Shrinks convert
convert-Shrinks k p s argc args h =
    Shrinks-if k (leb max_opt_args argc) _ _ tt
      (stored-Shrinks k _ _ _ _ _ (omega (arith, length-tail (width p).1, length-width p)))

behind_percent-Shrinks :
    (k : ℕ) (p s : List ℕ) (argc : ℕ) (args : List Substring)
    → length p < k
    → Shrinks k (behind_percent p s argc args)
unfolding Shrinks behind_percent
behind_percent-Shrinks k p s argc args h =
    Shrinks-if k (is_digit (char_at p)) _ _ (convert-Shrinks k p s argc args h) (
      Shrinks-if k (char_at p == b'%') _ _
        (Shrinks-if k (char_at s == b'%') _ _ (omega (arith, length-tail p)) tt)
        (convert-Shrinks k p s argc args h))

-- What stands behind a percent sign is shorter than the pattern.
Behind : ℕ → Option (List ℕ) → Type 0
Behind k none = Unit {0}
Behind k (some q) = length q < k

Behind-suc : (k : ℕ) (o : Option (List ℕ)) → Behind k o → Behind (suc k) o
unfolding Behind
Behind-suc k none h = tt
Behind-suc k (some q) h = omega arith

split_percent-Behind : (p : List ℕ) → Behind (length p) (split_percent p).1
unfolding Behind split_percent
split_percent-Behind [] = tt
split_percent-Behind (c ∷ p) = elim (Bool-cases (c == b'%')) [
  | inl found ↦ rw found (omega arith)
  | inr other ↦ rw other (Behind-suc (length p) (split_percent p).1 (split_percent-Behind p))
]

matched-Shrinks :
    (k : ℕ) (found : Option (List ℕ)) (q : List ℕ) (argc : ℕ) (args : List Substring)
    → length q < k
    → Shrinks k (elim found as (λ x. Round) [
      | none ↦ return false args
      | some t ↦ behind_percent q t argc args
    ])
unfolding Shrinks
matched-Shrinks k none q argc args h = tt
matched-Shrinks k (some t) q argc args h = behind_percent-Shrinks k q t argc args h

split-Shrinks :
    (k : ℕ) (whole front s : List ℕ) (behind : Option (List ℕ)) (argc : ℕ) (args : List Substring)
    → Behind k behind
    → Shrinks k (elim behind as (λ x. Round) [
      | none ↦ return (same_text whole s) args
      | some q ↦ elim (strip_prefix front s) as (λ x. Round) [
        | none ↦ return false args
        | some t ↦ behind_percent q t argc args
      ]
    ])
unfolding Shrinks Behind
split-Shrinks k whole front s none argc args h = tt
split-Shrinks k whole front s (some q) argc args h =
    matched-Shrinks k (strip_prefix front s) q argc args h

round-Shrinks :
    (p s : List ℕ) (argc : ℕ) (args : List Substring) → Shrinks (length p) (round p s argc args)
unfolding round
round-Shrinks p s argc args =
    split-Shrinks (length p) p (split_percent p).0 s (split_percent p).1 argc args
      (split_percent-Behind p)

Returns : Option (Bool × List Substring) → Type 0
Returns o = (r : Bool × List Substring) × (o ≡ some r)

go_on :
    (fuel k : ℕ) (r : Round)
    → Shrinks k r
    → k ≤ fuel
    → ((q t : List ℕ) (n : ℕ) (out : List Substring)
        → length q < fuel
        → Returns (one_loop fuel q t n out))
    → Returns (elim r as (λ x. Option (Bool × List Substring)) [
      | return found out ↦ some (found, out)
      | continue q t n out ↦ one_loop fuel q t n out
    ])
unfolding Returns Shrinks
go_on fuel k (return found out) h e next = ((found, out), refl)
go_on fuel k (continue q t n out) h e next = next q t n out (omega arith)

one_loop-Returns :
    (fuel : ℕ) (p s : List ℕ) (argc : ℕ) (args : List Substring)
    → length p < fuel
    → Returns (one_loop fuel p s argc args)
unfolding one_loop
one_loop-Returns zero p s argc args h = absurd (omega arith)
one_loop-Returns (suc fuel) p s argc args h =
    go_on fuel (length p) (round p s argc args) (round-Shrinks p s argc args) (omega arith)
      (λ q t n out k. one_loop-Returns fuel q t n out k)

match_one-Returns :
    (s : List ℕ) (p : Option (List ℕ)) (args : List Substring) → Returns (match_one s p args)
unfolding Returns match_one
match_one-Returns s none args = ((true, args), refl)
match_one-Returns s (some p) args = one_loop-Returns (length p + 1) p s 0 args (omega arith)

-- The last entry has a null pattern.
abbrev pub IsTerminated : List (ℕ × Option (List ℕ)) → Type 0
IsTerminated [] = ⊥
IsTerminated ((token, none) ∷ table) = Unit {0}
IsTerminated ((token, some p) ∷ table) = IsTerminated table

token_found :
    (token : ℕ) (s : List ℕ) (table : List (ℕ × Option (List ℕ)))
    (one : Option (Bool × List Substring))
    → Returns one
    → ((out : List Substring) → (r : ℕ × List Substring) × (match_token s table out ≡ some r))
    → (r : ℕ × List Substring) × ((elim one as (λ x. Option (ℕ × List Substring)) [
      | none ↦ none
      | some (found, out) ↦ elim found as (λ x. Option (ℕ × List Substring)) [
        | true ↦ some (token, out)
        | false ↦ match_token s table out
      ]
    ])
        ≡ some r)
unfolding Returns
token_found token s table none (r, e) next = absurd (none-ne-some r e)
token_found token s table (some (true, out)) h next = ((token, out), refl)
token_found token s table (some (false, out)) h next = next out

-- Matching a text against a table that ends with a null pattern always gives a token: no pattern
-- keeps `match_one` going for ever.
pub match_token-total :
    (s : List ℕ) (table : List (ℕ × Option (List ℕ))) (args : List Substring)
    → IsTerminated table
    → (r : ℕ × List Substring) × (match_token s table args ≡ some r)
unfolding match_token match_one
match_token-total s [] args h = elim h [ ]
match_token-total s ((token, none) ∷ table) args h = ((token, args), refl)
match_token-total s ((token, some p) ∷ table) args h =
    token_found token s table (match_one s (some p) args) (match_one-Returns s (some p) args)
      (λ out. match_token-total s table out h)
