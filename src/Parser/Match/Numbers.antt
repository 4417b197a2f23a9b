-- ===== src/Parser/Match/Numbers.antt =====
-- Numbers in option strings: what a pattern that ends in "%d" takes, and what `match_int` makes of it.
use switchtec_nvme_cli.Base.{
  ℕ, suc, ◌+◌, ◌-◌, ◌^◌, ◌<◌, ◌≡◌, refl, ◌∙◌, sym, ap, Bool, true, false, not, ℤ, pos, neg, negsuc,
  List, [], ◌∷◌, ◌++◌, some, length, length-append, take, arith, ◌==◌, ltb, if◌then◌else◌,
}
use switchtec_nvme_cli.Text.{is_digit}
use switchtec_nvme_cli.Text.Decimal.{decimal, length-decimal, strtol-decimal_only, Every}
use switchtec_nvme_cli.Parser.Match.{
  Substring, match_one, one_loop, round, split_percent, strip_prefix, behind_percent, convert,
  width, conversion, match_int, match_number, same_text, continue,
}

not_empty : (s : List ℕ) → 0 < length s → (0 == length s) ≡ false
not_empty s h = ground arith

take-length : (s : List ℕ) → take (length s) s ≡ s
take-length [] = refl
take-length (c ∷ s) = rw (take-length s) refl

conversion-decimal :
    (n : ℕ)
    → n < 2 ^ 63
    → conversion b'd' (negsuc 0) (decimal n []) ≡ record { stored = some []; ok = true }
unfolding conversion
conversion-decimal n fits =
    rw (strtol-decimal_only n fits, not_empty (decimal n []) (length-decimal n)) refl

convert-decimal :
    (n : ℕ) (a : Substring) (args : List Substring)
    → n < 2 ^ 63
    → convert (b'd' ∷ []) (decimal n []) 0 (a ∷ args)
      ≡ continue [] [] 1 (record { from = decimal n []; to = [] } ∷ args)
unfolding convert width is_digit
convert-decimal n a args fits = rw (conversion-decimal n fits, conversion-decimal n fits) refl

-- Text without a percent sign in front of the first conversion.
abbrev pub NoPercent : List ℕ → Type 0
NoPercent = Every (λ c. not (c == b'%'))

not-true : (b : Bool) → not b ≡ true → b ≡ false
not-true true p = sym p
not-true false p = refl

split_percent-front :
    (front q : List ℕ) → NoPercent front → split_percent (front ++ b'%' ∷ q) ≡ (front, some q)
unfolding split_percent
split_percent-front [] q h = refl
split_percent-front (c ∷ front) q h =
    let other : (c == b'%') ≡ false = not-true (c == b'%') h.0 in
    rw (other, split_percent-front front q h.1) refl

strip_prefix-front : (front s : List ℕ) → strip_prefix front (front ++ s) ≡ some s
unfolding strip_prefix
strip_prefix-front [] s = refl
strip_prefix-front (c ∷ front) s =
    let same : (c == c) ≡ true = ground arith in rw (same, strip_prefix-front front s) refl

round-decimal :
    (front : List ℕ) (n : ℕ) (a : Substring) (args : List Substring)
    → NoPercent front
    → n < 2 ^ 63
    → round (front ++ b'%' ∷ b'd' ∷ []) (front ++ decimal n []) 0 (a ∷ args)
      ≡ continue [] [] 1 (record { from = decimal n []; to = [] } ∷ args)
unfolding round behind_percent is_digit
round-decimal front n a args h fits =
    rw
      (
        round,
        split_percent-front front (b'd' ∷ []) h,
        split_percent-front front (b'd' ∷ []) h,
        strip_prefix-front front (decimal n []),
        convert-decimal n a args fits,
      )
      refl

one_loop-decimal :
    (fuel : ℕ) (front : List ℕ) (n : ℕ) (a : Substring) (args : List Substring)
    → NoPercent front
    → n < 2 ^ 63
    → one_loop (suc (suc fuel)) (front ++ b'%' ∷ b'd' ∷ []) (front ++ decimal n []) 0 (a ∷ args)
      ≡ some (true, record { from = decimal n []; to = [] } ∷ args)
unfolding one_loop round split_percent same_text
one_loop-decimal fuel front n a args h fits =
    rw (one_loop, round-decimal front n a args h fits) refl

-- A pattern of plain text with "%d" at its end matches that text with the digits of a number behind
-- it, and the first argument then is exactly the digits; the other arguments stay as they were. The
-- number is below 2^63, and the text has no percent sign.
pub match_one-number :
    (front : List ℕ) (n : ℕ) (a : Substring) (args : List Substring)
    → NoPercent front
    → n < 2 ^ 63
    → match_one (front ++ decimal n []) (some (front ++ b'%' ∷ b'd' ∷ [])) (a ∷ args)
      ≡ some (true, record { from = decimal n []; to = [] } ∷ args)
unfolding match_one
match_one-number front n a args h fits =
    let fuel : length (front ++ b'%' ∷ b'd' ∷ []) + 1 ≡ suc (suc (length front + 1)) =
      omega (arith, length-append front (b'%' ∷ b'd' ∷ [])) in
    ap (λ k. one_loop k (front ++ b'%' ∷ b'd' ∷ []) (front ++ decimal n []) 0 (a ∷ args)) fuel
    ∙ one_loop-decimal (length front + 1) front n a args h fits

pub match_int-decimal :
    (n : ℕ) (old : ℤ)
    → n < 2 ^ 63
    → match_int true (record { from = decimal n []; to = [] }) old ≡ (
        if ltb n (2 ^ 31)
        then record { err = pos 0; result = pos n }
        else record { err = neg 34; result = old })
unfolding match_int match_number
match_int-decimal n old fits =
    let whole : take (length (decimal n []) - 0) (decimal n []) ≡ decimal n [] =
      ap (λ (k : ℕ). take k (decimal n [])) (omega arith) ∙ take-length (decimal n []) in
    rw (whole, strtol-decimal_only n fits) (ground arith)
