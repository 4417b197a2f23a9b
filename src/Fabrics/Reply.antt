-- ===== src/Fabrics/Reply.antt =====
-- Replies that begin with the instance number.
use switchtec_nvme_cli.Base.{
  ℕ, ◌^◌, ◌<◌, ◌≡◌, refl, sym, Bool, true, false, not, pos, neg, List, [], ◌∷◌, ◌++◌, some, arith,
  ltb, if◌then◌else◌,
}
use switchtec_nvme_cli.Text.Decimal.{decimal, Every, decimal-Every}
use switchtec_nvme_cli.Parser.Match.{Substring, match_token}
use switchtec_nvme_cli.Parser.Match.Numbers.{NoPercent, match_one-number, match_int-decimal}
use switchtec_nvme_cli.Fabrics.{
  opt_instance, opt_tokens, instance_eq, is_delimiter, strsep_all, reply_loop, instance_of,
}

-- "instance=%d" takes all digits of a number.
match_token-instance :
    (n : ℕ) (a : Substring) (args : List Substring)
    → n < 2 ^ 63
    → match_token (instance_eq (decimal n [])) opt_tokens (a ∷ args)
      ≡ some (opt_instance, record { from = decimal n []; to = [] } ∷ args)
unfolding match_token
match_token-instance n a args fits =
    rw (match_token, match_one-number (instance_eq []) n a args no_percent fits) refl
  where
    no_percent : NoPercent (instance_eq [])
    no_percent = (refl, (refl, (refl, (refl, (refl, (refl, (refl, (refl, (refl, tt)))))))))

-- A token and what is behind its delimiter.
strsep_all-token :
    (w : List ℕ) (d : ℕ) (rest : List ℕ)
    → Every (λ c. not (is_delimiter c)) w
    → is_delimiter d ≡ true
    → strsep_all (w ++ d ∷ rest) ≡ w ∷ strsep_all rest
unfolding strsep_all
strsep_all-token [] d rest h e = rw e refl
strsep_all-token (c ∷ w) d rest h e =
    let plain : is_delimiter c ≡ false = not-true _ (h.0) in
    rw (plain, strsep_all-token w d rest h.1 e) refl
  where
    not-true : (b : Bool) → not b ≡ true → b ≡ false
    not-true true p = sym p
    not-true false p = refl

decimal-plain : (n : ℕ) → Every (λ c. not (is_delimiter c)) (decimal n [])
decimal-plain n = decimal-Every (λ c. not (is_delimiter c)) n (λ d h. ground arith)

-- For a reply that starts with "instance=", a number in decimal and a comma, `add_ctrl` returns
-- the number, whatever follows, when it is an `int`; a larger one, below 2^63, ends in -EINVAL.
-- The memory that `match_int` copies the digits to is there.
pub instance_of-instance :
    (n : ℕ) (rest : List ℕ) (a : Substring) (args : List Substring)
    → n < 2 ^ 63
    → instance_of true (instance_eq (decimal n []) ++ b',' ∷ rest) (a ∷ args)
      ≡ some (if ltb n (2 ^ 31) then pos n else neg 22)
unfolding instance_of reply_loop
instance_of-instance n rest a args fits =
    let plain = decimal-plain n in
    rw
      (
        strsep_all-token (instance_eq (decimal n [])) b',' rest
            (refl, (refl, (refl, (refl, (refl, (refl, (refl, (refl, (refl, plain))))))))) refl,
        match_token-instance n a args fits,
        match_int-decimal n (pos opt_instance) fits,
      )
      (ground arith)
