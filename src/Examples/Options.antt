-- ===== src/Examples/Options.antt =====
-- Option strings: the table of fabrics.c on a reply of the kernel, and copies to a buffer.
use switchtec_nvme_cli.Base.{
  ℕ, ◌+◌, ◌-◌, ◌^◌, ◌<◌, ◌≤◌, ◌⊎◌, length, ◌≡◌, refl, true, pos, neg, List, [], ◌∷◌, ◌++◌, some,
  take, arith, ltb, if◌then◌else◌,
}
use switchtec_nvme_cli.Base.Memory.{Mem, load_bytes}
use switchtec_nvme_cli.Text.Decimal.{decimal}
use switchtec_nvme_cli.Parser.Match.{Substring, match_token, match_one, match_strlcpy}
use switchtec_nvme_cli.Parser.Match.Total.{match_token-total}
use switchtec_nvme_cli.Parser.Match.Copy.{copied, match_strlcpy_lem}
use switchtec_nvme_cli.Parser.Match.Numbers.{match_one-number}
use switchtec_nvme_cli.Fabrics.{opt_tokens, instance_eq, cntlid_eq, instance_of}
use switchtec_nvme_cli.Fabrics.Reply.{instance_of-instance}

abbrev nothing : Substring
nothing = record { from = []; to = [] }

abbrev no_args : List Substring
no_args = nothing ∷ nothing ∷ nothing ∷ []

match_token-total_example :
    (r : ℕ × List Substring) × (match_token (cntlid_eq (b'7' ∷ [])) opt_tokens no_args ≡ some r)
match_token-total_example = match_token-total (cntlid_eq (b'7' ∷ [])) opt_tokens no_args tt

match_one-number_example :
    match_one (cntlid_eq [] ++ decimal 12 []) (some (cntlid_eq [] ++ b'%' ∷ b'd' ∷ [])) no_args
    ≡ some (true, record { from = decimal 12 []; to = [] } ∷ nothing ∷ nothing ∷ [])
match_one-number_example =
    match_one-number (cntlid_eq []) 12 nothing (nothing ∷ nothing ∷ [])
      (refl, (refl, (refl, (refl, (refl, (refl, (refl, tt))))))) (omega arith)

instance_of-instance_example :
    instance_of true (instance_eq (decimal 3 []) ++ b',' ∷ cntlid_eq (b'1' ∷ 10 ∷ [])) no_args
    ≡ some (if ltb 3 (2 ^ 31) then pos 3 else neg 22)
instance_of-instance_example =
    instance_of-instance 3 (cntlid_eq (b'1' ∷ 10 ∷ [])) nothing (nothing ∷ nothing ∷ [])
      (omega arith)

-- The text "nvme0" to a buffer of three bytes.
abbrev nvme0 : Substring
nvme0 = record { from = b'n' ∷ b'v' ∷ b'm' ∷ b'e' ∷ b'0' ∷ []; to = [] }

abbrev zeros : Mem
zeros i = 0

match_strlcpy_lem_example :
    ((match_strlcpy 16 nvme0 3 zeros).0 ≡ length nvme0.from - length nvme0.to)
    × ((i : ℕ) → (i < 16) ⊎ (16 + 3 ≤ i) → (match_strlcpy 16 nvme0 3 zeros).1 i ≡ zeros i)
    × (load_bytes (copied nvme0 3 + 1) 16 (match_strlcpy 16 nvme0 3 zeros).1
        ≡ take (copied nvme0 3) nvme0.from ++ 0 ∷ [])
match_strlcpy_lem_example = match_strlcpy_lem 16 nvme0 3 zeros (λ e. omega arith)
