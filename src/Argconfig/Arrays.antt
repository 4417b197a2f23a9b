-- ===== src/Argconfig/Arrays.antt =====
-- Numbers written with commas between them.
use mathlib.Core.List.{append-nil, append_assoc}
use switchtec_nvme_cli.Base.{
  ℕ, suc, ◌+◌, ◌^◌, ◌<◌, ◌≤◌, ◌≡◌, refl, ◌∙◌, sym, ap, Bool, true, false, not, ℤ, pos, List, [],
  ◌∷◌, ◌++◌, some, map, length, length-append, leb, arith, ◌==◌,
}
use switchtec_nvme_cli.Text.Decimal.{
  decimal, length-decimal, strtol-decimal_only, Every, decimal-Every,
}
use switchtec_nvme_cli.Argconfig.{
  split_commas, without_empty, strtok_all, to_int, array_loop, first_token, parse_comma_sep_array,
}

-- The numbers with commas between them.
abbrev pub join : (first : ℕ) → List ℕ → List ℕ
join first [] = decimal first []
join first (n ∷ ns) = decimal first [] ++ b',' ∷ join n ns

abbrev pub AllInts : List ℕ → Type 0
AllInts [] = Unit {0}
AllInts (n ∷ ns) = (n < 2 ^ 31) × AllInts ns

NoComma : List ℕ → Type 0
NoComma = Every (λ c. not (c == b','))

not-true : (b : Bool) → not b ≡ true → b ≡ false
not-true true p = sym p
not-true false p = refl

split_commas-last : (w : List ℕ) → NoComma w → split_commas w ≡ w ∷ []
unfolding split_commas NoComma
split_commas-last [] h = refl
split_commas-last (c ∷ w) h =
    let other : (c == b',') ≡ false = not-true (c == b',') h.0 in
    rw (other, split_commas-last w h.1) refl

split_commas-comma :
    (w rest : List ℕ) → NoComma w → split_commas (w ++ b',' ∷ rest) ≡ w ∷ split_commas rest
unfolding split_commas NoComma
split_commas-comma [] rest h = refl
split_commas-comma (c ∷ w) rest h =
    let other : (c == b',') ≡ false = not-true (c == b',') h.0 in
    rw (other, split_commas-comma w rest h.1) refl

decimal-NoComma : (n : ℕ) → NoComma (decimal n [])
unfolding NoComma
decimal-NoComma n = decimal-Every (λ c. not (c == b',')) n (λ d h. ground arith)

abbrev decimals : List ℕ → List (List ℕ)
decimals = map (λ n. decimal n [])

keeps :
    (w : List ℕ) (ts : List (List ℕ)) → 0 < length w → without_empty (w ∷ ts) ≡ w ∷ without_empty ts
keeps [] ts h = absurd (omega arith)
keeps (c ∷ w) ts h = refl

strtok_all-join : (n : ℕ) (ns : List ℕ) → strtok_all (join n ns) ≡ decimals (n ∷ ns)
unfolding strtok_all
strtok_all-join n [] =
    ap without_empty (split_commas-last (decimal n []) (decimal-NoComma n))
    ∙ keeps (decimal n []) [] (length-decimal n)
strtok_all-join n (m ∷ ns) =
    ap without_empty (split_commas-comma (decimal n []) (join m ns) (decimal-NoComma n))
    ∙ keeps (decimal n []) (split_commas (join m ns)) (length-decimal n)
    ∙ ap (λ ts. decimal n [] ∷ ts) (strtok_all-join m ns)

to_int-pos : (n : ℕ) → n < 2 ^ 31 → to_int (pos n) ≡ pos n
to_int-pos n h = ground arith

array_loop-decimals :
    (max_length : ℕ) (ns : List ℕ) (ret : ℕ) (val : List ℤ)
    → AllInts ns
    → ret + length ns ≤ max_length
    → array_loop max_length (decimals ns) ret val ≡ (ret + length ns, val ++ map pos ns)
unfolding array_loop
array_loop-decimals max_length [] ret val h fits =
    let same : ret ≡ ret + 0 = omega arith in
    ap (λ (k : ℕ). (k, val)) same ∙ ap (λ v. (ret + 0, v)) (sym (append-nil val))
array_loop-decimals max_length (n ∷ ns) ret val h fits =
    let room : leb max_length ret ≡ false = ground arith in
    rw (strtol-decimal_only n (let k = h.0 in omega arith), room, to_int-pos n h.0)
      (array_loop-decimals max_length ns (ret + 1) (val ++ pos n ∷ []) h.1 (omega arith)
        ∙ ap (λ (k : ℕ). (k, (val ++ pos n ∷ []) ++ map pos ns))
            (let same : ret + 1 + length ns ≡ ret + suc (length ns) = omega arith in same)
        ∙ ap (λ v. (ret + suc (length ns), v)) (append_assoc val (pos n ∷ []) (map pos ns)))

length-join : (first : ℕ) (ns : List ℕ) → 0 < length (join first ns)
length-join first [] = length-decimal first
length-join first (n ∷ ns) =
    omega (arith, length-append (decimal first []) (b',' ∷ join n ns), length-decimal first)

not_empty :
    (s : List ℕ) (max_length : ℕ)
    → 0 < length s
    → parse_comma_sep_array (some s) max_length ≡ first_token max_length (strtok_all s)
unfolding parse_comma_sep_array
not_empty [] max_length h = absurd (omega arith)
not_empty (c ∷ s) max_length h = refl

first_token-decimals :
    (max_length n : ℕ) (ns : List ℕ)
    → AllInts (n ∷ ns)
    → length (n ∷ ns) ≤ max_length
    → first_token max_length (decimals (n ∷ ns)) ≡ (length (n ∷ ns), map pos (n ∷ ns))
unfolding first_token
first_token-decimals max_length n ns h fits =
    rw (strtol-decimal_only n (let k = h.0 in omega arith), to_int-pos n h.0)
      (array_loop-decimals max_length ns 1 (pos n ∷ []) h.1 (omega arith)
        ∙ ap (λ (k : ℕ). (k, pos n ∷ map pos ns))
            (let same : 1 + length ns ≡ suc (length ns) = omega arith in same))

-- Numbers written in decimal with commas between them are read back in order, and counted, when they
-- are ints and there are at most `max_length` of them.
pub parse_comma_sep_array-join :
    (first : ℕ) (ns : List ℕ) (max_length : ℕ)
    → AllInts (first ∷ ns)
    → length (first ∷ ns) ≤ max_length
    → parse_comma_sep_array (some (join first ns)) max_length
      ≡ (length (first ∷ ns), map pos (first ∷ ns))
parse_comma_sep_array-join first ns max_length h fits =
    not_empty (join first ns) max_length (length-join first ns)
    ∙ ap (first_token max_length) (strtok_all-join first ns)
    ∙ first_token-decimals max_length first ns h fits
