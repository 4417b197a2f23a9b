-- ===== src/Json/Strings.antt =====
-- What a reader of JSON makes of the escaped strings.
use switchtec_nvme_cli.Base.{
  ℕ, ◌≡◌, refl, ap, ◌∙◌, Bool, true, false, not, ◌&&◌, ◌||◌, ltb, List, [], ◌∷◌, ◌++◌, Option, none,
  some, arith, ◌==◌, if◌then◌else◌, Bool-cases, inl, inr,
}
use switchtec_nvme_cli.Json.{
  JsonValue, string, is_escaped, escape, strdup_escape, create_value_string, print_value,
}

abbrev pub prepend : ℕ → Option (List ℕ × List ℕ) → Option (List ℕ × List ℕ)
prepend c none = none
prepend c (some (s, rest)) = some (c ∷ s, rest)

-- What stands behind a backslash, by RFC 8259; \u, which is never printed, is not read.
abbrev pub escapes : ℕ → Option ℕ
escapes d =
    if d == b'"' || (d == b'\\' || d == b'/')
    then some d
    else if d == b'b'
    then some 8
    else if d == b'f'
    then some 12
    else if d == b'n'
    then some 10
    else if d == b'r'
    then some 13
    else if d == b't'
    then some 9
    else none

abbrev pub prepend_if : Option ℕ → Option (List ℕ × List ℕ) → Option (List ℕ × List ℕ)
prepend_if none o = none
prepend_if (some c) o = prepend c o

-- The characters below 32, which a literal must not have.
abbrev pub is_control : ℕ → Bool
is_control c = ltb c 0x20

abbrev pub no_control : List ℕ → Bool
no_control [] = true
no_control (c ∷ s) = not (is_control c) && no_control s

-- A reader of RFC 8259: the text of a string literal behind its opening quote, and what follows the
-- closing quote. `none` is for a literal that does not end, has a control character in it, or has something behind a
-- backslash that is no escape.
unfoldable pub read_string : List ℕ → Option (List ℕ × List ℕ)
read_string [] = none
read_string (c ∷ []) = if c == b'"' then some ([], []) else none
read_string (c ∷ d ∷ s) =
    let escaped = read_string s in
    let plain = read_string (d ∷ s) in
    if c == b'"'
    then some ([], d ∷ s)
    else if c == b'\\'
    then prepend_if (escapes d) escaped
    else if is_control c
    then none
    else prepend c plain

read_string-plain :
    (c : ℕ) (s : List ℕ)
    → is_escaped c ≡ false
    → is_control c ≡ false
    → read_string (c ∷ s) ≡ prepend c (read_string s)
unfolding read_string
read_string-plain c [] h low = ground arith
read_string-plain c (d ∷ s) h low = ground arith

read_string-control : (c : ℕ) (s : List ℕ) → is_control c ≡ true → read_string (c ∷ s) ≡ none
unfolding read_string
read_string-control c [] low = ground arith
read_string-control c (d ∷ s) low = ground arith

escapes-is_escaped : (c : ℕ) → is_escaped c ≡ true → escapes c ≡ some c
escapes-is_escaped c h = ground arith

read_string-escaped :
    (c : ℕ) (s : List ℕ)
    → is_escaped c ≡ true
    → read_string (b'\\' ∷ c ∷ s) ≡ prepend c (read_string s)
unfolding read_string
read_string-escaped c s h = ap (λ o. prepend_if o (read_string s)) (escapes-is_escaped c h)

read_string-end : (rest : List ℕ) → read_string (b'"' ∷ rest) ≡ some ([], rest)
unfolding read_string
read_string-end [] = refl
read_string-end (d ∷ rest) = refl

prepend-if :
    (c : ℕ) (b : Bool) (str rest : List ℕ)
    → prepend c (if b then some (str, rest) else none) ≡ (if b then some (c ∷ str, rest) else none)
prepend-if c true str rest = refl
prepend-if c false str rest = refl

-- A character that is escaped is no control character.
is_control-is_escaped : (c : ℕ) → is_escaped c ≡ true → is_control c ≡ false
is_control-is_escaped c h = ground arith

read_string-escape :
    (str rest : List ℕ)
    → read_string (escape str ++ b'"' ∷ rest) ≡ (if no_control str then some (str, rest) else none)
unfolding escape
read_string-escape [] rest = read_string-end rest
read_string-escape (c ∷ str) rest = elim (Bool-cases (is_escaped c)) [
  | inl quoted ↦
      rw (quoted, is_control-is_escaped c quoted)
        (read_string-escaped c (escape str ++ b'"' ∷ rest) quoted
          ∙ ap (prepend c) (read_string-escape str rest)
          ∙ prepend-if c (no_control str) str rest)
  | inr plain ↦ elim (Bool-cases (is_control c)) [
    | inl low ↦ rw (plain, low) (read_string-control c (escape str ++ b'"' ∷ rest) low)
    | inr high ↦
        rw (plain, high)
          (read_string-plain c (escape str ++ b'"' ∷ rest) plain high
            ∙ ap (prepend c) (read_string-escape str rest)
            ∙ prepend-if c (no_control str) str rest)
  ]
]

-- A string value that is not empty prints as a literal that a reader of RFC 8259 takes back to the same string,
-- with the quotes, backslashes and slashes in it, and that ends where the value ends, if no character of the string
-- is below 32; otherwise the reader refuses it, since such characters are printed as they are.
pub create_value_string-read :
    {F : Type 0} (print_float : F → List ℕ) (c : ℕ) (str rest : List ℕ) (level : ℕ)
    → (v : JsonValue F) × (create_value_string (some (c ∷ str)) ≡ some v)
      × ((body : List ℕ) × (print_value print_float level v ++ rest ≡ b'"' ∷ body)
          × (read_string body ≡ (if no_control (c ∷ str) then some (c ∷ str, rest) else none)))
unfolding create_value_string strdup_escape print_value
create_value_string-read print_float c str rest level = (
  string (escape (c ∷ str)),
  refl,
  (
    escape (c ∷ str) ++ b'"' ∷ rest,
    ap (λ t. b'"' ∷ t) (append-quote (escape (c ∷ str)) rest),
    read_string-escape (c ∷ str) rest,
  ),
)
  where
    append-quote : (s t : List ℕ) → (s ++ b'"' ∷ []) ++ t ≡ s ++ b'"' ∷ t
    append-quote [] t = refl
    append-quote (d ∷ s) t = rw (append-quote s t) refl
