-- ===== src/Text/Search.antt =====
-- Searches in C strings: `strstr`, `strchr` and `strncmp` of the C library, and literals as bytes.
use Prim.Native.Char.{code}
use Prim.Native.String.{String}
use switchtec_nvme_cli.Base.{
  ℕ, Bool, true, false, List, [], ◌∷◌, Option, none, some, ◌==◌, if◌then◌else◌,
}
use switchtec_nvme_cli.Parser.Match.{strip_prefix}

-- A literal as a C string.
abbrev pub codes : String → List ℕ
codes String.[] = []
codes (String.◌∷◌ c s) = code c ∷ codes s

abbrev pub is_some {ℓ} : {A : Type ℓ} → Option A → Bool
is_some none = false
is_some (some a) = true

-- `!strncmp(s, front, strlen(front))`
unfoldable pub starts_with : List ℕ → List ℕ → Bool
starts_with front s = is_some (strip_prefix front s)

abbrev pub behind : ℕ → Option (List ℕ × List ℕ) → Option (List ℕ × List ℕ)
behind c none = none
behind c (some (before, s)) = some (c ∷ before, s)

-- `strstr`: what is in front of the first occurrence, and the text from it on.
unfoldable pub strstr : List ℕ → List ℕ → Option (List ℕ × List ℕ)
strstr [] field = if starts_with field [] then some ([], []) else none
strstr (c ∷ s) field =
    let later = strstr s field in
    if starts_with field (c ∷ s) then some ([], c ∷ s) else behind c later

-- `strchr`: the text from the first `d` on.
unfoldable pub strchr : List ℕ → ℕ → Option (List ℕ)
strchr [] d = none
strchr (c ∷ s) d = let later = strchr s d in if c == d then some (c ∷ s) else later

-- The text up to the first `d`.
unfoldable pub until : ℕ → List ℕ → List ℕ
until d [] = []
until d (c ∷ s) = let later = until d s in if c == d then [] else c ∷ later
