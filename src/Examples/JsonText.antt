-- ===== src/Examples/JsonText.antt =====
-- JSON values of a few kinds.
use switchtec_nvme_cli.Base.{ℕ, ◌≡◌, List, [], ◌∷◌, ◌++◌, some, none, if◌then◌else◌}
use switchtec_nvme_cli.Json.{JsonValue, create_value_string, print_value}
use switchtec_nvme_cli.Json.Strings.{no_control, read_string, create_value_string-read}

-- Floats that print as 0.
abbrev print_float : ℕ → List ℕ
print_float f = b'0' ∷ []

create_value_string-read_example :
    (v : JsonValue ℕ) × (create_value_string (some (b'a' ∷ b'"' ∷ [])) ≡ some v)
    × ((body : List ℕ) × (print_value print_float 1 v ++ b',' ∷ [] ≡ b'"' ∷ body)
        × (read_string body
            ≡ (if no_control (b'a' ∷ b'"' ∷ []) then some (b'a' ∷ b'"' ∷ [], b',' ∷ []) else none)))
create_value_string-read_example =
    create_value_string-read print_float b'a' (b'"' ∷ []) (b',' ∷ []) 1
