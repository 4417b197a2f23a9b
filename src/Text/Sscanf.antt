-- ===== src/Text/Sscanf.antt =====
-- `sscanf` with patterns of plain text and "%d", as far as the number of conversions and their values.
use switchtec_nvme_cli.Base.{
  ℕ, ℤ, to_signed, to_unsigned, List, [], ◌∷◌, Option, none, some, if◌then◌else◌,
}
use switchtec_nvme_cli.Text.{strtol}
use switchtec_nvme_cli.Parser.Match.{strip_prefix}

-- A pattern: text that stands there as it is, or a number.
pub data Piece : Type 0 where
  plain : List ℕ → Piece
  int : Piece

-- A number in decimal is read as by `strtol`, and stored as an `int`.
unfoldable pub scan_int : List ℕ → Option (ℤ × List ℕ)
scan_int s =
    let n = strtol 10 s in
    if n.found then some (to_signed 32 (to_unsigned 32 n.value), n.rest) else none

-- The numbers that are converted, up to the first thing that does not fit.
unfoldable pub sscanf : List Piece → List ℕ → List ℤ
sscanf [] s = []
sscanf (Piece.plain text ∷ pieces) s = elim (strip_prefix text s) [
  | none ↦ []
  | some t ↦ sscanf pieces t
]
sscanf (Piece.int ∷ pieces) s = elim (scan_int s) [ none ↦ [] | some (n, t) ↦ n ∷ sscanf pieces t ]
