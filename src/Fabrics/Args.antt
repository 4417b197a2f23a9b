-- ===== src/Fabrics/Args.antt =====
-- fabrics.c: `parse_conn_arg`, which finds the value of a field in a text of connect arguments.
-- Pointers into the text are the text from there on. The loop runs on fuel, with `none` for fuel
-- that ran out: one round for every character, and one more, since each round but the last drops a
-- delimiter.
pub mod Occurrences
pub mod Laws
use switchtec_nvme_cli.Base.{
  ℕ, zero, suc, ◌+◌, Bool, true, false, List, [], ◌∷◌, length, drop, Option, none, some, ◌==◌,
  if◌then◌else◌,
}
use switchtec_nvme_cli.Text.Search.{codes, strstr, strchr, until}

abbrev pub conarg_nqn : List ℕ
conarg_nqn = codes "nqn"

abbrev pub conarg_transport : List ℕ
conarg_transport = codes "transport"

abbrev pub conarg_traddr : List ℕ
conarg_traddr = codes "traddr"

abbrev pub conarg_trsvcid : List ℕ
conarg_trsvcid = codes "trsvcid"

abbrev pub conarg_host_traddr : List ℕ
conarg_host_traddr = codes "host_traddr"

-- `s == conargs || *(s - 1) == delim`, for what is in front of `s`.
unfoldable pub at_boundary : ℕ → List ℕ → Bool
at_boundary delim [] = true
at_boundary delim (c ∷ []) = c == delim
at_boundary delim (c ∷ d ∷ s) = at_boundary delim (d ∷ s)

-- What is behind the assignment character, if `*s` is one.
abbrev pub assigned : List ℕ → Option (List ℕ)
assigned [] = none
assigned (c ∷ s) = if c == b'=' then some s else none

-- A round of the loop: the value of the field, no such field, or the text to go on with.
pub data Round : Type 0 where
  value : List ℕ → Round
  missing : Round
  continue : List ℕ → Round

-- "field overlap: seek to delimiter and keep looking"
unfoldable pub seek : List ℕ → (delim : ℕ) → Round
seek s delim = elim (strchr s delim) [ none ↦ Round.missing | some u ↦ Round.continue (drop 1 u) ]

-- "match requires next character to be assignment"
unfoldable pub value_or_seek : List ℕ → (delim : ℕ) → Round
value_or_seek s delim = elim (assigned s) [
  | some v ↦ Round.value (until delim v)
  | none ↦ seek s delim
]

unfoldable pub match_at : (at_field : Bool) → List ℕ → (delim : ℕ) → (field : List ℕ) → Round
match_at true s delim field = value_or_seek (drop (length field) s) delim
match_at false s delim field = seek s delim

unfoldable pub round : List ℕ → (delim : ℕ) → (field : List ℕ) → Round
round conargs delim field = elim (strstr conargs field) [
  | none ↦ Round.missing
  | some (before, s) ↦ match_at (at_boundary delim before) s delim field
]

unfoldable pub arg_loop : ℕ → List ℕ → (delim : ℕ) → (field : List ℕ) → Option (List ℕ)
arg_loop zero conargs delim field = none
arg_loop (suc fuel) conargs delim field = elim (round conargs delim field) [
  | Round.value v ↦ some v
  | Round.missing ↦ some []
  | Round.continue t ↦ arg_loop fuel t delim field
]

unfoldable pub parse_conn_arg : List ℕ → (delim : ℕ) → (field : List ℕ) → Option (List ℕ)
parse_conn_arg conargs delim field = arg_loop (length conargs + 1) conargs delim field
