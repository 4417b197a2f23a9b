-- ===== src/Fabrics/Builder.antt =====
-- fabrics.c: `add_argument`, `add_int_argument` and `add_bool_argument`, which write options to a
-- text in memory by `snprintf`.
use switchtec_nvme_cli.Base.{
  ℕ, zero, suc, ◌+◌, ◌-◌, ◌^◌, Bool, true, false, ◌&&◌, ◌||◌, not, ℤ, pos, negsuc, neg, is_zero,
  to_unsigned, List, [], ◌∷◌, ◌++◌, length, take, Option, none, some, leb, ◌==◌, if◌then◌else◌,
}
use switchtec_nvme_cli.Base.Memory.{Mem, store_bytes}
use switchtec_nvme_cli.Text.Decimal.{decimal}
use switchtec_nvme_cli.Text.Search.{codes}
use switchtec_nvme_cli.Parser.Match.{same_text}

-- `snprintf(at, n, "%s", text)` in memory.
unfoldable pub snprintf : (at n : ℕ) → List ℕ → Mem → Mem
snprintf at n text m = if n == 0 then m else store_bytes at (take (n - 1) text ++ 0 ∷ []) m

-- `%d`
unfoldable pub int_text : ℤ → List ℕ
int_text (pos n) = decimal n []
int_text (negsuc n) = b'-' ∷ decimal (suc n) []

-- What the `add` functions share: memory, `*argstr`, and `*max_len`.
pub record Builder : Type 0 where
  pub mem : Mem
  pub argstr : ℕ
  pub max_len : ℤ

-- `max_len - len`, which gets below 0.
unfoldable pub minus : ℤ → ℕ → ℤ
minus (pos m) n = if leb n m then pos (m - n) else neg (n - m)
minus (negsuc m) n = negsuc (m + n)

-- An `add` function returns 0, or -EINVAL with all as it was.
pub data Added : Type 0 where
  added : Builder → Added
  refused : Builder → Added

-- Formatting at `*argstr`: the length that is returned is that of the whole text, however much of it
-- fits, and the size is `*max_len` as a `size_t`. A text of more than INT_MAX characters is an error.
unfoldable pub format : List ℕ → Builder → Added
format text b =
    if leb (2 ^ 31) (length text)
    then Added.refused b
    else Added.added (record {
      mem = snprintf b.argstr (to_unsigned 64 b.max_len) text b.mem;
      argstr = b.argstr + length text;
      max_len = minus b.max_len (length text);
    })

-- An option that is there is formatted.
unfoldable pub format_piece : Option (List ℕ) → Builder → Added
format_piece none b = Added.added b
format_piece (some text) b = format text b

-- ",%s=%s" of an argument that is there and not "none".
unfoldable pub argument : (arg_str : List ℕ) → Option (List ℕ) → Option (List ℕ)
argument arg_str none = none
argument arg_str (some arg) =
    if same_text arg (codes "none") then none else some (b',' ∷ arg_str ++ b'=' ∷ arg)

abbrev is_minus_one : ℤ → Bool
is_minus_one (negsuc zero) = true
is_minus_one _ = false

-- The condition on a number.
unfoldable pub is_given : ℤ → (allow_zero : Bool) → Bool
is_given arg allow_zero =
    (not (is_zero arg) && not allow_zero) || (not (is_minus_one arg) && allow_zero)

unfoldable pub int_argument : (arg_str : List ℕ) → ℤ → (allow_zero : Bool) → Option (List ℕ)
int_argument arg_str arg allow_zero =
    if is_given arg allow_zero then some (b',' ∷ arg_str ++ b'=' ∷ int_text arg) else none

unfoldable pub bool_argument : (arg_str : List ℕ) → Bool → Option (List ℕ)
bool_argument arg_str arg = if arg then some (b',' ∷ arg_str) else none

unfoldable pub add_argument : (arg_str : List ℕ) → Option (List ℕ) → Builder → Added
add_argument arg_str arg = format_piece (argument arg_str arg)

unfoldable pub add_int_argument : (arg_str : List ℕ) → ℤ → (allow_zero : Bool) → Builder → Added
add_int_argument arg_str arg allow_zero = format_piece (int_argument arg_str arg allow_zero)

unfoldable pub add_bool_argument : (arg_str : List ℕ) → Bool → Builder → Added
add_bool_argument arg_str arg = format_piece (bool_argument arg_str arg)

-- Calls of `add` functions with `||` between them: the first that fails ends them.
unfoldable pub chain : List (Builder → Added) → Builder → Added
chain [] b = Added.added b
chain (add ∷ adds) b = elim (add b) [
  | Added.refused c ↦ Added.refused c
  | Added.added c ↦ chain adds c
]
