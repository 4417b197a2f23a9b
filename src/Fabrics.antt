-- ===== src/Fabrics.antt =====
-- fabrics.c: the loop of `add_ctrl` that reads the instance number from the kernel's reply, which is
-- in memory as a text. `add_ctrl` as a whole is in Fabrics/Ctrl.
pub mod Reply
pub mod Args
pub mod Names
pub mod Entry
pub mod Discovery
pub mod Ctrl
pub mod Discover
pub mod Commands
pub mod Config
pub mod Builder
pub mod Options
use switchtec_nvme_cli.Base.{
  ℕ, Bool, true, false, ◌||◌, ℤ, pos, neg, is_zero, List, [], ◌∷◌, Option, none, some, ◌==◌,
  if◌then◌else◌,
}
use switchtec_nvme_cli.Parser.Wildcard.{is_empty}
use switchtec_nvme_cli.Parser.Match.{Substring, match_token, match_int, Number}

-- The tokens of the table, and their patterns "instance=%d" and "cntlid=%d".
abbrev pub opt_instance : ℕ
opt_instance = 0

abbrev pub opt_cntlid : ℕ
opt_cntlid = 1

abbrev pub opt_err : ℕ
opt_err = 2

abbrev pub instance_eq : List ℕ → List ℕ
instance_eq tail = b'i' ∷ b'n' ∷ b's' ∷ b't' ∷ b'a' ∷ b'n' ∷ b'c' ∷ b'e' ∷ b'=' ∷ tail

abbrev pub cntlid_eq : List ℕ → List ℕ
cntlid_eq tail = b'c' ∷ b'n' ∷ b't' ∷ b'l' ∷ b'i' ∷ b'd' ∷ b'=' ∷ tail

abbrev pub opt_tokens : List (ℕ × Option (List ℕ))
opt_tokens =
    (opt_instance, some (instance_eq (b'%' ∷ b'd' ∷ [])))
    ∷ (opt_cntlid, some (cntlid_eq (b'%' ∷ b'd' ∷ [])))
    ∷ (opt_err, none)
    ∷ []

-- The delimiters ",\n" of `strsep`.
abbrev pub is_delimiter : ℕ → Bool
is_delimiter c = c == b',' || c == 10

abbrev pub extend_first : ℕ → List (List ℕ) → List (List ℕ)
extend_first c [] = (c ∷ []) ∷ []
extend_first c (t ∷ ts) = (c ∷ t) ∷ ts

-- What the calls of `strsep` give, one after the other.
unfoldable pub strsep_all : List ℕ → List (List ℕ)
strsep_all [] = [] ∷ []
strsep_all (c ∷ s) =
    let rest = strsep_all s in if is_delimiter c then [] ∷ rest else extend_first c rest

-- `match_int(args, &token)` on the first element of the array.
abbrev pub first_arg : List Substring → Substring
first_arg [] = record { from = []; to = [] }
first_arg (a ∷ args) = a

-- The loop over the tokens: the instance, or -EINVAL (EINVAL is 22). `none` stands for a table of
-- patterns without an end, which this one is not. `malloc` succeeds or not.
unfoldable pub reply_loop : (allocated : Bool) → List (List ℕ) → List Substring → Option ℤ
reply_loop allocated [] args = some (neg 22)
reply_loop allocated (p ∷ tokens) args =
    let skipped = reply_loop allocated tokens args in
    if is_empty p then skipped else elim (match_token p opt_tokens args) [
      | none ↦ none
      | some (token, out) ↦
          let number = match_int allocated (first_arg out) (pos token) in
          let next = reply_loop allocated tokens out in
          if token == opt_instance
          then (if is_zero number.err then some number.result else some (neg 22))
          else next
    ]

unfoldable pub instance_of : (allocated : Bool) → List ℕ → List Substring → Option ℤ
instance_of allocated reply args = reply_loop allocated (strsep_all reply) args
