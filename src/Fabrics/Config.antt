-- ===== src/Fabrics/Config.antt =====
-- fabrics.c: the options of the commands (`cfg`), the connect arguments, and the host's identifiers
-- from the files under /etc/nvme. The text of a file is a parameter, `none` where it cannot be opened.
use switchtec_nvme_cli.Base.{
  ℕ, zero, suc, Bool, ℤ, List, [], ◌∷◌, Option, none, some, ◌==◌, if◌then◌else◌,
}
use switchtec_nvme_cli.Text.Search.{until}

-- `cfg`. A pointer to a string is `none` for NULL.
pub record Config : Type 0 where
  pub nqn : Option (List ℕ)
  pub transport : Option (List ℕ)
  pub traddr : Option (List ℕ)
  pub trsvcid : Option (List ℕ)
  pub host_traddr : Option (List ℕ)
  pub hostnqn : Option (List ℕ)
  pub hostid : Option (List ℕ)
  pub nr_io_queues : ℤ
  pub nr_write_queues : ℤ
  pub nr_poll_queues : ℤ
  pub queue_size : ℤ
  pub keep_alive_tmo : ℤ
  pub reconnect_delay : ℤ
  pub ctrl_loss_tmo : ℤ
  pub tos : ℤ
  pub raw : Option (List ℕ)
  pub device : Option (List ℕ)
  pub duplicate_connect : Bool
  pub disable_sqflow : Bool
  pub hdr_digest : Bool
  pub data_digest : Bool
  pub persistent : Bool
  pub quiet : Bool

-- `struct connect_args`
pub record ConnectArgs : Type 0 where
  pub subsysnqn : List ℕ
  pub transport : List ℕ
  pub traddr : List ℕ
  pub trsvcid : List ℕ
  pub host_traddr : List ℕ

-- /etc/nvme/hostnqn, /etc/nvme/hostid, and what systemd generates.
pub record HostFiles : Type 0 where
  pub hostnqn : Option (List ℕ)
  pub hostid : Option (List ℕ)
  pub generated : Option (List ℕ)

-- `fgets` with room for `n` characters: to the end of the line, which is included.
unfoldable pub line_of : ℕ → List ℕ → List ℕ
line_of zero s = []
line_of (suc n) [] = []
line_of (suc n) (c ∷ s) = let rest = line_of n s in if c == 10 then c ∷ [] else c ∷ rest

-- `none` at the end of the file.
abbrev pub fgets : (size : ℕ) → List ℕ → Option (List ℕ)
fgets zero s = none
fgets (suc n) [] = none
fgets (suc n) (c ∷ s) = some (line_of n (c ∷ s))

-- The room for a name, with the 0 at its end, is `NVMF_NQN_SIZE`.
abbrev pub nqn_size : ℕ
nqn_size = 223

abbrev pub hostid_size : ℕ
hostid_size = 36

abbrev pub not_empty : List ℕ → Option (List ℕ)
not_empty [] = none
not_empty (c ∷ s) = some (c ∷ s)

unfoldable pub hostnqn_read_file : Option (List ℕ) → Option (List ℕ)
hostnqn_read_file none = none
hostnqn_read_file (some file) = elim (fgets nqn_size file) [
  | none ↦ none
  | some line ↦ elim (not_empty (until 0 line)) [ none ↦ none | some text ↦ some (until 10 text) ]
]

abbrev pub or_else : Option (List ℕ) → Option (List ℕ) → Option (List ℕ)
or_else none other = other
or_else (some a) other = some a

unfoldable pub hostnqn_read : HostFiles → Option (List ℕ)
hostnqn_read files = or_else (hostnqn_read_file files.hostnqn) files.generated

-- `nvmf_hostid_file`; there is memory for the copy.
unfoldable pub hostid_read : HostFiles → Option (List ℕ)
hostid_read files = elim files.hostid [
  | none ↦ none
  | some file ↦ elim (fgets (suc hostid_size) file) [
    | none ↦ none
    | some line ↦ some (until 0 line)
  ]
]
