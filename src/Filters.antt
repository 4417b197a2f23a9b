-- ===== src/Filters.antt =====
-- nvme-filters.c: which entries of a directory are namespaces, controllers, paths, subsystems or block
-- devices. An entry is its name; `current_index` is an argument.
pub mod Names
use switchtec_nvme_cli.Base.{
  ℕ, Bool, true, false, not, ◌&&◌, ◌||◌, ℤ, pos, negsuc, List, [], ◌∷◌, length, Option, none, some,
  ◌==◌, if◌then◌else◌,
}
use switchtec_nvme_cli.Text.Search.{codes, strstr, is_some}
use switchtec_nvme_cli.Text.Sscanf.{Piece, sscanf}

abbrev nvme : Piece
nvme = Piece.plain (codes "nvme")

abbrev c : Piece
c = Piece.plain (codes "c")

abbrev n : Piece
n = Piece.plain (codes "n")

abbrev p : Piece
p = Piece.plain (codes "p")

-- "nvme%dn%d", "nvme%dc%dn%d", "nvme%dn", "nvme-subsys%d" and "nvme%dn%dp%d".
abbrev pub ns_name : List Piece
ns_name = nvme ∷ Piece.int ∷ n ∷ Piece.int ∷ []

abbrev pub path_name : List Piece
path_name = nvme ∷ Piece.int ∷ c ∷ Piece.int ∷ n ∷ Piece.int ∷ []

abbrev pub ctrl_name : List Piece
ctrl_name = nvme ∷ Piece.int ∷ n ∷ []

abbrev pub subsys_name : List Piece
subsys_name = Piece.plain (codes "nvme-subsys") ∷ Piece.int ∷ []

abbrev pub partition_name : List Piece
partition_name = nvme ∷ Piece.int ∷ n ∷ Piece.int ∷ p ∷ Piece.int ∷ []

-- `sscanf(d->d_name, ...) == count`
abbrev pub scans : List Piece → (count : ℕ) → List ℕ → Bool
scans pattern count d_name = length (sscanf pattern d_name) == count

abbrev pub is_hidden : List ℕ → Bool
is_hidden [] = false
is_hidden (x ∷ s) = x == b'.'

-- A name that is not hidden and has `text` in it.
abbrev pub has : (text : List ℕ) → List ℕ → Bool
has text d_name = not (is_hidden d_name) && is_some (strstr d_name text)

unfoldable pub scan_namespace_filter : List ℕ → Bool
scan_namespace_filter d_name = has (codes "nvme") d_name && scans ns_name 2 d_name

unfoldable pub scan_ctrl_paths_filter : List ℕ → Bool
scan_ctrl_paths_filter d_name =
    has (codes "nvme") d_name && (scans path_name 3 d_name || scans ns_name 2 d_name)

unfoldable pub scan_ctrls_filter : List ℕ → Bool
scan_ctrls_filter d_name =
    has (codes "nvme") d_name && (not (scans ns_name 2 d_name) && scans ctrl_name 1 d_name)

unfoldable pub scan_subsys_filter : List ℕ → Bool
scan_subsys_filter d_name = has (codes "nvme-subsys") d_name && scans subsys_name 1 d_name

-- `ctrl == current_index`, for the first number of the name.
abbrev same_int : ℤ → ℤ → Bool
same_int (pos a) (pos b) = a == b
same_int (negsuc a) (negsuc b) = a == b
same_int _ _ = false

abbrev pub first_is : ℤ → List ℤ → Bool
first_is current_index [] = false
first_is current_index (ctrl ∷ rest) = same_int ctrl current_index

unfoldable pub scan_dev_filter : (current_index : ℤ) → List ℕ → Bool
scan_dev_filter current_index d_name =
    has (codes "nvme") d_name
    && (not (scans partition_name 3 d_name)
        && (scans ns_name 2 d_name && first_is current_index (sscanf ns_name d_name)))
