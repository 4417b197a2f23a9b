-- ===== src/Fabrics/Ctrl.antt =====
-- fabrics.c: controllers by their names and attributes, adding one and removing one. The system calls
-- are a record: the text of a file under /sys, the names in a directory, and reading and writing.
pub mod Instance
use switchtec_nvme_cli.Base.{
  ℕ, zero, suc, Bool, true, false, not, ◌&&◌, ◌||◌, ℤ, pos, negsuc, neg, negate, is_zero,
  is_negative, to_signed, to_unsigned, List, [], ◌∷◌, ◌++◌, length, take, map, Option, none, some,
  ◌==◌, if◌then◌else◌,
}
use switchtec_nvme_cli.Device.{World, DeviceOps}
use switchtec_nvme_cli.Text.Search.{codes, until}
use switchtec_nvme_cli.Text.Sscanf.{Piece, sscanf}
use switchtec_nvme_cli.Parser.Wildcard.{is_empty}
use switchtec_nvme_cli.Parser.Match.{Substring, same_text}
use switchtec_nvme_cli.Filters.{scan_ctrls_filter}
use switchtec_nvme_cli.Fabrics.{instance_of}
use switchtec_nvme_cli.Fabrics.Args.{
  parse_conn_arg, conarg_traddr, conarg_trsvcid, conarg_host_traddr,
}
use switchtec_nvme_cli.Fabrics.Config.{ConnectArgs}
use switchtec_nvme_cli.Fabrics.Builder.{int_text}
use switchtec_nvme_cli.Fabrics.Discovery.{Calls}

pub record System (D : Type 0) : Type 0 where
  pub calls : Calls D
  pub ops : DeviceOps D
  -- what a file has; `none` where it cannot be opened or read
  pub file : (path : List ℕ) → World D → Option (List ℕ)
  -- `none` where the directory cannot be read
  pub scandir : (path : List ℕ) → World D → Option (List (List ℕ))
  pub write : (fd : ℤ) → List ℕ → World D → ℤ × World D
  pub read : (fd : ℤ) → World D → ℤ × List ℕ × World D
  pub allocated : Bool

abbrev pub sys_nvme : List ℕ
sys_nvme = codes "/sys/class/nvme"

-- The text without a newline at its end.
abbrev pub without_newline : List ℕ → List ℕ
without_newline [] = []
without_newline (c ∷ []) = if c == 10 then [] else c ∷ []
without_newline (c ∷ d ∷ s) = c ∷ without_newline (d ∷ s)

abbrev comma_to_space : ℕ → ℕ
comma_to_space c = if c == b',' then b' ' else c

-- `nvme_get_ctrl_attr` of nvme-topology.c, from the text of the file on.
-- NULL, where it cannot be opened or read, is `none`.
unfoldable pub ctrl_attr : Option (List ℕ) → Option (List ℕ)
ctrl_attr none = none
ctrl_attr (some text) = some (map comma_to_space (without_newline (until 0 (take 1024 text))))

-- `basename`: slashes at the end are dropped, and then what is behind the last one is taken. (For a path
-- of slashes alone, and for none, this is the empty text, where `basename` gives "/" and ".".)
abbrev without_slashes : List ℕ → List ℕ
without_slashes [] = []
without_slashes (c ∷ s) =
    let rest = without_slashes s in if c == b'/' && is_empty rest then [] else c ∷ rest

unfoldable pub last_part : List ℕ → List ℕ → List ℕ
last_part found [] = found
last_part found (c ∷ s) =
    let here = last_part found s in let behind = last_part s s in if c == b'/' then behind else here

unfoldable pub basename : List ℕ → List ℕ
basename path = let p = without_slashes path in last_part p p

-- The number that is read must be written as in the name.
abbrev pub checked : (device : List ℕ) → List ℤ → ℤ
checked device [] = neg 22
checked device (instance_no ∷ rest) =
    if same_text device (codes "nvme" ++ int_text instance_no) then instance_no else neg 22

unfoldable pub name_instance : (device : List ℕ) → ℤ
name_instance device = checked device (sscanf (Piece.plain (codes "nvme") ∷ Piece.int ∷ []) device)

unfoldable pub ctrl_instance : (device : List ℕ) → ℤ
ctrl_instance device = name_instance (basename device)

-- `!strcmp(have, want) || !strcmp(want, "none")`
abbrev pub agrees : (have want : List ℕ) → Bool
agrees have want = same_text have want || same_text want (codes "none")

abbrev pub args_match : (cargs args : ConnectArgs) → Bool
args_match cargs args =
    same_text cargs.subsysnqn args.subsysnqn
    && (same_text cargs.transport args.transport
        && (agrees cargs.traddr args.traddr
            && (agrees cargs.trsvcid args.trsvcid && agrees cargs.host_traddr args.host_traddr)))

-- The addresses in a text; `none` for fuel that ran out.
unfoldable pub args_of : (delim : ℕ) (addr subsysnqn transport : List ℕ) → Option ConnectArgs
args_of delim addr subsysnqn transport = elim (parse_conn_arg addr delim conarg_traddr) [
  | none ↦ none
  | some traddr ↦ elim (parse_conn_arg addr delim conarg_trsvcid) [
    | none ↦ none
    | some trsvcid ↦ elim (parse_conn_arg addr delim conarg_host_traddr) [
      | none ↦ none
      | some host_traddr ↦ some (record {
        subsysnqn = subsysnqn;
        transport = transport;
        traddr = traddr;
        trsvcid = trsvcid;
        host_traddr = host_traddr;
      })
    ]
  ]
]

module _ {D : Type 0} (sys : System D) where
  abbrev pub attr : (path name : List ℕ) → World D → Option (List ℕ)
  attr path name w = ctrl_attr (sys.file (path ++ b'/' ∷ name) w)

  -- An attribute that is NULL is dereferenced, by `strcmp` or in `parse_conn_arg`: no result.
  abbrev args_of_attrs : (addr subsysnqn transport : Option (List ℕ)) → Option ConnectArgs
  args_of_attrs (some addr) (some subsysnqn) (some transport) =
      args_of b' ' addr subsysnqn transport
  args_of_attrs (some addr) (some subsysnqn) none = none
  args_of_attrs (some addr) none transport = none
  args_of_attrs none subsysnqn transport = none

  unfoldable pub ctrl_matches_connectargs : (name : List ℕ) → ConnectArgs → World D → Option Bool
  ctrl_matches_connectargs name args w =
      let path = sys_nvme ++ b'/' ∷ name in
      elim (args_of_attrs (attr path (codes "address") w) (attr path (codes "subsysnqn") w)
        (attr path (codes "transport") w)) [
          | none ↦ none
          | some cargs ↦ some (args_match cargs args)
        ]

  -- The first of the controllers that matches.
  unfoldable pub find_among : List (List ℕ) → ConnectArgs → World D → Option (Option (List ℕ))
  find_among [] args w = some none
  find_among (d_name ∷ devices) args w =
      let rest = find_among devices args w in
      elim (ctrl_matches_connectargs d_name args w) [
        | none ↦ none
        | some matches ↦ if matches then some (some d_name) else rest
      ]

  abbrev pub keep : (List ℕ → Bool) → List (List ℕ) → List (List ℕ)
  keep p [] = []
  keep p (x ∷ xs) = let rest = keep p xs in if p x then x ∷ rest else rest

  unfoldable pub find_ctrl_with_connectargs : ConnectArgs → World D → Option (Option (List ℕ))
  find_ctrl_with_connectargs args w = elim (sys.scandir sys_nvme w) [
    | none ↦ some none
    | some names ↦ find_among (keep scan_ctrls_filter names) args w
  ]

  abbrev no_args : List Substring
  no_args =
      record { from = []; to = [] }
      ∷ record { from = []; to = [] }
      ∷ record { from = []; to = [] }
      ∷ []

  -- Behind the write: what the kernel answers.
  unfoldable pub read_instance : (fd : ℤ) → World D → Option (ℤ × World D)
  read_instance fd w =
      let (len, buf, v) = sys.read fd w in
      if is_negative len
      then some (negate v.errno, v)
      else elim (instance_of sys.allocated (until 0 buf) no_args) [
        | none ↦ none
        | some instance_no ↦ some (instance_no, v)
      ]

  abbrev pub same_length : ℤ → ℕ → Bool
  same_length (pos n) len = n == len
  same_length (negsuc n) len = false

  unfoldable pub add_ctrl : (argstr : List ℕ) → World D → Option (ℤ × World D)
  add_ctrl argstr w =
      let (fd, v) = sys.calls.open_path (codes "/dev/nvme-fabrics") w in
      let (ret, u) = sys.write fd argstr v in
      if is_negative fd
      then some (negate v.errno, v)
      else if not (same_length ret (length argstr))
      then some (negate u.errno, u)
      else read_instance fd u

  unfoldable pub remove_ctrl_by_path : (sysfs_path : List ℕ) → World D → ℤ × World D
  remove_ctrl_by_path sysfs_path w =
      let (fd, v) = sys.calls.open_path sysfs_path w in
      let (ret, u) = sys.write fd (codes "1") v in
      if is_negative fd
      then (negate v.errno, v)
      else if not (same_length ret 1)
      then (negate u.errno, u)
      else (pos 0, u)

  unfoldable pub remove_ctrl : (instance_no : ℤ) → World D → ℤ × World D
  remove_ctrl instance_no w =
      remove_ctrl_by_path
        (codes "/sys/class/nvme/nvme" ++ int_text instance_no ++ codes "/delete_controller") w

  unfoldable pub disconnect_by_device : (device : List ℕ) → World D → ℤ × World D
  disconnect_by_device device w =
      let instance_no = ctrl_instance device in
      if is_negative instance_no then (instance_no, w) else remove_ctrl instance_no w

  -- `!strcmp(subsysnqn, nqn)`, for the bytes of the file
  abbrev is_of_subsys : (nqn : List ℕ) → Option (List ℕ) → Bool
  is_of_subsys nqn none = false
  is_of_subsys nqn (some name) = same_text (until 10 (until 0 (take 223 name))) nqn

  -- 1 if the controller was of that subsystem and is gone.
  unfoldable pub disconnect_subsys : (nqn ctrl : List ℕ) → World D → ℕ × World D
  disconnect_subsys nqn ctrl w =
      let name = sys.file (sys_nvme ++ b'/' ∷ ctrl ++ codes "/subsysnqn") w in
      let (err, v) =
        remove_ctrl_by_path (sys_nvme ++ b'/' ∷ ctrl ++ codes "/delete_controller") w in
      if not (is_of_subsys nqn name) then (0, w) else if is_zero err then (1, v) else (0, v)
