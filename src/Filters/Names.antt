-- ===== src/Filters/Names.antt =====
-- What the filters say of the names that the kernel gives.
use switchtec_nvme_cli.Base.{
  ℕ, ◌^◌, ◌<◌, ◌≡◌, refl, true, false, pos, List, [], ◌∷◌, ◌++◌, some, arith, ◌==◌,
}
use switchtec_nvme_cli.Text.{digit_in, digit_value}
use switchtec_nvme_cli.Text.Decimal.{decimal, Stops, strtol-decimal_10}
use switchtec_nvme_cli.Text.Search.{codes, strstr, starts_with}
use switchtec_nvme_cli.Text.Sscanf.{sscanf, scan_int}
use switchtec_nvme_cli.Parser.Match.{strip_prefix}
use switchtec_nvme_cli.Filters.{
  ns_name, path_name, ctrl_name, partition_name, scan_namespace_filter, scan_ctrl_paths_filter,
  scan_ctrls_filter, scan_dev_filter,
}

-- nvme0, nvme0n1, nvme0c0n1 and nvme0n1p1.
abbrev pub ctrl_named : ℕ → List ℕ
ctrl_named i = codes "nvme" ++ decimal i []

abbrev pub ns_named : ℕ → ℕ → List ℕ
ns_named i j = codes "nvme" ++ decimal i (b'n' ∷ decimal j [])

abbrev pub path_named : ℕ → ℕ → ℕ → List ℕ
path_named i k j = codes "nvme" ++ decimal i (b'c' ∷ decimal k (b'n' ∷ decimal j []))

abbrev pub partition_named : ℕ → ℕ → ℕ → List ℕ
partition_named i j q = codes "nvme" ++ decimal i (b'n' ∷ decimal j (b'p' ∷ decimal q []))

pub scan_int-decimal :
    (n : ℕ) (tail : List ℕ)
    → n < 2 ^ 31
    → Stops 10 tail
    → scan_int (decimal n tail) ≡ some (pos n, tail)
unfolding scan_int
scan_int-decimal n tail small h =
    rw (scan_int, strtol-decimal_10 n tail (omega arith) h) (ground arith)

-- What the conversions of a name give.
sscanf-ctrl_named :
    (i : ℕ)
    → i < 2 ^ 31
    → (sscanf ns_name (ctrl_named i) ≡ pos i ∷ [])
      × (sscanf path_name (ctrl_named i) ≡ pos i ∷ [])
      × (sscanf ctrl_name (ctrl_named i) ≡ pos i ∷ [])
      × (sscanf partition_name (ctrl_named i) ≡ pos i ∷ [])
unfolding sscanf strip_prefix
sscanf-ctrl_named i hi =
    let bare = scan_int-decimal i [] hi tt in
    (rw (sscanf, bare) refl, rw (sscanf, bare) refl, rw (sscanf, bare) refl, rw (sscanf, bare) refl)

sscanf-ns_named :
    (i j : ℕ)
    → i < 2 ^ 31
    → j < 2 ^ 31
    → (sscanf ns_name (ns_named i j) ≡ pos i ∷ pos j ∷ [])
      × (sscanf path_name (ns_named i j) ≡ pos i ∷ [])
      × (sscanf partition_name (ns_named i j) ≡ pos i ∷ pos j ∷ [])
unfolding sscanf strip_prefix digit_in digit_value
sscanf-ns_named i j hi hj =
    let first = scan_int-decimal i (b'n' ∷ decimal j []) hi refl in
    let second = scan_int-decimal j [] hj tt in
    (
      rw (sscanf, first, sscanf, second) refl,
      rw (sscanf, first) refl,
      rw (sscanf, first, sscanf, second) refl,
    )

sscanf-path_named :
    (i k j : ℕ)
    → i < 2 ^ 31
    → k < 2 ^ 31
    → j < 2 ^ 31
    → (sscanf ns_name (path_named i k j) ≡ pos i ∷ [])
      × (sscanf path_name (path_named i k j) ≡ pos i ∷ pos k ∷ pos j ∷ [])
      × (sscanf ctrl_name (path_named i k j) ≡ pos i ∷ [])
      × (sscanf partition_name (path_named i k j) ≡ pos i ∷ [])
unfolding sscanf strip_prefix digit_in digit_value
sscanf-path_named i k j hi hk hj =
    let first = scan_int-decimal i (b'c' ∷ decimal k (b'n' ∷ decimal j [])) hi refl in
    let second = scan_int-decimal k (b'n' ∷ decimal j []) hk refl in
    let third = scan_int-decimal j [] hj tt in
    (
      rw (sscanf, first) refl,
      rw (sscanf, first, sscanf, second, sscanf, third) refl,
      rw (sscanf, first) refl,
      rw (sscanf, first) refl,
    )

sscanf-partition_named :
    (i j q : ℕ)
    → i < 2 ^ 31
    → j < 2 ^ 31
    → q < 2 ^ 31
    → (sscanf ns_name (partition_named i j q) ≡ pos i ∷ pos j ∷ [])
      × (sscanf path_name (partition_named i j q) ≡ pos i ∷ [])
      × (sscanf partition_name (partition_named i j q) ≡ pos i ∷ pos j ∷ pos q ∷ [])
unfolding sscanf strip_prefix digit_in digit_value
sscanf-partition_named i j q hi hj hq =
    let first = scan_int-decimal i (b'n' ∷ decimal j (b'p' ∷ decimal q [])) hi refl in
    let second = scan_int-decimal j (b'p' ∷ decimal q []) hj refl in
    let third = scan_int-decimal q [] hq tt in
    (
      rw (sscanf, first, sscanf, second) refl,
      rw (sscanf, first) refl,
      rw (sscanf, first, sscanf, second, sscanf, third) refl,
    )

-- What each filter says of the names that the kernel gives to a controller, a namespace, a path to a
-- namespace and a partition. A controller passes `scan_ctrls_filter` alone. A namespace passes
-- `scan_namespace_filter` and `scan_ctrl_paths_filter`, and `scan_dev_filter` where its first number is the
-- current index. A path passes `scan_ctrl_paths_filter`, and is taken for a controller too. A partition is taken
-- for a namespace by the first two, and is told from one by `scan_dev_filter` only. The numbers are ints.
pub filters-names :
    (i k j q index : ℕ)
    → i < 2 ^ 31
    → k < 2 ^ 31
    → j < 2 ^ 31
    → q < 2 ^ 31
    → (scan_ctrls_filter (ctrl_named i) ≡ true)
      × (scan_namespace_filter (ctrl_named i) ≡ false)
      × (scan_ctrl_paths_filter (ctrl_named i) ≡ false)
      × (scan_dev_filter (pos index) (ctrl_named i) ≡ false)
      × (scan_ctrls_filter (ns_named i j) ≡ false)
      × (scan_namespace_filter (ns_named i j) ≡ true)
      × (scan_ctrl_paths_filter (ns_named i j) ≡ true)
      × (scan_dev_filter (pos index) (ns_named i j) ≡ (i == index))
      × (scan_ctrls_filter (path_named i k j) ≡ true)
      × (scan_namespace_filter (path_named i k j) ≡ false)
      × (scan_ctrl_paths_filter (path_named i k j) ≡ true)
      × (scan_dev_filter (pos index) (path_named i k j) ≡ false)
      × (scan_ctrls_filter (partition_named i j q) ≡ false)
      × (scan_namespace_filter (partition_named i j q) ≡ true)
      × (scan_ctrl_paths_filter (partition_named i j q) ≡ true)
      × (scan_dev_filter (pos index) (partition_named i j q) ≡ false)
unfolding scan_ctrls_filter scan_namespace_filter scan_ctrl_paths_filter scan_dev_filter strstr
    starts_with strip_prefix
filters-names i k j q index hi hk hj hq =
    let (c2, c3, c1, cp) = sscanf-ctrl_named i hi in
    let (n2, n3, np) = sscanf-ns_named i j hi hj in
    let (p2, p3, p1, pp) = sscanf-path_named i k j hi hk hj in
    let (q2, qp, q3) = sscanf-partition_named i j q hi hj hq in
    (
      rw (scan_ctrls_filter, c2, c1) refl,
      rw (scan_namespace_filter, c2) refl,
      rw (scan_ctrl_paths_filter, c3, c2) refl,
      rw (scan_dev_filter, cp, c2) refl,
      rw (scan_ctrls_filter, n2) refl,
      rw (scan_namespace_filter, n2) refl,
      rw (scan_ctrl_paths_filter, n3, n2) refl,
      rw (scan_dev_filter, np, n2) refl,
      rw (scan_ctrls_filter, p2, p1) refl,
      rw (scan_namespace_filter, p2) refl,
      rw (scan_ctrl_paths_filter, p3) refl,
      rw (scan_dev_filter, pp, p2) refl,
      rw (scan_ctrls_filter, q2) refl,
      rw (scan_namespace_filter, q2) refl,
      rw (scan_ctrl_paths_filter, qp, q2) refl,
      rw (scan_dev_filter, q3) refl,
    )
