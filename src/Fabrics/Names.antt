-- ===== src/Fabrics/Names.antt =====
-- fabrics.c: the names of transports, address families, subsystems and their options. A table is the
-- list of its entries with their indices; the others are NULL.
use switchtec_nvme_cli.Base.{ℕ, List, [], ◌∷◌, ◌==◌, if◌then◌else◌}
use switchtec_nvme_cli.Text.Search.{codes}

abbrev pub Table : Type 0
Table = List (ℕ × List ℕ)

abbrev pub unrecognized : List ℕ
unrecognized = codes "unrecognized"

unfoldable pub arg_str : Table → ℕ → List ℕ
arg_str [] idx = unrecognized
arg_str ((i, name) ∷ strings) idx =
    let rest = arg_str strings idx in if i == idx then name else rest

abbrev pub trtypes : Table
trtypes = (1, codes "rdma") ∷ (2, codes "fc") ∷ (3, codes "tcp") ∷ (254, codes "loop") ∷ []

unfoldable pub trtype_str : ℕ → List ℕ
trtype_str = arg_str trtypes

abbrev pub adrfams : Table
adrfams =
    (0, codes "pci")
    ∷ (1, codes "ipv4")
    ∷ (2, codes "ipv6")
    ∷ (3, codes "infiniband")
    ∷ (4, codes "fibre-channel")
    ∷ []

unfoldable pub adrfam_str : ℕ → List ℕ
adrfam_str = arg_str adrfams

abbrev pub subtypes : Table
subtypes = (1, codes "discovery subsystem") ∷ (2, codes "nvme subsystem") ∷ []

unfoldable pub subtype_str : ℕ → List ℕ
subtype_str = arg_str subtypes

abbrev pub treqs : Table
treqs =
    (0, codes "not specified")
    ∷ (1, codes "required")
    ∷ (2, codes "not required")
    ∷ (4, codes "not specified, sq flow control disable supported")
    ∷ []

unfoldable pub treq_str : ℕ → List ℕ
treq_str = arg_str treqs

abbrev pub sectypes : Table
sectypes = (0, codes "none") ∷ (1, codes "tls") ∷ []

unfoldable pub sectype_str : ℕ → List ℕ
sectype_str = arg_str sectypes

abbrev pub prtypes : Table
prtypes =
    (1, codes "not specified")
    ∷ (2, codes "infiniband")
    ∷ (3, codes "roce")
    ∷ (4, codes "roce-v2")
    ∷ (5, codes "iwarp")
    ∷ []

unfoldable pub prtype_str : ℕ → List ℕ
prtype_str = arg_str prtypes

abbrev pub qptypes : Table
qptypes = (1, codes "connected") ∷ (2, codes "datagram") ∷ []

unfoldable pub qptype_str : ℕ → List ℕ
qptype_str = arg_str qptypes

abbrev pub cms : Table
cms = (1, codes "rdma-cm") ∷ []

unfoldable pub cms_str : ℕ → List ℕ
cms_str = arg_str cms
