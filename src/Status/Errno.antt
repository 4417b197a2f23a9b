-- ===== src/Status/Errno.antt =====
-- The values of errno that the status codes are mapped to, as Linux defines them on x86.
use switchtec_nvme_cli.Base.{ℕ}

abbrev pub eperm : ℕ
eperm = 1

abbrev pub eio : ℕ
eio = 5

abbrev pub eagain : ℕ
eagain = 11

abbrev pub eacces : ℕ
eacces = 13

abbrev pub ebusy : ℕ
ebusy = 16

abbrev pub einval : ℕ
einval = 22

abbrev pub enospc : ℕ
enospc = 28

abbrev pub ecomm : ℕ
ecomm = 70

abbrev pub eilseq : ℕ
eilseq = 84

abbrev pub erestart : ℕ
erestart = 85

abbrev pub eopnotsupp : ℕ
eopnotsupp = 95

abbrev pub eaddrinuse : ℕ
eaddrinuse = 98

abbrev pub econnrefused : ℕ
econnrefused = 111

abbrev pub ealready : ℕ
ealready = 114

abbrev pub einprogress : ℕ
einprogress = 115

abbrev pub eremoteio : ℕ
eremoteio = 121

abbrev pub edquot : ℕ
edquot = 122

abbrev pub ewouldblock : ℕ
ewouldblock = 11
