-- ===== src/Fabrics/Options/Overflow.antt =====
-- What `build_options` does to a buffer that its first option does not fit.
use switchtec_nvme_cli.Base.{
  ℕ, zero, suc, ◌+◌, ◌-◌, ◌^◌, ◌%◌, ◌≤◌, ◌<◌, ◌≡◌, refl, ◌∙◌, ap, inl, inr, Bool, true, false,
  Bool-cases, ℤ, pos, neg, to_unsigned, List, [], ◌∷◌, ◌++◌, length, take, Option, none, some,
  arith, leb, ◌==◌,
}
use switchtec_nvme_cli.Base.Memory.{Mem, store_bytes, store_bytes-outside, store_bytes-head}
use switchtec_nvme_cli.Text.Search.{codes}
use switchtec_nvme_cli.Parser.Match.{same_text}
use switchtec_nvme_cli.Fabrics.Config.{Config, HostFiles}
use switchtec_nvme_cli.Fabrics.Builder.{
  Builder, Added, format, format_piece, snprintf, minus, chain, argument, add_argument,
  add_int_argument, add_bool_argument,
}
use switchtec_nvme_cli.Fabrics.Options.{
  Built, network_arguments, tuning_arguments, unless, with_hostnqn, with_hostid, write_tuning,
  write_hostid, write_host, write_options, lacks_argument, build_options, next,
}
use switchtec_nvme_cli.Fabrics.Options.Pieces.{snprintf-fits}
use switchtec_nvme_cli.Fabrics.Options.Laws.{nqn_item, build_options_complete}

-- The builder that a call leaves.
abbrev builder : Added → Builder
builder (Added.added b) = b
builder (Added.refused b) = b

-- A call that goes on to the right, and leaves what is in front of it as it was.
abbrev IsRight : Builder → Builder → Type 0
IsRight b c = (b.argstr ≤ c.argstr) × ((i : ℕ) → i < b.argstr → c.mem i ≡ b.mem i)

abbrev GoesRight : (Builder → Added) → Type 0
GoesRight add = (b : Builder) → IsRight b (builder (add b))

snprintf-below : (at n : ℕ) (t : List ℕ) (m : Mem) (i : ℕ) → i < at → snprintf at n t m i ≡ m i
unfolding snprintf
snprintf-below at n t m i h = elim (Bool-cases (n == 0)) [
  | inl q ↦ rw (snprintf, q) refl
  | inr q ↦ rw (snprintf, q) (store_bytes-outside at (take (n - 1) t ++ 0 ∷ []) m i (inl h))
]

format-GoesRight : (t : List ℕ) → GoesRight (format t)
unfolding format
format-GoesRight t b = elim (Bool-cases (leb (2 ^ 31) (length t))) [
  | inl q ↦ rw q (omega arith, λ i h. refl)
  | inr q ↦ rw q (omega arith, snprintf-below b.argstr (to_unsigned 64 b.max_len) t b.mem)
]

format_piece-GoesRight : (p : Option (List ℕ)) → GoesRight (format_piece p)
unfolding format_piece
format_piece-GoesRight none b = (omega arith, λ i h. refl)
format_piece-GoesRight (some t) b = format-GoesRight t b

abbrev AllGoRight : List (Builder → Added) → Type 0
AllGoRight [] = Unit {0}
AllGoRight (add ∷ adds) = GoesRight add × AllGoRight adds

chain-GoesRight : (adds : List (Builder → Added)) → AllGoRight adds → GoesRight (chain adds)
unfolding chain
chain-GoesRight [] all b = (omega arith, λ i h. refl)
chain-GoesRight (add ∷ adds) all b = onward (add b) (λ c. chain-GoesRight adds all.1 c) (all.0 b)
  where
    onward :
        (a : Added)
        → GoesRight (chain adds)
        → IsRight b (builder a)
        → IsRight b
            (builder (elim a [ Added.refused c ↦ Added.refused c | Added.added c ↦ chain adds c ]))
    onward (Added.refused c) rest h = h
    onward (Added.added c) rest h =
        let (more, kept) = rest c in
        (omega (arith, h.0), λ i low. kept i (omega (arith, h.0)) ∙ h.1 i low)

unless-GoesRight :
    (discover : Bool) (add : Builder → Added) → GoesRight add → GoesRight (unless discover add)
unfolding unless
unless-GoesRight true add h b = (omega arith, λ i low. refl)
unless-GoesRight false add h b = h b

network_arguments-AllGoRight : (cfg : Config) → AllGoRight (network_arguments cfg)
unfolding network_arguments add_argument
network_arguments-AllGoRight cfg =
    let piece = format_piece-GoesRight in (piece _, (piece _, (piece _, (piece _, tt))))

tuning_arguments-AllGoRight :
    (discover : Bool) (cfg : Config) → AllGoRight (tuning_arguments discover cfg)
unfolding tuning_arguments add_int_argument add_bool_argument
tuning_arguments-AllGoRight discover cfg =
    let piece = format_piece-GoesRight in
    let hidden = unless-GoesRight discover in
    (
      hidden _ (piece _),
      (
        piece _,
        (
          piece _,
          (
            hidden _ (piece _),
            (
              hidden _ (piece _),
              (piece _, (piece _, (piece _, (piece _, (piece _, (piece _, (piece _, tt))))))),
            ),
          ),
        ),
      ),
    )

-- What is in front of the builder is what it was.
abbrev Keeps : Builder → Built → Type 0
Keeps b r = (i : ℕ) → i < b.argstr → r.mem i ≡ b.mem i

next-Keeps :
    (b : Builder) (a : Added) (cfg : Config) (go : Builder → Built)
    → IsRight b (builder a)
    → ((c : Builder) → Keeps c (go c))
    → Keeps b (next a cfg go)
next-Keeps b (Added.refused c) cfg go h rest i low = h.1 i low
next-Keeps b (Added.added c) cfg go h rest i low = rest c i (omega (arith, h.0)) ∙ h.1 i low

write_tuning-Keeps :
    (discover : Bool) (cfg : Config) (b : Builder) → Keeps b (write_tuning discover cfg b)
unfolding write_tuning
write_tuning-Keeps discover cfg b =
    next-Keeps b (chain (tuning_arguments discover cfg) b) cfg
      (λ c. record { err = pos 0; mem = c.mem; cfg = cfg })
      (chain-GoesRight (tuning_arguments discover cfg) (tuning_arguments-AllGoRight discover cfg) b)
      (λ c i low. refl)

add_argument-GoesRight : (name : List ℕ) (arg : Option (List ℕ)) → GoesRight (add_argument name arg)
unfolding add_argument
add_argument-GoesRight name arg = format_piece-GoesRight (argument name arg)

write_hostid-Keeps :
    (files : HostFiles) (discover : Bool) (cfg : Config) (b : Builder)
    → Keeps b (write_hostid files discover cfg b)
unfolding write_hostid
write_hostid-Keeps files discover cfg b =
    let found = with_hostid files cfg in
    next-Keeps b (add_argument (codes "hostid") found.hostid b) found (write_tuning discover found)
      (add_argument-GoesRight (codes "hostid") found.hostid b) (write_tuning-Keeps discover found)

write_host-Keeps :
    (files : HostFiles) (discover : Bool) (cfg : Config) (b : Builder)
    → Keeps b (write_host files discover cfg b)
unfolding write_host
write_host-Keeps files discover cfg b =
    let found = with_hostnqn files cfg in
    next-Keeps b (add_argument (codes "hostnqn") found.hostnqn b) found
      (write_hostid files discover found) (add_argument-GoesRight (codes "hostnqn") found.hostnqn b)
      (write_hostid-Keeps files discover found)

-- Behind the transport, all of memory in front stays.
network-Keeps :
    (files : HostFiles) (discover : Bool) (cfg : Config) (b c : Builder)
    → add_argument (codes "transport") cfg.transport b ≡ Added.added c
    → Keeps c (next (chain (network_arguments cfg) b) cfg (write_host files discover cfg))
unfolding network_arguments chain
network-Keeps files discover cfg b c e =
    let adds =
      add_argument (codes "traddr") cfg.traddr
      ∷ add_argument (codes "host_traddr") cfg.host_traddr
      ∷ add_argument (codes "trsvcid") cfg.trsvcid
      ∷ [] in
    let rest =
      next-Keeps c (chain adds c) cfg (write_host files discover cfg)
        (chain-GoesRight adds (network_arguments-AllGoRight cfg).1 c)
        (write_host-Keeps files discover cfg) in
    rw (network_arguments, chain, e) rest

format-added :
    (t : List ℕ) (b : Builder)
    → length t < 2 ^ 31
    → format t b
      ≡ Added.added (record {
        mem = snprintf b.argstr (to_unsigned 64 b.max_len) t b.mem;
        argstr = b.argstr + length t;
        max_len = minus b.max_len (length t);
      })
unfolding format
format-added t b h =
    let short : leb (2 ^ 31) (length t) ≡ false = ground arith in rw (format, short)

-- A room below 0 is, as a `size_t`, room for every text.
snprintf-unbounded :
    (at k : ℕ) (t : List ℕ) (m : Mem)
    → 0 < k
    → k < 2 ^ 31
    → length t < 2 ^ 31
    → snprintf at (to_unsigned 64 (neg k)) t m ≡ store_bytes at (t ++ 0 ∷ []) m
snprintf-unbounded at zero t m p small short = absurd (omega arith)
snprintf-unbounded at (suc k) t m p small short =
    snprintf-fits at (2 ^ 64 - 1 - k % 2 ^ 64) t m (omega arith)

minus-over : (m n : ℕ) → m < n → minus (pos m) n ≡ neg (n - m)
unfolding minus
minus-over m n h = let below : leb n m ≡ false = ground arith in rw below refl

-- When the first option alone is longer than the buffer, the options behind it are written behind the
-- buffer: the comma in front of the transport stands in memory as many bytes from the start of the
-- buffer as that option has, which is outside it. The transport is not "none", nothing that is asked for is
-- missing, and the texts are shorter than 2 GiB.
pub build_options_overflow :
    (files : HostFiles) (at size : ℕ) (discover : Bool) (cfg : Config) (m : Mem)
    (transport : List ℕ)
    → cfg.transport ≡ some transport
    → same_text transport (codes "none") ≡ false
    → lacks_argument cfg.transport cfg.traddr ≡ false
    → size < length (nqn_item cfg)
    → length (nqn_item cfg) < 2 ^ 31
    → length transport + 11 < 2 ^ 31
    → (at + size ≤ at + length (nqn_item cfg))
      × ((build_options files at (pos size) discover cfg m).mem (at + length (nqn_item cfg)) ≡ b',')
unfolding write_options add_argument argument format_piece
build_options_overflow files at size discover cfg m transport e named complete over short shorter =
    let n = length (nqn_item cfg) in
    let b : Builder = record { mem = m; argstr = at; max_len = pos size } in
    let t = b',' ∷ codes "transport" ++ b'=' ∷ transport in
    let b1 : Builder = record {
      mem = snprintf at (to_unsigned 64 (pos size)) (nqn_item cfg) m;
      argstr = at + n;
      max_len = minus (pos size) n;
    } in
    let c : Builder = record {
      mem = snprintf (at + n) (to_unsigned 64 b1.max_len) t b1.mem;
      argstr = at + n + length t;
      max_len = minus b1.max_len (length t);
    } in
    let first : format (nqn_item cfg) b ≡ Added.added b1 = format-added (nqn_item cfg) b short in
    let second : add_argument (codes "transport") cfg.transport b1 ≡ Added.added c =
      rw (e, add_argument, argument, named) (format-added t b1 (omega arith)) in
    let negative : b1.max_len ≡ neg (n - size) = minus-over size n over in
    let comma : c.mem (at + n) ≡ b',' =
      ap (λ (k : ℤ). snprintf (at + n) (to_unsigned 64 k) t b1.mem (at + n)) negative
      ∙ ap (λ (f : Mem). f (at + n))
          (snprintf-unbounded (at + n) (n - size) t b1.mem (omega arith) (omega arith)
            (omega arith))
      ∙ store_bytes-head (at + n) b',' _ b1.mem in
    let written : write_options files discover cfg b
        ≡ next (chain (network_arguments cfg) b1) cfg (write_host files discover cfg) =
      rw (write_options, first) refl in
    (
      omega arith,
      ap (λ (r : Built). r.mem (at + n))
            (build_options_complete files at (pos size) discover cfg m complete ∙ written)
          ∙ network-Keeps files discover cfg b1 c second (at + n) (omega arith)
          ∙ comma,
    )
