-- ===== src/Fabrics/Entry/Retries.antt =====
-- The retries of `connect_ctrl`: when they end.
use switchtec_nvme_cli.Base.{
  ℕ, zero, suc, ◌≡◌, refl, ap, sym, ◌∙◌, Bool, true, false, not, ◌&&◌, ℤ, List, none, some, neg,
  Option-cases, Bool-cases, inl, inr,
}
use mathlib.Core.Path.{subst}
use switchtec_nvme_cli.Parser.Match.{same_text}
use switchtec_nvme_cli.Fabrics.Args.Occurrences.{Plain}
use switchtec_nvme_cli.Fabrics.Entry.Endings.{last_item, sqflow_item, entry_text-EndsOtherwise}
use switchtec_nvme_cli.Fabrics.Names.{trtype_str, unrecognized}
use switchtec_nvme_cli.Fabrics.Entry.{
  DiscEntry, stripped, traddr_size, trsvcid_size, Session, Run, has_sqflow, is_einval, is_discovery,
  entry_address, entry_text, connect_by, connect_once, connect_loop, connect_ctrl,
}

some-none {ℓ} : {A : Type ℓ} {a : A} → some a ≡ none → ⊥
some-none p = cc

true-false : true ≡ false → ⊥
true-false p = cc

itself : same_text sqflow_item sqflow_item ≡ true
unfolding same_text
itself = refl

module _ {S : Type 0} (add_ctrl do_discover : List ℕ → Run S) where
  abbrev TryGives : Bool → DiscEntry → Session S → Bool × ℤ × Session S → Type 0
  TryGives b e s r = connect_once add_ctrl do_discover b e s ≡ some r

  -- Every call of a round returns.
  abbrev pub CallsReturn : Type 0
  CallsReturn =
      (discover : Bool) (argstr : List ℕ) (s : Session S)
      → (r : ℤ × Session S) × (connect_by add_ctrl do_discover discover argstr s ≡ some r)

  -- Without the flow control option, no call for the entry asks for another round.
  abbrev Accepts : DiscEntry → Type 0
  Accepts e =
      (discover : Bool) (argstr : List ℕ) (s : Session S) (r : ℤ × Session S)
      → entry_text s.cfg discover false e ≡ some argstr
      → connect_by add_ctrl do_discover discover argstr s ≡ some r
      → (is_einval r.0 && has_sqflow e) ≡ false

  connect_once_called :
      (b discover : Bool) (e : DiscEntry) (s : Session S) (argstr : List ℕ) (r : ℤ × Session S)
      → is_discovery e ≡ some discover
      → entry_text s.cfg discover b e ≡ some argstr
      → connect_by add_ctrl do_discover discover argstr s ≡ some r
      → TryGives b e s (not (is_einval r.0 && has_sqflow e), r.0, r.1)
  unfolding connect_once
  connect_once_called b discover e s argstr r d t c = rw (connect_once, d, t, c) refl

  -- A round ends, and either it is the last or the call asked for another.
  try_ends :
      (b : Bool) (e : DiscEntry) (s : Session S)
      → CallsReturn
      → (again : Bool) × (ret : ℤ) × (t : Session S) × TryGives b e s (not again, ret, t)
        × ((b ≡ false) → Accepts e → again ≡ false)
  unfolding connect_once
  try_ends b e s total = elim (Option-cases (is_discovery e)) [
    | inl d ↦ (false, neg 22, s, rw (connect_once, d) refl, λ _ _. refl)
    | inr (discover, d) ↦ elim (Option-cases (entry_text s.cfg discover b e)) [
      | inl t ↦ (false, neg 22, s, rw (connect_once, d, t) refl, λ _ _. refl)
      | inr (argstr, t) ↦
          let (r, c) = total discover argstr s in
          (
            is_einval r.0 && has_sqflow e,
            r.0,
            r.1,
            connect_once_called b discover e s argstr r d t c,
            λ off accepts.
                accepts discover argstr s r
                  (subst (λ f. entry_text s.cfg discover f e ≡ some argstr) off t) c,
          )
    ]
  ]

  -- What is needed of the second round.
  two_rounds :
      (e : DiscEntry) (s : Session S)
      → CallsReturn
      → Accepts e
      → (r : ℤ × Session S) × (connect_ctrl add_ctrl do_discover 2 e s ≡ some r)
  unfolding connect_ctrl connect_loop
  two_rounds e s total accepts =
      let (again, ret, t, o, _) = try_ends true e s total in
      let (more, ret', t', o', h) = try_ends false e t total in
      let last : TryGives false e t (true, ret', t') = rw (h refl accepts) at o' in
      elim (Bool-cases again) [
        | inl q ↦ ((ret', t'), rw (connect_ctrl, connect_loop, o, q, connect_loop, last) refl)
        | inr q ↦ ((ret, t), rw (connect_ctrl, connect_loop, o, q) refl)
      ]

  -- A kernel that answers -EINVAL only because of the flow control option: only for a text whose last item
  -- it is.
  abbrev pub RefusesOption : Type 0
  RefusesOption =
      (discover : Bool) (argstr : List ℕ) (s : Session S) (r : ℤ × Session S)
      → connect_by add_ctrl do_discover discover argstr s ≡ some r
      → is_einval r.0 ≡ true
      → last_item argstr ≡ sqflow_item

  RefusesOption-Accepts :
      (e : DiscEntry)
      → Plain b',' (stripped traddr_size e.traddr)
      → Plain b',' (stripped trsvcid_size e.trsvcid)
      → RefusesOption
      → Accepts e
  RefusesOption-Accepts e address service refuses discover argstr s r text called =
      elim (Bool-cases (is_einval r.0)) [
        | inr q ↦ rw q refl
        | inl q ↦ absurd (
            opposite (refuses discover argstr s r called q)
              (entry_text-EndsOtherwise e address service s.cfg discover argstr text))
      ]
    where
      opposite :
          last_item argstr ≡ sqflow_item → same_text (last_item argstr) sqflow_item ≡ false → ⊥
      opposite same other =
          true-false (sym itself ∙ ap (λ (t : List ℕ). same_text t sqflow_item) (sym same) ∙ other)

  -- Two rounds are enough for every entry, whether or not the kernel knows the flow control option, when every call
  -- returns and the kernel answers -EINVAL for no other reason than a text whose last item is that option: the
  -- text of the second round does not end in it. The address and the service of the entry, without the blanks at
  -- their ends, have no comma in them.
  pub connect_ctrl-ends :
      (e : DiscEntry) (s : Session S)
      → Plain b',' (stripped traddr_size e.traddr)
      → Plain b',' (stripped trsvcid_size e.trsvcid)
      → CallsReturn
      → RefusesOption
      → (r : ℤ × Session S) × (connect_ctrl add_ctrl do_discover 2 e s ≡ some r)
  connect_ctrl-ends e s address service total refuses =
      two_rounds e s total (RefusesOption-Accepts e address service refuses)

  -- A subsystem on a supported transport and address, whose entry says that flow control may be disabled.
  abbrev pub IsRetried : DiscEntry → Type 0
  IsRetried e =
      (is_discovery e ≡ some false)
      × (has_sqflow e ≡ true)
      × (same_text (trtype_str e.trtype) unrecognized ≡ false)
      × ((address : List ℕ) × (entry_address e ≡ some address))

  -- For an entry of a subsystem on a supported transport and address that says that flow control may be
  -- disabled, a kernel that answers every connect with -EINVAL keeps `connect_ctrl` going for ever: no number of
  -- rounds is enough.
  pub connect_ctrl_diverges :
      (e : DiscEntry) (s : Session S) (fuel : ℕ)
      → IsRetried e
      → ((argstr : List ℕ) (t : Session S)
          → (u : Session S) × (add_ctrl argstr t ≡ some (neg 22, u)))
      → connect_ctrl add_ctrl do_discover fuel e s ≡ none
  unfolding connect_ctrl connect_loop entry_text
  connect_ctrl_diverges e s fuel retried refuses = go fuel true s
    where
      go :
          (fuel : ℕ) (b : Bool) (s : Session S)
          → connect_loop add_ctrl do_discover fuel b e s ≡ none
      go zero b s = refl
      go (suc fuel) b s =
          let (d, q, known, (address, a)) = retried in
          elim (Option-cases (entry_text s.cfg false b e)) [
            | inl t ↦ absurd (some-none (rw (entry_text, known, a) at t))
            | inr (argstr, t) ↦
                let (u, c) = refuses argstr s in
                let o = connect_once_called b false e s argstr (neg 22, u) d t c in
                rw (connect_loop, o, q) (go fuel false u)
          ]
