-- ===== src/Fabrics/Args/Laws.antt =====
-- `parse_conn_arg` as a search among the arguments between the delimiters.
use switchtec_nvme_cli.Base.{
  ℕ, zero, suc, ◌+◌, ◌≤◌, ◌<◌, ◌≡◌, ◌≢◌, refl, ◌∙◌, ap, sym, ◌⊎◌, inl, inr, false, List, [], ◌∷◌,
  ◌++◌, length, length-append, none, some, Option-cases, arith, ◌==◌,
}
use mathlib.Core.List.{append-nil}
use switchtec_nvme_cli.Text.Search.{starts_with, strstr, until}
use switchtec_nvme_cli.Parser.Match.{strip_prefix}
use switchtec_nvme_cli.Fabrics.Args.{
  at_boundary, assigned, Round, seek, match_at, value_or_seek, round, arg_loop, parse_conn_arg,
}
use switchtec_nvme_cli.Fabrics.Args.Occurrences.{
  Plain, Cut, glue, Found, find, some-none, at_boundary-Plain, strstr-nowhere, strstr-within,
  until-append, strchr-Plain, strchr-append, assigned-append, assigned-Plain, strip_prefix-assign,
  drop-strip_prefix, Plain-strip_prefix,
}

-- Arguments with the delimiter between them.
abbrev pub join : (delim : ℕ) (first : List ℕ) → List (List ℕ) → List ℕ
join delim first [] = first
join delim first (item ∷ items) = first ++ delim ∷ join delim item items

-- The value of the first argument that is the field, the assignment character and a value; the empty
-- text if there is none.
abbrev pub first_value : (field : List ℕ) → List (List ℕ) → List ℕ
first_value field [] = []
first_value field (item ∷ items) = elim (strip_prefix (field ++ b'=' ∷ []) item) [
  | none ↦ first_value field items
  | some value ↦ value
]

abbrev pub AllPlain : (delim : ℕ) → List (List ℕ) → Type 0
AllPlain delim [] = Unit {0}
AllPlain delim (item ∷ items) = Plain delim item × AllPlain delim items

at_boundary-append :
    (d : ℕ) (item before : List ℕ) → at_boundary d (item ++ d ∷ before) ≡ at_boundary d before
unfolding at_boundary
at_boundary-append d [] [] = ground arith
at_boundary-append d [] (c ∷ before) = refl
at_boundary-append d (c ∷ []) before = at_boundary-append d [] before
at_boundary-append d (c ∷ e ∷ item) before = at_boundary-append d (e ∷ item) before

-- Where the loop goes on, at the end of an argument.
abbrev behind_item : List ℕ → Round
behind_item [] = Round.missing
behind_item (c ∷ rest) = Round.continue rest

seek-append :
    (d : ℕ) (s tail : List ℕ) → Plain d s → Cut d tail → seek (s ++ tail) d ≡ behind_item tail
unfolding seek
seek-append d s [] p cut = rw (append-nil s, seek, strchr-Plain d s p) refl
seek-append d s (c ∷ rest) p cut = rw (cut, seek, strchr-append d s rest p) refl

value_or_seek-assigned :
    (d : ℕ) (s v : List ℕ) → assigned s ≡ some v → value_or_seek s d ≡ Round.value (until d v)
unfolding value_or_seek
value_or_seek-assigned d s v e = rw (value_or_seek, e) refl

value_or_seek-other : (d : ℕ) (s : List ℕ) → assigned s ≡ none → value_or_seek s d ≡ seek s d
unfolding value_or_seek
value_or_seek-other d s e = rw (value_or_seek, e) refl

module _ (d f : ℕ) (field : List ℕ) (ne : d ≢ b'=') (plain : Plain d (f ∷ field)) where
  -- Behind an argument without the field, a round is what it would be at the next one.
  round-nowhere :
      (item rest : List ℕ)
      → strstr item (f ∷ field) ≡ none
      → round (item ++ d ∷ rest) d (f ∷ field) ≡ round rest d (f ∷ field)
  unfolding round strstr starts_with strip_prefix
  round-nowhere item rest e =
      let other : (f == d) ≡ false = ground (arith, plain.0) in
      elim (Option-cases (strstr rest (f ∷ field))) [
        | inl q ↦ rw (round, strstr-nowhere d f field item (d ∷ rest) plain refl e, other, q)
        | inr ((b, s), q) ↦ rw (
          round,
          strstr-nowhere d f field item (d ∷ rest) plain refl e,
          other,
          q,
          at_boundary-append d item b,
        )
      ]

  -- An argument that is the field and a value ends the loop.
  round-value :
      (item tail v : List ℕ)
      → Plain d item
      → Cut d tail
      → strip_prefix ((f ∷ field) ++ b'=' ∷ []) item ≡ some v
      → round (item ++ tail) d (f ∷ field) ≡ Round.value v
  unfolding round match_at at_boundary
  round-value item tail v p cut e =
      let split = strip_prefix-assign (f ∷ field) item in
      elim (find d f field item p) [
        | Found.nowhere a b ↦ absurd (some-none (sym e ∙ rw (split, b)))
        | Found.inside c before s a b g h ↦ absurd (some-none (sym e ∙ rw (split, b)))
        | Found.first t a b ↦
            let is_assigned : assigned t ≡ some v = rw (b) at (sym split ∙ e) in
            let here : assigned (t ++ tail) ≡ some (v ++ tail) =
              assigned-append d t tail ne cut ∙ ap (glue tail) is_assigned in
            rw (
              round,
              strstr-within d f field item tail [] item plain cut a,
              match_at,
              at_boundary,
              drop-strip_prefix (f ∷ field) item t tail b,
              value_or_seek-assigned d (t ++ tail) (v ++ tail) here,
              until-append d v tail
                  (assigned-Plain d t v (Plain-strip_prefix d (f ∷ field) item t p b) is_assigned)
                  cut,
            )
      ]

  -- An argument that has the field elsewhere is passed over.
  round-skip :
      (item tail : List ℕ)
      → Plain d item
      → Cut d tail
      → strip_prefix ((f ∷ field) ++ b'=' ∷ []) item ≡ none
      → (strstr item (f ∷ field) ≡ none) ⊎ (round (item ++ tail) d (f ∷ field) ≡ behind_item tail)
  unfolding round match_at at_boundary
  round-skip item tail p cut e =
      let split = strip_prefix-assign (f ∷ field) item in
      elim (find d f field item p) [
        | Found.nowhere a b ↦ inl a
        | Found.inside c before s a b g h ↦ inr (
            rw
              (
                round,
                strstr-within d f field item tail (c ∷ before) s plain cut a,
                at_boundary-Plain d c before g,
                match_at,
              )
              (seek-append d s tail h cut))
        | Found.first t a b ↦
            let is_assigned : assigned t ≡ none = rw (b) at (sym split ∙ e) in
            let here : assigned (t ++ tail) ≡ none =
              assigned-append d t tail ne cut ∙ ap (glue tail) is_assigned in
            inr (
              rw
                (
                  round,
                  strstr-within d f field item tail [] item plain cut a,
                  match_at,
                  at_boundary,
                  drop-strip_prefix (f ∷ field) item t tail b,
                  value_or_seek-other d (t ++ tail) here,
                )
                (seek-append d t tail (Plain-strip_prefix d (f ∷ field) item t p b) cut))
      ]

  arg_loop-join :
      (fuel : ℕ) (item : List ℕ) (items : List (List ℕ))
      → AllPlain d (item ∷ items)
      → length items < fuel
      → arg_loop fuel (join d item items) d (f ∷ field)
        ≡ some (first_value (f ∷ field) (item ∷ items))
  unfolding arg_loop round
  arg_loop-join zero item items p h = absurd (omega arith)
  arg_loop-join (suc fuel) item [] p h =
      elim (Option-cases (strip_prefix ((f ∷ field) ++ b'=' ∷ []) item)) [
        | inr (v, e) ↦
            rw (first_value, e, arg_loop, ← append-nil item, round-value item [] v p.0 tt e) refl
        | inl e ↦ elim (round-skip item [] p.0 tt e) [
          | inr q ↦ rw (first_value, e, arg_loop, ← append-nil item, q) refl
          | inl q ↦ rw (first_value, e, arg_loop, round, q) refl
        ]
      ]
  arg_loop-join (suc fuel) item (next ∷ items) p h =
      let tail = d ∷ join d next items in
      elim (Option-cases (strip_prefix ((f ∷ field) ++ b'=' ∷ []) item)) [
        | inr (v, e) ↦ rw (first_value, e, arg_loop, round-value item tail v p.0 refl e) refl
        | inl e ↦ elim (round-skip item tail p.0 refl e) [
          | inr q ↦
              rw (first_value, e, arg_loop, q) (arg_loop-join fuel next items p.1 (omega arith))
          | inl q ↦
              let later = arg_loop-join (suc fuel) next items p.1 (omega arith) in
              rw (first_value, e, arg_loop, round-nowhere item (join d next items) q) later
        ]
      ]

length-join :
    (d : ℕ) (item : List ℕ) (items : List (List ℕ)) → length items ≤ length (join d item items)
length-join d item [] = omega arith
length-join d item (next ∷ items) =
    omega (arith, length-join d next items, length-append item (d ∷ join d next items))

-- Among arguments with a delimiter between them, `parse_conn_arg` gives the value of the first one that
-- is the field, "=" and a value, and the empty text where there is none: a field's name inside another name or inside a
-- value is passed over. The loop always ends. The name of the field is not empty, and it and the
-- arguments are without the delimiter, which is not "=".
pub parse_conn_arg-join :
    (d f : ℕ) (field item : List ℕ) (items : List (List ℕ))
    → d ≢ b'='
    → Plain d (f ∷ field)
    → AllPlain d (item ∷ items)
    → parse_conn_arg (join d item items) d (f ∷ field)
      ≡ some (first_value (f ∷ field) (item ∷ items))
unfolding parse_conn_arg
parse_conn_arg-join d f field item items ne plain p =
    arg_loop-join d f field ne plain (length (join d item items) + 1) item items p
      (omega (arith, length-join d item items))
