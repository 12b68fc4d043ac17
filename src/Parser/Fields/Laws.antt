-- ===== src/Parser/Fields/Laws.antt =====
-- normalizeFields never reads past the given fields, and yields six fields or an error.
use juno_agent.Base.{
  ℕ, ◌+◌, ◌-◌, ◌≡◌, refl, ◌⊎◌, inl, inr, List, [], ◌∷◌, ◌++◌, arith, length, length-append,
  Bool-cases,
}
use juno_agent.Base.Text.{Bytes, codes}
use juno_agent.Base.Outcome.{ok, err, ◌>>=◌}
use juno_agent.Parser.Types.{
  Parsed, ParseError, places, defaults, field_count, multiple_optionals, unknown_optional,
  opt_dow_optional, opt_second_optional,
}
use native.Mathlib.Decide.{dec_lt}
use juno_agent.Parser.Fields.{
  count_places, with_optionals, count_optionals, fill, expand, normalize_counted, normalize_fields,
  has,
}

-- With a field for each place the loop yields a field for each default.
expand-length :
    (options : ℕ) (ps : List ℕ) (ds fs : List Bytes)
    → length ps ≡ length ds
    → count_places options ps ≡ length fs
    → (out : List Bytes) × (expand options ps ds fs ≡ ok out) × (length out ≡ length ps)
unfolding count_places expand
expand-length options [] ds fs e c = ([], refl, refl)
expand-length options (p ∷ ps) [] fs e c = absurd (omega arith)
expand-length options (p ∷ ps) (d ∷ ds) [] e c =
    let (out, runs, len) = expand-length options ps ds [] (omega arith) (ground arith) in
    (d ∷ out, ground (arith, runs), omega arith)
expand-length options (p ∷ ps) (d ∷ ds) (f ∷ fs) e c = elim (Bool-cases (has options p)) [
  | inl given ↦
      let (out, runs, len) = expand-length options ps ds fs (omega arith) (ground arith) in
      (f ∷ out, ground (arith, runs), omega arith)
  | inr default ↦
      let (out, runs, len) = expand-length options ps ds (f ∷ fs) (omega arith) (ground arith) in
      (d ∷ out, ground (arith, runs), omega arith)
]

-- Either an error, or a list of the length.
abbrev pub Yields : ℕ → Parsed (List Bytes) → Type 0
Yields n r =
    ((e : ParseError) × (r ≡ err e)) ⊎ ((out : List Bytes) × (r ≡ ok out) × (length out ≡ n))

fill-Yields : (options : ℕ) (fields : List Bytes) → Yields (length fields + 1) (fill options fields)
unfolding fill
fill-Yields options fields = elim (Bool-cases (has options opt_dow_optional)) [
  | inl dow ↦ inr (fields ++ codes "*" ∷ [], ground arith, length-append fields (codes "*" ∷ []))
  | inr plain ↦ elim (Bool-cases (has options opt_second_optional)) [
    | inl sec ↦ inr (codes "0" ∷ fields, ground arith, omega arith)
    | inr neither ↦ inl (unknown_optional, ground arith)
  ]
]

-- With as many fields as places the loop yields six.
expand-Yields :
    (options : ℕ) (fields : List Bytes)
    → count_places options places ≡ length fields
    → Yields 6 (expand options places defaults fields)
expand-Yields options fields h = inr (expand-length options places defaults fields refl h)

fill-expand-Yields :
    (options : ℕ) (fields : List Bytes)
    → count_places options places ≡ length fields + 1
    → Yields 6 (fill options fields >>= expand options places defaults)
fill-expand-Yields options fields h = elim (fill-Yields options fields) [
  | inl (e, failed) ↦ inl (e, rw failed)
  | inr (out, filled, len) ↦ rw filled (expand-Yields options out (omega arith))
]

normalize_counted-Yields :
    (options optionals : ℕ) (fields : List Bytes)
    → Yields 6 (normalize_counted options optionals (count_places options places) fields)
unfolding normalize_counted
normalize_counted-Yields options optionals fields =
    let most = count_places options places in
    elim (dec_lt 1 optionals) [
      | yes many ↦ inl (multiple_optionals, ground arith)
      | no one ↦ elim (dec_lt (length fields) (most - optionals)) [
        | yes few ↦ inl (field_count, ground arith)
        | no enough ↦ elim (dec_lt most (length fields)) [
          | yes over ↦ inl (field_count, ground arith)
          | no within ↦ elim (dec_lt (length fields) most) [
            | yes short ↦ ground (arith, fill-expand-Yields options fields)
            | no full ↦ ground (arith, expand-Yields options fields)
          ]
        ]
      ]
    ]

-- normalizeFields yields an error or six fields, for every number of fields and every options.
pub normalize_fields-length :
    (fields : List Bytes) (options : ℕ)
    → ((e : ParseError) × (normalize_fields fields options ≡ err e))
      ⊎ ((out : List Bytes) × (normalize_fields fields options ≡ ok out) × (length out ≡ 6))
unfolding normalize_fields
normalize_fields-length fields given =
    normalize_counted-Yields (with_optionals given) (count_optionals given) fields
