-- ===== src/Parser/Fields.antt =====
-- normalizeFields of pkg/job/parser/parser.go: the fields that were given, with the defaults of
-- those that the options leave out.
pub mod Laws
use Prim.Native.Nat.{bit_and, bit_or}
use juno_agent.Base.{
  ℕ, suc, ◌+◌, ◌-◌, Bool, true, false, ◌&&◌, ◌||◌, List, [], ◌∷◌, ◌++◌, ◌==◌, ltb, if◌then◌else◌,
  length, get_or,
}
use juno_agent.Base.Text.{Bytes}
use juno_agent.Base.Outcome.{ok, err, panics, ◌>>=◌}
use juno_agent.Parser.Types.{
  Parsed, places, defaults, opt_second, opt_second_optional, opt_dow, opt_dow_optional, field_count,
  multiple_optionals, unknown_optional,
}

-- options&place > 0
abbrev pub has : ℕ → ℕ → Bool
has options place = ltb 0 (bit_and options place)

abbrev pub one_if : Bool → ℕ
one_if b = if b then 1 else 0

-- How many of the places are options.
unfoldable pub count_places : ℕ → List ℕ → ℕ
count_places options [] = 0
count_places options (p ∷ ps) = one_if (has options p) + count_places options ps

abbrev pub with_optionals : ℕ → ℕ
with_optionals options =
    let seconds = if has options opt_second_optional then bit_or options opt_second else options in
    if has seconds opt_dow_optional then bit_or seconds opt_dow else seconds

abbrev pub count_optionals : ℕ → ℕ
count_optionals options =
    one_if (has options opt_second_optional) + one_if (has options opt_dow_optional)

-- The field that an optional one leaves out.
unfoldable pub fill : ℕ → List Bytes → Parsed (List Bytes)
fill options fields =
    if has options opt_dow_optional
    then ok (fields ++ get_or defaults 5 [] ∷ [])
    else if has options opt_second_optional
    then ok (get_or defaults 0 [] ∷ fields)
    else err unknown_optional

-- The loop over `places`: `fields[n]` at an option, the default elsewhere.
unfoldable pub expand : ℕ → List ℕ → List Bytes → List Bytes → Parsed (List Bytes)
expand options [] ds fs = ok []
expand options (p ∷ ps) [] fs = ok []
expand options (p ∷ ps) (d ∷ ds) [] =
    let rest = expand options ps ds [] >>= λ out. ok (d ∷ out) in
    if has options p then panics else rest
expand options (p ∷ ps) (d ∷ ds) (f ∷ fs) =
    let given = expand options ps ds fs >>= λ out. ok (f ∷ out) in
    let default = expand options ps ds (f ∷ fs) >>= λ out. ok (d ∷ out) in
    if has options p then given else default

-- The tests on the number of fields, for the options and the most fields that they allow.
unfoldable pub normalize_counted : ℕ → ℕ → ℕ → List Bytes → Parsed (List Bytes)
normalize_counted options optionals most fields =
    let least = most - optionals in
    let filled =
      if ltb least most && length fields == least then fill options fields else ok fields in
    if ltb 1 optionals
    then err multiple_optionals
    else if ltb (length fields) least || ltb most (length fields)
    then err field_count
    else filled >>= expand options places defaults

unfoldable pub normalize_fields : List Bytes → ℕ → Parsed (List Bytes)
unfolding normalize_counted
normalize_fields fields given =
    let options = with_optionals given in
    normalize_counted options (count_optionals given) (count_places options places) fields
