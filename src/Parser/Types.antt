-- ===== src/Parser/Types.antt =====
-- The data of pkg/job/parser: options, bounds, bit-set schedules and the errors of parsing.
use juno_agent.Base.{ℕ, ◌^◌, [], ◌∷◌, List}
use juno_agent.Base.Text.{Bytes, codes}
use juno_agent.Base.Dict.{Dict}
use juno_agent.Base.Outcome.{Outcome}

pub data ParseError : Type 0 where
  empty_text bad_location no_descriptors : ParseError
  field_count multiple_optionals unknown_optional : ParseError
  too_many_hyphens too_many_slashes bad_int negative_number : ParseError
  below_minimum above_maximum inverted_range zero_step : ParseError
  bad_duration bad_time unrecognized : ParseError

abbrev pub Parsed : Type 0 → Type 0
Parsed A = Outcome ParseError A

-- The bits of a ParseOption.
abbrev pub opt_second : ℕ
opt_second = 1

abbrev pub opt_second_optional : ℕ
opt_second_optional = 2

abbrev pub opt_minute : ℕ
opt_minute = 4

abbrev pub opt_hour : ℕ
opt_hour = 8

abbrev pub opt_dom : ℕ
opt_dom = 16

abbrev pub opt_month : ℕ
opt_month = 32

abbrev pub opt_dow : ℕ
opt_dow = 64

abbrev pub opt_dow_optional : ℕ
opt_dow_optional = 128

abbrev pub opt_descriptor : ℕ
opt_descriptor = 256

abbrev pub places : List ℕ
places = opt_second ∷ opt_minute ∷ opt_hour ∷ opt_dom ∷ opt_month ∷ opt_dow ∷ []

abbrev pub defaults : List Bytes
defaults = codes "0" ∷ codes "0" ∷ codes "0" ∷ codes "*" ∷ codes "*" ∷ codes "*" ∷ []

-- The values that a field may take, and their names. A nil map and an empty one look up alike.
pub record Bounds : Type 0 where
  pub min : ℕ
  pub max : ℕ
  pub names : Dict ℕ

abbrev pub seconds : Bounds
seconds = record { min = 0; max = 59; names = [] }

abbrev pub minutes : Bounds
minutes = record { min = 0; max = 59; names = [] }

abbrev pub hours : Bounds
hours = record { min = 0; max = 23; names = [] }

abbrev pub dom : Bounds
dom = record { min = 1; max = 31; names = [] }

abbrev pub months : Bounds
months = record {
  min = 1;
  max = 12;
  names =
      (codes "jan", 1)
      ∷ (codes "feb", 2)
      ∷ (codes "mar", 3)
      ∷ (codes "apr", 4)
      ∷ (codes "may", 5)
      ∷ (codes "jun", 6)
      ∷ (codes "jul", 7)
      ∷ (codes "aug", 8)
      ∷ (codes "sep", 9)
      ∷ (codes "oct", 10)
      ∷ (codes "nov", 11)
      ∷ (codes "dec", 12)
      ∷ [];
}

abbrev pub dow : Bounds
dow = record {
  min = 0;
  max = 6;
  names =
      (codes "sun", 0)
      ∷ (codes "mon", 1)
      ∷ (codes "tue", 2)
      ∷ (codes "wed", 3)
      ∷ (codes "thu", 4)
      ∷ (codes "fri", 5)
      ∷ (codes "sat", 6)
      ∷ [];
}

-- The top bit of a field, set when its expression held a star.
abbrev pub star_bit : ℕ
star_bit = 2 ^ 63

-- A *time.Location: the process's own, or one that was loaded by name.
pub data Location : Type 0 where
  local : Location
  loaded : Bytes → Location

pub record SpecSchedule : Type 0 where
  pub second : ℕ
  pub minute : ℕ
  pub hour : ℕ
  pub dom_bits : ℕ
  pub month : ℕ
  pub dow_bits : ℕ
  pub location : Location
