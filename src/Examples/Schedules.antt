-- ===== src/Examples/Schedules.antt =====
-- The theorems on cron expressions and their schedules at concrete inputs.
use juno_agent.Base.{
  ℕ, ◌+◌, ◌<◌, ◌≤◌, ◌^◌, ◌-◌, none, some, true, [], ◌∷◌, ◌≡◌, ◌≢◌, ◌⊎◌, ◌↔◌, refl, arith,
}
use juno_agent.Base.Text.{fields, codes, index_byte, join, text_eq, has_prefix}
use juno_agent.Base.Dict.{lookup}
use juno_agent.Base.Int.{atoi}
use juno_agent.Base.Word.{test_bit}
use juno_agent.Base.Outcome.{Returns, ok, panics, hangs}
use juno_agent.Parser.Types.{SpecSchedule, local, hours}
use juno_agent.Parser.Bits.{get_bits}
use juno_agent.Parser.Bits.Laws.{get_bits-selects, selects}
use juno_agent.Parser.Range.{get_range, get_field, must_parse_int, parse_int_or_name}
use juno_agent.Parser.Range.Total.{get_field-Returns}
use juno_agent.Parser.Range.Grammar.{get_range-stepped}
use juno_agent.Parser.Fields.{normalize_fields, count_places, expand}
use juno_agent.Parser.Descriptor.{TimeText}
use juno_agent.Parser.Parse.{split_zone, parse_body, spec_fields, parse, my_parser}
use juno_agent.Parser.Parse.Total.{is_zoned, parse-panics}
use juno_agent.Parser.Parse.Bounded.{IsBounded, parse-IsBounded}
use juno_agent.Parser.Calendar.{Time, IsTime, rank, days_in, weekday}
use juno_agent.Parser.Next.{next, found, zero_time, day_matches}
use juno_agent.Parser.Next.Round.{Matches}
use juno_agent.Parser.Next.Search.{next-Matches, next-le}

get_bits-selects_example :
    (out : ℕ) × (get_bits 0 23 6 ≡ some out) × (test_bit out 12 ≡ selects 0 23 6 12)
get_bits-selects_example =
    get_bits-selects 0 23 6 12 (omega arith) (omega arith) (omega arith) (omega arith) (omega arith)

get_field-Returns_example : Returns (get_field (codes "1-5,*/0") hours)
get_field-Returns_example = get_field-Returns hours (omega arith) (codes "1-5,*/0")

get_range-stepped_example :
    (bits : ℕ) × (get_range
        (join (codes "/") (join (codes "-") (codes "8" ∷ codes "18" ∷ []) ∷ codes "2" ∷ []))
        hours
      ≡ ok bits)
    × (test_bit bits 10 ≡ selects 8 18 2 10)
unfolding text_eq parse_int_or_name must_parse_int lookup atoi join
get_range-stepped_example =
    get_range-stepped hours (omega arith) 10 (omega arith) (codes "8") (codes "18") (codes "2") 8 18
      2 (ground arith) (ground arith) refl refl refl refl (omega arith) (omega arith) (omega arith)
      (omega arith)

abbrev no_lib : TimeText
no_lib = record { load_location = λ s. none; parse_duration = λ s. none; parse_time = λ s. none }

parse-panics_example :
    ((parse no_lib my_parser (codes "TZ=UTC") ≡ panics)
      ↔ ((is_zoned (codes "TZ=UTC") ≡ true) × (index_byte b' ' (codes "TZ=UTC") ≡ none)))
    × (parse no_lib my_parser (codes "TZ=UTC") ≢ hangs)
parse-panics_example = parse-panics no_lib my_parser (codes "TZ=UTC")

-- Every second of the first day of a year.
abbrev new_year : SpecSchedule
new_year = record {
  second = 2 ^ 60 - 1 + 2 ^ 63;
  minute = 2 ^ 60 - 1 + 2 ^ 63;
  hour = 2 ^ 24 - 1 + 2 ^ 63;
  dom_bits = 2;
  month = 2;
  dow_bits = 2 ^ 7 - 1 + 2 ^ 63;
  location = local;
}

parse-IsBounded_example : IsBounded new_year
unfolding parse split_zone has_prefix parse_body normalize_fields fields count_places expand
    spec_fields get_field get_range text_eq get_bits parse_int_or_name lookup atoi
parse-IsBounded_example = parse-IsBounded no_lib my_parser (codes "* * * 1 1 *") new_year refl

abbrev noon : Time
noon = record {
  year = 2020;
  month = 5;
  day = 4;
  hour = 12;
  minute = 0;
  second = 0;
  nanosecond = 0;
  location = local;
}

noon-IsTime : IsTime noon
unfolding days_in
noon-IsTime = ground arith

next-Matches_example :
    (next (λ l t. t) new_year noon ≡ zero_time)
    ⊎ ((u : Time) × (next (λ l t. t) new_year noon ≡ found u)
        × Matches new_year u
        × IsTime u
        × (rank noon < rank u))
next-Matches_example = next-Matches (λ l t. t) (λ l t v. v) new_year noon noon-IsTime

-- A second of the next new year's day.
abbrev next_new_year : Time
next_new_year = record noon { year = 2021; month = 1; day = 1; hour = 7 }

next-le_example :
    (u : Time) × (next (λ l t. t) new_year noon ≡ found u)
    × Matches new_year u
    × (rank noon < rank u)
    × (rank u ≤ rank next_new_year)
unfolding days_in rank day_matches weekday
next-le_example =
    next-le (λ l t. t) (λ l t v. v) new_year noon noon-IsTime next_new_year next-IsTime next-later
      (omega arith) next_named
  where
    next-IsTime : IsTime next_new_year
    next-IsTime = ground arith

    next-later : rank noon < rank next_new_year
    next-later = omega arith

    next_named : Matches new_year next_new_year
    next_named = record {
      month_named = refl;
      day_named = refl;
      hour_named = refl;
      minute_named = refl;
      second_named = refl;
    }
