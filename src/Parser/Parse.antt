-- ===== src/Parser/Parse.antt =====
-- Parser.Parse of pkg/job/parser/parser.go: a whole expression, with its time zone.
pub mod Total
pub mod Bounded
pub mod Named
use Prim.Native.Nat.{bit_and}
use juno_agent.Base.{
  ℕ, ◌+◌, ◌-◌, Option, none, some, Bool, true, false, ◌||◌, List, [], ◌∷◌, ◌==◌, if◌then◌else◌,
  take, drop,
}
use juno_agent.Base.Text.{Bytes, codes, is_empty, has_prefix, index_byte, trim_space, fields}
use juno_agent.Base.Outcome.{Outcome, ok, err, panics, ◌>>=◌, or_error}
use juno_agent.Parser.Types.{
  Location, Parsed, SpecSchedule, local, seconds, minutes, hours, dom, months, dow, empty_text,
  bad_location, no_descriptors, opt_second, opt_minute, opt_hour, opt_dom, opt_month, opt_dow,
  opt_descriptor, opt_second_optional, opt_dow_optional,
}
use juno_agent.Parser.Range.{get_field}
use juno_agent.Parser.Fields.{normalize_fields, has, count_optionals}
use juno_agent.Parser.Descriptor.{TimeText, Schedule, schedule_of, parse_descriptor}

-- NewParser, a Parser being its options; it panics at two optional fields.
unfoldable pub new_parser : ℕ → Parsed ℕ
new_parser options = elim (count_optionals options == 2) [ true ↦ panics | false ↦ ok options ]

-- The parser of the cron jobs, `myParser` of pkg/job/config.go.
abbrev pub my_parser : ℕ
my_parser = opt_second + opt_minute + opt_hour + opt_dom + opt_month + opt_dow + opt_descriptor

-- `standardParser`
abbrev pub standard_parser : ℕ
standard_parser = opt_minute + opt_hour + opt_dom + opt_month + opt_dow + opt_descriptor

-- `spec[eq+1 : i]` with i = -1 is out of range.
unfoldable pub zone_at : TimeText → Bytes → Option ℕ → Option ℕ → Parsed (Location × Bytes)
zone_at lib text (some i) (some eq) =
    or_error bad_location (lib.load_location (take (i - (eq + 1)) (drop (eq + 1) text))) >>= λ loc.
    ok (loc, trim_space (drop i text))
zone_at lib text _ _ = panics

-- The time zone in front of an expression, and the rest.
unfoldable pub split_zone : TimeText → Bytes → Parsed (Location × Bytes)
unfolding zone_at
split_zone lib text =
    if has_prefix text (codes "TZ=") || has_prefix text (codes "CRON_TZ=")
    then zone_at lib text (index_byte b' ' text) (index_byte b'=' text)
    else ok (local, text)

unfoldable pub spec_fields : Location → List Bytes → Parsed Schedule
unfolding schedule_of
spec_fields loc (f0 ∷ f1 ∷ f2 ∷ f3 ∷ f4 ∷ f5 ∷ rest) =
    schedule_of loc (get_field f0 seconds) (get_field f1 minutes) (get_field f2 hours)
      (get_field f3 dom) (get_field f4 months) (get_field f5 dow)
spec_fields loc _ = panics

unfoldable pub parse_body : TimeText → ℕ → Location → Bytes → Parsed Schedule
parse_body lib options loc text =
    if has_prefix text (codes "@")
    then if bit_and options opt_descriptor == 0
      then err no_descriptors
      else parse_descriptor lib text loc
    else normalize_fields (fields text) options >>= spec_fields loc

unfoldable pub parse : TimeText → ℕ → Bytes → Parsed Schedule
parse lib options text =
    if is_empty text
    then err empty_text
    else split_zone lib text >>= λ (loc, rest). parse_body lib options loc rest

-- ParseStandard
unfoldable pub parse_standard : TimeText → Bytes → Parsed Schedule
unfolding parse
parse_standard lib text = parse lib standard_parser text
