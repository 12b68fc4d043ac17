-- ===== src/Parser/Parse/Named.antt =====
-- The named descriptors stand for the expressions that crontab(5) gives them.
use juno_agent.Base.{◌≡◌, refl}
use juno_agent.Base.Text.{Bytes, codes, fields, text_eq, has_prefix, index_byte, trim_space}
use juno_agent.Base.Dict.{lookup}
use juno_agent.Base.Int.{atoi}
use juno_agent.Parser.Bits.{all_bits}
use juno_agent.Parser.Range.{get_field, get_range, parse_int_or_name}
use juno_agent.Parser.Fields.{normalize_fields, expand, count_places}
use juno_agent.Parser.Descriptor.{TimeText, parse_descriptor}
use juno_agent.Parser.Parse.{parse, parse_body, split_zone, spec_fields, my_parser}

pub data Name : Type 0 where
  yearly annually monthly weekly daily midnight hourly : Name

abbrev pub descriptor_of : Name → Bytes
descriptor_of yearly = codes "@yearly"
descriptor_of annually = codes "@annually"
descriptor_of monthly = codes "@monthly"
descriptor_of weekly = codes "@weekly"
descriptor_of daily = codes "@daily"
descriptor_of midnight = codes "@midnight"
descriptor_of hourly = codes "@hourly"

-- Second, minute, hour, day of month, month and day of week.
abbrev pub expression_of : Name → Bytes
expression_of yearly = codes "0 0 0 1 1 *"
expression_of annually = codes "0 0 0 1 1 *"
expression_of monthly = codes "0 0 0 1 * *"
expression_of weekly = codes "0 0 0 * * 0"
expression_of daily = codes "0 0 0 * * *"
expression_of midnight = codes "0 0 0 * * *"
expression_of hourly = codes "0 0 * * * *"

-- The parser of the cron jobs gives a named descriptor the schedule of its expression.
pub parse-descriptor_of :
    (lib : TimeText) (n : Name)
    → parse lib my_parser (descriptor_of n) ≡ parse lib my_parser (expression_of n)
unfolding parse parse_body split_zone has_prefix trim_space index_byte normalize_fields
    parse_descriptor fields text_eq count_places all_bits expand spec_fields get_field get_range
    parse_int_or_name lookup atoi
parse-descriptor_of lib yearly = refl
parse-descriptor_of lib annually = refl
parse-descriptor_of lib monthly = refl
parse-descriptor_of lib weekly = refl
parse-descriptor_of lib daily = refl
parse-descriptor_of lib midnight = refl
parse-descriptor_of lib hourly = refl
