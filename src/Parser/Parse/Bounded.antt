-- ===== src/Parser/Parse/Bounded.antt =====
-- A parsed bit-set schedule names values of its fields only.
use juno_agent.Base.{
  ℕ, ◌^◌, ◌≤◌, ◌<◌, ◌≡◌, ap, ◌∙◌, some, Bool, true, false, List, [], ◌∷◌, arith, ◌==◌,
  if◌then◌else◌,
}
use Prim.Native.Nat.{bit_or, bit_and}
use juno_agent.Base.Text.{Bytes, codes, has_prefix, fields}
use juno_agent.Base.Word.{test_bit, test_bit-bit_or, test_bit-pow}
use juno_agent.Base.Outcome.{ok, >>=-eq-ok}
use juno_agent.Parser.Types.{
  Bounds, Location, Parsed, SpecSchedule, seconds, minutes, hours, dom, months, dow, star_bit,
  opt_descriptor,
}
use juno_agent.Parser.Bits.{get_bits, all_bits}
use juno_agent.Parser.Bits.Laws.{get_bits-selects}
use juno_agent.Parser.Range.{get_field}
use juno_agent.Parser.Range.Laws.{Fits}
use juno_agent.Parser.Range.Total.{get_field-Fits}
use juno_agent.Parser.Fields.{normalize_fields}
use juno_agent.Parser.Descriptor.{
  TimeText, Schedule, cron, Kind, yearly, monthly, weekly, daily, hourly, every_duration, at_times,
  other, table, schedule_of, by_kind, kind_of, first, parse_descriptor,
}
use juno_agent.Parser.Parse.{parse, parse_body, split_zone, spec_fields}

-- Every bit below 64 of a field is a value of the field or the star bit.
pub record IsBounded (s : SpecSchedule) : Type 0 where
  pub second_fits : Fits seconds s.second
  pub minute_fits : Fits minutes s.minute
  pub hour_fits : Fits hours s.hour
  pub dom_fits : Fits dom s.dom_bits
  pub month_fits : Fits months s.month
  pub dow_fits : Fits dow s.dow_bits

-- The result of a field is within its bounds.
abbrev FieldFits : Bounds → Parsed ℕ → Type 0
FieldFits r p = (bits : ℕ) → p ≡ ok bits → Fits r bits

first-FieldFits : (r : Bounds) → r.min ≤ r.max → FieldFits r (first r)
first-FieldFits r h bits e v t is_set =
    let e' : 2 ^ r.min ≡ bits = cc in
    let s : test_bit (2 ^ r.min) v ≡ true = ap (λ b. test_bit b v) e' ∙ is_set in
    ground (arith, test_bit-pow r.min v)

all_bits-ok :
    (r : Bounds) (out : ℕ)
    → get_bits r.min r.max 1 ≡ some out
    → all_bits r ≡ ok (bit_or out star_bit)
unfolding all_bits
all_bits-ok r out h = ground (arith, h)

all_bits-FieldFits : (r : Bounds) → r.min ≤ r.max → r.max < 63 → FieldFits r (all_bits r)
all_bits-FieldFits r h m bits e v t is_set =
    let (out, runs, at_v) = get_bits-selects r.min r.max 1 v (omega arith) (omega arith) h m t in
    let e' : bit_or out star_bit ≡ bits = cc (all_bits-ok r out runs) in
    let s : test_bit (bit_or out star_bit) v ≡ true = ap (λ b. test_bit b v) e' ∙ is_set in
    ground (arith, at_v, test_bit-bit_or out star_bit v, test_bit-pow 63 v)

get_field-FieldFits : (r : Bounds) (field : Bytes) → r.max < 63 → FieldFits r (get_field field r)
get_field-FieldFits r field h = get_field-Fits r h field

-- A schedule that some parsed fields and a location make up.
abbrev BoundedResult : Parsed Schedule → Type 0
BoundedResult p = (s : SpecSchedule) → p ≡ ok (cron s) → IsBounded s

schedule_of-ok :
    (loc : Location) (a b c d e f : Parsed ℕ) (s : SpecSchedule)
    → schedule_of loc a b c d e f ≡ ok (cron s)
    → (a ≡ ok s.second)
      × (b ≡ ok s.minute)
      × (c ≡ ok s.hour)
      × (d ≡ ok s.dom_bits)
      × (e ≡ ok s.month)
      × (f ≡ ok s.dow_bits)
unfolding schedule_of
schedule_of-ok loc a b c d e f s h = ground arith

schedule_of-BoundedResult :
    (loc : Location) (a b c d e f : Parsed ℕ)
    → FieldFits seconds a
    → FieldFits minutes b
    → FieldFits hours c
    → FieldFits dom d
    → FieldFits months e
    → FieldFits dow f
    → BoundedResult (schedule_of loc a b c d e f)
schedule_of-BoundedResult loc a b c d e f fa fb fc fd fe ff s h =
    let p = schedule_of-ok loc a b c d e f s h in
    record {
      second_fits = fa s.second p.0;
      minute_fits = fb s.minute p.1;
      hour_fits = fc s.hour p.2;
      dom_fits = fd s.dom_bits p.3;
      month_fits = fe s.month p.4;
      dow_fits = ff s.dow_bits p.5;
    }

-- The schedule of a descriptor.
table-BoundedResult :
    (loc : Location) (c d e f : Parsed ℕ)
    → FieldFits hours c
    → FieldFits dom d
    → FieldFits months e
    → FieldFits dow f
    → BoundedResult (table loc c d e f)
table-BoundedResult loc c d e f =
    schedule_of-BoundedResult loc (first seconds) (first minutes) c d e f
      (first-FieldFits seconds (omega arith)) (first-FieldFits minutes (omega arith))

by_kind-BoundedResult :
    (lib : TimeText) (text : Bytes) (loc : Location) (k : Kind)
    → BoundedResult (by_kind lib text loc k)
unfolding by_kind
by_kind-BoundedResult lib text loc every_duration = λ s e. ground arith
by_kind-BoundedResult lib text loc at_times = λ s e. ground arith
by_kind-BoundedResult lib text loc other = λ s e. cc
by_kind-BoundedResult lib text loc yearly =
    table-BoundedResult loc (first hours) (first dom) (first months) (all_bits dow)
      (first-FieldFits hours (omega arith)) (first-FieldFits dom (omega arith))
      (first-FieldFits months (omega arith)) (all_bits-FieldFits dow (omega arith) (omega arith))
by_kind-BoundedResult lib text loc monthly =
    table-BoundedResult loc (first hours) (first dom) (all_bits months) (all_bits dow)
      (first-FieldFits hours (omega arith)) (first-FieldFits dom (omega arith))
      (all_bits-FieldFits months (omega arith) (omega arith))
      (all_bits-FieldFits dow (omega arith) (omega arith))
by_kind-BoundedResult lib text loc weekly =
    table-BoundedResult loc (first hours) (all_bits dom) (all_bits months) (first dow)
      (first-FieldFits hours (omega arith)) (all_bits-FieldFits dom (omega arith) (omega arith))
      (all_bits-FieldFits months (omega arith) (omega arith)) (first-FieldFits dow (omega arith))
by_kind-BoundedResult lib text loc daily =
    table-BoundedResult loc (first hours) (all_bits dom) (all_bits months) (all_bits dow)
      (first-FieldFits hours (omega arith)) (all_bits-FieldFits dom (omega arith) (omega arith))
      (all_bits-FieldFits months (omega arith) (omega arith))
      (all_bits-FieldFits dow (omega arith) (omega arith))
by_kind-BoundedResult lib text loc hourly =
    table-BoundedResult loc (all_bits hours) (all_bits dom) (all_bits months) (all_bits dow)
      (all_bits-FieldFits hours (omega arith) (omega arith))
      (all_bits-FieldFits dom (omega arith) (omega arith))
      (all_bits-FieldFits months (omega arith) (omega arith))
      (all_bits-FieldFits dow (omega arith) (omega arith))

spec_fields-BoundedResult : (loc : Location) (fs : List Bytes) → BoundedResult (spec_fields loc fs)
unfolding spec_fields
spec_fields-BoundedResult loc (f0 ∷ f1 ∷ f2 ∷ f3 ∷ f4 ∷ f5 ∷ rest) =
    schedule_of-BoundedResult loc (get_field f0 seconds) (get_field f1 minutes) (get_field f2 hours)
      (get_field f3 dom) (get_field f4 months) (get_field f5 dow)
      (get_field-FieldFits seconds f0 (omega arith)) (get_field-FieldFits minutes f1 (omega arith))
      (get_field-FieldFits hours f2 (omega arith)) (get_field-FieldFits dom f3 (omega arith))
      (get_field-FieldFits months f4 (omega arith)) (get_field-FieldFits dow f5 (omega arith))
spec_fields-BoundedResult loc _ = λ s e. cc

parse_descriptor-BoundedResult :
    (lib : TimeText) (text : Bytes) (loc : Location) → BoundedResult (parse_descriptor lib text loc)
unfolding parse_descriptor
parse_descriptor-BoundedResult lib text loc = by_kind-BoundedResult lib text loc (kind_of text)

if-BoundedResult :
    (b : Bool) (p q : Parsed Schedule)
    → BoundedResult p
    → BoundedResult q
    → BoundedResult (if b then p else q)
if-BoundedResult true p q hp hq = hp
if-BoundedResult false p q hp hq = hq

parse_body-BoundedResult :
    (lib : TimeText) (options : ℕ) (loc : Location) (text : Bytes)
    → BoundedResult (parse_body lib options loc text)
unfolding parse_body
parse_body-BoundedResult lib options loc text =
    if-BoundedResult (has_prefix text (codes "@")) _ _
      (if-BoundedResult (bit_and options opt_descriptor == 0) _ _ (λ s e. cc)
        (parse_descriptor-BoundedResult lib text loc))
      (λ s e.
        let (fs, at_fs, e') =
          >>=-eq-ok (normalize_fields (fields text) options) (spec_fields loc) e in
        spec_fields-BoundedResult loc fs s e')

-- A bit-set schedule that Parse returns sets no bit outside the bounds of its six fields, but for
-- the star bit.
pub parse-IsBounded :
    (lib : TimeText) (options : ℕ) (text : Bytes) (s : SpecSchedule)
    → parse lib options text ≡ ok (cron s)
    → IsBounded s
unfolding parse
parse-IsBounded lib options [] s e = cc
parse-IsBounded lib options (c ∷ t) s e =
    let (z, at_z, e') =
      >>=-eq-ok (split_zone lib (c ∷ t)) (λ z. parse_body lib options z.0 z.1) e in
    parse_body-BoundedResult lib options z.0 z.1 s e'
