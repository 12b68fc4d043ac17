-- ===== src/Parser/Parse/Total.antt =====
-- Parse returns on every expression, but for a time zone with no space behind it.
use juno_agent.Base.{
  ℕ, ◌≡◌, ◌≢◌, refl, ◌↔◌, ◌⊎◌, inl, inr, Option, none, some, Bool, true, ◌||◌, List, [], ◌∷◌, arith,
  length, Bool-cases, Option-cases, drop,
}
use juno_agent.Base.Text.{Bytes, codes, has_prefix, index_byte, split, fields}
use juno_agent.Base.Outcome.{ok, err, panics, hangs, ◌>>=◌, Returns, Returns-bind}
use juno_agent.Parser.Types.{
  Location, Parsed, ParseError, seconds, minutes, hours, dom, months, dow,
}
use juno_agent.Parser.Bits.{all_bits}
use juno_agent.Parser.Range.Total.{get_field-Returns}
use juno_agent.Parser.Fields.{normalize_fields}
use juno_agent.Parser.Fields.Laws.{normalize_fields-length}
use juno_agent.Parser.Descriptor.{
  TimeText, Schedule, Kind, kind_of, by_kind, every_duration, at_times, parse_descriptor,
  read_times,
}
use juno_agent.Parser.Parse.{parse, parse_body, split_zone, spec_fields, zone_at}

read_times-Returns : (lib : TimeText) (tss : List Bytes) → Returns (read_times lib tss)
unfolding read_times
read_times-Returns lib [] = tt
read_times-Returns lib (ts ∷ tss) = ground (arith, read_times-Returns lib tss)

by_kind-Returns :
    (lib : TimeText) (text : Bytes) (loc : Location) (k : Kind) → Returns (by_kind lib text loc k)
unfolding by_kind all_bits
by_kind-Returns lib text loc every_duration = ground arith
by_kind-Returns lib text loc at_times =
    ground (arith, read_times-Returns lib (split b',' (drop 4 text)))
by_kind-Returns lib text loc _ = tt

parse_descriptor-Returns :
    (lib : TimeText) (text : Bytes) (loc : Location) → Returns (parse_descriptor lib text loc)
parse_descriptor-Returns lib text loc =
    unfold parse_descriptor in by_kind-Returns lib text loc (kind_of text)

spec_fields-Returns :
    (loc : Location) (fs : List Bytes) → length fs ≡ 6 → Returns (spec_fields loc fs)
unfolding spec_fields
spec_fields-Returns loc (f0 ∷ f1 ∷ f2 ∷ f3 ∷ f4 ∷ f5 ∷ rest) h = ground (
  arith,
  get_field-Returns seconds (omega arith) f0,
  get_field-Returns minutes (omega arith) f1,
  get_field-Returns hours (omega arith) f2,
  get_field-Returns dom (omega arith) f3,
  get_field-Returns months (omega arith) f4,
  get_field-Returns dow (omega arith) f5,
)
spec_fields-Returns loc _ h = absurd (omega arith)

parse_body-Returns :
    (lib : TimeText) (options : ℕ) (loc : Location) (text : Bytes)
    → Returns (parse_body lib options loc text)
unfolding parse_body
parse_body-Returns lib options loc text = elim (Bool-cases (has_prefix text (codes "@"))) [
  | inl at ↦ rw at (ground (arith, parse_descriptor-Returns lib text loc))
  | inr plain ↦ rw plain (fields_of (normalize_fields-length (fields text) options))
]
  where
    fields_of :
        ((e : ParseError) × (normalize_fields (fields text) options ≡ err e))
          ⊎ ((out : List Bytes) × (normalize_fields (fields text) options ≡ ok out)
              × (length out ≡ 6))
        → Returns (normalize_fields (fields text) options >>= spec_fields loc)
    fields_of (inl (e, failed)) = rw failed tt
    fields_of (inr (out, done, len)) = rw done (spec_fields-Returns loc out len)

-- An expression begins with a time zone.
abbrev pub is_zoned : Bytes → Bool
is_zoned text = has_prefix text (codes "TZ=") || has_prefix text (codes "CRON_TZ=")

-- A text that begins with a zone holds an `=`.
has_prefix-index :
    (text prefix : Bytes) (b : ℕ)
    → has_prefix text prefix ≡ true
    → index_byte b prefix ≢ none
    → index_byte b text ≢ none
unfolding has_prefix index_byte
has_prefix-index text [] b h ne = absurd (ne refl)
has_prefix-index [] (d ∷ p) b h ne = cc
has_prefix-index (c ∷ s) (d ∷ p) b h ne = ground (arith, has_prefix-index s p b)

zoned-index : (text : Bytes) → is_zoned text ≡ true → index_byte b'=' text ≢ none
zoned-index text h = elim (Bool-cases (has_prefix text (codes "TZ="))) [
  | inl tz ↦ has_prefix-index text (codes "TZ=") b'=' tz (unfold index_byte in (λ e. cc))
  | inr no_tz ↦
      has_prefix-index text (codes "CRON_TZ=") b'=' (ground arith) (unfold index_byte in (λ e. cc))
]

zone_at-Returns :
    (lib : TimeText) (text : Bytes) (i eq : Option ℕ)
    → i ≢ none
    → eq ≢ none
    → Returns (zone_at lib text i eq)
unfolding zone_at
zone_at-Returns lib text (some i) (some eq) hi he = ground arith
zone_at-Returns lib text none eq hi he = absurd (hi refl)
zone_at-Returns lib text (some i) none hi he = absurd (he refl)

split_zone-Returns :
    (lib : TimeText) (text : Bytes)
    → (is_zoned text ≡ true → index_byte b' ' text ≢ none)
    → Returns (split_zone lib text)
unfolding split_zone
split_zone-Returns lib text h = elim (Bool-cases (is_zoned text)) [
  | inl z ↦ rw z (
      zone_at-Returns lib text (index_byte b' ' text) (index_byte b'=' text) (h z)
        (zoned-index text z))
  | inr plain ↦ rw plain tt
]

-- Parse returns a schedule or an error, unless the expression begins with a zone and has no space.
parse-Returns :
    (lib : TimeText) (options : ℕ) (text : Bytes)
    → (is_zoned text ≡ true → index_byte b' ' text ≢ none)
    → Returns (parse lib options text)
unfolding parse
parse-Returns lib options [] h = tt
parse-Returns lib options (c ∷ s) h =
    Returns-bind (split_zone lib (c ∷ s)) (λ z. parse_body lib options z.0 z.1)
      (split_zone-Returns lib (c ∷ s) h) (λ z _. parse_body-Returns lib options z.0 z.1)

parse_unclosed_zone :
    (lib : TimeText) (options : ℕ) (text : Bytes)
    → is_zoned text ≡ true
    → index_byte b' ' text ≡ none
    → parse lib options text ≡ panics
unfolding parse split_zone
parse_unclosed_zone lib options [] z e = unfold has_prefix in cc
parse_unclosed_zone lib options (c ∷ s) z e = rw (z, e) (unfold zone_at in refl)

not-Returns-panics : {r : Parsed Schedule} → r ≡ panics → ¬ Returns r
not-Returns-panics e h = rw e at h

-- Parse panics exactly on an expression that begins with `TZ=` or `CRON_TZ=` and holds no space,
-- and on no expression does it run for ever.
pub parse-panics :
    (lib : TimeText) (options : ℕ) (text : Bytes)
    → ((parse lib options text ≡ panics) ↔ ((is_zoned text ≡ true) × (index_byte b' ' text ≡ none)))
      × (parse lib options text ≢ hangs)
parse-panics lib options text = elim (Bool-cases (is_zoned text)) [
  | inl z ↦ elim (Option-cases (index_byte b' ' text)) [
    | inl e ↦ let p = parse_unclosed_zone lib options text z e in ((λ _. (z, e), λ _. p), λ h. cc)
    | inr (i, e) ↦
        let r = parse-Returns lib options text (λ _ h. cc) in
        ((λ p. absurd (not-Returns-panics p r), λ h. cc), λ h. (rw h at r))
  ]
  | inr plain ↦
      let r = parse-Returns lib options text (λ z. cc) in
      ((λ p. absurd (not-Returns-panics p r), λ h. cc), λ h. (rw h at r))
]
