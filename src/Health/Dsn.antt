-- ===== src/Health/Dsn.antt =====
-- Data source names of MySQL: ParseDSN and parseDSNParams of pkg/check/impl/mysql/dsn.go, and what
-- DoHealthCheck of mysql.go adds to a name. url.QueryUnescape is a parameter; `none` is its error.
pub mod RoundTrip
pub mod Indexed
use mathlib.Core.Option
use juno_agent.Base.{
  ℕ, Option, none, some, Bool, true, false, ◌||◌, List, [], ◌∷◌, ◌++◌, ◌==◌, if◌then◌else◌,
}
use juno_agent.Base.Text.{Bytes, codes, is_empty, has_prefix, split, contains_byte}
use juno_agent.Base.Dict.{Dict, insert}

pub record Dsn : Type 0 where
  pub user : Bytes
  pub password : Bytes
  pub net : Bytes
  pub addr : Bytes
  pub db_name : Bytes
  pub params : Dict Bytes

pub data DsnError : Type 0 where
  unescaped : DsnError
  bad_addr : DsnError
  no_slash : DsnError
  bad_param : DsnError

pub data Parsed (A : Type 0) : Type 0 where
  ok : A → Parsed A
  err : DsnError → Parsed A

-- The loops that look for the first or the last place of a byte: what stands on its two sides.
unfoldable pub split_first : ℕ → Bytes → Option (Bytes × Bytes)
split_first b [] = none
split_first b (c ∷ s) =
    if c == b then some ([], s) else Option.map (λ p. (c ∷ p.0, p.1)) (split_first b s)

unfoldable pub split_last : ℕ → Bytes → Option (Bytes × Bytes)
split_last b [] = none
split_last b (c ∷ s) = elim (split_last b s) [
  | some p ↦ some (c ∷ p.0, p.1)
  | none ↦ if c == b then some ([], s) else none
]

-- The text before a closing brace at its end.
unfoldable pub drop_close : Bytes → Option Bytes
drop_close [] = none
drop_close (c ∷ []) = if c == b')' then some [] else none
drop_close (c ∷ d ∷ s) = Option.map (λ t. c ∷ t) (drop_close (d ∷ s))

-- username[:password], before the last '@' if there is one; and what is behind it.
unfoldable pub credentials : Bytes → Bytes × Bytes × Bytes
unfolding split_first split_last
credentials left = elim (split_last b'@' left) [
  | none ↦ ([], [], left)
  | some (before, after) ↦ elim (split_first b':' before) [
    | none ↦ (before, [], after)
    | some (user, password) ↦ (user, password, after)
  ]
]

-- protocol[(address)]
unfoldable pub network : Bytes → Parsed (Bytes × Bytes)
unfolding split_first drop_close
network text = elim (split_first b'(' text) [
  | none ↦ ok (text, [])
  | some (net, rest) ↦ elim (drop_close rest) [
    | none ↦ if contains_byte b')' rest then err unescaped else err bad_addr
    | some addr ↦ ok (net, addr)
  ]
]

module _ (query_unescape : Bytes → Option Bytes) where
  -- The loop of parseDSNParams over the params between '&'.
  unfoldable pub add_params : List Bytes → Dict Bytes → Parsed (Dict Bytes)
  unfolding split_first
  add_params [] params = ok params
  add_params (v ∷ vs) params = elim (split_first b'=' v) [
    | none ↦ add_params vs params
    | some (name, value) ↦ elim (query_unescape value) [
      | none ↦ err bad_param
      | some text ↦ add_params vs (insert name text params)
    ]
  ]

  unfoldable pub parse_dsn_params : Bytes → Parsed (Dict Bytes)
  unfolding add_params
  parse_dsn_params params = add_params (split b'&' params) []

  -- dbname[?param1=value1&...]
  unfoldable pub database : Bytes → Parsed (Bytes × Dict Bytes)
  unfolding split_first parse_dsn_params
  database right = elim (split_first b'?' right) [
    | none ↦ ok (right, [])
    | some (db_name, params) ↦ elim (parse_dsn_params params) [
      | err e ↦ err e
      | ok ps ↦ ok (db_name, ps)
    ]
  ]

  -- The parts on the two sides of the last slash, behind the reading of the user and the password.
  unfoldable pub parse_sides : Bytes × Bytes × Bytes → Bytes → Parsed Dsn
  parse_sides (user, password, rest) right = elim (network rest) [
    | err e ↦ err e
    | ok net ↦ elim (database right) [
      | err e ↦ err e
      | ok db ↦ ok (record {
        user = user;
        password = password;
        net = net.0;
        addr = net.1;
        db_name = db.0;
        params = db.1;
      })
    ]
  ]

  unfoldable pub parse_dsn : Bytes → Parsed Dsn
  parse_dsn dsn = elim (split_last b'/' dsn) [
    | some (left, right) ↦ parse_sides (credentials left) right
    | none ↦
        if is_empty dsn
        then ok
            (record { user = []; password = []; net = []; addr = []; db_name = []; params = [] })
        else err no_slash
  ]

-- strings.Contains
unfoldable pub contains_text : Bytes → Bytes → Bool
unfolding has_prefix
contains_text [] t = has_prefix [] t
contains_text (c ∷ s) t = has_prefix (c ∷ s) t || contains_text s t

-- What DoHealthCheck of mysql.go adds to a name without a timeout.
unfoldable pub with_timeout : Bytes → Bytes
unfolding contains_text
with_timeout dsn = if contains_text dsn (codes "timeout") then dsn else dsn ++ codes "&timeout=2s"
