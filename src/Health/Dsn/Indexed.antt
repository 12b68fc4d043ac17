-- ===== src/Health/Dsn/Indexed.antt =====
-- The method ParseDSN of pkg/check/impl/mysql/mysql.go, on the indices that its loops run over.
pub mod Loops
pub mod Around
pub mod Sides
pub mod Same
use juno_agent.Base.{
  ℕ, zero, suc, ◌+◌, ◌-◌, Option, none, some, Bool, true, false, List, [], ◌∷◌, ◌==◌, if◌then◌else◌,
  length, get_or, take, drop,
}
use juno_agent.Base.Text.{Bytes, is_empty, contains_byte}
use juno_agent.Base.Dict.{Dict}
use juno_agent.Health.Dsn.{Dsn, Parsed, ok, err, unescaped, bad_addr, no_slash, parse_dsn_params}

-- s[i], of an index in range.
abbrev pub byte_at : Bytes → ℕ → ℕ
byte_at s i = get_or s i 0

-- s[i:j]
abbrev pub slice : Bytes → ℕ → ℕ → Bytes
slice s i j = take (j - i) (drop i s)

-- The loop from the index below n downwards: where it breaks at the byte b, if it does.
unfoldable pub down : ℕ → Bytes → ℕ → Option ℕ
down b s zero = none
down b s (suc i) = let rest = down b s i in if byte_at s i == b then some i else rest

-- The loop from an index upwards, of n rounds.
unfoldable pub up : ℕ → Bytes → ℕ → ℕ → Option ℕ
up b s k zero = none
up b s k (suc n) = let rest = up b s (suc k) n in if byte_at s k == b then some k else rest

-- The user, the password and the index behind them, of an '@' at j.
unfoldable pub user_at : Bytes → ℕ → Bytes × Bytes × ℕ
unfolding up
user_at s j = elim (up b':' s 0 j) [
  | none ↦ (slice s 0 j, [], suc j)
  | some k ↦ (slice s 0 k, slice s (suc k) j, suc j)
]

-- The same of the last '@' before the slash at i.
unfoldable pub credentials_at : Bytes → ℕ → Bytes × Bytes × ℕ
unfolding down user_at
credentials_at s i = elim (down b'@' s (suc i)) [ none ↦ ([], [], 0) | some j ↦ user_at s j ]

-- The network and the address from an index on.
unfoldable pub network_at : Bytes → ℕ → ℕ → Parsed (Bytes × Bytes)
unfolding up
network_at s start i = elim (up b'(' s start (i - start)) [
  | none ↦ ok (slice s start i, [])
  | some k ↦
      if byte_at s (i - 1) == b')'
      then ok (slice s start k, slice s (suc k) (i - 1))
      else if contains_byte b')' (slice s (suc k) i)
      then err unescaped
      else err bad_addr
]

module _ (query_unescape : Bytes → Option Bytes) where
  unfoldable pub database_at : Bytes → ℕ → Parsed (Bytes × Dict Bytes)
  unfolding up parse_dsn_params
  database_at s i = elim (up b'?' s (suc i) (length s - suc i)) [
    | none ↦ ok (slice s (suc i) (length s), [])
    | some j ↦ elim (parse_dsn_params query_unescape (slice s (suc j) (length s))) [
      | err e ↦ err e
      | ok ps ↦ ok (slice s (suc i) j, ps)
    ]
  ]

  -- The body at the slash, behind the user and the password.
  unfoldable pub sides_at : Bytes → Bytes × Bytes × ℕ → ℕ → Parsed Dsn
  unfolding network_at database_at
  sides_at s (user, password, start) i = elim (network_at s start i) [
    | err e ↦ err e
    | ok net ↦ elim (database_at s i) [
      | err e ↦ err e
      | ok db ↦ ok (record {
        user = user;
        password = password;
        net = net.0;
        addr = net.1;
        db_name = db.0;
        params = db.1;
      })
    ]
  ]

  -- Nothing is read of an empty left part, at the index 0.
  unfoldable pub body_at : Bytes → ℕ → Parsed Dsn
  unfolding database_at sides_at credentials_at
  body_at s zero = elim (database_at s 0) [
    | err e ↦ err e
    | ok db ↦
        ok (record { user = []; password = []; net = []; addr = []; db_name = db.0; params = db.1 })
  ]
  body_at s (suc i) = sides_at s (credentials_at s (suc i)) (suc i)

  unfoldable pub parse_dsn_at : Bytes → Parsed Dsn
  unfolding down body_at
  parse_dsn_at s = elim (down b'/' s (length s)) [
    | some i ↦ body_at s i
    | none ↦
        if is_empty s
        then ok
            (record { user = []; password = []; net = []; addr = []; db_name = []; params = [] })
        else err no_slash
  ]
