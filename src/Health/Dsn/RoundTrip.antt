-- ===== src/Health/Dsn/RoundTrip.antt =====
-- A data source name that is written is read back.
use juno_agent.Base.{
  ℕ, ◌≡◌, refl, sym, ap, ◌∙◌, Option, none, some, false, [], ◌∷◌, ◌++◌, arith, append_assoc,
  append-nil, All-append,
}
use juno_agent.Base.Text.{Bytes, codes, Lacks}
use juno_agent.Base.Dict.{Dict}
use juno_agent.Health.Dsn.{
  Dsn, Parsed, ok, split_first, split_last, drop_close, credentials, network, parse_dsn_params,
  database, parse_sides, parse_dsn, contains_text, with_timeout,
}

split_first-none : (b : ℕ) (s : Bytes) → Lacks b s → split_first b s ≡ none
unfolding split_first
split_first-none b [] h = refl
split_first-none b (c ∷ s) h = ground (arith, split_first-none b s h.1, h.0)

split_first-append : (b : ℕ) (p s : Bytes) → Lacks b p → split_first b (p ++ b ∷ s) ≡ some (p, s)
unfolding split_first
split_first-append b [] s h = ground arith
split_first-append b (c ∷ p) s h = ground (arith, split_first-append b p s h.1, h.0)

split_last-none : (b : ℕ) (s : Bytes) → Lacks b s → split_last b s ≡ none
unfolding split_last
split_last-none b [] h = refl
split_last-none b (c ∷ s) h = ground (arith, split_last-none b s h.1, h.0)

split_last-append : (b : ℕ) (p s : Bytes) → Lacks b s → split_last b (p ++ b ∷ s) ≡ some (p, s)
unfolding split_last
split_last-append b [] s h = ground (arith, split_last-none b s h)
split_last-append b (c ∷ p) s h = ground (arith, split_last-append b p s h)

drop_close-append : (s : Bytes) → drop_close (s ++ codes ")") ≡ some s
unfolding drop_close
drop_close-append [] = refl
drop_close-append (c ∷ []) = refl
drop_close-append (c ∷ d ∷ s) = rw (drop_close-append (d ∷ s)) refl

credentials_lem :
    (user password rest : Bytes)
    → Lacks b':' user
    → Lacks b'@' rest
    → credentials ((user ++ b':' ∷ password) ++ b'@' ∷ rest) ≡ (user, password, rest)
unfolding credentials
credentials_lem user password rest u r =
    rw
      (
        credentials,
        split_last-append b'@' (user ++ b':' ∷ password) rest r,
        split_first-append b':' user password u,
      )
      refl

network_lem :
    (net addr : Bytes)
    → Lacks b'(' net
    → network (net ++ b'(' ∷ (addr ++ codes ")")) ≡ ok (net, addr)
unfolding network
network_lem net addr h =
    rw (network, split_first-append b'(' net (addr ++ codes ")") h, drop_close-append addr) refl

-- A name with a user, a password, an address and, it may be, params.
abbrev pub query_of : Option Bytes → Bytes
query_of none = []
query_of (some text) = b'?' ∷ text

abbrev pub write_dsn : Dsn → Option Bytes → Bytes
write_dsn d query =
    ((d.user ++ b':' ∷ d.password) ++ b'@' ∷ (d.net ++ b'(' ∷ (d.addr ++ codes ")")))
    ++ b'/' ∷ (d.db_name ++ query_of query)

-- The bytes that a part may not hold.
pub record IsWritten (d : Dsn) : Type 0 where
  pub user : Lacks b':' d.user
  pub net : Lacks b'(' d.net
  pub net_at : Lacks b'@' d.net
  pub addr_at : Lacks b'@' d.addr
  pub name : Lacks b'/' d.db_name
  pub query : Lacks b'?' d.db_name

module _ (query_unescape : Bytes → Option Bytes) where
  abbrev pub read_query : Option Bytes → Parsed (Dict Bytes)
  read_query none = ok []
  read_query (some text) = parse_dsn_params query_unescape text

  database-query :
      (name : Bytes) (query : Option Bytes) (params : Dict Bytes)
      → Lacks b'?' name
      → read_query query ≡ ok params
      → database query_unescape (name ++ query_of query) ≡ ok (name, params)
  unfolding database
  database-query name none params h e =
      let p : [] ≡ params = cc in
      ap (database query_unescape) (append-nil name)
      ∙ rw (database, split_first-none b'?' name h) (ap (λ ps. ok (name, ps)) p)
  database-query name (some text) params h e =
      rw (database, split_first-append b'?' name text h, e) refl

  -- A data source name that is written is parsed back: user without ':', network without '(' and
  -- '@', address without '@', database without '/' and '?', any password, and no params or ones
  -- without '/' that are read back from their text.
  pub parse_dsn-write_dsn :
      (d : Dsn) (query : Option Bytes)
      → IsWritten d
      → Lacks b'/' (query_of query)
      → read_query query ≡ ok d.params
      → parse_dsn query_unescape (write_dsn d query) ≡ ok d
  unfolding parse_dsn parse_sides
  parse_dsn-write_dsn d query h slash e =
      let rest = d.net ++ b'(' ∷ (d.addr ++ codes ")") in
      let right = d.db_name ++ query_of query in
      let split_at =
        split_last-append b'/' ((d.user ++ b':' ∷ d.password) ++ b'@' ∷ rest) right
          (All-append _ d.db_name _ h.name slash) in
      let parts = credentials_lem d.user d.password rest h.user (
        All-append _ d.net _ h.net_at
          (omega arith, All-append _ d.addr _ h.addr_at (omega arith))) in
      rw (parse_dsn, split_at)
        (ap (λ x. parse_sides query_unescape x right) parts
          ∙ rw
              (
                parse_sides,
                network_lem d.net d.addr h.net,
                database-query d.db_name query d.params h.query e,
              )
              refl)

  -- When a name of a source without params is written, user without ':', network without '(' and '@',
  -- address without '@', database without '/' and '?', and holds no text "timeout", the timeout that
  -- is added to it is read as a part of the name of the database.
  pub with_timeout-write_dsn :
      (d : Dsn)
      → IsWritten d
      → d.params ≡ []
      → contains_text (write_dsn d none) (codes "timeout") ≡ false
      → parse_dsn query_unescape (with_timeout (write_dsn d none))
        ≡ ok (record d { db_name = d.db_name ++ codes "&timeout=2s" })
  unfolding with_timeout
  with_timeout-write_dsn d h p n =
      let d' : Dsn = record d { db_name = d.db_name ++ codes "&timeout=2s" } in
      let same : write_dsn d none ++ codes "&timeout=2s" ≡ write_dsn d' none =
        simp (append_assoc, append-nil) in
      rw n (
        ap (parse_dsn query_unescape) same ∙ parse_dsn-write_dsn d' none written tt (ap ok (sym p)))
    where
      written : IsWritten (record d { db_name = d.db_name ++ codes "&timeout=2s" })
      written = record {
        user = h.user;
        net = h.net;
        net_at = h.net_at;
        addr_at = h.addr_at;
        name = All-append _ d.db_name _ h.name (omega arith);
        query = All-append _ d.db_name _ h.query (omega arith);
      }
