-- ===== src/Health/Dsn/Indexed/Same.antt =====
-- The method on indices reads what the parts of a name give.
use juno_agent.Base.{
  suc, ◌+◌, ◌-◌, ◌≡◌, refl, sym, ap, ◌∙◌, Option, inl, inr, [], ◌∷◌, ◌++◌, length, length-append,
  append_assoc, append-nil, arith,
}
use juno_agent.Base.Text.{Bytes}
use juno_agent.Base.Dict.{Dict}
use juno_agent.Health.Dsn.{
  Dsn, Parsed, ok, err, split_first, split_last, credentials, network, database, parse_dsn_params,
  parse_sides, parse_dsn,
}
use juno_agent.Health.Dsn.Indexed.{slice, database_at, sides_at, body_at, parse_dsn_at}
use juno_agent.Health.Dsn.Indexed.Loops.{split_first-Found, split_last-Found}
use juno_agent.Health.Dsn.Indexed.Around.{
  slice_of, up_of, down_of, before_found, after_found, length-found,
}
use juno_agent.Health.Dsn.Indexed.Sides.{network_lem, credentials_lem}

module _ (query_unescape : Bytes → Option Bytes) where
  database_lem :
      (s l right : Bytes)
      → s ≡ l ++ b'/' ∷ right
      → database_at query_unescape s (length l) ≡ database query_unescape right
  unfolding database_at database
  database_lem s l right h =
      let from : s ≡ (l ++ b'/' ∷ []) ++ (right ++ []) = h ∙ simp (append_assoc, append-nil) in
      let n : length s ≡ suc (length l) + length right =
        omega (arith, ap length h, length-append l (b'/' ∷ right)) in
      let len = length-append l (b'/' ∷ []) in
      let found =
        up_of b'?' s (l ++ b'/' ∷ []) right [] (suc (length l)) (length s - suc (length l)) from
          (omega (arith, len)) (omega (arith, n)) in
      elim (split_first-Found b'?' right) [
        | inl e ↦
            rw
              (
                database_at,
                database,
                found,
                e,
                slice_of s (l ++ b'/' ∷ []) right [] (suc (length l)) (length s) from
                    (omega (arith, len)) (omega (arith, len, n)),
              )
              refl
        | inr ((name, params), e, parts) ↦
            let k = length (l ++ b'/' ∷ []) + length name in
            let e1 : slice s (suc (length l)) k ≡ name =
              slice_of s (l ++ b'/' ∷ []) name (b'?' ∷ params ++ []) (suc (length l)) k
                (before_found s (l ++ b'/' ∷ []) right [] name b'?' params from parts)
                (omega (arith, len)) refl in
            let m = length-found (l ++ b'/' ∷ []) name b'?' in
            let e2 : slice s (suc k) (length s) ≡ params =
              slice_of s ((l ++ b'/' ∷ []) ++ (name ++ b'?' ∷ [])) params [] (suc k) (length s)
                (after_found s (l ++ b'/' ∷ []) right [] name b'?' params from parts)
                (omega (arith, m))
                (omega (arith, m, n, len, ap length parts, length-append name (b'?' ∷ params))) in
            let named : Bytes → Parsed (Bytes × Dict Bytes) = λ t.
              elim (parse_dsn_params query_unescape params) [
                | err e ↦ err e
                | ok ps ↦ ok (t, ps)
              ] in
            rw (database_at, database, found, e, e2) (ap named e1)
      ]

  sides_lem :
      (s left right l user password rest : Bytes)
      → s ≡ left ++ b'/' ∷ right
      → left ≡ l ++ rest
      → sides_at query_unescape s (user, password, length l) (length left)
        ≡ parse_sides query_unescape (user, password, rest) right
  unfolding sides_at parse_sides
  sides_lem s left right l user password rest h e =
      let from : s ≡ l ++ (rest ++ b'/' ∷ right) = h ∙ rw e (append_assoc l rest (b'/' ∷ right)) in
      let n : length left ≡ length l + length rest =
        omega (arith, ap length e, length-append l rest) in
      let behind : Parsed (Bytes × Dict Bytes) → Parsed Dsn = λ d. elim (network rest) [
        | err f ↦ err f
        | ok net ↦ elim d [
          | err f ↦ err f
          | ok db ↦ ok (record {
            user = user;
            password = password;
            net = net.0;
            addr = net.1;
            db_name = db.0;
            params = db.1;
          })
        ]
      ] in
      rw
        (
          sides_at,
          parse_sides,
          network_lem s l rest (b'/' ∷ right) (length l) (length left) from refl n,
        )
        (ap behind (database_lem s left right h))

  body_lem :
      (s left right : Bytes)
      → s ≡ left ++ b'/' ∷ right
      → body_at query_unescape s (length left) ≡ parse_sides query_unescape (credentials left) right
  unfolding body_at parse_sides credentials network split_last split_first
  body_lem s [] right h =
      let d : database_at query_unescape s 0 ≡ database query_unescape right =
        database_lem s [] right h in
      rw (body_at, parse_sides, credentials, network, d) refl
  body_lem s (c ∷ left) right h =
      let (l, e, parts) = credentials_lem s (c ∷ left) right h in
      let (user, password, rest) = credentials (c ∷ left) in
      rw (body_at, e) (sides_lem s (c ∷ left) right l user password rest h parts)

  -- For every text, the method of MysqlHealthCheck, whose loops run over the indices of the text, reads
  -- the same as the splitting of the text at the last slash, the last @ before it, the first colon, the
  -- first brace and the first question mark, errors included.
  pub parse_dsn_at-parse_dsn :
      (s : Bytes) → parse_dsn_at query_unescape s ≡ parse_dsn query_unescape s
  unfolding parse_dsn_at parse_dsn
  parse_dsn_at-parse_dsn s =
      let found = down_of b'/' s s [] (sym (append-nil s)) in
      elim (split_last-Found b'/' s) [
        | inl e ↦ rw (parse_dsn_at, parse_dsn, found, e) refl
        | inr (p, e, parts) ↦ rw (parse_dsn_at, parse_dsn, found, e) (body_lem s p.0 p.1 parts)
      ]
