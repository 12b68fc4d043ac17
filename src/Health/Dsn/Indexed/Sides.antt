-- ===== src/Health/Dsn/Indexed/Sides.antt =====
-- The user, the password, the network and the address that the indices give.
use mathlib.Core.Option
use juno_agent.Base.{
  ℕ, suc, ◌+◌, ◌-◌, ◌≡◌, refl, sym, ap, ◌∙◌, none, some, Bool, true, false, inl, inr, ◌⊎◌, [], ◌∷◌,
  ◌++◌, ◌==◌, if◌then◌else◌, length, length-append, append_assoc, Bool-cases, arith,
}
use juno_agent.Base.Text.{Bytes, contains_byte}
use juno_agent.Health.Dsn.{
  Parsed, ok, err, unescaped, bad_addr, split_first, split_last, drop_close, credentials, network,
}
use juno_agent.Health.Dsn.Indexed.{byte_at, slice, down, user_at, credentials_at, network_at}
use juno_agent.Health.Dsn.Indexed.Loops.{split_first-Found, split_last-Found}
use juno_agent.Health.Dsn.Indexed.Around.{
  byte_of, slice_of, up_of, down_of, down-skip, before_found, after_found, length-found,
}

drop_close-last :
    (q : Bytes) (c : ℕ) → drop_close (q ++ c ∷ []) ≡ (if c == b')' then some q else none)
unfolding drop_close
drop_close-last [] c = refl
drop_close-last (d ∷ []) c = ground arith
drop_close-last (d ∷ e ∷ q) c = ground (arith, drop_close-last (e ∷ q) c)

last_of : (s : Bytes) → (s ≡ []) ⊎ ((q : Bytes) × (c : ℕ) × (s ≡ q ++ c ∷ []))
last_of [] = inl refl
last_of (a ∷ s) = elim (last_of s) [
  | inl e ↦ inr ([], a, ap (λ t. a ∷ t) e)
  | inr (q, c, e) ↦ inr (a ∷ q, c, ap (λ t. a ∷ t) e)
]

-- What stands behind the brace: whether it is closed, the address and all of it.
abbrev verdict : Bytes → Bool → Bytes → Bytes → Parsed (Bytes × Bytes)
verdict net closed addr tail =
    if closed
    then ok (net, addr)
    else if contains_byte b')' tail
    then err unescaped
    else err bad_addr

address_lem :
    (s l tail r net : Bytes) (i : ℕ)
    → s ≡ l ++ b'(' ∷ (tail ++ r)
    → i ≡ suc (length l + length tail)
    → verdict net
        (byte_at s (i - 1) == b')')
        (slice s (suc (length l)) (i - 1))
        (slice s (suc (length l)) i)
      ≡ elim (drop_close tail) [
        | none ↦ verdict net false [] tail
        | some addr ↦ verdict net true addr []
      ]
unfolding drop_close
address_lem s l tail r net i h p =
    let len = length-append l (b'(' ∷ []) in
    let from_open : s ≡ (l ++ b'(' ∷ []) ++ (tail ++ r) =
      h ∙ sym (append_assoc l (b'(' ∷ []) (tail ++ r)) in
    let all : slice s (suc (length l)) i ≡ tail =
      slice_of s (l ++ b'(' ∷ []) tail r (suc (length l)) i from_open (omega (arith, len))
        (omega (arith, p, len)) in
    rw all (elim (last_of tail) [
      | inl e ↦
          let byte : byte_at s (i - 1) ≡ b'(' =
            byte_of s l b'(' (tail ++ r) (i - 1) h (omega (arith, p, ap length e)) in
          let d : drop_close tail ≡ none = ap drop_close e in rw (byte, d) refl
      | inr (q, c, e) ↦
          let n : length tail ≡ suc (length q) =
            omega (arith, ap length e, length-append q (c ∷ [])) in
          let from_end : s ≡ (l ++ b'(' ∷ []) ++ (q ++ c ∷ r) =
            from_open ∙ ap (λ t. (l ++ b'(' ∷ []) ++ t) (rw e (append_assoc q (c ∷ []) r)) in
          let byte : byte_at s (i - 1) ≡ c =
            byte_of s ((l ++ b'(' ∷ []) ++ q) c r (i - 1)
              (from_end ∙ sym (append_assoc (l ++ b'(' ∷ []) q (c ∷ r)))
              (omega (arith, p, n, len, length-append (l ++ b'(' ∷ []) q)) in
          let addr : slice s (suc (length l)) (i - 1) ≡ q =
            slice_of s (l ++ b'(' ∷ []) q (c ∷ r) (suc (length l)) (i - 1) from_end
              (omega (arith, len)) (omega (arith, p, n, len)) in
          let d : drop_close tail ≡ (if c == b')' then some q else none) =
            ap drop_close e ∙ drop_close-last q c in
          rw (byte, addr, d)
            (elim (Bool-cases (c == b')')) [ inl t ↦ rw t refl | inr t ↦ rw t refl ])
    ])

pub network_lem :
    (s l rest r : Bytes) (start i : ℕ)
    → s ≡ l ++ (rest ++ r)
    → start ≡ length l
    → i ≡ length l + length rest
    → network_at s start i ≡ network rest
unfolding network_at network
network_lem s l rest r start i h p q =
    let n : i - start ≡ length rest = omega (arith, p, q) in
    let found = up_of b'(' s l rest r start (i - start) h p n in
    elim (split_first-Found b'(' rest) [
      | inl e ↦ rw (network_at, network, found, e, slice_of s l rest r start i h p q) refl
      | inr ((net, tail), e, parts) ↦
          let k : length rest ≡ length net + suc (length tail) =
            omega (arith, ap length parts, length-append net (b'(' ∷ tail)) in
          let from_net : s ≡ l ++ (net ++ (b'(' ∷ tail ++ r)) =
            h ∙ ap (λ t. l ++ t) (rw parts (append_assoc net (b'(' ∷ tail) r)) in
          let head : slice s start (length l + length net) ≡ net =
            slice_of s l net (b'(' ∷ tail ++ r) start (length l + length net) from_net p refl in
          let len = length-append l net in
          rw (network_at, network, found, e, head)
            (rw (sym len) (
              address_lem s (l ++ net) tail r net i
                (from_net ∙ sym (append_assoc l net (b'(' ∷ tail ++ r)))
                (omega (arith, q, k, len))))
    ]

user_lem :
    (s before r : Bytes)
    → s ≡ before ++ r
    → user_at s (length before) ≡ elim (split_first b':' before) [
      | none ↦ (before, [], suc (length before))
      | some p ↦ (p.0, p.1, suc (length before))
    ]
unfolding user_at
user_lem s before r h =
    let found = up_of b':' s [] before r 0 (length before) h refl refl in
    elim (split_first-Found b':' before) [
      | inl f ↦
          rw (user_at, found, f, slice_of s [] before r 0 (length before) h refl (omega arith)) refl
      | inr ((user, password), f, parts) ↦
          let n = length-found [] user b':' in
          let m = length-append user (b':' ∷ password) in
          rw
            (
              user_at,
              found,
              f,
              slice_of s [] user (b':' ∷ password ++ r) 0 (0 + length user)
                  (before_found s [] before r user b':' password h parts) refl refl,
              slice_of s (user ++ b':' ∷ []) password r (suc (0 + length user)) (length before)
                  (after_found s [] before r user b':' password h parts) (omega (arith, n))
                  (omega (arith, n, m, ap length parts)),
            )
            refl
    ]

pub credentials_lem :
    (s left right : Bytes)
    → s ≡ left ++ b'/' ∷ right
    → (l : Bytes) × (credentials_at s (length left)
        ≡ ((credentials left).0, (credentials left).1, length l))
      × (left ≡ l ++ (credentials left).2)
unfolding credentials_at credentials
credentials_lem s left right h =
    let byte : (byte_at s (length left) == b'@') ≡ false =
      rw (byte_of s left b'/' right (length left) h refl) refl in
    let found : down b'@' s (suc (length left))
        ≡ Option.map (λ p. length p.0) (split_last b'@' left) =
      down-skip b'@' s (length left) byte ∙ down_of b'@' s left (b'/' ∷ right) h in
    elim (split_last-Found b'@' left) [
      | inl e ↦ ([], rw (credentials_at, credentials, found, e) refl, rw (credentials, e) refl)
      | inr ((before, after), e, parts) ↦
          let user =
            user_lem s before (b'@' ∷ after ++ b'/' ∷ right)
              (before_found s [] left (b'/' ∷ right) before b'@' after h parts) in
          let l = before ++ b'@' ∷ [] in
          let n : suc (length before) ≡ length l = omega (arith, length-found [] before b'@') in
          let rest = parts ∙ sym (append_assoc before (b'@' ∷ []) after) in
          elim (split_first-Found b':' before) [
            | inl f ↦ (
              l,
              rw (credentials_at, credentials, found, e, user, f) (ap (λ t. (before, [], t)) n),
              rw (credentials, e, f) rest,
            )
            | inr (p, f, parts2) ↦ (
              l,
              rw (credentials_at, credentials, found, e, user, f) (ap (λ t. (p.0, p.1, t)) n),
              rw (credentials, e, f) rest,
            )
          ]
    ]
