-- ===== src/Api/Listen.antt =====
-- What a listener is answered, and how long it waits.
use juno_agent.Base.{
  ℕ, zero, suc, ◌+◌, ◌*◌, ◌/◌, ◌^◌, ◌%◌, ◌≤◌, ◌<◌, ◌≡◌, refl, ap, sym, ◌∙◌, ◌⊎◌, inl, inr, false,
  ◌==◌, ltb, if◌then◌else◌, Bool-cases, arith, [], ◌∷◌, ◌++◌,
}
use juno_agent.Base.Text.{Bytes, codes}
use juno_agent.Base.Int.{ℤ}
use juno_agent.Job.Keys.{digits, format_uint, parse_uint}
use juno_agent.Job.Keys.RoundTrip.{parse_uint-format_uint}
use juno_agent.ConfProxy.Listen.{Reader}
use juno_agent.ConfProxy.Values.{Source, Read, ReadError, gives, fails, get_values}
use juno_agent.ConfProxy.Watch.{listen_app_config, read_reply}
use juno_agent.Api.{
  message, not_read, reply200, reply400, parse_bool, clamp, listen_internal, wait_nanoseconds,
  listened, read, get_app_config, listen_config,
}

digits-head : (fuel n : ℕ) → n < fuel → (c : ℕ) × (s : Bytes) × (digits fuel n ≡ c ∷ s) × (b'0' ≤ c)
unfolding digits
digits-head zero n h = absurd (omega arith)
digits-head (suc fuel) n h = elim (Bool-cases (ltb n 10)) [
  | inl e ↦ (b'0' + n, [], rw e refl, omega arith)
  | inr e ↦
      let (c, s, f, d) = digits-head fuel (n / 10) (ground arith) in
      (c, s ++ ((b'0' + n % 10) ∷ []), rw (e, f) refl, d)
]

listen_internal-digits :
    (c : ℕ) (s : Bytes) (n : ℕ)
    → b'0' ≤ c
    → parse_uint (c ∷ s) ≡ n
    → 1 ≤ n
    → n < 2 ^ 63
    → listen_internal (c ∷ s) ≡ n
unfolding listen_internal clamp
listen_internal-digits c s n h e low high = ground arith

nanoseconds :
    (n : ℕ) → n ≤ 9223372037 → wait_nanoseconds n ≡ (if n == 9223372037 then 0 else n * 10 ^ 9)
unfolding wait_nanoseconds
nanoseconds n high = ground arith

Read-cases : (r : Read Bytes) → ((c : Bytes) × (r ≡ gives c)) ⊎ ((e : ReadError) × (r ≡ fails e))
Read-cases (gives c) = inl (c, refl)
Read-cases (fails e) = inr (e, refl)

-- A listener that asks for a decimal number of seconds, from 1 to 9223372036, waits for them; for
-- 9223372037 seconds it does not wait at all.
pub wait_nanoseconds-format_uint :
    (n : ℕ)
    → 1 ≤ n
    → n ≤ 9223372037
    → wait_nanoseconds (listen_internal (format_uint n))
      ≡ (if n == 9223372037 then 0 else n * 10 ^ 9)
unfolding wait_nanoseconds format_uint
wait_nanoseconds-format_uint n low high =
    let (c, s, e, d) = digits-head (n + 1) n (omega arith) in
    let t : listen_internal (format_uint n) ≡ n =
      ap listen_internal e
      ∙ listen_internal-digits c s n d
          (ap parse_uint (sym e) ∙ parse_uint-format_uint n (omega arith)) low (omega arith) in
    ap wait_nanoseconds t ∙ nanoseconds n high

-- A listener that does not watch is answered the content that a reader of the configuration gets, with
-- the time as its version, where the reader gets the content alone; and every failure of the reader as
-- the same message.
pub listen_config-get_app_config :
    (S : Source) (host : Bytes) (query : Bytes → Bytes) (now : ℤ) (reader : Reader)
    → parse_bool (query (codes "watch")) ≡ false
    → ((config : Bytes) × (get_app_config S host query (query (codes "target")) ≡ reply200 config)
        × (listen_config S host query now reader
            ≡ reply200 (record { content = config; version = now })))
      ⊎ ((e : ReadError) × (get_app_config S host query (query (codes "target"))
            ≡ reply400 (not_read e))
          × (listen_config S host query now reader ≡ reply400 (message (codes "no data change"))))
unfolding get_app_config listen_config listened read listen_app_config read_reply
listen_config-get_app_config S host query now reader off =
    elim (Read-cases (
      get_values S host (query (codes "name")) (query (codes "env")) (query (codes "target"))
        (query (codes "port")))) [
          | inl (c, e) ↦
              inl
                (c, rw (get_app_config, e) refl, rw (listen_config, off, listen_app_config, e) refl)
          | inr (c, e) ↦
              inr
                (c, rw (get_app_config, e) refl, rw (listen_config, off, listen_app_config, e) refl)
        ]
