-- ===== src/Health/Kinds/Answers.antt =====
-- What the four kinds of checks answer.
use mathlib.Core.Path.{subst}
use juno_agent.Base.{
  ◌≡◌, ◌&&◌, leb, refl, ap, sym, ◌∙◌, ◌↔◌, ◌⊎◌, inl, inr, Option, none, some, true, false, [],
  Bool-cases, Option-cases,
}
use juno_agent.Base.Text.{Bytes, codes, text_eq, text_eq_iff, is_empty}
use juno_agent.Health.{
  Component, mysql, redis, tcp, http, component_of, ResHealthCheck, Checked, checked, failed,
  crashed, do_health_check, sends,
}
use juno_agent.Health.Dsn.{Parsed, ok, err, Dsn, parse_dsn, with_timeout}
use juno_agent.Health.Kinds.{
  Network, Tried, got, wrong, tried, health_check_result, HttpConfig, HttpResponse, RedisConfig,
  TcpConfig, http_request, http_result, http_output, is_positive, http_check, mysql_check,
  redis_check, tcp_check, load_ext_config, check, kinds, error_text, method_of, target_of,
  default_http, default_redis, default_tcp, dial_options,
}

-- The name of a kind.
abbrev pub name_of : Component → Bytes
name_of mysql = codes "mysql"
name_of redis = codes "redis"
name_of tcp = codes "tcp"
name_of http = codes "http"

component_of-name : (name : Bytes) (c : Component) → component_of name ≡ some c → name_of c ≡ name
unfolding component_of
component_of-name name c h = elim (Bool-cases (text_eq name (codes "mysql"))) [
  | inl e ↦ named mysql e (rw e at h)
  | inr e1 ↦ elim (Bool-cases (text_eq name (codes "redis"))) [
    | inl e ↦ named redis e (rw (e1, e) at h)
    | inr e2 ↦ elim (Bool-cases (text_eq name (codes "tcp"))) [
      | inl e ↦ named tcp e (rw (e1, e2, e) at h)
      | inr e3 ↦ elim (Bool-cases (text_eq name (codes "http"))) [
        | inl e ↦ named http e (rw (e1, e2, e3, e) at h)
        | inr e4 ↦ absurd (cc (rw (e1, e2, e3, e4) at h))
      ]
    ]
  ]
]
  where
    named : (d : Component) → text_eq name (name_of d) ≡ true → some d ≡ some c → name_of c ≡ name
    named d e f =
        ap (λ o. elim o [ none ↦ [] | some x ↦ name_of x ]) (sym f)
        ∙ sym ((text_eq_iff name (name_of d)).0 e)

-- An answer that carries a name and tells success, or an error.
abbrev Succeeds : Bytes → Checked → Type 0
Succeeds name (checked r) = (r.component_type ≡ name) × (r.is_success ≡ true)
Succeeds name (failed e) = Unit
Succeeds name crashed = Unit

tried-Succeeds :
    {A : Type 0} (name : Bytes) (t : Tried A) (f : A → Checked)
    → ((a : A) → Succeeds name (f a))
    → Succeeds name (tried t failed f)
tried-Succeeds name (got a) f h = h a
tried-Succeeds name (wrong e) f h = tt

-- What a goroutine sends for a check.
abbrev told_by : Bytes → Checked → Option ResHealthCheck
told_by name (failed e) = some (record { component_type = name; is_success = false; msg = e })
told_by name (checked res) = some res
told_by name crashed = none

passed-Succeeds :
    (name : Bytes) (o : Option Bytes) (c : Checked)
    → Succeeds name c
    → Succeeds name (elim o [ some e ↦ failed e | none ↦ c ])
passed-Succeeds name none c h = h
passed-Succeeds name (some e) c h = tt

module _ (N : Network) where
  http_result-Succeeds :
      (c : HttpConfig) (resp : HttpResponse) (output : Bytes)
      → Succeeds (codes "http") (checked (http_result N c resp output))
  unfolding http_result health_check_result
  http_result-Succeeds c resp output =
      elim (Bool-cases (leb 200 resp.status_code && leb resp.status_code 299)) [
        | inl e ↦ rw (http_result, e) (refl, refl)
        | inr e ↦ rw (http_result, e) (refl, refl)
      ]

  http_output-Succeeds :
      (c : HttpConfig) (resp : HttpResponse) → Succeeds (codes "http") (http_output N c resp)
  unfolding http_output
  http_output-Succeeds c resp = elim (Bool-cases (is_positive c.output_max_size)) [
    | inl e ↦
        rw (http_output, e)
          (tried-Succeeds _ (N.copy c.output_max_size resp.body) _ (http_result-Succeeds c resp))
    | inr e ↦ rw (http_output, e) (passed-Succeeds _ (N.first_read resp.body) crashed tt)
  ]

  http_check-Succeeds : (c : HttpConfig) → Succeeds (codes "http") (http_check N c)
  unfolding http_check
  http_check-Succeeds c =
      passed-Succeeds _ (N.new_request (method_of c) (target_of c)) _
        (tried-Succeeds _ (N.do_request c.timeout (http_request c)) _ (http_output-Succeeds c))

  mysql_check-Succeeds : (dsn : Bytes) → Succeeds (codes "mysql") (mysql_check N dsn)
  unfolding mysql_check health_check_result
  mysql_check-Succeeds dsn = elim (Bool-cases (is_empty dsn)) [
    | inl e ↦ rw (mysql_check, e) tt
    | inr e ↦ rw (mysql_check, e) (parsed (parse_dsn N.query_unescape dsn))
  ]
    where
      opened : Checked
      opened = tried (N.open_db (with_timeout dsn)) failed (λ db. elim (N.ping db) [
        | some e ↦ failed e
        | none ↦ checked (health_check_result (codes "mysql") true (codes "success"))
      ])

      parsed :
          (p : Parsed Dsn)
          → Succeeds (codes "mysql") (elim p [ err e ↦ failed (error_text N e) | ok d ↦ opened ])
      parsed (err e) = tt
      parsed (ok d) =
          tried-Succeeds _ (N.open_db (with_timeout dsn)) _
            (λ db. passed-Succeeds _ (N.ping db) _ (refl, refl))

  redis_check-Succeeds : (c : RedisConfig) → Succeeds (codes "redis") (redis_check N c)
  unfolding redis_check health_check_result
  redis_check-Succeeds c = passed-Succeeds _ (N.dial_redis c.addr (dial_options c)) _ (refl, refl)

  tcp_check-Succeeds : (c : TcpConfig) → Succeeds (codes "tcp") (tcp_check N c)
  unfolding tcp_check health_check_result
  tcp_check-Succeeds c = tried-Succeeds _ (N.resolve c.network c.addr) _ (λ addr.
      tried-Succeeds _ (N.dial c.network addr) _
        (λ conn. passed-Succeeds _ (N.close conn) _ (refl, refl)))

  check-Succeeds : (c : Component) (text : Bytes) → Succeeds (name_of c) (check N c text)
  unfolding check
  check-Succeeds http text = tried-Succeeds _ (N.load_http default_http text) _ http_check-Succeeds
  check-Succeeds mysql text = tried-Succeeds _ (N.load_mysql [] text) _ mysql_check-Succeeds
  check-Succeeds redis text =
      tried-Succeeds _ (N.load_redis (default_redis (N.seconds 2)) text) _ redis_check-Succeeds
  check-Succeeds tcp text = tried-Succeeds _ (N.load_tcp default_tcp text) _ tcp_check-Succeeds

  do_health_check-Succeeds :
      (name text : Bytes) → Succeeds name (do_health_check (kinds N) name text)
  unfolding do_health_check kinds
  do_health_check-Succeeds name text = elim (Option-cases (component_of name)) [
    | inl e ↦ rw (do_health_check, e) tt
    | inr (c, e) ↦
        rw (do_health_check, e)
          (subst
            (λ n.
              Succeeds n
                (elim (load_ext_config N c text) [ none ↦ check N c text | some e' ↦ failed e' ]))
            (component_of-name name c e)
            (passed-Succeeds (name_of c) (load_ext_config N c text) _ (check-Succeeds c text)))
  ]

  -- Every answer that a goroutine of HealthCheck sends names the component that was asked for, and tells
  -- success exactly where the check gave no error, whatever status an HTTP server answered. A goroutine
  -- sends one unless its check panics.
  pub sends-kinds :
      (name text : Bytes)
      → ((do_health_check (kinds N) name text ≡ crashed) × (sends (kinds N) (name, text) ≡ none))
        ⊎ ((a : ResHealthCheck) × (sends (kinds N) (name, text) ≡ some a)
            × (a.component_type ≡ name)
            × ((a.is_success ≡ true)
                ↔ ((r : ResHealthCheck) × (do_health_check (kinds N) name text ≡ checked r))))
  unfolding sends
  sends-kinds name text =
      told (do_health_check (kinds N) name text) (do_health_check-Succeeds name text)
    where
      told :
          (c : Checked)
          → Succeeds name c
          → ((c ≡ crashed) × (told_by name c ≡ none))
            ⊎ ((a : ResHealthCheck) × (told_by name c ≡ some a)
                × (a.component_type ≡ name)
                × ((a.is_success ≡ true) ↔ ((r : ResHealthCheck) × (c ≡ checked r))))
      told (checked r) h = inr (r, refl, h.0, (λ _. (r, refl), λ _. h.1))
      told (failed e) h = inr (
        record { component_type = name; is_success = false; msg = e },
        refl,
        refl,
        (λ f. absurd (cc f), λ p. absurd (cc p.1)),
      )
      told crashed h = inl (refl, refl)
