-- ===== src/Health/Kinds.antt =====
-- The four kinds of health checks: pkg/check/impl/http/http.go, mysql/mysql.go with Open of mysql/orm.go,
-- redis/redis.go and tcp/tcp.go. The network, the reading of a configuration from JSON over its default,
-- gorm, redigo and circbuf are parameters; a text of theirs is that of an error.
pub mod Headers
pub mod Answers
use juno_agent.Base.{
  ℕ, Option, none, some, Bool, true, false, ◌&&◌, List, [], ◌∷◌, ◌++◌, leb, ltb, if◌then◌else◌,
}
use juno_agent.Base.Text.{Bytes, codes, is_empty}
use juno_agent.Base.Dict.{Dict, lookup, insert}
use juno_agent.Base.Int.{ℤ, pos, negsuc}
use juno_agent.Health.{
  Component, mysql, redis, tcp, http, ResHealthCheck, Checked, checked, failed, crashed, Checks,
}
use juno_agent.Health.Dsn.{
  Parsed, ok, err, DsnError, unescaped, bad_addr, no_slash, bad_param, parse_dsn, with_timeout,
}

pub record HttpConfig : Type 0 where
  pub http_url : Bytes
  pub header : Dict (List Bytes)
  pub method : Bytes
  pub body : Bytes
  pub timeout : ℤ
  pub output_max_size : ℤ
  pub proxy_http : Bytes

-- What is set of an http.Request.
pub record HttpRequest : Type 0 where
  pub method : Bytes
  pub target : Bytes
  pub body : Bytes
  pub header : Dict (List Bytes)
  pub host : Option Bytes

pub record HttpResponse : Type 0 where
  pub status : Bytes
  pub status_code : ℕ
  pub body : Bytes

pub record RedisConfig : Type 0 where
  pub dial_timeout : ℕ
  pub read_timeout : ℕ
  pub write_timeout : ℕ
  pub db : ℤ
  pub addr : Bytes
  pub pass_word : Bytes

pub data DialOption : Type 0 where
  connect_timeout : ℕ → DialOption
  read_timeout : ℕ → DialOption
  write_timeout : ℕ → DialOption
  database : ℤ → DialOption
  password : Bytes → DialOption

pub record TcpConfig : Type 0 where
  pub addr : Bytes
  pub network : Bytes

pub data Tried (A : Type 0) : Type 0 where
  got : A → Tried A
  wrong : Bytes → Tried A

abbrev pub tried {ℓ} : {A : Type 0} {B : Type ℓ} → Tried A → (Bytes → B) → (A → B) → B
tried (got a) f g = g a
tried (wrong e) f g = f e

-- Everything outside: of an HTTP check with its timeout in seconds, NewRequest, Do and the copy of a
-- body into a buffer of a size above 0, and the error of the first read of a body, if it fails; of the
-- others, the calls that they make.
pub record Network : Type 1 where
  pub Addr : Type 0
  pub Conn : Type 0
  pub Db : Type 0
  pub load_http : HttpConfig → Bytes → Tried HttpConfig
  pub load_redis : RedisConfig → Bytes → Tried RedisConfig
  pub load_tcp : TcpConfig → Bytes → Tried TcpConfig
  pub load_mysql : Bytes → Bytes → Tried Bytes
  pub new_request : Bytes → Bytes → Option Bytes
  pub do_request : ℤ → HttpRequest → Tried HttpResponse
  pub copy : ℤ → Bytes → Tried Bytes
  pub first_read : Bytes → Option Bytes
  pub query_unescape : Bytes → Option Bytes
  pub param_error : Bytes
  pub open_db : Bytes → Tried Db
  pub ping : Db → Option Bytes
  pub dial_redis : Bytes → List DialOption → Option Bytes
  pub seconds : ℕ → ℕ
  pub resolve : Bytes → Bytes → Tried Addr
  pub dial : Bytes → Addr → Tried Conn
  pub close : Conn → Option Bytes

-- HealthCheckResult, without its time.
unfoldable pub health_check_result : Bytes → Bool → Bytes → ResHealthCheck
health_check_result component_type is_success msg = record {
  component_type = component_type;
  is_success = is_success;
  msg = msg;
}

-- Header.Get and Header.Set under a canonical key.
unfoldable pub header_get : Bytes → Dict (List Bytes) → Bytes
unfolding lookup
header_get key header = elim (lookup key header) [
  | none ↦ []
  | some values ↦ elim values [ [] ↦ [] | v ∷ vs ↦ v ]
]

-- A header that is empty or missing is set.
unfoldable pub set_default : Bytes → Bytes → Dict (List Bytes) → Dict (List Bytes)
unfolding header_get insert
set_default key value header =
    if is_empty (header_get key header) then insert key (value ∷ []) header else header

abbrev pub user_agent : Bytes
user_agent = codes "User-Agent"

abbrev pub accept : Bytes
accept = codes "Accept"

-- The method and the target that a check takes.
unfoldable pub method_of : HttpConfig → Bytes
method_of c = if is_empty c.method then codes "GET" else c.method

unfoldable pub target_of : HttpConfig → Bytes
target_of c = if is_empty c.proxy_http then c.http_url else c.proxy_http

-- The request of an HTTP check, its host that of the target unless a header tells another one.
unfoldable pub http_request : HttpConfig → HttpRequest
unfolding header_get set_default method_of target_of
http_request c =
    let host = header_get (codes "Host") c.header in
    record {
      method = method_of c;
      target = target_of c;
      body = c.body;
      header =
          set_default accept (codes "text/plain, text/*, */*")
            (set_default user_agent (codes "Consul Health Check") c.header);
      host = if is_empty host then none else some host;
    }

-- The default configurations. The default timeout of redis is xtime.Duration("2s").
abbrev pub default_http : HttpConfig
default_http = record {
  http_url = [];
  header = [];
  method = [];
  body = [];
  timeout = pos 3;
  output_max_size = pos 4096;
  proxy_http = [];
}

abbrev pub default_redis : ℕ → RedisConfig
default_redis two_seconds = record {
  dial_timeout = two_seconds;
  read_timeout = two_seconds;
  write_timeout = two_seconds;
  db = pos 0;
  addr = [];
  pass_word = [];
}

abbrev pub default_tcp : TcpConfig
default_tcp = record { addr = []; network = codes "tcp" }

unfoldable pub dial_options : RedisConfig → List DialOption
dial_options c =
    connect_timeout c.dial_timeout
    ∷ read_timeout c.read_timeout
    ∷ write_timeout c.write_timeout
    ∷ database c.db
    ∷ (if is_empty c.pass_word then [] else password c.pass_word ∷ [])

abbrev pub is_positive : ℤ → Bool
is_positive (pos n) = ltb 0 n
is_positive (negsuc n) = false

module _ (N : Network) where
  -- The result for a response whose body was copied.
  unfoldable pub http_result : HttpConfig → HttpResponse → Bytes → ResHealthCheck
  unfolding health_check_result method_of target_of
  http_result c resp output =
      if leb 200 resp.status_code && leb resp.status_code 299
      then health_check_result (codes "http") true (codes "success")
      else health_check_result (codes "http") true (
          codes "HTTP "
          ++ method_of c
          ++ codes " "
          ++ target_of c
          ++ codes ": "
          ++ resp.status
          ++ codes " Output: "
          ++ output)

  -- Behind the response. The error of NewBuffer for a size that is not above 0 is not read: writing to
  -- the nil buffer and reading its text panics, unless the first read of the body fails.
  unfoldable pub http_output : HttpConfig → HttpResponse → Checked
  unfolding http_result
  http_output c resp =
      if is_positive c.output_max_size
      then tried (N.copy c.output_max_size resp.body) failed
          (λ output. checked (http_result c resp output))
      else elim (N.first_read resp.body) [ some e ↦ failed e | none ↦ crashed ]

  unfoldable pub http_check : HttpConfig → Checked
  unfolding http_request http_output
  http_check c = elim (N.new_request (method_of c) (target_of c)) [
    | some e ↦ failed e
    | none ↦ tried (N.do_request c.timeout (http_request c)) failed (http_output c)
  ]

  -- The texts of the errors of ParseDSN.
  unfoldable pub error_text : DsnError → Bytes
  error_text unescaped = codes "invalid DSN: did you forget to escape a param value"
  error_text bad_addr = codes "invalid DSN: network address not terminated (missing closing brace)"
  error_text no_slash = codes "invalid DSN: missing the slash separating the database name"
  error_text bad_param = N.param_error

  unfoldable pub mysql_check : Bytes → Checked
  unfolding health_check_result parse_dsn with_timeout error_text
  mysql_check dsn =
      if is_empty dsn
      then failed (codes "mysql dsn is nil")
      else elim (parse_dsn N.query_unescape dsn) [
        | err e ↦ failed (error_text e)
        | ok parsed ↦ tried (N.open_db (with_timeout dsn)) failed (λ db. elim (N.ping db) [
          | some e ↦ failed e
          | none ↦ checked (health_check_result (codes "mysql") true (codes "success"))
        ])
      ]

  unfoldable pub redis_check : RedisConfig → Checked
  unfolding health_check_result dial_options
  redis_check c = elim (N.dial_redis c.addr (dial_options c)) [
    | some e ↦ failed e
    | none ↦ checked (health_check_result (codes "redis") true (codes "success"))
  ]

  unfoldable pub tcp_check : TcpConfig → Checked
  unfolding health_check_result
  tcp_check c = tried (N.resolve c.network c.addr) failed (λ addr.
      tried (N.dial c.network addr) failed (λ conn. elim (N.close conn) [
        | some e ↦ failed e
        | none ↦ checked (health_check_result (codes "tcp") true (codes "success"))
      ]))

  -- LoadExtConfig of the four kinds.
  unfoldable pub load_ext_config : Component → Bytes → Option Bytes
  load_ext_config http text = tried (N.load_http default_http text) some (λ c. none)
  load_ext_config mysql text = tried (N.load_mysql [] text) some (λ c. none)
  load_ext_config redis text =
      tried (N.load_redis (default_redis (N.seconds 2)) text) some (λ c. none)
  load_ext_config tcp text = tried (N.load_tcp default_tcp text) some (λ c. none)

  -- DoHealthCheck of the four kinds, with the configuration that LoadExtConfig left.
  unfoldable pub check : Component → Bytes → Checked
  unfolding http_check mysql_check redis_check tcp_check
  check http text = tried (N.load_http default_http text) failed http_check
  check mysql text = tried (N.load_mysql [] text) failed mysql_check
  check redis text = tried (N.load_redis (default_redis (N.seconds 2)) text) failed redis_check
  check tcp text = tried (N.load_tcp default_tcp text) failed tcp_check

  unfoldable pub kinds : Checks
  unfolding load_ext_config check
  kinds = record { load_ext_config = load_ext_config; check = check }
