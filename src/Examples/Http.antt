-- ===== src/Examples/Http.antt =====
-- The theorems on the HTTP interface, the kinds of health checks and the engine's clients at concrete
-- inputs.
use juno_agent.Base.{
  ℕ, ◌≡◌, ◌≢◌, ◌⊎◌, ◌↔◌, refl, Option, none, some, true, List, [], ◌∷◌, ◌*◌, ◌^◌, length, replicate,
  arith,
}
use juno_agent.Base.Text.{Bytes, codes, text_eq}
use juno_agent.Base.Int.{pos}
use juno_agent.Base.Outcome.{ok}
use juno_agent.Job.Keys.{format_uint}
use juno_agent.ConfProxy.Listen.{waiting}
use juno_agent.ConfProxy.Values.{Source, ReadError}
use juno_agent.Padding.{Crypto, IsCrypto, aes_cbc_decrypt}
use juno_agent.Api.{
  PmtShell, bound, reply200, reply400, message, not_read, parse_bool, listen_internal,
  wait_nanoseconds, FileSystem, plain_file, file_text, read_file_text, read_file, get_app_config,
  listen_config,
}
use juno_agent.Api.Listen.{listen_config-get_app_config, wait_nanoseconds-format_uint}
use juno_agent.Api.Download.{read_file-aes_cbc_decrypt}
use juno_agent.Health.{ResHealthCheck, checked, crashed, do_health_check, sends}
use juno_agent.Health.Kinds.{Network, got, kinds}
use juno_agent.Health.Kinds.Answers.{sends-kinds}
use juno_agent.Engine.{ServiceNode, ConfNode, same_service, has_service}
use juno_agent.Engine.Clients.{Arrival, configured, registered, arrive_all, IsKept}
use juno_agent.Engine.Clients.Arrived.{services_of, configuration_of, arrived-IsKept}
use juno_agent.Batches.{message}
use juno_agent.Job.Chain.{returns, throws, cron_calls, cron_calls_lem}

abbrev source : Source
source = record { get_values = λ ks. none; decode = λ v old. (true, v) }

abbrev no_query : Bytes → Bytes
no_query name = []

listen_config-get_app_config_example :
    ((config : Bytes) × (get_app_config source (codes "h") no_query [] ≡ reply200 config)
      × (listen_config source (codes "h") no_query (pos 5) waiting
          ≡ reply200 (record { content = config; version = pos 5 })))
    ⊎ ((e : ReadError) × (get_app_config source (codes "h") no_query [] ≡ reply400 (not_read e))
        × (listen_config source (codes "h") no_query (pos 5) waiting
            ≡ reply400 (message (codes "no data change"))))
unfolding parse_bool text_eq
listen_config-get_app_config_example =
    listen_config-get_app_config source (codes "h") no_query (pos 5) waiting refl

wait_nanoseconds-format_uint_example :
    wait_nanoseconds (listen_internal (format_uint 90)) ≡ 90 * 10 ^ 9
wait_nanoseconds-format_uint_example = wait_nanoseconds-format_uint 90 (omega arith) (omega arith)

-- A bash that keeps its arguments, and writes a line.
abbrev bash : List Bytes → List (List Bytes) → Option Bytes × Bytes × List (List Bytes)
bash arguments runs = (none, codes "ok", arguments ∷ runs)

abbrev restart : PmtShell
restart = record { pmt = codes "systemd"; app_name = codes "web"; op = pos 2 }

abbrev clear : Crypto
clear = record {
  block_size = 16;
  encrypt_blocks = λ k s. s;
  decrypt_blocks = λ k s. s;
  encode = λ s. s;
  decode = λ s. s;
}

clear-IsCrypto : IsCrypto clear
clear-IsCrypto = record {
  block_low = omega arith;
  block_high = omega arith;
  decrypts = λ k s h. refl;
  keeps_length = λ k s. refl;
  decodes = λ s. refl;
}

abbrev secret : Bytes
secret = replicate 32 b'k'

abbrev files : FileSystem
files = record { stat = λ n. plain_file; contents = λ n. file_text (codes "abc") }

read_file-aes_cbc_decrypt_example :
    ((cipher : Bytes) × (read_file files clear secret (bound (codes "/a")) ≡ reply200 cipher)
      × (aes_cbc_decrypt clear cipher secret ≡ ok (codes "abc")))
    ⊎ ((length secret ≢ 32) × (read_file files clear secret (bound (codes "/a")) ≡ reply200 []))
unfolding read_file_text
read_file-aes_cbc_decrypt_example =
    read_file-aes_cbc_decrypt files clear secret (codes "/a") (codes "abc") clear-IsCrypto refl

-- A network that answers everything, an HTTP server with the status 500.
abbrev network : Network
network = record {
  Addr = Bytes;
  Conn = Bytes;
  Db = Bytes;
  load_http = λ c t. got c;
  load_redis = λ c t. got c;
  load_tcp = λ c t. got c;
  load_mysql = λ d t. got t;
  new_request = λ m t. none;
  do_request = λ t r. got (record { status = codes "500"; status_code = 500; body = [] });
  copy = λ n b. got b;
  first_read = λ b. none;
  query_unescape = λ t. some t;
  param_error = [];
  open_db = λ d. got d;
  ping = λ d. none;
  dial_redis = λ a o. none;
  seconds = λ n. n;
  resolve = λ n a. got a;
  dial = λ n a. got a;
  close = λ c. none;
}

sends-kinds_example :
    ((do_health_check (kinds network) (codes "http") [] ≡ crashed)
      × (sends (kinds network) (codes "http", []) ≡ none))
    ⊎ ((a : ResHealthCheck) × (sends (kinds network) (codes "http", []) ≡ some a)
        × (a.component_type ≡ codes "http")
        × ((a.is_success ≡ true) ↔ (
            (r : ResHealthCheck) × (do_health_check (kinds network) (codes "http") []
              ≡ checked r))))
sends-kinds_example = sends-kinds network (codes "http") []

abbrev web : ServiceNode
web = record { app_name = codes "web"; ip = codes "h"; port = codes "80"; schema = codes "http" }

abbrev web_conf : ConfNode ℕ
web_conf = record {
  app_name = codes "web";
  app_envi = codes "live";
  ip = codes "h";
  configuration = some 3;
}

abbrev arrivals : List (Arrival ℕ)
arrivals = registered web ∷ configured web_conf ∷ registered web ∷ []

arrived-IsKept_example :
    IsKept (arrive_all arrivals [])
    × (has_service (services_of web (arrive_all arrivals [])) web ≡ true)
    × (configuration_of web_conf (arrive_all arrivals []) ≡ some 3)
unfolding same_service text_eq
arrived-IsKept_example = arrived-IsKept arrivals web web_conf

cron_calls_lem_example :
    cron_calls ((codes "a", throws []) ∷ (codes "b", returns none) ∷ [])
    ≡ (true, codes "a" ∷ codes "b" ∷ [])
cron_calls_lem_example = cron_calls_lem ((codes "a", throws []) ∷ (codes "b", returns none) ∷ [])
