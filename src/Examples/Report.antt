-- ===== src/Examples/Report.antt =====
-- The theorem on the reports of configurations at concrete inputs.
use juno_agent.Base.{◌≡◌, some, Bool, true, false, arith, []}
use juno_agent.Base.Text.{Bytes, codes}
use juno_agent.Base.Int.{pos}
use juno_agent.Base.Dict.{Dict, lookup, insert, lookup-insert_self}
use juno_agent.ConfKey.{ConfKey}
use juno_agent.ConfProxy.{ConfValue}
use juno_agent.ConfProxy.Report.{ConfReport, Etcd, IsEtcd}

abbrev live_key : ConfKey
live_key = record {
  prefix = codes "juno-agent";
  hostname = codes "host";
  app_name = codes "web";
  env_name = codes "live";
  rest = codes "static";
  file_name = codes "app.toml";
  port = codes "80";
}

abbrev live_value : ConfValue
live_value = record {
  content = codes "a";
  metadata = record { timestamp = pos 5; version = codes "v1"; format = codes "toml"; paths = [] };
}

-- A client that is new writes, the first one does not.
abbrev put : Bool → Bytes → ConfReport → Dict ConfReport → Bool × Dict ConfReport
put false key r w = (false, w)
put true key r w = (true, insert key r w)

abbrev etcd : Etcd
etcd = record {
  World = Dict ConfReport;
  Client = Bool;
  put = put;
  build = λ w. (true, w);
  now = λ w. pos 7;
  local_ip = λ w. codes "10.0.0.1";
}

put-lookup :
    (client : Bool) (key : Bytes) (r : ConfReport) (w : Dict ConfReport)
    → (put client key r w).0 ≡ true
    → lookup key (put client key r w).1 ≡ some r
put-lookup false key r w h = ground (arith, h)
put-lookup true key r w h = lookup-insert_self key r w

abbrev etcd-IsEtcd : IsEtcd etcd (λ w key. lookup key w)
etcd-IsEtcd = record { put-holds = put-lookup }
