-- ===== src/ConfProxy/Report.antt =====
-- DataSource.report of pkg/proxy/confProxy/etcd/etcd.go, which tells etcd what became of a
-- configuration, with ConfReport of pkg/structs/conf_node.go. etcd, its clients, the clock and the
-- address of the node are parameters.
use juno_agent.Base.{◌≡◌, Option, none, some, Bool, true, false, ◌||◌, [], ◌∷◌, ◌++◌, if◌then◌else◌}
use juno_agent.Base.Text.{Bytes, codes, join}
use juno_agent.Base.Int.{ℤ}
use juno_agent.ConfKey.{ConfKey, parser_conf_key}
use juno_agent.ConfProxy.{ConfValue}

pub record ConfReport : Type 0 where
  pub file_name : Bytes
  pub md5 : Bytes
  pub hostname : Bytes
  pub env : Bytes
  pub timestamp : ℤ
  pub ip : Bytes
  pub health_port : Bytes

-- Put of a client, which tells whether it succeeds; Build of a new one; the address is empty at an
-- error.
pub record Etcd : Type 1 where
  pub World : Type 0
  pub Client : Type 0
  pub put : Client → Bytes → ConfReport → World → Bool × World
  pub build : World → Client × World
  pub now : World → ℤ
  pub local_ip : World → Bytes

unfoldable pub report_key : Bytes → ConfKey → Bytes
unfolding join
report_key prefix k =
    join (codes "/") ((prefix ++ codes "/callback") ∷ k.app_name ∷ k.file_name ∷ k.hostname ∷ [])

unfoldable pub conf_report : ConfKey → ConfValue → ℤ → Bytes → ConfReport
conf_report k v now ip = record {
  file_name = k.file_name;
  md5 = v.metadata.version;
  hostname = k.hostname;
  env = k.env_name;
  timestamp = now;
  ip = ip;
  health_port = k.port;
}

module _ (E : Etcd) where
  -- A put that fails is tried again with a new client, which is kept.
  unfoldable pub put_report : Bytes → ConfReport → E.Client → E.World → Bool × E.Client × E.World
  put_report key r client w =
      let (done, w1) = E.put client key r w in
      let (fresh, w2) = E.build w1 in
      let (again, w3) = E.put fresh key r w2 in
      if done then (true, client, w1) else (again, fresh, w3)

  -- Whether it gives no error, the client from then on and what etcd holds.
  unfoldable pub report :
      (Bytes → Option ConfValue)
      → Bytes
      → Bytes
      → Bytes
      → E.Client
      → E.World
      → Bool × E.Client × E.World
  unfolding put_report report_key conf_report parser_conf_key
  report parse_value prefix key value client w = elim (parser_conf_key key) [
    | none ↦ (false, client, w)
    | some k ↦ elim (parse_value value) [
      | none ↦ (false, client, w)
      | some v ↦
          put_report (report_key prefix k) (conf_report k v (E.now w) (E.local_ip w)) client w
    ]
  ]

  -- A put that succeeds is read back.
  pub record IsEtcd (holds : E.World → Bytes → Option ConfReport) : Type 0 where
    pub put-holds :
        (client : E.Client) (key : Bytes) (r : ConfReport) (w : E.World)
        → (E.put client key r w).0 ≡ true
        → holds (E.put client key r w).1 key ≡ some r

  -- One of two puts succeeds, the second with a new client.
  abbrev pub reaches : Bytes → ConfReport → E.Client → E.World → Bool
  reaches key r client w =
      let (done, w1) = E.put client key r w in
      let (fresh, w2) = E.build w1 in done || (E.put fresh key r w2).0
