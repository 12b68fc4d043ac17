-- ===== src/ConfProxy/Watch.antt =====
-- The loop of DataSource.watch in pkg/proxy/confProxy/etcd/etcd.go, and what the applications that
-- listen by ConfProxy.ListenAppConfig and ListenRawKeyAppConfig of pkg/proxy/confProxy/proxy.go are
-- answered.
pub mod Told
use juno_agent.Base.{ℕ, Option, none, some, Bool, true, false, List, [], ◌∷◌}
use juno_agent.Base.Text.{Bytes}
use juno_agent.ConfProxy.{ConfNode, AppConfiguration, get_config_key}
use juno_agent.ConfProxy.Update.{Outside, Updated, updated, refused, update}
use juno_agent.ConfProxy.Values.{Source, Read, gives, fails, get_values, get_raw_values}
use juno_agent.ConfProxy.Listen.{
  Reader, before, waiting, received, timed_out, Registry, store_app_chan_info,
}

pub record Agent (O : Outside) : Type 0 where
  pub registry : Registry
  pub world : O.World

-- Behind the update, whose node is stored under its common key; `none` is a panic. It goes on at an
-- update that is refused, and whatever becomes of the report.
unfoldable pub put_updated :
    {O : Outside} → Bytes → Bytes → Agent O → Updated × O.World → Option (Agent O)
unfolding get_config_key store_app_chan_info
put_updated key value a (refused e, w) = some (record a { world = w })
put_updated {O} key value a (updated node, w) =
    let common_key = get_config_key node.app_name node.app_envi node.file_name node.port in
    elim (store_app_chan_info common_key key node a.registry) [
      | none ↦ none
      | some r ↦ some (record { registry = r; world = (O.report key value w).1 })
    ]

-- What watch does at a PUT of a key and a value.
unfoldable pub put : {O : Outside} → Bytes → Bytes → Agent O → Option (Agent O)
unfolding update put_updated
put {O} key value a = put_updated key value a (update O key value a.world)

-- What a request that listens is answered, where the time of the answer is left out.
pub data Reply : Type 0 where
  content : Bytes → Reply
  get_failed : Reply
  config_nil : Reply
  no_change : Reply
  pending : Reply
  crashes : Reply

-- With watch: by where its reader stands. The nil of a closed channel is dereferenced.
unfoldable pub watch_reply : Reader → Reply
watch_reply before = pending
watch_reply waiting = pending
watch_reply timed_out = no_change
watch_reply (received none) = crashes
watch_reply (received (some node)) = elim node.configuration [
  | none ↦ config_nil
  | some c ↦ content c.content
]

-- Without watch: by the configuration that etcd holds.
unfoldable pub read_reply : Read Bytes → Reply
read_reply (gives c) = content c
read_reply (fails e) = get_failed

-- ConfProxy.ListenAppConfig and ListenRawKeyAppConfig, `reader` being where the request's own reader
-- stands.
unfoldable pub listen_app_config :
    Source → Bytes → Bool → Reader → Bytes → Bytes → Bytes → Bytes → Reply
unfolding watch_reply read_reply get_values
listen_app_config S host true reader app_name app_env target port = watch_reply reader
listen_app_config S host false reader app_name app_env target port =
    read_reply (get_values S host app_name app_env target port)

unfoldable pub listen_raw_key_app_config : Source → Bool → Reader → Bytes → Reply
unfolding watch_reply read_reply get_raw_values
listen_raw_key_app_config S true reader raw_key = watch_reply reader
listen_raw_key_app_config S false reader raw_key = read_reply (get_raw_values S raw_key)
