-- ===== src/Engine.antt =====
-- The caches of the engine: the programs of pkg/core/program.go, and the clients that upsertRegClient
-- and upsertConfClient of pkg/core/engine.go keep.
pub mod Laws
pub mod Clients
pub mod Startup
use juno_agent.Base.{
  Option, none, some, Bool, true, false, ◌&&◌, ◌||◌, not, List, [], ◌∷◌, ◌++◌, if◌then◌else◌,
}
use juno_agent.Base.Text.{Bytes, codes, text_eq}
use juno_agent.Base.Dict.{Dict, lookup, insert, remove}

-- The switch of updateProgram and updateNginxProgram, on the entry's key and status. A sync.Map is a
-- dictionary; `delete` is the only status that removes, and another one is ignored.
unfoldable pub update_program {ℓ} : {V : Type ℓ} → Bytes → Bytes → V → Dict V → Dict V
update_program status key v m =
    if text_eq status (codes "create")
    then insert key v m
    else if text_eq status (codes "delete")
    then remove key m
    else if text_eq status (codes "list")
    then insert key v m
    else if text_eq status (codes "update")
    then insert key v m
    else m

-- updateProcesses: the processes by their commands.
unfoldable pub update_processes {ℓ} : {V : Type ℓ} → List (Bytes × V) → Dict V → Dict V
update_processes [] m = m
update_processes ((command, info) ∷ infos) m = update_processes infos (insert command info m)

abbrev pub is_there {ℓ} : {V : Type ℓ} → Option V → Bool
is_there none = false
is_there (some v) = true

-- getConfigStatus: whether supervisor and systemd have a program of a file.
unfoldable pub get_config_status {ℓ} : {V : Type ℓ} → Bytes → Dict V → Bool × Bool
get_config_status path m = (
  is_there (lookup (codes "supervisor_" ++ path) m),
  is_there (lookup (codes "systemd_" ++ path) m),
)

-- A registered service of a client.
pub record ServiceNode : Type 0 where
  pub app_name : Bytes
  pub ip : Bytes
  pub port : Bytes
  pub schema : Bytes

-- A client; its nodes are nil until the first one is registered, which reads as no node.
pub record Client (C : Type 0) : Type 0 where
  pub app_name : Bytes
  pub app_envi : Bytes
  pub ip : Bytes
  pub configuration : Option C
  pub service_nodes : List ServiceNode

unfoldable pub same_service : ServiceNode → ServiceNode → Bool
same_service sn node =
    text_eq sn.ip node.ip && (text_eq sn.port node.port && text_eq sn.schema node.schema)

unfoldable pub has_service : List ServiceNode → ServiceNode → Bool
unfolding same_service
has_service [] node = false
has_service (sn ∷ sns) node = same_service sn node || has_service sns node

-- What is read of a structs.ConfNode.
pub record ConfNode (C : Type 0) : Type 0 where
  pub app_name : Bytes
  pub app_envi : Bytes
  pub ip : Bytes
  pub configuration : Option C

module _ {C : Type 0} where
  unfoldable pub hosts : Client C → ServiceNode → Bool
  hosts c node = text_eq c.app_name node.app_name && text_eq c.ip node.ip

  unfoldable pub add_service : Client C → ServiceNode → Client C
  unfolding has_service
  add_service c node =
      if has_service c.service_nodes node
      then c
      else record c { service_nodes = node ∷ c.service_nodes }

  -- upsertRegClient
  unfoldable pub upsert_reg : ServiceNode → List (Client C) → List (Client C)
  unfolding hosts add_service
  upsert_reg node [] =
      (record {
        app_name = node.app_name;
        app_envi = [];
        ip = node.ip;
        configuration = none;
        service_nodes = node ∷ [];
      })
      ∷ []
  upsert_reg node (c ∷ cs) =
      let rest = upsert_reg node cs in if hosts c node then add_service c node ∷ cs else c ∷ rest

  unfoldable pub configures : ConfNode C → Client C → Bool
  configures node c =
      text_eq c.app_name node.app_name && (text_eq c.app_envi node.app_envi && text_eq c.ip node.ip)

  -- upsertConfClient
  unfoldable pub upsert_conf : ConfNode C → List (Client C) → List (Client C)
  unfolding configures
  upsert_conf node [] =
      (record {
        app_name = node.app_name;
        app_envi = node.app_envi;
        ip = node.ip;
        configuration = node.configuration;
        service_nodes = [];
      })
      ∷ []
  upsert_conf node (c ∷ cs) =
      let rest = upsert_conf node cs in
      if configures node c then record c { configuration = node.configuration } ∷ cs else c ∷ rest
