-- ===== src/ConfProxy.antt =====
-- pkg/proxy/confProxy: the proxy between the applications of a node and their configurations in etcd.
-- Here are the nodes and values of pkg/structs/conf_node.go and GetConfigKey of util/common.go.
-- `Update` is what a changed key does, `Values` the reading of a configuration, `Listen` the
-- applications that wait for a change, `Watch` the events and the answers, `Report` what etcd is told.
pub mod Update
pub mod Values
pub mod Listen
pub mod Waiting
pub mod Steps
pub mod Watch
pub mod Report
use juno_agent.Base.{
  Option, none, some, Bool, true, false, ◌++◌, List, [], ◌∷◌, if◌then◌else◌, ◌==◌,
}
use juno_agent.Base.Text.{Bytes, is_empty, join}
use juno_agent.Base.Int.{ℤ, pos, negsuc}

-- MetaData and ConfValue
pub record MetaData : Type 0 where
  pub timestamp : ℤ
  pub version : Bytes
  pub format : Bytes
  pub paths : List Bytes

pub record ConfValue : Type 0 where
  pub content : Bytes
  pub metadata : MetaData

pub data Absent : Type 0 where
  no_timestamp no_format no_version no_content : Absent

abbrev pub is_zero : ℤ → Bool
is_zero (pos n) = n == 0
is_zero (negsuc n) = false

-- ConfValue.CheckValid: the first field that is empty, if any.
unfoldable pub check_value : ConfValue → Option Absent
check_value c =
    if is_zero c.metadata.timestamp
    then some no_timestamp
    else if is_empty c.metadata.format
    then some no_format
    else if is_empty c.metadata.version
    then some no_version
    else if is_empty c.content
    then some no_content
    else none

-- AppConfiguration of srv_node.go, with the metadata that are set.
pub record AppConfiguration : Type 0 where
  pub content : Bytes
  pub format : Bytes
  pub timestamp : ℤ
  pub version : Bytes

pub record ConfNode : Type 0 where
  pub app_name : Bytes
  pub app_envi : Bytes
  pub ip : Bytes
  pub port : Bytes
  pub file_name : Bytes
  pub configuration : Option AppConfiguration

-- util.GetConfigKey
unfoldable pub get_config_key : Bytes → Bytes → Bytes → Bytes → Bytes
unfolding join
get_config_key app_name app_env target port =
    join (b'/' ∷ []) (app_name ∷ app_env ∷ target ∷ port ∷ [])
