-- ===== src/RegProxy.antt =====
-- pkg/proxy/regProxy/proxy.go: the proxy of etcd that applications register at. The proxied server,
-- xstring.Split with Head2, url.Parse and json.Unmarshal are parameters.
pub mod Names
pub mod Prometheus
use juno_agent.Base.{
  ℕ, ◌+◌, Option, none, some, Bool, true, false, ◌||◌, List, [], ◌∷◌, ◌++◌, ltb, if◌then◌else◌,
  length,
}
use juno_agent.Base.Text.{Bytes, codes, has_prefix, trim_left, contains_byte}
use juno_agent.Base.Dict.{Dict, lookup, insert}

-- What is read of a url.URL; `host` is with the port, where there is one.
pub record Url : Type 0 where
  pub scheme : Bytes
  pub host : Bytes
  pub port : Bytes

-- head2 is the first two parts of a split; `none` is an error.
pub record Readers : Type 1 where
  pub RegInfo : Type 0
  pub head2 : Bytes → Bytes → Bytes × Bytes
  pub parse_url : Bytes → Option Url
  pub unmarshal : Bytes → Option RegInfo

-- The fields of a structs.ServiceNode that are set.
pub record RegNode (I : Type 0) : Type 0 where
  pub app_name : Bytes
  pub schema : Bytes
  pub ip : Bytes
  pub port : Bytes
  pub reg_info : I

-- A node, no node, an error of the URL, or the panic at a value that is no JSON.
pub data Extracted (I : Type 0) : Type 0 where
  node : RegNode I → Extracted I
  no_node : Extracted I
  bad_url : Extracted I
  panics : Extracted I

abbrev pub reg_prefix : Bytes
reg_prefix = codes "/reg/"

abbrev pub providers : Bytes
providers = codes "/providers/"

-- strings.TrimLeft drops leading bytes of a set, not a prefix.
abbrev pub in_reg : ℕ → Bool
in_reg c = contains_byte c reg_prefix

module _ (R : Readers) where
  -- The node of the parts of a key and its information.
  unfoldable pub reg_node : Bytes → Url → R.RegInfo → RegNode R.RegInfo
  unfolding contains_byte
  reg_node app_name url info =
      if contains_byte b':' url.host
      then (let (ip, port) = R.head2 (codes ":") url.host in
          record {
            app_name = app_name;
            schema = url.scheme;
            ip = ip;
            port = port;
            reg_info = info;
          })
      else record {
        app_name = app_name;
        schema = url.scheme;
        ip = [];
        port = url.port;
        reg_info = info;
      }

  -- The node of the two parts of a key, the name and the address.
  unfoldable pub extract_parts : Bytes × Bytes → Bytes → Extracted R.RegInfo
  unfolding reg_node
  extract_parts (app_name, addr) val = elim (R.parse_url addr) [
    | none ↦ bad_url
    | some url ↦ elim (R.unmarshal val) [
      | none ↦ panics
      | some info ↦ node (reg_node app_name url info)
    ]
  ]

  unfoldable pub extract_reg_info_v2 : Bytes → Bytes → Extracted R.RegInfo
  unfolding extract_parts trim_left contains_byte
  extract_reg_info_v2 key val = extract_parts (R.head2 providers (trim_left in_reg key)) val

  -- The `switch` of Put.
  unfoldable pub extract : Bytes → Bytes → Extracted R.RegInfo
  unfolding has_prefix extract_reg_info_v2
  extract key val =
      if has_prefix key (codes "grpc:") || has_prefix key (codes "http:")
      then no_node
      else if has_prefix key reg_prefix
      then extract_reg_info_v2 key val
      else no_node

  -- Put: the nodes that wait in the channel of 100, and whether the request is handed on to the proxied
  -- server, which a panic prevents. An error of the key does not.
  unfoldable pub put : Bytes → Bytes → List (RegNode R.RegInfo) → List (RegNode R.RegInfo) × Bool
  unfolding extract
  put key val chan = elim (extract key val) [
    | node n ↦ (if ltb (length chan) 100 then chan ++ (n ∷ []) else chan, true)
    | no_node ↦ (chan, true)
    | bad_url ↦ (chan, true)
    | panics ↦ (chan, false)
  ]
