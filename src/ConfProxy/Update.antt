-- ===== src/ConfProxy/Update.antt =====
-- DataSource.update and AppConfigScanner of pkg/proxy/confProxy/etcd/etcd.go. What reads a value's
-- JSON, writes a file and reports to etcd is a parameter.
use juno_agent.Base.{Option, none, some, Bool, true, false, List, [], ◌∷◌, if◌then◌else◌}
use juno_agent.Base.Text.{Bytes}
use juno_agent.ConfKey.{ConfKey, Missing, parser_conf_key, check_valid}
use juno_agent.ConfProxy.{ConfValue, Absent, check_value, ConfNode}

-- ParserConfValue, whose error is `none`; util.WriteFile of a path and a content, and the report of a
-- key and a value, which tell whether they succeed.
pub record Outside : Type 1 where
  pub World : Type 0
  pub parse_value : Bytes → Option ConfValue
  pub write_file : Bytes → Bytes → World → Bool × World
  pub report : Bytes → Bytes → World → Bool × World

pub data UpdateError : Type 0 where
  key_invalid : UpdateError
  key_check : Missing → UpdateError
  value_invalid : UpdateError
  value_check : Absent → UpdateError
  write_failed : UpdateError

pub data Updated : Type 0 where
  updated : ConfNode → Updated
  refused : UpdateError → Updated

-- The node of a key and a value that are valid.
unfoldable pub conf_node : ConfKey → ConfValue → ConfNode
conf_node key value = record {
  app_name = key.app_name;
  app_envi = key.env_name;
  ip = [];
  file_name = key.file_name;
  port = key.port;
  configuration = some (record {
    content = value.content;
    format = value.metadata.format;
    timestamp = value.metadata.timestamp;
    version = value.metadata.version;
  });
}

module _ (O : Outside) where
  -- The loop over the paths, up to the first that cannot be written.
  unfoldable pub write_paths : List Bytes → Bytes → O.World → Bool × O.World
  write_paths [] content w = (true, w)
  write_paths (path ∷ paths) content w =
      let (written, w') = O.write_file path content w in
      let rest = write_paths paths content w' in if written then rest else (false, w')

  -- Behind the checks.
  unfoldable pub write_node : ConfKey → ConfValue → O.World → Updated × O.World
  unfolding write_paths conf_node
  write_node key value w =
      let (written, w') = write_paths value.metadata.paths value.content w in
      (if written then updated (conf_node key value) else refused write_failed, w')

  unfoldable pub update : Bytes → Bytes → O.World → Updated × O.World
  unfolding write_node check_valid check_value parser_conf_key
  update key value w = elim (parser_conf_key key) [
    | none ↦ (refused key_invalid, w)
    | some k ↦ elim (check_valid k) [
      | some m ↦ (refused (key_check m), w)
      | none ↦ elim (O.parse_value value) [
        | none ↦ (refused value_invalid, w)
        | some v ↦ elim (check_value v) [
          | some a ↦ (refused (value_check a), w)
          | none ↦ write_node k v w
        ]
      ]
    ]
  ]

  -- AppConfigScanner, behind its read of etcd: the nodes of the keys that are updated, in order. A
  -- report that fails changes nothing of this.
  unfoldable pub scan : List (Bytes × Bytes) → O.World → List ConfNode × O.World
  unfolding update
  scan [] w = ([], w)
  scan ((key, value) ∷ kvs) w =
      let (result, w') = update key value w in
      elim result [
        | refused e ↦ scan kvs w'
        | updated node ↦ let rest = scan kvs (O.report key value w').1 in (node ∷ rest.0, rest.1)
      ]
