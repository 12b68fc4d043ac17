-- ===== src/Examples/Proxy.antt =====
-- The theorems on the configuration proxy at concrete inputs.
use juno_agent.Base.{ℕ, ◌+◌, ◌≡◌, refl, some, true, false, [], ◌∷◌, if◌then◌else◌, arith}
use juno_agent.Base.Text.{codes, text_eq, is_empty}
use juno_agent.Base.Dict.{lookup}
use juno_agent.Base.Int.{pos, atoi}
use juno_agent.ConfKey.{ConfKey, key_of, check_valid}
use juno_agent.ConfProxy.{ConfNode, ConfValue, get_config_key, check_value}
use juno_agent.ConfProxy.Update.{Outside, write_paths, conf_node}
use juno_agent.ConfProxy.Values.{
  Source, host_key, cluster_key, port_of, attempt, choose, source_values, get_values,
}
use juno_agent.ConfProxy.Values.Preferred.{Given, get_values-Given}
use juno_agent.ConfProxy.Listen.{Registry, no_listener, listen, begin, store_app_chan_info}
use juno_agent.ConfProxy.Waiting.{told, answered}
use juno_agent.ConfProxy.Steps.{Reach, start, step, listens, begins, store_app_chan_info-answered}
use juno_agent.ConfProxy.Watch.{Agent, put, content, crashes, watch_reply}
use juno_agent.ConfProxy.Watch.Told.{common_key, put-content, put-crashes}

abbrev a_value : ConfValue
a_value = record {
  content = codes "k=1";
  metadata = record {
    timestamp = pos 1;
    version = codes "v1";
    format = codes "toml";
    paths = codes "/c" ∷ [];
  };
}

abbrev outside : Outside
outside = record {
  World = ℕ;
  parse_value = λ v. some a_value;
  write_file = λ p c w. (true, w + 1);
  report = λ k v w. (true, w);
}

abbrev a_key : ConfKey
a_key = record {
  prefix = codes "juno-agent";
  hostname = codes "h";
  app_name = codes "app";
  env_name = codes "live";
  rest = codes "static";
  file_name = codes "f";
  port = codes "90";
}

abbrev listener : Registry
listener = listen (common_key a_key) no_listener

abbrev reader : Registry
reader = begin 0 listener

listener-Reach : Reach listener
listener-Reach = step start (listens (common_key a_key) no_listener)

reader-Reach : Reach reader
unfolding listen
reader-Reach = step listener-Reach (begins 0 listener (omega arith))

abbrev a_node : ConfNode
a_node = conf_node a_key a_value

store_app_chan_info-answered_example :
    (r' : Registry) × (store_app_chan_info (common_key a_key) (key_of a_key) a_node reader
      ≡ some r')
    × ((i : ℕ)
        → r'.chans i ≡ (
            if told (common_key a_key) (key_of a_key) reader.jm i
            then answered (common_key a_key) (key_of a_key) a_node (reader.chans i)
            else reader.chans i))
store_app_chan_info-answered_example =
    store_app_chan_info-answered (common_key a_key) (key_of a_key) a_node reader reader-Reach

put-content_example :
    (b : Agent outside) × (put (key_of a_key) (codes "{}") (record { registry = reader; world = 0 })
      ≡ some b)
    × (watch_reply (b.registry.chans 0).reader ≡ content (codes "k=1"))
unfolding check_valid check_value write_paths begin listen text_eq get_config_key
put-content_example =
    put-content outside a_key (codes "{}") a_value (record { registry = reader; world = 0 }) 1
      (omega arith) refl refl refl refl reader-Reach 0 refl refl

put-crashes_example :
    (b : Agent outside) × (put
        (key_of a_key)
        (codes "{}")
        (record { registry = listener; world = 0 })
      ≡ some b)
    × (watch_reply ((begin 0 b.registry).chans 0).reader ≡ crashes)
unfolding check_valid check_value write_paths listen text_eq get_config_key
put-crashes_example =
    put-crashes outside a_key (codes "{}") a_value (record { registry = listener; world = 0 }) 1
      (omega arith) refl refl refl refl listener-Reach 0 refl refl

abbrev source : Source
source = record {
  get_values =
      λ keys. some ((cluster_key (codes "app") (codes "live") (codes "f"), codes "k=2") ∷ []);
  decode = λ value old. (true, value);
}

get_values-Given_example :
    (is_empty (codes "k=2") ≡ false)
    × Given source (codes "h") (codes "app") (codes "live") (codes "f") (codes "90") (codes "k=2")
unfolding get_values source_values port_of atoi choose attempt lookup text_eq host_key cluster_key
get_values-Given_example =
    get_values-Given source (codes "h") (codes "app") (codes "live") (codes "f") (codes "90")
      (codes "k=2") refl
