-- ===== src/ConfProxy/Values.antt =====
-- GetValues and GetRawValues of pkg/proxy/confProxy/etcd/etcd.go, and the methods of ConfProxy in
-- pkg/proxy/confProxy/proxy.go on top of them.
pub mod Preferred
use juno_agent.Base.{
  ℕ, suc, ◌+◌, Option, none, some, Bool, true, false, ◌||◌, List, [], ◌∷◌, ◌++◌, ◌==◌, ltb,
  if◌then◌else◌,
}
use juno_agent.Base.Text.{Bytes, codes, is_empty, join}
use juno_agent.Base.Dict.{Dict, lookup, insert}
use juno_agent.Base.Int.{ℤ, pos, negsuc, atoi}
use juno_agent.Job.Keys.{format_uint}
use juno_agent.ConfProxy.{get_config_key}

pub data ReadError : Type 0 where
  wrong_port : ReadError
  invalid_param : ReadError
  etcd_failed : ReadError
  no_etcd_config : ReadError
  unknown_config : ReadError

pub data Read {ℓ} (A : Type ℓ) : Type ℓ where
  gives : A → Read A
  fails : ReadError → Read A

-- What etcd answers for some keys, or its error; and jsoniter.Unmarshal of a ServiceConf, as far as its
-- content: whether it succeeds, and the content then, which starts from the one of before.
pub record Source : Type 0 where
  pub get_values : List Bytes → Option (Dict Bytes)
  pub decode : Bytes → Bytes → Bool × Bytes

-- The keys that GetValues reads: that of the host, and that of all hosts.
abbrev pub agent_prefix : Bytes
agent_prefix = codes "juno-agent"

unfoldable pub host_key : Bytes → Bytes → Bytes → Bytes → ℕ → Bytes
unfolding join format_uint
host_key host app_name app_env target port = join (b'/' ∷ []) (
    [] ∷ agent_prefix ∷ host ∷ app_name ∷ app_env ∷ codes "static" ∷ target ∷ format_uint port ∷ [])

unfoldable pub cluster_key : Bytes → Bytes → Bytes → Bytes
unfolding join
cluster_key app_name app_env target =
    join (b'/' ∷ [])
      ([] ∷ agent_prefix ∷ codes "cluster" ∷ app_name ∷ app_env ∷ codes "static" ∷ target ∷ [])

-- A port that strconv.Atoi reads as a number above 0.
unfoldable pub port_of : Bytes → Option ℕ
unfolding atoi
port_of port = elim (atoi port) [
  | none ↦ none
  | some (negsuc n) ↦ none
  | some (pos n) ↦ if n == 0 then none else some n
]

module _ (S : Source) where
  -- An attempt to read what etcd holds under a key, `old` being the content before it.
  unfoldable pub attempt : Option Bytes → Bytes → Bool × Bytes
  attempt none old = (false, old)
  attempt (some value) old = S.decode value old

  -- The two attempts of GetValues.
  unfoldable pub choose : Bytes → Bytes → Dict Bytes → Read Bytes
  unfolding attempt
  choose host app held =
      let (here, content) = attempt (lookup host held) [] in
      let (there, content') = attempt (lookup app held) content in
      if here then gives content else if there then gives content' else fails no_etcd_config

  -- DataSource.GetValues: the content that is put under the common key of its result.
  unfoldable pub source_values : Bytes → Bytes → Bytes → Bytes → Bytes → Read Bytes
  unfolding port_of host_key cluster_key choose
  source_values host app_name app_env target port = elim (port_of port) [
    | none ↦ fails wrong_port
    | some n ↦
        if is_empty app_name || is_empty app_env
        then fails invalid_param
        else (let host = host_key host app_name app_env target n in
            let app = cluster_key app_name app_env target in
            elim (S.get_values (host ∷ app ∷ [])) [
              | none ↦ fails etcd_failed
              | some held ↦ choose host app held
            ])
  ]

  -- DataSource.GetRawValues: the second attempt is made on the content that the first one left.
  unfoldable pub source_raw_values : Bytes → Read Bytes
  unfolding attempt
  source_raw_values raw_key = elim (S.get_values (raw_key ∷ [])) [
    | none ↦ fails etcd_failed
    | some held ↦
        let (first, content) = attempt (lookup raw_key held) [] in
        let (second, content') = attempt (lookup raw_key held) content in
        if first then gives content else if second then gives content' else fails no_etcd_config
  ]

  -- An empty content is an unknown one.
  abbrev pub not_empty : Read Bytes → Read Bytes
  not_empty (fails e) = fails e
  not_empty (gives c) = if is_empty c then fails unknown_config else gives c

  -- ConfProxy.GetValues and ConfProxy.GetRawValues
  unfoldable pub get_values : Bytes → Bytes → Bytes → Bytes → Bytes → Read Bytes
  unfolding source_values
  get_values host app_name app_env target port =
      not_empty (source_values host app_name app_env target port)

  unfoldable pub get_raw_values : Bytes → Read Bytes
  unfolding source_raw_values
  get_raw_values raw_key = not_empty (source_raw_values raw_key)
