-- ===== src/ConfKey.antt =====
-- ConfKey, ParserConfKey and the two CheckValid of pkg/structs/conf_node.go.
use juno_agent.Base.{
  Option, none, some, false, List, [], ◌∷◌, ◌≡◌, ◌↔◌, ap, if◌then◌else◌, arith, All,
}
use juno_agent.Base.Text.{Bytes, is_empty, split, join, Lacks, split-join}

pub record ConfKey : Type 0 where
  pub prefix : Bytes
  pub hostname : Bytes
  pub app_name : Bytes
  pub env_name : Bytes
  pub rest : Bytes
  pub file_name : Bytes
  pub port : Bytes

-- The eight parts of a key, the first of which is not read.
abbrev pub eight : List Bytes → Option ConfKey
eight (a0 ∷ a1 ∷ a2 ∷ a3 ∷ a4 ∷ a5 ∷ a6 ∷ a7 ∷ []) = some (record {
  prefix = a1;
  hostname = a2;
  app_name = a3;
  env_name = a4;
  rest = a5;
  file_name = a6;
  port = a7;
})
eight _ = none

-- ParserConfKey; `none` is its error.
unfoldable pub parser_conf_key : Bytes → Option ConfKey
parser_conf_key key = eight (split b'/' key)

pub data Missing : Type 0 where
  prefix app_name hostname file_name port : Missing

-- ConfKey.CheckValid: the first field that is empty, if any.
unfoldable pub check_valid : ConfKey → Option Missing
check_valid c =
    if is_empty c.prefix
    then some prefix
    else if is_empty c.app_name
    then some app_name
    else if is_empty c.hostname
    then some hostname
    else if is_empty c.file_name
    then some file_name
    else if is_empty c.port
    then some port
    else none

-- The key of a ConfKey, as the parser reads it.
abbrev pub key_of : ConfKey → Bytes
key_of c =
    join (b'/' ∷ [])
      ([] ∷ c.prefix ∷ c.hostname ∷ c.app_name ∷ c.env_name ∷ c.rest ∷ c.file_name ∷ c.port ∷ [])

-- A key whose seven fields hold no slash is parsed back.
pub parser_conf_key-key_of :
    (c : ConfKey)
    → All
        (Lacks b'/')
        (c.prefix ∷ c.hostname ∷ c.app_name ∷ c.env_name ∷ c.rest ∷ c.file_name ∷ c.port ∷ [])
    → parser_conf_key (key_of c) ≡ some c
unfolding parser_conf_key
parser_conf_key-key_of c h = ap eight (split-join b'/' [] _ (tt, h))

-- A key is valid just when its prefix, application, host, file and port are not empty.
pub check_valid-none :
    (c : ConfKey)
    → (check_valid c ≡ none) ↔ (
        All
          (λ s. is_empty s ≡ false)
          (c.prefix ∷ c.app_name ∷ c.hostname ∷ c.file_name ∷ c.port ∷ []))
unfolding check_valid
check_valid-none c = ground arith
