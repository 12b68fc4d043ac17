-- ===== src/Health/Kinds/Headers.antt =====
-- Which headers an HTTP check sends.
use juno_agent.Base.{
  ◌≡◌, refl, ◌&&◌, arith, ◌∙◌, inl, inr, some, List, [], ◌∷◌, if◌then◌else◌, Bool-cases,
}
use juno_agent.Base.Text.{Bytes, codes, text_eq, is_empty}
use juno_agent.Base.Dict.{Dict, lookup, lookup-insert}
use juno_agent.Health.Kinds.{HttpConfig, header_get, set_default, user_agent, accept, http_request}

set_default-lookup :
    (key value : Bytes) (header : Dict (List Bytes)) (other : Bytes)
    → lookup other (set_default key value header) ≡ (
        if text_eq key other && is_empty (header_get key header)
        then some (value ∷ [])
        else lookup other header)
unfolding set_default
set_default-lookup key value header other = elim (Bool-cases (is_empty (header_get key header))) [
  | inl e ↦ rw (set_default, e) (lookup-insert key other (value ∷ []) header ∙ ground arith)
  | inr e ↦ rw (set_default, e) (ground arith)
]

header_get-same :
    (key : Bytes) (h g : Dict (List Bytes))
    → lookup key h ≡ lookup key g
    → header_get key h ≡ header_get key g
unfolding header_get
header_get-same key h g e = rw (header_get, e) refl

abbrev pub default_agent : Bytes
default_agent = codes "Consul Health Check"

abbrev pub default_types : Bytes
default_types = codes "text/plain, text/*, */*"

-- Under every key a check's request has the values of the configuration, but for a user agent and an
-- accepted type whose first value is missing or empty there, which are set.
pub http_request-header :
    (c : HttpConfig) (key : Bytes)
    → lookup key (http_request c).header ≡ (
        if text_eq accept key && is_empty (header_get accept c.header)
        then some (default_types ∷ [])
        else if text_eq user_agent key && is_empty (header_get user_agent c.header)
        then some (default_agent ∷ [])
        else lookup key c.header)
unfolding http_request text_eq
http_request-header c key =
    let with_agent = set_default user_agent default_agent c.header in
    let same : header_get accept with_agent ≡ header_get accept c.header =
      header_get-same accept with_agent c.header
        (set_default-lookup user_agent default_agent c.header accept) in
    set_default-lookup accept default_types with_agent key
    ∙ rw (same, set_default-lookup user_agent default_agent c.header key) refl
