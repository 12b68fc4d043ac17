-- ===== src/Engine/Laws.antt =====
-- What the caches of the engine hold after an update.
use juno_agent.Base.{
  Option, none, some, true, ◌||◌, not, List, [], ◌∷◌, ◌≡◌, ap, if◌then◌else◌, arith, Bool-cases,
  inl, inr,
}
use juno_agent.Base.Text.{Bytes, codes, text_eq, text_eq_iff, text_eq_refl}
use juno_agent.Base.Dict.{Dict, lookup, lookup-insert, lookup-remove}
use juno_agent.Engine.{
  ServiceNode, Client, ConfNode, same_service, has_service, hosts, add_service, upsert_reg,
  configures, upsert_conf, update_program,
}

same_service_refl : (n : ServiceNode) → same_service n n ≡ true
unfolding same_service
same_service_refl n = rw (text_eq_refl n.ip, text_eq_refl n.port, text_eq_refl n.schema)

module _ {C : Type 0} where
  new_hosts : (n : ServiceNode) (c : Client C) → hosts (add_service c n) n ≡ hosts c n
  unfolding hosts add_service
  new_hosts n c = ground arith

  add_service_twice :
      (n : ServiceNode) (c : Client C) → add_service (add_service c n) n ≡ add_service c n
  unfolding add_service has_service
  add_service_twice n c = elim (Bool-cases (has_service c.service_nodes n)) [
    | inl e ↦ rw (e, e)
    | inr e ↦ rw (e, same_service_refl n)
  ]

  -- Registering a service node again changes nothing.
  pub upsert_reg-upsert_reg :
      (n : ServiceNode) (cs : List (Client C)) → upsert_reg n (upsert_reg n cs) ≡ upsert_reg n cs
  unfolding upsert_reg
  upsert_reg-upsert_reg n [] =
      rw (text_eq_refl n.app_name, text_eq_refl n.ip, text_eq_refl n.port, text_eq_refl n.schema)
  upsert_reg-upsert_reg n (c ∷ cs) = elim (Bool-cases (hosts c n)) [
    | inl e ↦ rw (e, new_hosts n c, e) (ap (λ d. d ∷ cs) (add_service_twice n c))
    | inr e ↦ rw (e, e) (ap (λ ds. c ∷ ds) (upsert_reg-upsert_reg n cs))
  ]

  -- The configuration of the first client that a configuration node is for.
  unfoldable pub config_of : ConfNode C → List (Client C) → Option (Option C)
  config_of n [] = none
  config_of n (c ∷ cs) =
      let rest = config_of n cs in if configures n c then some c.configuration else rest

  -- A configuration that is put is what its client has.
  pub upsert_conf-config_of :
      (n : ConfNode C) (cs : List (Client C))
      → config_of n (upsert_conf n cs) ≡ some n.configuration
  unfolding upsert_conf config_of configures
  upsert_conf-config_of n [] =
      rw (text_eq_refl n.app_name, text_eq_refl n.app_envi, text_eq_refl n.ip)
  upsert_conf-config_of n (c ∷ cs) = ground (arith, upsert_conf-config_of n cs)

-- What the cache of programs holds under a key after an update: the new entry for the statuses that
-- store, nothing after a deletion, and what it held for another status or another key.
pub lookup-update_program {ℓ} :
    {V : Type ℓ} (status key : Bytes) (v : V) (m : Dict V) (k : Bytes)
    → lookup k (update_program status key v m) ≡ (
        if not (text_eq key k)
        then lookup k m
        else if text_eq status (codes "delete")
        then none
        else if text_eq status (codes "create")
            || (text_eq status (codes "list") || text_eq status (codes "update"))
        then some v
        else lookup k m)
unfolding update_program
lookup-update_program status key v m k = ground (
  arith,
  lookup-insert key k v m,
  lookup-remove key k m,
  text_eq_iff status (codes "create"),
  text_eq_iff status (codes "delete"),
)
