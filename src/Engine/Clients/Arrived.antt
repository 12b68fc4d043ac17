-- ===== src/Engine/Clients/Arrived.antt =====
-- What the engine has of the nodes that arrived: the services that were registered, and of every
-- configuration the last one.
use juno_agent.Base.{
  Option, none, Bool, true, false, ◌&&◌, ◌||◌, List, [], ◌∷◌, ◌≡◌, refl, ◌∙◌, ap, if◌then◌else◌,
  arith,
}
use juno_agent.Base.Text.{text_eq, text_eq_iff}
use juno_agent.Engine.{
  ServiceNode, Client, ConfNode, same_service, has_service, hosts, add_service, upsert_reg,
  configures, upsert_conf,
}
use juno_agent.Engine.Clients.{
  Arrival, configured, registered, arrive, arrive_all, IsKept, arrive_all-IsKept,
}

-- The same application, host, port and schema.
abbrev pub same_node : ServiceNode → ServiceNode → Bool
same_node m n = text_eq m.app_name n.app_name && text_eq m.ip n.ip && same_service m n

has_service-same :
    (ns : List ServiceNode) (m n : ServiceNode)
    → same_service m n ≡ true
    → has_service ns m ≡ has_service ns n
unfolding has_service same_service
has_service-same [] m n h = refl
has_service-same (s ∷ ns) m n h =
    let ip = (text_eq_iff m.ip n.ip).0 (ground (arith, h)) in
    let port = (text_eq_iff m.port n.port).0 (ground (arith, h)) in
    let schema = (text_eq_iff m.schema n.schema).0 (ground (arith, h)) in
    let rest = has_service-same ns m n h in rw rest (rw (ip, port, schema) refl)

module _ {C : Type 0} where
  -- The services of the first client of the application and host of a node.
  abbrev pub services_of : ServiceNode → List (Client C) → List ServiceNode
  services_of n [] = []
  services_of n (c ∷ cs) =
      let rest = services_of n cs in if hosts c n then c.service_nodes else rest

  -- The configuration of the first client of the application, environment and host of a node.
  abbrev pub configuration_of : ConfNode C → List (Client C) → Option C
  configuration_of k [] = none
  configuration_of k (c ∷ cs) =
      let rest = configuration_of k cs in if configures k c then c.configuration else rest

  abbrev pub is_registered : ServiceNode → List (Arrival C) → Bool
  is_registered n [] = false
  is_registered n (configured j ∷ rest) = is_registered n rest
  is_registered n (registered m ∷ rest) = same_node m n || is_registered n rest

  abbrev pub same_key : ConfNode C → ConfNode C → Bool
  same_key j k =
      text_eq j.app_name k.app_name && (text_eq j.app_envi k.app_envi && text_eq j.ip k.ip)

  -- The configuration that arrived last, behind an earlier one.
  abbrev pub last_configuration : ConfNode C → List (Arrival C) → Option C → Option C
  last_configuration k [] earlier = earlier
  last_configuration k (registered m ∷ rest) earlier = last_configuration k rest earlier
  last_configuration k (configured j ∷ rest) earlier =
      last_configuration k rest (if same_key j k then j.configuration else earlier)

  services_of-upsert_reg :
      (m n : ServiceNode) (cs : List (Client C))
      → has_service (services_of n (upsert_reg m cs)) n
        ≡ (same_node m n || has_service (services_of n cs) n)
  unfolding upsert_reg has_service hosts add_service
  services_of-upsert_reg m n [] = ground (arith, text_eq_iff m.app_name n.app_name)
  services_of-upsert_reg m n (c ∷ cs) = ground (
    arith,
    services_of-upsert_reg m n cs,
    has_service-same c.service_nodes m n,
    text_eq_iff c.app_name m.app_name,
    text_eq_iff c.app_name n.app_name,
    text_eq_iff m.app_name n.app_name,
    text_eq_iff c.ip m.ip,
    text_eq_iff c.ip n.ip,
    text_eq_iff m.ip n.ip,
  )

  services_of-upsert_conf :
      (k : ConfNode C) (n : ServiceNode) (cs : List (Client C))
      → services_of n (upsert_conf k cs) ≡ services_of n cs
  unfolding upsert_conf hosts
  services_of-upsert_conf k n [] = ground arith
  services_of-upsert_conf k n (c ∷ cs) = ground (arith, services_of-upsert_conf k n cs)

  configuration_of-upsert_reg :
      (m : ServiceNode) (k : ConfNode C) (cs : List (Client C))
      → configuration_of k (upsert_reg m cs) ≡ configuration_of k cs
  unfolding upsert_reg add_service configures
  configuration_of-upsert_reg m k [] = ground arith
  configuration_of-upsert_reg m k (c ∷ cs) = ground (arith, configuration_of-upsert_reg m k cs)

  configuration_of-upsert_conf :
      (j k : ConfNode C) (cs : List (Client C))
      → configuration_of k (upsert_conf j cs)
        ≡ (if same_key j k then j.configuration else configuration_of k cs)
  unfolding upsert_conf configures
  configuration_of-upsert_conf j k [] = ground arith
  configuration_of-upsert_conf j k (c ∷ cs) = ground (
    arith,
    configuration_of-upsert_conf j k cs,
    text_eq_iff c.app_name j.app_name,
    text_eq_iff c.app_name k.app_name,
    text_eq_iff j.app_name k.app_name,
    text_eq_iff c.app_envi j.app_envi,
    text_eq_iff c.app_envi k.app_envi,
    text_eq_iff j.app_envi k.app_envi,
    text_eq_iff c.ip j.ip,
    text_eq_iff c.ip k.ip,
    text_eq_iff j.ip k.ip,
  )

  services_of-arrive_all :
      (arrivals : List (Arrival C)) (n : ServiceNode) (cs : List (Client C))
      → has_service (services_of n (arrive_all arrivals cs)) n
        ≡ (is_registered n arrivals || has_service (services_of n cs) n)
  unfolding arrive_all arrive
  services_of-arrive_all [] n cs = refl
  services_of-arrive_all (configured k ∷ rest) n cs =
      ground
        (arith, services_of-arrive_all rest n (upsert_conf k cs), services_of-upsert_conf k n cs)
  services_of-arrive_all (registered m ∷ rest) n cs =
      ground (arith, services_of-arrive_all rest n (upsert_reg m cs), services_of-upsert_reg m n cs)

  configuration_of-arrive_all :
      (arrivals : List (Arrival C)) (k : ConfNode C) (cs : List (Client C))
      → configuration_of k (arrive_all arrivals cs)
        ≡ last_configuration k arrivals (configuration_of k cs)
  unfolding arrive_all arrive
  configuration_of-arrive_all [] k cs = refl
  configuration_of-arrive_all (configured j ∷ rest) k cs =
      configuration_of-arrive_all rest k (upsert_conf j cs)
      ∙ ap (last_configuration k rest) (configuration_of-upsert_conf j k cs)
  configuration_of-arrive_all (registered m ∷ rest) k cs =
      configuration_of-arrive_all rest k (upsert_reg m cs)
      ∙ ap (last_configuration k rest) (configuration_of-upsert_reg m k cs)

  -- Whatever nodes of configurations and registrations arrive, in any order, the engine has at most one
  -- client for an application, environment and host, only the first one of an application and host has
  -- services, and none twice. This client has a service just when one of the same host, port and schema
  -- was registered for the application, and the client of an application, environment and host has the
  -- configuration that arrived last for them, or none.
  pub arrived-IsKept :
      (arrivals : List (Arrival C)) (n : ServiceNode) (k : ConfNode C)
      → IsKept (arrive_all arrivals [])
        × (has_service (services_of n (arrive_all arrivals [])) n ≡ is_registered n arrivals)
        × (configuration_of k (arrive_all arrivals []) ≡ last_configuration k arrivals none)
  unfolding has_service
  arrived-IsKept arrivals n k =
      let services : has_service (services_of n (arrive_all arrivals [])) n
          ≡ is_registered n arrivals =
        ground (arith, services_of-arrive_all arrivals n []) in
      (arrive_all-IsKept arrivals [] tt, services, configuration_of-arrive_all arrivals k [])
