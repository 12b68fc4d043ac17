-- ===== src/Engine/Clients.antt =====
-- The clients that the engine keeps under the nodes that its proxies send: the loops of startConfProxy
-- and startRegProxy of pkg/core/engine.go.
pub mod Arrived
use juno_agent.Base.{
  Option, none, Bool, true, false, ◌&&◌, List, [], ◌∷◌, ◌≡◌, refl, sym, inl, inr, ◌⊎◌, arith,
  Bool-cases, All,
}
use juno_agent.Base.Text.{text_eq, text_eq_iff, text_eq_refl}
use juno_agent.Engine.{
  ServiceNode, Client, ConfNode, has_service, hosts, add_service, upsert_reg, configures,
  upsert_conf,
}

-- What comes in from the proxy of configurations or from that of registrations.
pub data Arrival (C : Type 0) : Type 0 where
  configured : ConfNode C → Arrival C
  registered : ServiceNode → Arrival C

-- Services of which no two are the same.
abbrev pub AreDistinct : List ServiceNode → Type 0
AreDistinct [] = Unit
AreDistinct (n ∷ ns) = (has_service ns n ≡ false) × AreDistinct ns

module _ {C : Type 0} where
  unfoldable pub arrive : Arrival C → List (Client C) → List (Client C)
  unfolding upsert_conf upsert_reg
  arrive (configured node) cs = upsert_conf node cs
  arrive (registered node) cs = upsert_reg node cs

  -- The bodies of the two loops, in any order in which nodes arrive.
  unfoldable pub arrive_all : List (Arrival C) → List (Client C) → List (Client C)
  unfolding arrive
  arrive_all [] cs = cs
  arrive_all (a ∷ rest) cs = arrive_all rest (arrive a cs)

  abbrev pub same_host : Client C → Client C → Bool
  same_host c d = text_eq c.app_name d.app_name && text_eq c.ip d.ip

  -- A client behind another: of another application, environment or host, and without services where
  -- the first is of the same application and host.
  pub record Apart (c d : Client C) : Type 0 where
    pub other : (same_host c d && text_eq c.app_envi d.app_envi) ≡ false
    pub bare : same_host c d ≡ true → d.service_nodes ≡ []

  abbrev pub IsKept : List (Client C) → Type 0
  IsKept [] = Unit
  IsKept (c ∷ cs) = All (Apart c) cs × AreDistinct c.service_nodes × IsKept cs

  add_service-AreDistinct :
      (n : ServiceNode) (c : Client C)
      → AreDistinct c.service_nodes
      → AreDistinct (add_service c n).service_nodes
  unfolding add_service
  add_service-AreDistinct n c h = elim (Bool-cases (has_service c.service_nodes n)) [
    | inl e ↦ rw e h
    | inr e ↦ rw e (e, h)
  ]

  other_host :
      (c d : Client C) (n : ServiceNode)
      → hosts c n ≡ false
      → hosts d n ≡ true
      → same_host c d ≡ false
  unfolding hosts
  other_host c d n h g = elim (Bool-cases (same_host c d)) [
    | inl e ↦
        let name = (text_eq_iff c.app_name d.app_name).0 (ground (arith, e)) in
        let ip = (text_eq_iff c.ip d.ip).0 (ground (arith, e)) in
        absurd (cc (h, rw (sym name, sym ip) at g))
    | inr e ↦ e
  ]

  abbrev new_client : ServiceNode → Client C
  new_client n = record {
    app_name = n.app_name;
    app_envi = [];
    ip = n.ip;
    configuration = none;
    service_nodes = n ∷ [];
  }

  upsert_reg-Apart :
      (c : Client C) (n : ServiceNode) (cs : List (Client C))
      → hosts c n ≡ false
      → All (Apart c) cs
      → All (Apart c) (upsert_reg n cs)
  unfolding upsert_reg add_service hosts
  upsert_reg-Apart c n [] h a =
      let e =
        other_host c (new_client n) n h
          (ground (arith, text_eq_refl n.app_name, text_eq_refl n.ip)) in
      (record { other = ground (arith, e); bare = λ t. absurd (cc (e, t)) }, tt)
  upsert_reg-Apart c n (d ∷ cs) h a = elim (Bool-cases (hosts d n)) [
    | inr t ↦ rw t (a.0, upsert_reg-Apart c n cs h a.1)
    | inl t ↦
        let e = other_host c d n h t in
        rw t (added (Bool-cases (has_service d.service_nodes n)) e, a.1)
  ]
    where
      added :
          (has_service d.service_nodes n ≡ true) ⊎ (has_service d.service_nodes n ≡ false)
          → same_host c d ≡ false
          → Apart c (add_service d n)
      added (inl b) e = rw (add_service, b) a.0
      added (inr b) e =
          rw (add_service, b) (record { other = a.0.other; bare = λ t. absurd (cc (e, t)) })

  upsert_conf-Apart :
      (c : Client C) (n : ConfNode C) (cs : List (Client C))
      → configures n c ≡ false
      → All (Apart c) cs
      → All (Apart c) (upsert_conf n cs)
  unfolding upsert_conf configures
  upsert_conf-Apart c n [] h a = (record { other = ground (arith, h); bare = λ t. refl }, tt)
  upsert_conf-Apart c n (d ∷ cs) h a = elim (Bool-cases (configures n d)) [
    | inl t ↦ rw t (record { other = a.0.other; bare = a.0.bare }, a.1)
    | inr t ↦ rw t (a.0, upsert_conf-Apart c n cs h a.1)
  ]

  -- What a client is apart from depends on its key alone.
  Apart-All :
      (c : Client C) (configuration : Option C) (ns : List ServiceNode) (cs : List (Client C))
      → All (Apart c) cs
      → All (Apart (record c { configuration = configuration; service_nodes = ns })) cs
  Apart-All c configuration ns [] h = tt
  Apart-All c configuration ns (d ∷ cs) h =
      (record { other = h.0.other; bare = h.0.bare }, Apart-All c configuration ns cs h.1)

  add_service-Apart :
      (c : Client C) (n : ServiceNode) (cs : List (Client C))
      → All (Apart c) cs
      → All (Apart (add_service c n)) cs
  unfolding add_service
  add_service-Apart c n cs h = elim (Bool-cases (has_service c.service_nodes n)) [
    | inl e ↦ rw e h
    | inr e ↦ rw e (Apart-All c c.configuration (n ∷ c.service_nodes) cs h)
  ]

  upsert_reg-IsKept :
      (n : ServiceNode) (cs : List (Client C)) → IsKept cs → IsKept (upsert_reg n cs)
  unfolding upsert_reg
  upsert_reg-IsKept n [] h = (tt, (refl, tt), tt)
  upsert_reg-IsKept n (c ∷ cs) h = elim (Bool-cases (hosts c n)) [
    | inl t ↦ rw t (add_service-Apart c n cs h.0, add_service-AreDistinct n c h.1, h.2)
    | inr t ↦ rw t (upsert_reg-Apart c n cs t h.0, h.1, upsert_reg-IsKept n cs h.2)
  ]

  upsert_conf-IsKept :
      (n : ConfNode C) (cs : List (Client C)) → IsKept cs → IsKept (upsert_conf n cs)
  unfolding upsert_conf
  upsert_conf-IsKept n [] h = (tt, tt, tt)
  upsert_conf-IsKept n (c ∷ cs) h = elim (Bool-cases (configures n c)) [
    | inl t ↦ rw t (Apart-All c n.configuration c.service_nodes cs h.0, h.1, h.2)
    | inr t ↦ rw t (upsert_conf-Apart c n cs t h.0, h.1, upsert_conf-IsKept n cs h.2)
  ]

  pub arrive_all-IsKept :
      (arrivals : List (Arrival C)) (cs : List (Client C))
      → IsKept cs
      → IsKept (arrive_all arrivals cs)
  unfolding arrive_all arrive
  arrive_all-IsKept [] cs h = h
  arrive_all-IsKept (configured n ∷ rest) cs h =
      arrive_all-IsKept rest (upsert_conf n cs) (upsert_conf-IsKept n cs h)
  arrive_all-IsKept (registered n ∷ rest) cs h =
      arrive_all-IsKept rest (upsert_reg n cs) (upsert_reg-IsKept n cs h)
