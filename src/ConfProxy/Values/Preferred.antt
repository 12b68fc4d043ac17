-- ===== src/ConfProxy/Values/Preferred.antt =====
-- Which configuration an application is given.
use juno_agent.Base.{
  ℕ, ◌≡◌, refl, ◌⊎◌, inl, inr, Option, none, some, true, false, ◌||◌, [], ◌∷◌, Bool-cases, arith,
}
use juno_agent.Base.Text.{Bytes, is_empty}
use juno_agent.Base.Dict.{Dict, lookup}
use juno_agent.ConfProxy.Values.{
  Source, Read, gives, fails, host_key, cluster_key, port_of, attempt, choose, source_values,
  not_empty, get_values,
}

module _ (S : Source) where
  -- A content that is read under the host's key, or else under the key of all hosts.
  abbrev pub Preferred : Bytes → Bytes → Dict Bytes → Bytes → Type 0
  Preferred host app held c =
      (attempt S (lookup host held) [] ≡ (true, c))
      ⊎ (((attempt S (lookup host held) []).0 ≡ false)
          × (attempt S (lookup app held) (attempt S (lookup host held) []).1 ≡ (true, c)))

  choose-Preferred :
      (host app : Bytes) (held : Dict Bytes) (c : Bytes)
      → choose S host app held ≡ gives c
      → Preferred host app held c
  unfolding choose
  choose-Preferred host app held c h = ground arith

  not_empty-gives :
      (r : Read Bytes) (c : Bytes) → not_empty S r ≡ gives c → (r ≡ gives c) × (is_empty c ≡ false)
  not_empty-gives (gives d) c h = elim (Bool-cases (is_empty d)) [
    | inl e ↦ absurd (cc (rw e at h))
    | inr e ↦ ground arith
  ]
  not_empty-gives (fails e) c h = absurd (cc h)

  -- A content for a port above 0 that etcd holds under one of the two keys.
  abbrev pub Given : Bytes → Bytes → Bytes → Bytes → Bytes → Bytes → Type 0
  Given host app_name app_env target port c =
      (n : ℕ) × (held : Dict Bytes) × (port_of port ≡ some n)
      × (S.get_values
            (host_key host app_name app_env target n ∷ cluster_key app_name app_env target ∷ [])
          ≡ some held)
      × Preferred (host_key host app_name app_env target n) (cluster_key app_name app_env target)
          held c

  source_values-Given :
      (host app_name app_env target port c : Bytes)
      → source_values S host app_name app_env target port ≡ gives c
      → Given host app_name app_env target port c
  unfolding source_values
  source_values-Given host app_name app_env target port c h = by_port _ refl
    where
      by_values :
          (n : ℕ) (o : Option (Dict Bytes))
          → port_of port ≡ some n
          → S.get_values
              (host_key host app_name app_env target n ∷ cluster_key app_name app_env target ∷ [])
            ≡ o
          → Given host app_name app_env target port c
      by_values n o p e = elim (Bool-cases (is_empty app_name || is_empty app_env)) [
        | inl b ↦ absurd (cc (rw (source_values, p, b) at h))
        | inr b ↦
            elim o
                as (λ o.
                  S.get_values (
                      host_key host app_name app_env target n
                      ∷ cluster_key app_name app_env target
                      ∷ [])
                    ≡ o
                  → Given host app_name app_env target port c) [
                    | none ↦ λ e. absurd (cc (rw (source_values, p, b, e) at h))
                    | some held ↦ λ e. (
                      n,
                      held,
                      p,
                      e,
                      choose-Preferred _ _ held c (rw (source_values, p, b, e) at h),
                    )
                  ]
              e
      ]

      by_port : (o : Option ℕ) → port_of port ≡ o → Given host app_name app_env target port c
      by_port none e = absurd (cc (rw (source_values, e) at h))
      by_port (some n) e = by_values n _ e refl

  -- A configuration that an application is given for a port is not empty, the port is a number above
  -- 0, and the content is read from what etcd holds: under the key of the host, or, where that cannot
  -- be read, under the key of all hosts.
  pub get_values-Given :
      (host app_name app_env target port c : Bytes)
      → get_values S host app_name app_env target port ≡ gives c
      → (is_empty c ≡ false) × Given host app_name app_env target port c
  unfolding get_values
  get_values-Given host app_name app_env target port c h =
      let (e, full) = not_empty-gives (source_values S host app_name app_env target port) c h in
      (full, source_values-Given host app_name app_env target port c e)
