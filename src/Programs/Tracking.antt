-- ===== src/Programs/Tracking.antt =====
-- What the events of the scanners of pkg/pmt make of the engine's programs.
use juno_agent.Base.{
  Option, none, some, true, false, ◌≡◌, refl, ap, ◌∙◌, ◌⊎◌, inl, inr, [], ◌∷◌, ◌++◌, Bool-cases,
  Option-cases, arith,
}
use juno_agent.Base.Text.{Bytes, codes, text_eq, has_suffix, is_empty}
use juno_agent.Base.Dict.{Dict, lookup, insert, lookup-insert, lookup-remove}
use juno_agent.Engine.{update_program, get_config_status, is_there}
use juno_agent.Programs.{
  ProgramExt, uuid, SupervisorProgram, SystemdProgram, no_supervisor, no_systemd, Scanned,
  unwrap_supervisor, unwrap_systemd, FileOp, create, write, remove, other, scan_file, scan_op,
  scan_event, supervisor_event, systemd_event, track,
}

insert-stays :
    (k j : Bytes) (v : ProgramExt) (m : Dict ProgramExt)
    → is_there (lookup j m) ≡ true
    → is_there (lookup j (insert k v m)) ≡ true
insert-stays k j v m h = ground (arith, lookup-insert k j v m)

-- A change that stores, or removes another key, leaves what is there.
update-stays :
    (status key k : Bytes) (v : ProgramExt) (m : Dict ProgramExt)
    → (status ≡ codes "create")
      ⊎ (status ≡ codes "update")
      ⊎ ((status ≡ codes "delete") × (text_eq key k ≡ false))
    → is_there (lookup k m) ≡ true
    → is_there (lookup k (update_program status key v m)) ≡ true
unfolding update_program text_eq
update-stays status key k v m (inl e) h = rw e (insert-stays key k v m h)
update-stays status key k v m (inr (inl e)) h = rw e (insert-stays key k v m h)
update-stays status key k v m (inr (inr (e, d))) h =
    rw e (ap is_there (lookup-remove key k m ∙ rw d refl) ∙ h)

-- What an event sends is stored, or is removed with no config.
abbrev Sent : {P : Type 0} → P → Option (Scanned P) → Type 0
Sent empty none = Unit
Sent empty (some p) =
    (p.status ≡ codes "create")
    ⊎ (p.status ≡ codes "update")
    ⊎ ((p.status ≡ codes "delete") × (p.program ≡ empty))

module _ {P : Type 0} (parse : Bytes → Option P) (empty : P) (read : Bytes → Option Bytes)
    (name : Bytes) where
  scan_file-Sent :
      (status manager : Bytes)
      → (status ≡ codes "create") ⊎ (status ≡ codes "update")
      → Sent empty (scan_file parse empty status manager read name)
  unfolding scan_file
  scan_file-Sent status manager s = elim (Option-cases (read name)) [
    | inl e ↦ rw (scan_file, e) tt
    | inr (content, e) ↦ elim (Option-cases (parse content)) [
      | inl f ↦ rw (scan_file, e, f) tt
      | inr (program, f) ↦ rw (scan_file, e, f) (elim s [ inl c ↦ inl c | inr u ↦ inr (inl u) ])
    ]
  ]

  scan_op-Sent :
      (created_by : Bytes) (op : FileOp) → Sent empty (scan_op parse empty created_by read name op)
  unfolding scan_op
  scan_op-Sent created_by create = scan_file-Sent (codes "create") created_by (inl refl)
  scan_op-Sent created_by write = scan_file-Sent (codes "update") [] (inr refl)
  scan_op-Sent created_by remove = inr (inr (refl, refl))
  scan_op-Sent created_by other = tt

  pub scan_event-Sent :
      (created_by : Bytes) (op : FileOp)
      → Sent empty (scan_event parse empty created_by read name op)
  unfolding scan_event
  scan_event-Sent created_by op = elim (Bool-cases (has_suffix name (codes ".conf"))) [
    | inr e ↦ rw (scan_event, e) tt
    | inl e ↦ rw (scan_event, e) (scan_op-Sent created_by op)
  ]

-- The key of a manager and no config is that of no path that is not empty.
path_differs :
    (path : Bytes)
    → is_empty path ≡ false
    → (text_eq (codes "supervisor_") (codes "supervisor_" ++ path) ≡ false)
      × (text_eq (codes "systemd_") (codes "systemd_" ++ path) ≡ false)
unfolding text_eq
path_differs [] h = absurd (cc h)
path_differs (c ∷ path) h = (refl, refl)

-- An event of the supervisor scanner never takes back that a path, not the empty one, is the config
-- of a program of supervisor: once getConfigStatus tells so, it tells so after every event, also
-- after the file was removed or its config changed.
pub track-supervisor :
    (parse : Bytes → Option SupervisorProgram) (read : Bytes → Option Bytes) (name : Bytes)
    (op : FileOp) (p : Scanned SupervisorProgram)
    → supervisor_event parse read name op ≡ some p
    → (path : Bytes) (programs : Dict ProgramExt) → is_empty path ≡ false
    → (get_config_status path programs).0 ≡ true
    → (get_config_status path (track (unwrap_supervisor p) programs)).0 ≡ true
unfolding get_config_status track uuid unwrap_supervisor supervisor_event
track-supervisor parse read name op p e path programs h there =
    update-stays p.status _ _ (unwrap_supervisor p) programs stored there
  where
    sent : Sent no_supervisor (some p)
    sent = rw e at (scan_event-Sent parse no_supervisor read name [] op)

    stored :
        (p.status ≡ codes "create")
        ⊎ (p.status ≡ codes "update")
        ⊎ ((p.status ≡ codes "delete")
            × (text_eq (uuid (unwrap_supervisor p)) (codes "supervisor_" ++ path) ≡ false))
    stored = elim sent [
      | inl c ↦ inl c
      | inr (inl u) ↦ inr (inl u)
      | inr (inr (d, q)) ↦ inr (
          inr (
            d,
            ap (λ x. text_eq (codes "supervisor_" ++ x.config) (codes "supervisor_" ++ path)) q
                ∙ (path_differs path h).0,
          ))
    ]

-- The same for the systemd scanner.
pub track-systemd :
    (parse : Bytes → Option SystemdProgram) (read : Bytes → Option Bytes) (name : Bytes)
    (op : FileOp) (p : Scanned SystemdProgram)
    → systemd_event parse read name op ≡ some p
    → (path : Bytes) (programs : Dict ProgramExt) → is_empty path ≡ false
    → (get_config_status path programs).1 ≡ true
    → (get_config_status path (track (unwrap_systemd p) programs)).1 ≡ true
unfolding get_config_status track uuid unwrap_systemd systemd_event
track-systemd parse read name op p e path programs h there =
    update-stays p.status _ _ (unwrap_systemd p) programs stored there
  where
    sent : Sent no_systemd (some p)
    sent = rw e at (scan_event-Sent parse no_systemd read name (codes "systemd") op)

    stored :
        (p.status ≡ codes "create")
        ⊎ (p.status ≡ codes "update")
        ⊎ ((p.status ≡ codes "delete")
            × (text_eq (uuid (unwrap_systemd p)) (codes "systemd_" ++ path) ≡ false))
    stored = elim sent [
      | inl c ↦ inl c
      | inr (inl u) ↦ inr (inl u)
      | inr (inr (d, q)) ↦ inr (
          inr (
            d,
            ap (λ x. text_eq (codes "systemd_" ++ x.config) (codes "systemd_" ++ path)) q
                ∙ (path_differs path h).1,
          ))
    ]
