-- ===== src/Job/Worker/Commands.antt =====
-- The table of commands and the entries of the scheduler stay in step.
use juno_agent.Base.{
  ℕ, Option, none, some, true, ◌≡◌, ◌≢◌, ◌⊎◌, refl, sym, ap, ◌∙◌, inl, inr, arith, Bool-cases,
}
use juno_agent.Base.Text.{Bytes, text_eq, text_eq_iff}
use juno_agent.Base.Dict.{
  Dict, lookup, insert, remove, lookup-insert, lookup-remove, lookup-insert_self,
  lookup-remove_self,
}
use juno_agent.Job.Types.{Cmd, get_id}
use juno_agent.Job.Worker.{Services, IsCron, Worker, add_cmd, del_cmd, mod_cmd}

-- Every registered command has a scheduled entry of its own, and every scheduled entry is that of a
-- registered command.
pub record InStep (S : Services) (m : Dict Cmd) (w : S.World) : Type 0 where
  pub live : (k : Bytes) (c : Cmd) → lookup k m ≡ some c → S.is_entry w c.entry ≡ true
  pub owned :
      (e : ℕ)
      → S.is_entry w e ≡ true
      → (k : Bytes) × (c : Cmd) × (lookup k m ≡ some c) × (c.entry ≡ e)
  pub single :
      (k j : Bytes) (c d : Cmd)
      → lookup k m ≡ some c
      → lookup j m ≡ some d
      → c.entry ≡ d.entry
      → k ≡ j

abbrev pub IsConsistent : {S : Services} → Worker S → Type 0
IsConsistent {S = S} w = InStep S w.table w.world

lookup-insert_other :
    (k j : Bytes) (v : Cmd) (m : Dict Cmd) → k ≢ j → lookup j (insert k v m) ≡ lookup j m
lookup-insert_other k j v m h = ground (arith, lookup-insert k j v m, text_eq_iff k j)

lookup-remove_other : (k j : Bytes) (m : Dict Cmd) → k ≢ j → lookup j (remove k m) ≡ lookup j m
lookup-remove_other k j m h = ground (arith, lookup-remove k j m, text_eq_iff k j)

-- What is found after an insertion, or a removal.
pub insert-cases :
    (k j : Bytes) (v c : Cmd) (m : Dict Cmd)
    → lookup j (insert k v m) ≡ some c
    → ((k ≡ j) × (v ≡ c)) ⊎ ((k ≢ j) × (lookup j m ≡ some c))
insert-cases k j v c m h = ground (arith, lookup-insert k j v m, text_eq_iff k j)

remove-cases :
    (k j : Bytes) (c : Cmd) (m : Dict Cmd)
    → lookup j (remove k m) ≡ some c
    → (k ≢ j) × (lookup j m ≡ some c)
remove-cases k j c m h = ground (arith, lookup-remove k j m, text_eq_iff k j)

module _ {S : Services} (laws : IsCron S) where
  kept_entry :
      (i : ℕ) (w : S.World) (e : ℕ)
      → S.is_entry (S.remove_entry i w) e ≡ true
      → (i ≢ e) × (S.is_entry w e ≡ true)
  kept_entry i w e h = ground (arith, laws.removed i w e)

  remove_entry-InStep :
      (k : Bytes) (c : Cmd) (m : Dict Cmd) (w : S.World)
      → InStep S m w
      → lookup k m ≡ some c
      → InStep S (remove k m) (S.remove_entry c.entry w)
  remove_entry-InStep k c m w h at = record {
    live = λ j d e. ground (
      arith,
      remove-cases k j d m e,
      h.live j d,
      h.single k j c d at,
      laws.removed c.entry w d.entry,
    );
    owned = λ e r.
        let (other, r') = kept_entry c.entry w e r in
        let (j, d, f, q) = h.owned e r' in
        (j, d, lookup-remove_other k j m (λ p. other (cc (at, f, q, p))) ∙ f, q);
    single =
        λ i j d d' e f. h.single i j d d' (remove-cases k i d m e).1 (remove-cases k j d' m f).1;
  }

  schedule-InStep :
      (k : Bytes) (c : Cmd) (m : Dict Cmd) (w : S.World)
      → InStep S m w
      → lookup k m ≡ none
      → InStep S
          (insert k (record c { entry = (S.schedule c.timer.schedule k w).0 }) m)
          (S.schedule c.timer.schedule k w).1
  schedule-InStep k c m w h new = record {
    live = λ j d e.
        ground (
          arith,
          insert-cases k j _ d m e,
          h.live j d,
          laws.scheduled c.timer.schedule k w d.entry,
        );
    owned = λ e r. elim (entry_cases e r) [
      | inl same ↦ (k, _, lookup-insert_self k _ m, same)
      | inr old ↦
          let (j, d, f, q) = h.owned e old in
          (j, d, lookup-insert_other k j _ m (λ p. absurd (cc (new, f, p))) ∙ f, q)
    ];
    single = λ i j d d' e f q. elim (insert-cases k i _ d m e) [
      | inl (x, y) ↦ elim (insert-cases k j _ d' m f) [
        | inl (x', y') ↦ sym x ∙ x'
        | inr (x', f') ↦ absurd (unused j d' f' (cc (y, q)))
      ]
      | inr (x, e') ↦ elim (insert-cases k j _ d' m f) [
        | inl (x', y') ↦ absurd (unused i d e' (cc (y', q)))
        | inr (x', f') ↦ h.single i j d d' e' f' q
      ]
    ];
  }
    where
      unused :
          (j : Bytes) (d : Cmd)
          → lookup j m ≡ some d
          → d.entry ≢ (S.schedule c.timer.schedule k w).0
      unused j d e p =
          cc (sym (ap (S.is_entry w) p) ∙ h.live j d e, laws.fresh c.timer.schedule k w)

      entry_cases :
          (e : ℕ)
          → S.is_entry (S.schedule c.timer.schedule k w).1 e ≡ true
          → ((S.schedule c.timer.schedule k w).0 ≡ e) ⊎ (S.is_entry w e ≡ true)
      entry_cases e r = ground (arith, laws.scheduled c.timer.schedule k w e)

  -- A table that finds the same commands.
  same-InStep :
      (m m' : Dict Cmd) (w : S.World)
      → ((k : Bytes) → lookup k m' ≡ lookup k m)
      → InStep S m w
      → InStep S m' w
  same-InStep m m' w same h = record {
    live = λ k c e. h.live k c (sym (same k) ∙ e);
    owned = λ e r. let (k, c, f, q) = h.owned e r in (k, c, same k ∙ f, q);
    single = λ k j c d e f. h.single k j c d (sym (same k) ∙ e) (sym (same j) ∙ f);
  }

  -- A scheduler that has the same entries.
  pub unchanged-InStep :
      (m : Dict Cmd) (w w' : S.World)
      → ((e : ℕ) → S.is_entry w' e ≡ S.is_entry w e)
      → InStep S m w
      → InStep S m w'
  unchanged-InStep m w w' same h = record {
    live = λ k c e. same c.entry ∙ h.live k c e;
    owned = λ e r. h.owned e (sym (same e) ∙ r);
    single = h.single;
  }

  insert-remove :
      (k j : Bytes) (c : Cmd) (m : Dict Cmd)
      → lookup j (insert k c m) ≡ lookup j (insert k c (remove k m))
  insert-remove k j c m =
      ground (arith, lookup-insert k j c m, lookup-insert k j c (remove k m), lookup-remove k j m)

  replace-InStep :
      (k : Bytes) (c d : Cmd) (m : Dict Cmd) (w : S.World)
      → InStep S m w
      → lookup k m ≡ some c
      → d.entry ≡ c.entry
      → InStep S (insert k d m) w
  replace-InStep k c d m w h at same = record {
    live = λ j x e. elim (insert-cases k j d x m e) [
      | inl (p, q) ↦ ap (λ n. S.is_entry w n) (sym (ap (λ y. y.entry) q) ∙ same) ∙ h.live k c at
      | inr (p, f) ↦ h.live j x f
    ];
    owned = λ e r.
        let (j, x, f, q) = h.owned e r in
        elim (Bool-cases (text_eq k j)) [
          | inl t ↦ (k, d, lookup-insert_self k d m, same ∙ cc (at, f, q, (text_eq_iff k j).0 t))
          | inr t ↦ (j, x, lookup-insert k j d m ∙ rw t f, q)
        ];
    single = λ i j x y e f q.
        h.single i j (old i x e).0 (old j y f).0 (old i x e).1 (old j y f).1
          ((old i x e).2 ∙ q ∙ sym (old j y f).2);
  }
    where
      old :
          (i : Bytes) (x : Cmd)
          → lookup i (insert k d m) ≡ some x
          → (y : Cmd) × (lookup i m ≡ some y) × (y.entry ≡ x.entry)
      old i x e = elim (insert-cases k i d x m e) [
        | inl (p, q) ↦ (c, ap (λ z. lookup z m) (sym p) ∙ at, sym same ∙ ap (λ z. z.entry) q)
        | inr (p, f) ↦ (x, f, refl)
      ]

  pub add_cmd-IsConsistent :
      (w : Worker S) (c : Cmd)
      → IsConsistent w
      → lookup (get_id c) w.table ≡ none
      → IsConsistent (add_cmd w c)
  unfolding add_cmd
  add_cmd-IsConsistent w c h new = schedule-InStep (get_id c) c w.table w.world h new

  -- Deleting a command, registered or not, keeps the table and the scheduler in step.
  pub del_cmd-IsConsistent : (w : Worker S) (c : Cmd) → IsConsistent w → IsConsistent (del_cmd w c)
  unfolding del_cmd
  del_cmd-IsConsistent w c h = go _ refl
    where
      go : (o : Option Cmd) → lookup (get_id c) w.table ≡ o → IsConsistent (del_cmd w c)
      go none e = rw (del_cmd, e) h
      go (some d) e = rw (del_cmd, e) (remove_entry-InStep (get_id c) d w.table w.world h e)

  -- Modifying a command, registered or not, keeps the table and the scheduler in step.
  pub mod_cmd-IsConsistent : (w : Worker S) (c : Cmd) → IsConsistent w → IsConsistent (mod_cmd w c)
  unfolding mod_cmd add_cmd
  mod_cmd-IsConsistent w c h = go _ refl
    where
      rescheduled :
          (d : Cmd)
          → lookup (get_id c) w.table ≡ some d
          → IsConsistent (add_cmd (record w { world = S.remove_entry d.entry w.world }) c)
      rescheduled d e =
          same-InStep _ _ _ (λ j. insert-remove (get_id c) j _ w.table)
            (schedule-InStep (get_id c) c (remove (get_id c) w.table) _
              (remove_entry-InStep (get_id c) d w.table w.world h e)
              (lookup-remove_self (get_id c) w.table))

      go : (o : Option Cmd) → lookup (get_id c) w.table ≡ o → IsConsistent (mod_cmd w c)
      go none e = rw (mod_cmd, e) (add_cmd-IsConsistent w c h e)
      go (some d) e = elim (Bool-cases (text_eq c.timer.cron d.timer.cron)) [
        | inl t ↦
            rw (mod_cmd, e, t)
              (replace-InStep (get_id c) d (record c { entry = d.entry }) w.table w.world h e refl)
        | inr t ↦ rw (mod_cmd, e, t) (rescheduled d e)
      ]
