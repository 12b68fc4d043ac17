-- ===== src/Job/Worker/Sync/Declared.antt =====
-- The timers that the registered jobs declare, and what the operations of pkg/job/worker.go make of
-- them. A job's id holds no '-', so that the id of a command tells its job.
use juno_agent.Base.{
  Option, none, some, true, false, List, [], ◌∷◌, ◌++◌, ◌≡◌, ◌≢◌, refl, sym, ap, ◌∙◌, ◌==◌, arith,
  Bool-cases, inl, inr, if◌then◌else◌,
}
use mathlib.Core.Path.{subst}
use juno_agent.Base.Text.{Bytes, text_eq, text_eq_iff, Lacks}
use juno_agent.Base.Dict.{Dict, lookup, insert}
use juno_agent.Job.Types.{Timer, Job, Cmd, get_id, cmds, add_commands, command}
use juno_agent.Job.Worker.{Services, Worker}
use juno_agent.Job.Worker.Commands.{insert-cases}
use juno_agent.Job.Worker.Sync.Timers.{timer_in, timer_at, is_some, or_else, reconciled}

-- What stands before the first '-' of a command's id.
unfoldable pub owner : Bytes → Bytes
owner [] = []
owner (c ∷ s) = let rest = owner s in if c == b'-' then [] else c ∷ rest

abbrev pub cmds_of : Option Job → Dict Cmd
cmds_of none = []
cmds_of (some j) = cmds j

-- The timer that the registered jobs declare under the id of a command.
abbrev pub declared : Dict Job → Bytes → Option Timer
declared jobs k = timer_in (lookup k (cmds_of (lookup (owner k) jobs)))

-- The worker's commands are those that its jobs declare, and its jobs are kept under their ids.
pub record IsDeclared {S : Services} (w : Worker S) : Type 0 where
  pub timers : (k : Bytes) → timer_at k w ≡ declared w.jobs k
  pub named : (id : Bytes) (j : Job) → lookup id w.jobs ≡ some j → j.id ≡ id
  pub dashless : (id : Bytes) (j : Job) → lookup id w.jobs ≡ some j → Lacks b'-' id

owner-append : (p s : Bytes) → Lacks b'-' p → owner (p ++ b'-' ∷ s) ≡ p
unfolding owner
owner-append [] s h = refl
owner-append (c ∷ p) s h = ground (arith, owner-append p s h.1)

-- The commands of a job whose id holds no '-' are under ids that tell the job.
abbrev Own : Bytes → Dict Cmd → Type 0
Own id m = (k : Bytes) (c : Cmd) → lookup k m ≡ some c → owner k ≡ id

add_commands-Own :
    (j : Job)
    → Lacks b'-' j.id
    → (rs : List Timer) (m : Dict Cmd) → Own j.id m
    → Own j.id (add_commands j rs m)
unfolding add_commands
add_commands-Own j d [] m h = h
add_commands-Own j d (r ∷ rs) m h = add_commands-Own j d rs _ added
  where
    added : Own j.id (insert (get_id (command j r)) (command j r) m)
    added k c e = elim (insert-cases (get_id (command j r)) k (command j r) c m e) [
      | inl (p, q) ↦ ap owner (sym p) ∙ (unfold get_id in owner-append j.id r.id d)
      | inr (p, f) ↦ h k c f
    ]

pub cmds-Own : (j : Job) → Lacks b'-' j.id → Own j.id (cmds j)
unfolding cmds lookup
cmds-Own j d = elim (Bool-cases j.enable) [
  | inl e ↦ rw e (add_commands-Own j d j.timers [] λ k c f. absurd (cc f))
  | inr e ↦ rw e (λ k c f. absurd (cc f))
]

-- Under an id that tells another job there is no command of a job.
foreign : (id : Bytes) (m : Dict Cmd) (k : Bytes) → Own id m → owner k ≢ id → lookup k m ≡ none
foreign id m k own h = go _ refl
  where
    go : (o : Option Cmd) → lookup k m ≡ o → lookup k m ≡ none
    go none e = e
    go (some c) e = absurd (h (own k c e))

replaced :
    (a b : Option Cmd) → or_else (timer_in a) (if is_some b then none else timer_in b) ≡ timer_in a
replaced (some c) b = refl
replaced none none = refl
replaced none (some d) = refl

kept :
    (a b : Option Cmd) (t : Option Timer)
    → a ≡ none
    → b ≡ none
    → or_else (timer_in a) (if is_some b then none else t) ≡ t
kept a b t p q = rw (p, q) refl

-- A job that may be registered under an id, or none.
abbrev pub Registers : Bytes → Option Job → Type 0
Registers id none = Unit
Registers id (some j) = (j.id ≡ id) × Lacks b'-' id

Registers-Own : (id : Bytes) (o : Option Job) → Registers id o → Own id (cmds_of o)
unfolding lookup
Registers-Own id none h = λ k c e. absurd (cc e)
Registers-Own id (some j) (n, d) =
    subst (λ i. Own i (cmds j)) n (cmds-Own j (subst (Lacks b'-') (sym n) d))

module _ {S : Services} where
  pub registered :
      (w : Worker S)
      → IsDeclared w
      → (id : Bytes) (o : Option Job) → lookup id w.jobs ≡ o
      → Registers id o
  registered w h id none e = tt
  registered w h id (some j) e = (h.named id j e, h.dashless id j e)

  -- When one id gets another job, or none, and the timers are reconciled, the commands are again
  -- those that the jobs declare.
  pub replace-IsDeclared :
      (w w' : Worker S) (id : Bytes) (old new : Option Job)
      → IsDeclared w
      → lookup id w.jobs ≡ old
      → Registers id new
      → ((i : Bytes) → lookup i w'.jobs ≡ (if text_eq id i then new else lookup i w.jobs))
      → ((k : Bytes) → timer_at k w' ≡ reconciled (cmds_of new) (cmds_of old) k (timer_at k w))
      → IsDeclared w'
  replace-IsDeclared w w' id old new h e r jobs timers = record {
    timers = λ k. timers k ∙ elim (Bool-cases (text_eq id (owner k))) [
      | inl t ↦
          ap (reconciled (cmds_of new) (cmds_of old) k) (h.timers k ∙ told k (old_at k t))
          ∙ replaced (lookup k (cmds_of new)) (lookup k (cmds_of old))
          ∙ sym (told' k (jobs (owner k) ∙ rw t refl))
      | inr t ↦
          kept (lookup k (cmds_of new)) (lookup k (cmds_of old)) (timer_at k w)
            (foreign id (cmds_of new) k (Registers-Own id new r) (differs k t))
            (foreign id (cmds_of old) k (Registers-Own id old (registered w h id old e))
              (differs k t))
          ∙ h.timers k
          ∙ sym (told' k (jobs (owner k) ∙ rw t refl))
    ];
    named = λ i j f. (by_id i j f).0;
    dashless = λ i j f. (by_id i j f).1;
  }
    where
      told :
          (k : Bytes) {o : Option Job}
          → lookup (owner k) w.jobs ≡ o
          → declared w.jobs k ≡ timer_in (lookup k (cmds_of o))
      told k q = ap (λ o. timer_in (lookup k (cmds_of o))) q

      told' :
          (k : Bytes) {o : Option Job}
          → lookup (owner k) w'.jobs ≡ o
          → declared w'.jobs k ≡ timer_in (lookup k (cmds_of o))
      told' k q = ap (λ o. timer_in (lookup k (cmds_of o))) q

      old_at : (k : Bytes) → text_eq id (owner k) ≡ true → lookup (owner k) w.jobs ≡ old
      old_at k t = ap (λ i. lookup i w.jobs) (sym ((text_eq_iff id (owner k)).0 t)) ∙ e

      differs : (k : Bytes) → text_eq id (owner k) ≡ false → owner k ≢ id
      differs k t p = cc (t, (text_eq_iff id (owner k)).1 (sym p))

      by_id : (i : Bytes) (j : Job) → lookup i w'.jobs ≡ some j → (j.id ≡ i) × Lacks b'-' i
      by_id i j f = elim (Bool-cases (text_eq id i)) [
        | inl t ↦
            subst (λ x. Registers x (some j)) ((text_eq_iff id i).0 t)
              (subst (Registers id) (sym (jobs i ∙ rw t refl) ∙ f) r)
        | inr t ↦ registered w h i (some j) (sym (jobs i ∙ rw t refl) ∙ f)
      ]
