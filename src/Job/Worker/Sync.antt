-- ===== src/Job/Worker/Sync.antt =====
-- What the operations on jobs make of the table of commands.
pub mod Timers
pub mod Steady
pub mod Declared
pub mod Again
pub mod AnyOrder
pub mod Changed
pub mod History
use juno_agent.Base.{
  Option, none, some, Bool, true, false, List, [], ◌∷◌, ◌≡◌, refl, sym, ap, ◌∙◌, All, arith,
  Bool-cases, inl, inr, if◌then◌else◌,
}
use juno_agent.Base.Text.{Bytes, text_eq, text_eq_iff, text_eq_refl}
use juno_agent.Base.Dict.{Dict, lookup, insert, remove, lookup-insert, lookup-remove}
use juno_agent.Job.Types.{Timer, Job, Cmd, get_id, cmds, add_commands, command}

-- A map of commands under their ids, each id once.
abbrev pub IsKeyed : Dict Cmd → Type 0
IsKeyed [] = Unit
IsKeyed ((k, c) ∷ m) = (get_id c ≡ k) × (lookup k m ≡ none) × IsKeyed m

insert-IsKeyed : (c : Cmd) (m : Dict Cmd) → IsKeyed m → IsKeyed (insert (get_id c) c m)
unfolding insert lookup
insert-IsKeyed c [] h = (refl, refl, tt)
insert-IsKeyed c ((k, d) ∷ m) h = elim (Bool-cases (text_eq k (get_id c))) [
  | inl t ↦ rw t (refl, ap (λ j. lookup j m) (sym ((text_eq_iff k (get_id c)).0 t)) ∙ h.1, h.2)
  | inr t ↦ rw t (
    h.0,
    ground (
      arith,
      lookup-insert (get_id c) k c m,
      text_eq_iff (get_id c) k,
      text_eq_iff k (get_id c),
      h.1,
    ),
    insert-IsKeyed c m h.2,
  )
]

pub remove-IsKeyed : (k : Bytes) (m : Dict Cmd) → IsKeyed m → IsKeyed (remove k m)
unfolding remove
remove-IsKeyed k [] h = tt
remove-IsKeyed k ((j, d) ∷ m) h = elim (Bool-cases (text_eq j k)) [
  | inl t ↦ rw t (remove-IsKeyed k m h.2)
  | inr t ↦ rw t (h.0, ground (arith, lookup-remove k j m, h.1), remove-IsKeyed k m h.2)
]

add_commands-IsKeyed :
    (j : Job) (rs : List Timer) (m : Dict Cmd) → IsKeyed m → IsKeyed (add_commands j rs m)
unfolding add_commands
add_commands-IsKeyed j [] m h = h
add_commands-IsKeyed j (r ∷ rs) m h = add_commands-IsKeyed j rs _ (insert-IsKeyed (command j r) m h)

pub cmds-IsKeyed : (j : Job) → IsKeyed (cmds j)
unfolding cmds
cmds-IsKeyed j = elim (Bool-cases j.enable) [
  | inl e ↦ rw e (add_commands-IsKeyed j j.timers [] tt)
  | inr e ↦ rw e tt
]

add_commands-locked :
    (j : Job) (key : Option Bytes) (l : Bool) (rs : List Timer) (m : Dict Cmd)
    → add_commands (record j { mutex = key; locked = l }) rs m ≡ add_commands j rs m
unfolding add_commands
add_commands-locked j key l [] m = refl
add_commands-locked j key l (r ∷ rs) m =
    add_commands-locked j key l rs (insert (get_id (command j r)) (command j r) m)

-- The lock of a job has nothing to do with its commands.
pub cmds-locked :
    (j : Job) (key : Option Bytes) (l : Bool) → cmds (record j { mutex = key; locked = l }) ≡ cmds j
unfolding cmds
cmds-locked j key l = rw (add_commands-locked j key l j.timers [])
