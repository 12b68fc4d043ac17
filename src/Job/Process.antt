-- ===== src/Job/Process.antt =====
-- Process.Start, Process.Stop, put and del of pkg/job/proc.go. The two flags are changed by
-- compare-and-swap, so that a call is atomic in each; the answers of etcd are arguments.
use juno_agent.Base.{
  ℕ, ◌+◌, ◌≤◌, ◌≡◌, ◌⊎◌, refl, Bool, true, false, ◌&&◌, not, List, [], ◌∷◌, if◌then◌else◌, arith,
  Bool-cases, inl, inr,
}

-- The flags, whether the key is in etcd, and how often it was put.
pub record Proc : Type 0 where
  pub running : Bool
  pub has_put : Bool
  pub stored : Bool
  pub puts : ℕ

-- put, `reply` telling whether marshalling, the session and the request went well
unfoldable pub put : Bool → Proc → Proc
put reply p =
    if p.running && not p.has_put
    then record p {
      has_put = true;
      stored = if reply then true else p.stored;
      puts = p.puts + (if reply then 1 else 0);
    }
    else p

unfoldable pub start : Bool → Proc → Proc
unfolding put
start reply p = if p.running then p else put reply (record p { running = true })

unfoldable pub del : Bool → Proc → Proc
del reply p = if p.has_put && reply then record p { stored = false } else p

unfoldable pub stop : Bool → Proc → Proc
unfolding del
stop reply p = if p.running then del reply (record p { running = false }) else p

-- A call with the answer that etcd gives it.
pub data Call : Type 0 where
  starts : Bool → Call
  stops : Bool → Call

unfoldable pub run_calls : List Call → Proc → Proc
unfolding start stop
run_calls [] p = p
run_calls (starts reply ∷ cs) p = run_calls cs (start reply p)
run_calls (stops reply ∷ cs) p = run_calls cs (stop reply p)

abbrev pub idle : Proc
idle = record { running = false; has_put = false; stored = false; puts = 0 }

-- The key is put only by the call that sets the flag, and is not in etcd before.
pub record IsProc (p : Proc) : Type 0 where
  pub once : p.puts ≤ 1
  pub unput : p.has_put ≡ false → (p.puts ≡ 0) × (p.stored ≡ false)
  pub counted : p.stored ≡ true → p.puts ≡ 1

start-IsProc : (reply : Bool) (p : Proc) → IsProc p → IsProc (start reply p)
unfolding start put
start-IsProc reply p h = ground (arith, h.once, h.unput, h.counted)

stop-IsProc : (reply : Bool) (p : Proc) → IsProc p → IsProc (stop reply p)
unfolding stop del
stop-IsProc reply p h = ground (arith, h.once, h.unput, h.counted)

calls-IsProc : (cs : List Call) (p : Proc) → IsProc p → IsProc (run_calls cs p)
unfolding run_calls
calls-IsProc [] p h = h
calls-IsProc (starts r ∷ cs) p h = calls-IsProc cs (start r p) (start-IsProc r p h)
calls-IsProc (stops r ∷ cs) p h = calls-IsProc cs (stop r p) (stop-IsProc r p h)

-- Whatever the calls of Start and Stop on a new process and the answers of etcd, its key is put at
-- most once, and is in etcd only if it was put.
pub run_calls-once :
    (cs : List Call)
    → ((run_calls cs idle).puts ≤ 1)
      × (((run_calls cs idle).stored ≡ false) ⊎ ((run_calls cs idle).puts ≡ 1))
run_calls-once cs =
    let h =
      calls-IsProc cs idle
        (record { once = omega arith; unput = λ _. (refl, refl); counted = λ e. cc e }) in
    (
      h.once,
      elim (Bool-cases (run_calls cs idle).stored) [ inl e ↦ inr (h.counted e) | inr e ↦ inl e ],
    )

-- A stop that etcd answers, of a process that runs, leaves no key in etcd that Start put.
pub stop-clears :
    (cs : List Call)
    → (run_calls cs idle).running ≡ true
    → (stop true (run_calls cs idle)).stored ≡ false
unfolding stop del
stop-clears cs r =
    let h =
      calls-IsProc cs idle
        (record { once = omega arith; unput = λ _. (refl, refl); counted = λ e. cc e }) in
    ground (arith, h.unput, r)
