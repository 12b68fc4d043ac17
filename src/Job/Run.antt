-- ===== src/Job/Run.antt =====
-- Job.Run and Cmd.Run of pkg/job/job.go, Task.SetStatus of task.go, the retries and the statuses that
-- a run writes; and immediatelyScheduler.Next of cron.go. What the operating system answers is an
-- argument.
use juno_agent.Base.{
  ℕ, zero, suc, ◌+◌, ◌≡◌, map, ◌↔◌, ◌∙◌, refl, ap, Bool, true, false, List, [], ◌∷◌, ◌++◌,
  if◌then◌else◌, arith, Bool-cases, inl, inr, length,
}
use juno_agent.Base.Int.{ℤ, pos, negsuc}

pub data Status : Type 0 where
  processing : Status
  success : Status
  failed : Status
  timeout : Status

-- Whether a status ends its task, so that SetStatus notes the time.
unfoldable pub is_final : Status → Bool
is_final processing = false
is_final success = true
is_final failed = true
is_final timeout = true

-- What a run meets: os.Stat of the script (missing, a directory, a file), cmd.Start, cmd.Wait and
-- the context behind it.
pub data Script : Type 0 where
  missing : Script
  directory : Script
  file : Script

pub data Waited : Type 0 where
  exited : Waited
  broken : Bool → Waited

pub record Machine : Type 0 where
  pub script : Script
  pub starts : Bool
  pub waited : Waited

-- The statuses that Job.Run writes, in order, and whether it returns an error.
unfoldable pub run_job : Machine → List Status × Bool
run_job m = elim m.script [
  | missing ↦ (processing ∷ failed ∷ [], true)
  | directory ↦ (processing ∷ failed ∷ [], true)
  | file ↦
      if m.starts
      then elim m.waited [
        | exited ↦ (processing ∷ success ∷ [], false)
        | broken deadline ↦
            if deadline then (processing ∷ timeout ∷ [], true) else (processing ∷ failed ∷ [], true)
      ]
      else (processing ∷ failed ∷ [], true)
]

-- The final ones among the statuses of a run.
unfoldable pub finals : List Status → List Status
unfolding is_final
finals [] = []
finals (s ∷ ss) = let rest = finals ss in if is_final s then s ∷ rest else rest

-- A run writes one final status, as its last: success when it returns no error, and failure or a
-- timeout when it does.
pub run_job-finals :
    (m : Machine)
    → (s : Status) × ((run_job m).0 ≡ processing ∷ s ∷ [])
      × (finals (run_job m).0 ≡ s ∷ [])
      × (((run_job m).1 ≡ false) ↔ (s ≡ success))
unfolding run_job finals is_final
run_job-finals m = go m.script m.starts m.waited
  where
    good : (false ≡ false) ↔ (success ≡ success)
    good = (λ _. refl, λ _. refl)

    go :
        (f : Script) (b : Bool) (w : Waited)
        → (s : Status) × ((run_job (record { script = f; starts = b; waited = w })).0
            ≡ processing ∷ s ∷ [])
          × (finals (run_job (record { script = f; starts = b; waited = w })).0 ≡ s ∷ [])
          × (((run_job (record { script = f; starts = b; waited = w })).1 ≡ false) ↔ (s ≡ success))
    go missing b w = (failed, refl, refl, (λ e. cc e, λ e. cc e))
    go directory b w = (failed, refl, refl, (λ e. cc e, λ e. cc e))
    go file false w = (failed, refl, refl, (λ e. cc e, λ e. cc e))
    go file true exited = (success, refl, refl, good)
    go file true (broken true) = (timeout, refl, refl, (λ e. cc e, λ e. cc e))
    go file true (broken false) = (failed, refl, refl, (λ e. cc e, λ e. cc e))

-- The rounds of Cmd.Run's loop, on the machine as each round meets it.
unfoldable pub attempts : ℕ → (ℕ → Machine) → ℕ → List Status
unfolding run_job
attempts zero at i = []
attempts (suc n) at i = (run_job (at i)).0 ++ attempts n at (i + 1)

-- Cmd.Run: the statuses that are written and whether an error is returned.
unfoldable pub run_cmd : ℤ → (ℕ → Machine) → List Status × Bool
unfolding run_job attempts
run_cmd (pos zero) at = run_job (at 0)
run_cmd (negsuc n) at = run_job (at 0)
run_cmd (pos (suc n)) at = (attempts (n + 2) at 0, false)

finals-append :
    (xs ys : List Status) → length (finals (xs ++ ys)) ≡ length (finals xs) + length (finals ys)
unfolding finals
finals-append [] ys = omega arith
finals-append (x ∷ xs) ys = elim (Bool-cases (is_final x)) [
  | inl e ↦ rw e (omega (arith, finals-append xs ys))
  | inr e ↦ rw e (finals-append xs ys)
]

-- The final statuses of some rounds are one for each round.
finals-attempts : (n : ℕ) (at : ℕ → Machine) (i : ℕ) → length (finals (attempts n at i)) ≡ n
unfolding attempts finals
finals-attempts zero at i = refl
finals-attempts (suc n) at i =
    let (s, e, f, r) = run_job-finals (at i) in
    finals-append (run_job (at i)).0 (attempts n at (i + 1))
    ∙ omega (arith, ap length f, finals-attempts n at (i + 1))

-- A command with retries runs its job once and as many times again, whatever the runs come to, and
-- returns no error; one without retries runs it once and returns its error.
pub run_cmd-runs :
    (n : ℕ) (at : ℕ → Machine)
    → (length (finals (run_cmd (pos (suc n)) at).0) ≡ n + 2)
      × ((run_cmd (pos (suc n)) at).1 ≡ false)
      × (run_cmd (pos 0) at ≡ run_job (at 0))
      × (run_cmd (negsuc n) at ≡ run_job (at 0))
unfolding run_cmd
run_cmd-runs n at = (finals-attempts (n + 2) at 0, refl, refl, refl)

-- immediatelyScheduler: the flag, and Next of the schedule within.
unfoldable pub immediately_next : {T : Type 0} → (T → T) → Bool → T → T × Bool
immediately_next inner init curr = if init then (inner curr, true) else (curr, true)

unfoldable pub next_times : {T : Type 0} → (T → T) → Bool → List T → List T
unfolding immediately_next
next_times inner init [] = []
next_times inner init (t ∷ ts) =
    let (u, init') = immediately_next inner init t in u ∷ next_times inner init' ts

module _ {T : Type 0} (inner : T → T) where
  later_times : (ts : List T) → next_times inner true ts ≡ map inner ts
  unfolding next_times
  later_times [] = refl
  later_times (t ∷ ts) = ap (λ us. inner t ∷ us) (later_times ts)

  -- A schedule that starts immediately fires at the first time that it is asked about, and goes by
  -- the schedule within at every later one.
  pub next_times-once : (t : T) (ts : List T) → next_times inner false (t ∷ ts) ≡ t ∷ map inner ts
  unfolding next_times
  next_times-once t ts = ap (λ us. t ∷ us) (later_times ts)
