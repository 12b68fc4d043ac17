-- ===== src/Job/Chain.antt =====
-- How a run of a command goes through the wrappers of the scheduler: wrappedJob of pkg/job/cron.go
-- inside skipIfStillRunning of pkg/job/intercept.go, the wrapper that pkg/job/config.go sets. What the
-- job does is a parameter.
use juno_agent.Base.{
  ◌≡◌, refl, ap, Option, none, some, Bool, true, false, List, [], ◌∷◌, if◌then◌else◌, map,
}
use juno_agent.Base.Text.{Bytes}

-- What a job's Run does: it returns, with the text of an error or without, or panics with a value.
pub data RunResult : Type 0 where
  returns : Option Bytes → RunResult
  throws : Bytes → RunResult

-- wrappedJob.run: the value of a panic becomes the error, which is logged.
unfoldable pub recovered : RunResult → Option Bytes
recovered (returns e) = e
recovered (throws text) = some text

-- wrappedJob.Run drops the error.
unfoldable pub wrapped_run : RunResult → RunResult
unfolding recovered
wrapped_run r = let e = recovered r in returns none

-- One call of the function that skipIfStillRunning makes, while no other is under way: whether the
-- token is there behind it, and whether the job ran. A run that does not return keeps the token.
unfoldable pub skip_call : Bool → RunResult → Bool × Bool
skip_call false r = (false, false)
skip_call true (returns e) = (true, true)
skip_call true (throws text) = (false, true)

-- Calls for named jobs that come one behind another: the names of those that ran.
unfoldable pub skip_calls : Bool → List (Bytes × RunResult) → Bool × List Bytes
unfolding skip_call
skip_calls token [] = (token, [])
skip_calls token ((name, r) ∷ rs) =
    let (token', ran) = skip_call token r in
    let (token'', names) = skip_calls token' rs in (token'', if ran then name ∷ names else names)

-- Cron.Schedule wraps each job before the wrappers of the configuration do.
unfoldable pub cron_calls : List (Bytes × RunResult) → Bool × List Bytes
unfolding skip_calls wrapped_run
cron_calls rs = skip_calls true (map (λ c. (c.0, wrapped_run c.1)) rs)

-- While no two calls overlap every job runs that the scheduler calls, in order, and the token is back
-- behind the last, whatever errors and panics the jobs before end with.
pub cron_calls_lem : (rs : List (Bytes × RunResult)) → cron_calls rs ≡ (true, map (λ c. c.0) rs)
unfolding cron_calls skip_calls wrapped_run
cron_calls_lem [] = refl
cron_calls_lem ((name, r) ∷ rs) = ap (λ p. (p.0, name ∷ p.1)) (cron_calls_lem rs)

-- Without the wrapper of Cron.Schedule, no job would run again behind a panic.
pub skip_calls-throws :
    (name text : Bytes) (rs : List (Bytes × RunResult))
    → skip_calls true ((name, throws text) ∷ rs) ≡ (false, name ∷ [])
unfolding skip_calls
skip_calls-throws name text rs = ap (λ p. (p.0, name ∷ p.1)) (stuck rs)
  where
    stuck : (rs : List (Bytes × RunResult)) → skip_calls false rs ≡ (false, [])
    stuck [] = refl
    stuck (c ∷ rs) = stuck rs
