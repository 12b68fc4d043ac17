-- ===== src/Examples/Parts.antt =====
-- The theorems on keys, processes, runs, caches, padding and commands at concrete inputs.
use juno_agent.Base.{ℕ, ◌+◌, ◌≤◌, some, true, false, [], ◌∷◌, ◌≡◌, ◌⊎◌, refl, length, if◌then◌else◌}
use juno_agent.Base.Text.{codes}
use juno_agent.Base.Dict.{Dict}
use juno_agent.Base.Int.{pos, negsuc}
use juno_agent.Job.Keys.{Process}
use juno_agent.Job.Process.{run_calls, idle, starts, stops, run_calls-once}
use juno_agent.Job.Run.{Machine, file, exited, run_job, finals, run_cmd, run_cmd-runs}
use juno_agent.Job.Skip.{Runs, resting, Steps, runs, skips, stays, goes, Steps-exclusive}
use juno_agent.Engine.{ServiceNode, ConfNode}

abbrev shell_proc : Process
shell_proc = record {
  id = codes "42";
  job_id = codes "backup";
  node_id = codes "host";
  task_id = 7;
}

run_calls-once_example :
    ((run_calls (starts true ∷ stops true ∷ starts true ∷ []) idle).puts ≤ 1)
    × (((run_calls (starts true ∷ stops true ∷ starts true ∷ []) idle).stored ≡ false)
        ⊎ ((run_calls (starts true ∷ stops true ∷ starts true ∷ []) idle).puts ≡ 1))
run_calls-once_example = run_calls-once (starts true ∷ stops true ∷ starts true ∷ [])

abbrev healthy : Machine
healthy = record { script = file; starts = true; waited = exited }

run_cmd-runs_example :
    (length (finals (run_cmd (pos 3) (λ _. healthy)).0) ≡ 4)
    × ((run_cmd (pos 3) (λ _. healthy)).1 ≡ false)
    × (run_cmd (pos 0) (λ _. healthy) ≡ run_job healthy)
    × (run_cmd (negsuc 2) (λ _. healthy) ≡ run_job healthy)
run_cmd-runs_example = run_cmd-runs 2 (λ _. healthy)

abbrev one_run : Runs
one_run = record { token = false; running = codes "a" ∷ [] }

two_calls : Steps resting one_run
two_calls =
    goes resting one_run one_run
      (goes resting resting one_run (stays resting) (runs (codes "a") resting refl))
      (skips (codes "b") one_run refl)

Steps-exclusive_example : length one_run.running + (if one_run.token then 1 else 0) ≡ 1
Steps-exclusive_example = Steps-exclusive one_run two_calls

abbrev web : ServiceNode
web = record {
  app_name = codes "web";
  ip = codes "10.0.0.1";
  port = codes "80";
  schema = codes "http";
}

abbrev web_conf : ConfNode ℕ
web_conf = record {
  app_name = codes "web";
  app_envi = codes "live";
  ip = codes "10.0.0.1";
  configuration = some 3;
}

abbrev programs : Dict ℕ
programs = (codes "p", 0) ∷ []
