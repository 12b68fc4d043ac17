-- ===== src/Examples/Tables.antt =====
-- The theorems on the worker's tables, with a scheduler that numbers its entries.
use juno_agent.Base.{
  ℕ, ◌+◌, ◌<◌, Option, none, some, Bool, true, false, not, ◌&&◌, ◌||◌, List, [], ◌∷◌, ◌++◌, ◌≡◌,
  refl, arith, ltb, ◌==◌, if◌then◌else◌, Bool-cases, inl, inr,
}
use juno_agent.Base.Text.{Bytes, codes, text_eq}
use juno_agent.Base.Dict.{lookup, insert}
use juno_agent.Base.Int.{pos}
use juno_agent.Parser.Descriptor.{TimeText, constant_delay}
use juno_agent.Job.Types.{
  valid, valid_rules, Timer, Job, Cmd, is_alone, type_normal, cmds, in_string_array,
}
use juno_agent.Job.Worker.{Services, IsCron, Worker, add_job, mod_job, is_ours, update}
use juno_agent.Job.Worker.Commands.{IsConsistent}
use juno_agent.Job.Worker.Sync.Steady.{mod_job-IsConsistent, add_job-IsConsistent}
use juno_agent.Job.Worker.Sync.Again.{add_job-leaks}
use juno_agent.Job.EtcdWatch.{watch_prefix}
use juno_agent.Job.Delivery.{Action, respond, next_event, run, handle_all}
use juno_agent.Job.Delivery.Order.{begins, run-handle_all}
use juno_agent.Job.Worker.Sync.{cmds-IsKeyed}
use juno_agent.Job.Worker.Sync.AnyOrder.{in_range_order, update-any_order}
use juno_agent.Job.Worker.Watch.{Event, deleted, created, modified, get_job_content, handle}
use juno_agent.Job.Worker.Sync.Declared.{declared}
use juno_agent.Job.Worker.Sync.History.{History, start, event, History-timers}
use juno_agent.Job.Worker.Sync.Timers.{timer_at, reconciled, mod_job-timers}

-- A world is the list of its entries.
abbrev mem : List ℕ → ℕ → Bool
mem [] e = false
mem (n ∷ ns) e = n == e || mem ns e

abbrev above : List ℕ → ℕ
above [] = 1
above (n ∷ ns) = if ltb n (above ns) then above ns else n + 1

abbrev without_entry : ℕ → List ℕ → List ℕ
without_entry i [] = []
without_entry i (n ∷ ns) = if i == n then without_entry i ns else n ∷ without_entry i ns

abbrev counting : Services
counting = record {
  World = List ℕ;
  schedule = λ s c w. (above w, above w ∷ w);
  remove_entry = without_entry;
  is_entry = mem;
  lock = λ k w. (true, w);
  unlock = λ k w. w;
}

mem-above : (w : List ℕ) (e : ℕ) → mem w e ≡ true → e < above w
mem-above [] e h = absurd (ground arith)
mem-above (n ∷ ns) e h = ground (arith, mem-above ns e)

above-fresh : (w : List ℕ) → mem w (above w) ≡ false
above-fresh w = elim (Bool-cases (mem w (above w))) [
  | inl e ↦ absurd (omega (arith, mem-above w (above w) e))
  | inr e ↦ e
]

mem-without_entry :
    (i : ℕ) (w : List ℕ) (e : ℕ) → mem (without_entry i w) e ≡ (not (i == e) && mem w e)
mem-without_entry i [] e = ground arith
mem-without_entry i (n ∷ ns) e = ground (arith, mem-without_entry i ns e)

counting-IsCron : IsCron counting
counting-IsCron = record {
  fresh = λ s c w. above-fresh w;
  scheduled = λ s c w e. refl;
  removed = mem-without_entry;
  locked = λ k w e. refl;
  unlocked = λ k w e. refl;
}

abbrev empty : Worker counting
empty = record { host = codes "h"; jobs = []; table = []; world = [] }

empty-IsConsistent : IsConsistent empty
unfolding lookup
empty-IsConsistent = record {
  live = λ k c e. cc e;
  owned = λ e h. cc h;
  single = λ k j c d e f p. cc e;
}

abbrev hourly : Timer
hourly = record { id = codes "t"; cron = codes "@hourly"; schedule = none }

abbrev daily : Timer
daily = record { id = codes "u"; cron = codes "@daily"; schedule = none }

abbrev backup : List Timer → Job
backup ts = record {
  id = codes "j";
  script = codes "/b.sh";
  timers = ts;
  enable = true;
  timeout = pos 0;
  nodes = codes "h" ∷ [];
  retry_count = pos 0;
  retry_interval = pos 0;
  job_type = type_normal;
  run_on = codes "h";
  mutex = none;
  locked = false;
}

abbrev old_job : Job
old_job = backup (hourly ∷ [])

abbrev new_job : Job
new_job = backup (daily ∷ [])

abbrev loaded : Worker counting
loaded = add_job empty old_job

add_job-IsConsistent_example : IsConsistent loaded
unfolding lookup
add_job-IsConsistent_example =
    add_job-IsConsistent counting-IsCron empty old_job empty-IsConsistent (λ k c e. refl)

loaded-IsConsistent : IsConsistent loaded
unfolding lookup
loaded-IsConsistent =
    add_job-IsConsistent counting-IsCron empty old_job empty-IsConsistent (λ k c e. refl)

mod_job-IsConsistent_example : IsConsistent (mod_job loaded new_job)
unfolding lookup add_job text_eq in_string_array is_alone cmds insert
mod_job-IsConsistent_example =
    mod_job-IsConsistent counting-IsCron loaded new_job old_job loaded-IsConsistent refl refl

mod_job-timers_example :
    timer_at (codes "j-t") (mod_job loaded new_job)
    ≡ reconciled (cmds new_job) (cmds old_job) (codes "j-t") (timer_at (codes "j-t") loaded)
unfolding lookup add_job text_eq is_ours in_string_array is_alone cmds insert
mod_job-timers_example = mod_job-timers loaded new_job old_job (codes "j-t") refl refl refl

abbrev registered : ℕ → Cmd
registered e = record { job_id = codes "j"; timer = hourly; entry = e }

add_job-leaks_example :
    (mem (add_job loaded old_job).world 1 ≡ true) × ¬ (IsConsistent (add_job loaded old_job))
unfolding lookup add_job text_eq is_ours in_string_array is_alone cmds insert
add_job-leaks_example =
    add_job-leaks counting-IsCron loaded old_job (codes "j-t") (registered 0) (registered 1)
      loaded-IsConsistent refl refl refl refl

-- A job whose schedule is read, and the sequence of its creation, a change and its end.
abbrev ready_job : Job
ready_job = backup ((record hourly { schedule = some (constant_delay 3600) }) ∷ [])

abbrev ready : Bytes → Option Job
ready v = some ready_job

abbrev no_text : TimeText
no_text = record { load_location = λ s. none; parse_duration = λ s. none; parse_time = λ s. none }

abbrev created_worker : Worker counting
created_worker = add_job empty ready_job

created_History : History no_text ready created_worker
unfolding handle get_job_content valid_rules valid lookup
created_History =
    event (created (codes "/juno/cronjob/job/j") []) (start (codes "h") [] (λ e. refl))
      (refl, omega arith) refl

History-timers_example :
    (timer_at (codes "j-t") (mod_job created_worker ready_job)
      ≡ declared (mod_job created_worker ready_job).jobs (codes "j-t"))
    × IsConsistent (mod_job created_worker ready_job)
unfolding handle get_job_content valid_rules valid lookup in_string_array text_eq is_alone cmds
    insert
History-timers_example =
    History-timers no_text ready counting-IsCron (mod_job created_worker ready_job)
      (event (modified (codes "/juno/cronjob/job/j") []) created_History (omega arith) refl)
      (codes "j-t")

-- A creation that is sent and handled, and an end that waits in the channel.
abbrev told : List Event
told = created (codes "/juno/cronjob/job/j") [] ∷ deleted (codes "/juno/cronjob/job/j") ∷ []

abbrev actions : List Action
actions =
    respond (record { compact_revision = 0; header_revision = 8; failed = false; events = told })
    ∷ next_event
    ∷ []

run-handle_all_example :
    (handled : List Event) × (handled
        ++ (run no_text ready actions (begins no_text ready 7 empty)).watch.chan
      ≡ told)
    × ((run no_text ready actions (begins no_text ready 7 empty)).worker
        ≡ handle_all no_text ready handled (some empty))
unfolding watch_prefix
run-handle_all_example = run-handle_all no_text ready empty 7 actions (omega arith, tt)

update-any_order_example :
    let w =
      in_range_order
        (cmds new_job)
        (cmds old_job)
        (record loaded { jobs = insert new_job.id new_job loaded.jobs }) in
    (timer_at (codes "j-t") w ≡ timer_at (codes "j-t") (update loaded old_job new_job))
    × IsConsistent w
update-any_order_example =
    update-any_order loaded old_job new_job (cmds new_job) (cmds old_job) (codes "j-t")
      counting-IsCron loaded-IsConsistent
      (record { keyed = cmds-IsKeyed new_job; same = λ k. refl })
      (record { keyed = cmds-IsKeyed old_job; same = λ k. refl })
