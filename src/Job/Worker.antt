-- ===== src/Job/Worker.antt =====
-- The worker of pkg/job/worker.go: its tables of jobs and commands and the operations on them. The
-- scheduler of robfig/cron and the etcd lock are parameters. Where Go ranges over a map, the order is
-- that of the association list.
pub mod Commands
pub mod Sync
pub mod Watch
pub mod Once
use juno_agent.Base.{
  ℕ, Option, none, some, Bool, true, false, ◌&&◌, not, ◌||◌, List, [], ◌∷◌, ◌++◌, ◌≡◌, ◌==◌,
  if◌then◌else◌,
}
use juno_agent.Base.Text.{Bytes, text_eq}
use juno_agent.Base.Dict.{Dict, lookup, insert, remove}
use juno_agent.Base.Int.{ℤ, pos, negsuc}
use juno_agent.Parser.Descriptor.{Schedule}
use juno_agent.Job.Types.{
  Timer, Job, Cmd, JobType, is_alone, is_normal, get_id, cmds, in_string_array,
}
use juno_agent.Job.Keys.{lock_prefix}

-- What the worker calls: cron.Schedule, cron.Remove, and the lock and unlock of an etcd mutex, each
-- on the state of the outside world. `is_entry` reads whether an entry is scheduled.
pub record Services : Type 1 where
  pub World : Type 0
  pub schedule : Option Schedule → Bytes → World → ℕ × World
  pub remove_entry : ℕ → World → World
  pub is_entry : World → ℕ → Bool
  pub lock : Bytes → World → Bool × World
  pub unlock : Bytes → World → World

-- What robfig/cron documents: an entry gets an id of its own, and Remove drops that entry alone. The
-- locks have nothing to do with the entries.
pub record IsCron (S : Services) : Type 0 where
  pub fresh :
      (s : Option Schedule) (c : Bytes) (w : S.World) → S.is_entry w (S.schedule s c w).0 ≡ false
  pub scheduled :
      (s : Option Schedule) (c : Bytes) (w : S.World) (e : ℕ)
      → S.is_entry (S.schedule s c w).1 e ≡ ((S.schedule s c w).0 == e || S.is_entry w e)
  pub removed :
      (i : ℕ) (w : S.World) (e : ℕ)
      → S.is_entry (S.remove_entry i w) e ≡ (not (i == e) && S.is_entry w e)
  pub locked : (k : Bytes) (w : S.World) (e : ℕ) → S.is_entry (S.lock k w).1 e ≡ S.is_entry w e
  pub unlocked : (k : Bytes) (w : S.World) (e : ℕ) → S.is_entry (S.unlock k w) e ≡ S.is_entry w e

pub record Worker (S : Services) : Type 0 where
  pub host : Bytes
  pub jobs : Dict Job
  pub table : Dict Cmd
  pub world : S.World

abbrev pub is_negative : ℤ → Bool
is_negative (pos n) = false
is_negative (negsuc n) = true

-- delete(prevCmds, id) for every command that is kept
unfoldable pub without : Dict Cmd → Dict Cmd → Dict Cmd
without [] prev = prev
without ((k, c) ∷ m) prev = without m (remove k prev)

abbrev pub with_lock : Job → Bytes → Job
with_lock job key = record job { mutex = some key; locked = true }

-- A job with the lock of the job that it replaces.
abbrev pub inherit : Job → Job → Job
inherit job old = record job { mutex = old.mutex; locked = old.locked }

module _ {S : Services} where
  -- addCmd
  unfoldable pub add_cmd : Worker S → Cmd → Worker S
  add_cmd w cmd =
      let (entry, world) = S.schedule cmd.timer.schedule (get_id cmd) w.world in
      record w { table = insert (get_id cmd) (record cmd { entry = entry }) w.table; world = world }

  -- delCmd: the entry that is removed is that of the registered command.
  unfoldable pub del_cmd : Worker S → Cmd → Worker S
  del_cmd w cmd = elim (lookup (get_id cmd) w.table) [
    | none ↦ w
    | some c ↦ record w {
      table = remove (get_id cmd) w.table;
      world = S.remove_entry c.entry w.world;
    }
  ]

  -- modCmd: a command keeps its entry when its cron text stays.
  unfoldable pub mod_cmd : Worker S → Cmd → Worker S
  unfolding add_cmd
  mod_cmd w cmd = elim (lookup (get_id cmd) w.table) [
    | none ↦ add_cmd w cmd
    | some c ↦
        if text_eq cmd.timer.cron c.timer.cron
        then record w { table = insert (get_id cmd) (record cmd { entry = c.entry }) w.table }
        else add_cmd (record w { world = S.remove_entry c.entry w.world }) cmd
  ]

  -- An operation on every command of a map.
  unfoldable pub each : (Worker S → Cmd → Worker S) → Dict Cmd → Worker S → Worker S
  each op [] w = w
  each op ((k, c) ∷ m) w = each op m (op w c)

  -- Job.Lock: the job with its mutex, if the lock was got.
  unfoldable pub lock_job : Worker S → Job → Option Job × Worker S
  lock_job w job =
      let key = lock_prefix ++ job.id in
      let (got, world) = S.lock key w.world in
      (if got then some (with_lock job key) else none, record w { world = world })

  -- Job.Unlock
  unfoldable pub unlock_job : Worker S → Job → Worker S
  unlock_job w job = elim job.mutex [
    | none ↦ w
    | some key ↦ record w { world = S.unlock key w.world }
  ]

  -- Whether a job is for this node.
  unfoldable pub is_ours : Worker S → Job → Bool
  is_ours w job = not (is_negative (in_string_array job.nodes w.host))

  -- The end of addJob.
  unfoldable pub register : Worker S → Job → Worker S
  unfolding each add_cmd
  register w job = each add_cmd (cmds job) (record w { jobs = insert job.id job w.jobs })

  -- What addJob does behind the attempt to lock the job.
  abbrev pub register_locked : Option Job × Worker S → Worker S
  register_locked (none, w) = w
  register_locked (some job, w) = register w job

  unfoldable pub add_job : Worker S → Job → Worker S
  unfolding is_ours lock_job register
  add_job w job =
      if not (is_ours w job)
      then w
      else if is_alone job.job_type
      then register_locked (lock_job w job)
      else register w job

  -- delJob
  unfoldable pub del_job : Worker S → Bytes → Worker S
  unfolding unlock_job each del_cmd
  del_job w id = elim (lookup id w.jobs) [
    | none ↦ w
    | some job ↦ each del_cmd (cmds job) (unlock_job (record w { jobs = remove id w.jobs }) job)
  ]

  -- The end of modJob: the job's commands from before that are no more are deleted.
  unfoldable pub update : Worker S → Job → Job → Worker S
  unfolding each mod_cmd del_cmd without
  update w old job =
      each del_cmd (without (cmds job) (cmds old))
        (each mod_cmd (cmds job) (record w { jobs = insert job.id job w.jobs }))

  -- modJob of a job that is registered
  unfoldable pub mod_known : Worker S → Job → Job → Worker S
  unfolding is_ours del_job add_job unlock_job update
  mod_known w old job =
      let job = inherit job old in
      if not (is_ours w job)
      then del_job w job.id
      else if is_alone job.job_type && not (is_alone old.job_type)
      then add_job (del_job w job.id) job
      else if is_normal job.job_type && not (is_normal old.job_type)
      then update (unlock_job w old) old job
      else update w old job

  unfoldable pub mod_job : Worker S → Job → Worker S
  unfolding mod_known
  mod_job w job = elim (lookup job.id w.jobs) [
    | none ↦ add_job w job
    | some old ↦ mod_known w old job
  ]
