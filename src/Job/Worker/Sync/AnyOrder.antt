-- ===== src/Job/Worker/Sync/AnyOrder.antt =====
-- The orders in which modJob of pkg/job/worker.go ranges over its maps of commands, which Go leaves
-- open.
use juno_agent.Base.{arith, ◌≡◌, ◌∙◌, sym}
use juno_agent.Base.Text.{Bytes}
use juno_agent.Base.Dict.{Dict, lookup, insert}
use juno_agent.Job.Types.{Job, Cmd, cmds}
use juno_agent.Job.Worker.{Services, IsCron, Worker, each, mod_cmd, del_cmd, without, update}
use juno_agent.Job.Worker.Commands.{IsConsistent, mod_cmd-IsConsistent, del_cmd-IsConsistent}
use juno_agent.Job.Worker.Sync.{IsKeyed}
use juno_agent.Job.Worker.Sync.Steady.{each-IsConsistent}
use juno_agent.Job.Worker.Sync.Timers.{
  timer_at, reconciled, timer-each_mod, timer-each_del, without-IsKeyed, lookup-without,
  timer-update,
}

-- Two lists of commands that are one map: each command is under its id, once.
pub record IsRanging (range m : Dict Cmd) : Type 0 where
  pub keyed : IsKeyed range
  pub same : (k : Bytes) → lookup k range ≡ lookup k m

module _ {S : Services} where
  -- The two loops at the end of modJob, over the new commands and then over the old ones that are left.
  abbrev pub in_range_order : Dict Cmd → Dict Cmd → Worker S → Worker S
  in_range_order new old w = each del_cmd (without new old) (each mod_cmd new w)

  timer-in_range_order :
      (k : Bytes) (new old : Dict Cmd) (w : Worker S)
      → IsKeyed new
      → IsKeyed old
      → timer_at k (in_range_order new old w) ≡ reconciled new old k (timer_at k w)
  timer-in_range_order k new old w hn ho =
      timer-each_del k (without new old) (each mod_cmd new w) (without-IsKeyed new old ho)
      ∙ ground (arith, lookup-without k new old, timer-each_mod k new w hn)

  -- In whatever order modJob ranges over the commands of the new and of the old job, the same timers
  -- are registered, and where robfig/cron does as it documents the commands and the scheduler's
  -- entries stay in step.
  pub update-any_order :
      (w : Worker S) (old j : Job) (new_range old_range : Dict Cmd) (k : Bytes)
      → IsCron S
      → IsConsistent w
      → IsRanging new_range (cmds j)
      → IsRanging old_range (cmds old)
      → let w' = in_range_order new_range old_range (record w { jobs = insert j.id j w.jobs }) in
        (timer_at k w' ≡ timer_at k (update w old j)) × IsConsistent w'
  update-any_order w old j new_range old_range k laws h n o =
      let w' : Worker S = record w { jobs = insert j.id j w.jobs } in
      (
        timer-in_range_order k new_range old_range w' n.keyed o.keyed
            ∙ rw (n.same k, o.same k) (sym (timer-update k w old j)),
        each-IsConsistent laws del_cmd (del_cmd-IsConsistent laws) (without new_range old_range)
            (each mod_cmd new_range w')
            (each-IsConsistent laws mod_cmd (mod_cmd-IsConsistent laws) new_range w' h),
      )
