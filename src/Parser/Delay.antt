-- ===== src/Parser/Delay.antt =====
-- pkg/job/parser/constantdelay.go and at.go: a fixed delay, and a list of times. An instant is its
-- nanoseconds since 1970, up to the year 2262, behind which UnixNano has no meaning; a duration is its
-- nanoseconds.
pub mod Laws
pub mod Times
use juno_agent.Base.{
  ℕ, ◌+◌, ◌-◌, ◌*◌, ◌/◌, ◌%◌, ◌^◌, Option, none, some, List, [], ◌∷◌, ltb, leb, if◌then◌else◌,
}
use juno_agent.Base.Int.{ℤ, pos, negsuc}

-- time.Second
abbrev pub one_second : ℕ
one_second = 10 ^ 9

-- `duration < time.Second` takes every negative duration too.
unfoldable pub every : ℤ → ℕ
every (negsuc n) = one_second - one_second % one_second
every (pos n) =
    let duration = if ltb n one_second then one_second else n in duration - duration % one_second

-- ConstantDelaySchedule.Next
unfoldable pub next_delay : ℕ → ℕ → ℕ
next_delay delay t = t + delay - t % one_second

-- t.Unix()
abbrev pub unix : ℕ → ℕ
unix t = t / one_second

unfoldable pub insert_time : ℕ → List ℕ → List ℕ
insert_time t [] = t ∷ []
insert_time t (u ∷ us) = if leb (unix t) (unix u) then t ∷ u ∷ us else u ∷ insert_time t us

-- At sorts by whole seconds.
unfoldable pub at : List ℕ → List ℕ
unfolding insert_time
at [] = []
at (t ∷ ts) = insert_time t (at ts)

-- TimeListSchedule.Next; `none` is the zero time.
unfoldable pub next_time : List ℕ → ℕ → Option ℕ
next_time [] t = none
next_time (u ∷ us) t = if leb u t then next_time us t else some u
