-- ===== src/Job/Skip.antt =====
-- skipIfStillRunning of pkg/job/intercept.go: a channel of one token, which every job wrapped by the
-- same wrapper shares. A run takes the token and gives it back.
use juno_agent.Base.{◌+◌, ◌≡◌, Bool, true, false, List, [], ◌∷◌, if◌then◌else◌, arith, length, ◌||◌}
use juno_agent.Base.Text.{Bytes, text_eq}

-- Whether the token is in the channel, and the jobs that run.
pub record Runs : Type 0 where
  pub token : Bool
  pub running : List Bytes

abbrev pub resting : Runs
resting = record { token = true; running = [] }

unfoldable pub is_running : Bytes → List Bytes → Bool
is_running j [] = false
is_running j (k ∷ ks) = text_eq k j || is_running j ks

unfoldable pub drop_job : Bytes → List Bytes → List Bytes
drop_job j [] = []
drop_job j (k ∷ ks) = let rest = drop_job j ks in if text_eq k j then ks else k ∷ rest

-- A step of any of the wrapped jobs: the scheduler calls it, and it runs or is skipped; or a run that
-- is under way ends, once there is room for the token in the channel.
pub data Step : Runs → Runs → Type 0 where
  runs :
      (j : Bytes) (r : Runs)
      → r.token ≡ true
      → Step r (record { token = false; running = j ∷ r.running })
  skips : (j : Bytes) (r : Runs) → r.token ≡ false → Step r r
  ends :
      (j : Bytes) (r : Runs)
      → is_running j r.running ≡ true
      → r.token ≡ false
      → Step r (record { token = true; running = drop_job j r.running })

pub data Steps : Runs → Runs → Type 0 where
  stays : (r : Runs) → Steps r r
  goes : (r s t : Runs) → Steps r s → Step s t → Steps r t

abbrev IsRuns : Runs → Type 0
IsRuns r = length r.running + (if r.token then 1 else 0) ≡ 1

length-drop_job :
    (j : Bytes) (ks : List Bytes) → is_running j ks ≡ true → length (drop_job j ks) + 1 ≡ length ks
unfolding is_running drop_job
length-drop_job j [] h = cc h
length-drop_job j (k ∷ ks) h = ground (arith, length-drop_job j ks)

Step-IsRuns : (r s : Runs) → Step r s → IsRuns r → IsRuns s
Step-IsRuns _ _ (runs j r t) h = ground arith
Step-IsRuns _ _ (skips j r t) h = h
Step-IsRuns _ _ (ends j r m t) h = ground (arith, length-drop_job j r.running m)

-- However the wrapped jobs are called and end, from a state in which none runs: one job runs while
-- the token is out, and none while it is in the channel.
pub Steps-exclusive :
    (r : Runs) → Steps resting r → length r.running + (if r.token then 1 else 0) ≡ 1
Steps-exclusive r h = go resting r h (omega arith)
  where
    go : (q r : Runs) → Steps q r → IsRuns q → IsRuns r
    go q _ (stays _) i = i
    go q _ (goes _ s t hs st) i = Step-IsRuns s t st (go q s hs i)
