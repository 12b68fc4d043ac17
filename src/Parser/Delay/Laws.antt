-- ===== src/Parser/Delay/Laws.antt =====
-- The next activation of a fixed delay and of a list of times.
use juno_agent.Base.{ℕ, ◌+◌, ◌%◌, ◌≤◌, ◌<◌, ◌≡◌, arith}
use juno_agent.Base.Int.{ℤ, pos, negsuc}
use juno_agent.Parser.Delay.{one_second, every, next_delay}

-- The delay is a positive number of whole seconds, at most the duration that was asked for unless
-- that is below a second.
every_whole : (d : ℤ) → (every d % one_second ≡ 0) × (one_second ≤ every d)
unfolding every
every_whole (negsuc n) = omega arith
every_whole (pos n) = ground arith

-- The next activation of a delay stands on a whole second, after the given instant and at most the
-- delay later.
pub next_delay-every :
    (d : ℤ) (t : ℕ)
    → (next_delay (every d) t % one_second ≡ 0)
      × (t < next_delay (every d) t)
      × (next_delay (every d) t ≤ t + every d)
unfolding next_delay
next_delay-every d t = omega (arith, every_whole d)

-- Successive activations of a delay are exactly the delay apart.
pub next_delay-next_delay :
    (d : ℤ) (t : ℕ)
    → next_delay (every d) (next_delay (every d) t) ≡ next_delay (every d) t + every d
unfolding next_delay
next_delay-next_delay d t = omega (arith, every_whole d)
