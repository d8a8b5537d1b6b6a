-- ===== src/Wait.antt =====
-- wait.go: how long a user waits between two tasks. Durations and the readings of the clock are
-- nanoseconds, `int64`; `now.Sub` is their difference as long as it fits.
pub mod Pacing
mod Tests
use launce.Base.{ℕ, ◌+◌, ◌≤◌, ◌<◌, List, [], ◌∷◌, Bool, ◌==◌, if◌then◌else◌}
use launce.Base.Int64.{add64, sub64, lt64, le64, max64}

-- The variables that the closure of `ConstantPacing` keeps.
pub record Pace : Type 0 where
  pub last_run : ℕ
  pub last_wait_time : ℕ

-- `ConstantPacing` at the time `now`.
abbrev pub constant_pacing : ℕ → Pace
constant_pacing now = record { last_run = now; last_wait_time = 0 }

-- One call of the closure: the time to wait, and the variables afterwards.
unfoldable pub pace : ℕ → Pace → ℕ → ℕ × Pace
pace d p now =
    let run_time = sub64 (sub64 now p.last_run) p.last_wait_time in
    let wait_time = max64 0 (sub64 d run_time) in
    (
      if le64 wait_time 0 then 0 else wait_time,
      record { last_run = now; last_wait_time = wait_time },
    )

-- `ConstantThroughput` at the time `now`: the interval of its `ConstantPacing`, and the variables of that.
-- `interval` is the conversion of the quotient of a second and a float64 to a duration.
module _ {ℓ} {F : Type ℓ} (interval : F → ℕ) where
  unfoldable pub constant_throughput : F → ℕ → ℕ × Pace
  constant_throughput rate now = (interval rate, constant_pacing now)

-- `Constant`.
abbrev pub constant : ℕ → ℕ
constant d = d

-- The variables of the closure of `Between`, which it swaps for good if they are in the wrong order.
pub record Range : Type 0 where
  pub low : ℕ
  pub high : ℕ

-- One call of it, where `rand.Int63n` gives `r`.
unfoldable pub between : Range → ℕ → ℕ × Range
between g r =
    if g.low == g.high
    then (g.low, g)
    else (let g' : Range = if lt64 g.high g.low then record { low = g.high; high = g.low } else g in
        (add64 r g'.low, g'))

-- The bound that `rand.Int63n` is given.
unfoldable pub spread : Range → ℕ
spread g = if lt64 g.high g.low then sub64 g.low g.high else sub64 g.high g.low
