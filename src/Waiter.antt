-- ===== src/Waiter.antt =====
-- internal/waiter.go: a wait that a context cuts short. The timers are those of Go 1.21, which go.mod asks
-- for: the tick of a timer stays in its channel until it is received, also over `Stop` and `Reset`.
pub mod Timers
mod Tests
use launce.Base.{
  ℕ, ◌+◌, ◌∷◌, [], List, Bool, true, false, ◌||◌, ◌&&◌, not, Option, none, some, max, leb,
  if◌then◌else◌,
}
use launce.Base.Int64.{max64}
use launce.Context.{Context, first, done_at, is_done, passed, without_graceful_stop}

-- `time.Timer`: when it fires, if it runs, and whether its channel holds a tick.
pub record Timer : Type 0 where
  pub deadline : Option ℕ
  pub has_tick : Bool

-- The timer at the time `now`.
abbrev pub at_time : Timer → ℕ → Timer
at_time timer now =
    if passed timer.deadline now then record { deadline = none; has_tick = true } else timer

-- `Stop`, of a timer at its time: whether it ran.
abbrev pub stop : Timer → Bool × Timer
stop timer = elim timer.deadline [
  | none ↦ (false, timer)
  | some t ↦ (true, record timer { deadline = none })
]

-- `if !timer.Stop() { <-timer.C }`; `none` waits for ever.
unfoldable pub stop_and_drain : Timer → Option Timer
stop_and_drain timer =
    let (ran, timer') = stop timer in
    if ran
    then some timer'
    else (if timer'.has_tick then some (record timer' { has_tick = false }) else none)

-- `Init`: the timer, of duration 0, fires at the time `fires` unless it is stopped at the time `now` before.
unfoldable pub init : ℕ → ℕ → Option Timer
unfolding stop_and_drain
init fires now = stop_and_drain (at_time (record { deadline = some fires; has_tick = false }) now)

-- How a wait ends: at a time, by the tick or by the context, with the timer afterwards; or never.
pub data Ending : Type 0 where
  waited cancelled : ℕ → Timer → Ending
  blocked : Ending

abbrev drained : ℕ → Option Timer → Ending
drained t none = blocked
drained t (some timer) = cancelled t timer

-- The `select` at the time `t` at which one of its cases is ready; if both are, `takes_done` says which
-- one it takes.
abbrev choose : Timer → Bool → Bool → ℕ → Ending
choose timer done takes_done t =
    if timer.has_tick && not (done && takes_done)
    then waited t (record timer { has_tick = false })
    else drained t (stop_and_drain timer)

-- The time at which a case is ready.
abbrev ready_at : Timer → Option ℕ → ℕ → Option ℕ
ready_at timer done now =
    if timer.has_tick
    then some now
    else elim (first timer.deadline done) [ none ↦ none | some t ↦ some (max now t) ]

-- `Wait` behind the call of its wait time function, which gave `d`, at the time `now`.
unfoldable pub wait_for : Timer → Context → ℕ → ℕ → Bool → Ending
unfolding stop_and_drain is_done
wait_for timer ctx d now takes_done =
    let running : Timer = record timer { deadline = some (now + max64 0 d) } in
    elim (ready_at running (done_at ctx) now) [
      | none ↦ blocked
      | some t ↦ choose (at_time running t) (is_done ctx t) takes_done t
    ]

-- `Wait`, where the function, if there is one, gives a duration; without one it returns `ctx.Err()`.
unfoldable pub wait : Timer → Context → Option ℕ → ℕ → Bool → Ending
unfolding wait_for is_done
wait timer ctx none now takes_done =
    if is_done ctx now then cancelled now timer else waited now timer
wait timer ctx (some d) now takes_done = wait_for timer ctx d now takes_done

-- `BaseUserImpl.Wait` of user.go, and the wait of a task set with a wait time of its own.
unfoldable pub user_wait : Timer → Context → Option ℕ → ℕ → Bool → Ending
unfolding wait without_graceful_stop
user_wait timer ctx d now takes_done = wait timer (without_graceful_stop ctx) d now takes_done

-- A wait: its context, what the wait time function gives, when it starts, and what a tie gives.
pub record Call : Type 0 where
  pub ctx : Context
  pub duration : Option ℕ
  pub now : ℕ
  pub takes_done : Bool

abbrev pub timer_behind : Ending → Option Timer
timer_behind (waited t timer) = some timer
timer_behind (cancelled t timer) = some timer
timer_behind blocked = none

-- The timer behind a number of waits, if none of them blocks.
unfoldable pub waits : Option Timer → List Call → Option Timer
waits none calls = none
waits (some timer) [] = some timer
waits (some timer) (c ∷ cs) =
    waits (timer_behind (user_wait timer c.ctx c.duration c.now c.takes_done)) cs
