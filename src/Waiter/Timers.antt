-- ===== src/Waiter/Timers.antt =====
-- internal/waiter.go: a wait leaves its timer idle, so the next one is not woken by its tick.
use launce.Base.{
  ℕ, ◌+◌, ◌≤◌, ◌≡◌, ◌⊎◌, refl, Bool, false, ◌&&◌, not, Option, none, some, List, [], ◌∷◌, arith,
  max, leb, if◌then◌else◌,
}
use launce.Base.Int64.{max64}
use launce.Context.{Context, done_at, with_graceful_stop, without_graceful_stop}
use launce.Waiter.{
  Timer, init, waited, cancelled, wait_for, wait, user_wait, Call, timer_behind, waits,
}

abbrev pub idle : Timer
idle = record { deadline = none; has_tick = false }

pub init-idle : (fires now : ℕ) → init fires now ≡ some idle
unfolding init
init-idle fires now = ground arith

pub wait_for-idle :
    (ctx : Context) (d now : ℕ) (takes_done : Bool)
    → wait_for idle ctx d now takes_done ≡ elim (done_at ctx) [
      | none ↦ waited (now + max64 0 d) idle
      | some t ↦
          if leb (now + max64 0 d) (max now t) && not (leb t (now + max64 0 d) && takes_done)
          then waited (now + max64 0 d) idle
          else cancelled (max now t) idle
    ]
unfolding wait_for
wait_for-idle ctx d now takes_done = ground arith

pub timer_behind-user_wait :
    (ctx : Context) (d : Option ℕ) (now : ℕ) (takes_done : Bool)
    → timer_behind (user_wait idle ctx d now takes_done) ≡ some idle
unfolding user_wait wait
timer_behind-user_wait ctx none now takes_done = ground arith
timer_behind-user_wait ctx (some d) now takes_done =
    ground (arith, wait_for-idle (without_graceful_stop ctx) d now takes_done)

waits-idle : (calls : List Call) → waits (some idle) calls ≡ some idle
unfolding waits
waits-idle [] = refl
waits-idle (c ∷ cs) =
    rw (timer_behind-user_wait c.ctx c.duration c.now c.takes_done, waits) (waits-idle cs)

-- Whether the timer that `Init` makes fires before it is stopped there or would fire later, and whatever contexts, durations and times
-- the waits have: neither `Init` nor a wait ever blocks on its timer, and each leaves it stopped and
-- without a tick that could end the next wait.
pub waits-init : (fires now : ℕ) (calls : List Call) → waits (init fires now) calls ≡ some idle
waits-init fires now calls = rw (init-idle fires now) (waits-idle calls)

-- A grace period does not prolong a wait. Under a context that is derived from `c` for one, a wait that
-- starts at the time `now` ends by its tick after its duration, or by the context once `c` is done, if
-- that is earlier; it never ends later than either.
pub user_wait_lem :
    (c : Context) (d now started stop_timeout t : ℕ) (released : Option ℕ) (takes_done : Bool)
    → done_at c ≡ some t
    → let ending =
        user_wait idle
          (with_graceful_stop c stop_timeout started released)
          (some d)
          now
          takes_done in
      (ending ≡ waited (now + max64 0 d) idle) × (now + max64 0 d ≤ max now t)
      ⊎ (ending ≡ cancelled (max now t) idle) × (max now t ≤ now + max64 0 d)
unfolding user_wait wait with_graceful_stop
user_wait_lem c d now started stop_timeout t released takes_done h = ground (
  arith,
  h,
  wait_for-idle (without_graceful_stop (with_graceful_stop c stop_timeout started released)) d now
      takes_done,
)
