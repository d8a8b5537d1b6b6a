-- ===== src/Taskset/Run/Timed.antt =====
-- taskset/taskset.go, `wait`, with internal/waiter.go and graceful_stop.go: the turns of a task set on a
-- clock. How long a task runs and what it returns is the environment's; when its context is done, how
-- long a wait lasts and what it returns follows from the code. Times are nanoseconds.
pub mod Prompt
mod Tests
use launce.Base.{ℕ, ◌+◌, Bool, true, false, Option, none, some, List, [], ◌∷◌, if◌then◌else◌}
use launce.Context.{Context, is_done}
use launce.User.{Error, canceled, reschedule, reschedule_immediately, other, Runner}
use launce.Waiter.{Timer, Ending, waited, cancelled, blocked, user_wait}
use launce.Taskset.Run.{Round}

-- One turn: how long its task runs, what it schedules and returns, what `OnStop` returns, what the wait
-- time function gives, if there is one, and what a tie in the wait gives.
pub record Turn {ℓ} (A : Type ℓ) : Type ℓ where
  pub task_time : ℕ
  pub scheduled : List (A × Bool)
  pub result : Option Error
  pub on_stop : Option Error
  pub duration : Option ℕ
  pub takes_done : Bool

-- `wait`: with the waiter of the set, or else the user's, or else, without a user, `ctx.Err()`.
unfoldable pub wait_in : Option Timer → Option Timer → Context → Option ℕ → ℕ → Bool → Ending
unfolding user_wait is_done
wait_in (some timer) user ctx d now takes_done = user_wait timer ctx d now takes_done
wait_in none (some timer) ctx d now takes_done = user_wait timer ctx d now takes_done
wait_in none none ctx d now takes_done =
    let timer : Timer = record { deadline = none; has_tick = false } in
    if is_done ctx now then cancelled now timer else waited now timer

abbrev wait_error : Ending → Option Error
wait_error (waited t timer) = none
wait_error (cancelled t timer) = some canceled
wait_error blocked = none

-- Whether what the task returned leads to the wait, where the run goes on.
unfoldable pub has_wait : Runner → Option Error → Bool
has_wait runner none = true
has_wait runner (some reschedule) = true
has_wait none (some (other n)) = true
has_wait (some catch) (some (other n)) = catch
has_wait runner (some _) = false

module _ {ℓ} {A : Type ℓ} where
  -- What the loop sees of a turn, but for the top of it, where the wait behind the task ends so.
  unfoldable pub round_of : Turn A → Ending → Round A
  round_of r ending = record {
    ctx_err = none;
    stopping = false;
    scheduled = r.scheduled;
    result = r.result;
    on_stop = r.on_stop;
    wait_err = wait_error ending;
  }

  -- The turns with the times of their tops, the first at the time `t`. The set has a waiter of its own or
  -- not; the timer is that of the waiter in use. Behind a wait that never ends there is no turn.
  unfoldable pub timed : Runner → Bool → Context → Timer → ℕ → List (Turn A) → List (ℕ × Round A)
  unfolding wait_in has_wait round_of
  timed runner own ctx timer t [] = []
  timed runner own ctx timer t (r ∷ rs) =
      let now = t + r.task_time in
      let ending =
        if own
        then wait_in (some timer) none ctx r.duration now r.takes_done
        else wait_in none (some timer) ctx r.duration now r.takes_done in
      let waiting = has_wait runner r.result in
      (t, round_of r ending) ∷ (elim waiting [
        | false ↦ timed runner own ctx timer now rs
        | true ↦ elim ending [
          | waited u timer' ↦ timed runner own ctx timer' u rs
          | cancelled u timer' ↦ timed runner own ctx timer' u rs
          | blocked ↦ []
        ]
      ])
