-- ===== src/Examples.antt =====
-- _examples/: programs that use the library. What a task does is fixed by the program, so the rounds of the loop
-- of its task set follow from the program and from what the environment does in each turn.
pub mod Order
pub mod ScheduleTask
pub mod StopTimeout
pub mod TaggedTask
mod Tests
use launce.Base.{ℕ, zero, suc, Bool, true, false, Option, none, some, List, [], ◌∷◌}
use launce.User.{
  Error, canceled, stop_user, reschedule, reschedule_immediately, interrupt, interrupt_immediately,
  other, Runner,
}
use launce.Taskset.Queue.{TaskQueue}
use launce.Taskset.Run.{Round, schedule_each, choose}

-- What the environment does in a turn: `ctx.Err()` and `Stopping` at its top, `OnStop` and `wait` if
-- they are called.
pub record Env : Type 0 where
  pub ctx_err : Option Error
  pub stopping : Bool
  pub on_stop : Option Error
  pub wait_err : Option Error

-- What the `Run` of each task schedules, and what it returns.
abbrev pub Program {ℓ} : Type ℓ → Type ℓ
Program A = A → List (A × Bool) × Option Error

module _ {ℓ} {A : Type ℓ} where
  abbrev pub round_of : Env → List (A × Bool) × Option Error → Round A
  round_of e (scheduled, result) = record {
    ctx_err = e.ctx_err;
    stopping = e.stopping;
    scheduled = scheduled;
    result = result;
    on_stop = e.on_stop;
    wait_err = e.wait_err;
  }

  module _ {κ} {S : Type κ} (next_task : S → Option (A × S)) (program : Program A) where
    -- The rounds of the loop of a task set.
    unfoldable pub play : S → TaskQueue A → List Env → List (Round A)
    unfolding choose schedule_each
    play s q [] = []
    play s q (e ∷ es) = elim (choose next_task s q) [
      | none ↦ round_of e ([], none) ∷ []
      | some (t, q', s') ↦ round_of e (program t) ∷ play s' (schedule_each q' (program t).0) es
    ]
