-- ===== src/Taskset/Run.antt =====
-- taskset/taskset.go: `BaseImpl.Run`, the loop of a task set, and taskset/user.go: what a user makes of
-- its result. A task set is anything that gives a next task or panics; what the tasks and the user's
-- methods return, and what the context says at each look, is the environment's, a round for each turn.
pub mod Counts
pub mod Stopping
pub mod Graceful
pub mod Nested
pub mod Timed
pub mod Cycling
use launce.Base.{ℕ, Bool, true, false, Option, none, some, List, [], ◌∷◌, ◌||◌, if◌then◌else◌}
use launce.User.{
  Error, canceled, stop_user, reschedule, reschedule_immediately, interrupt, interrupt_immediately,
  other, is_stop, Runner,
}
use launce.Taskset.Queue.{TaskQueue, is_empty, next, schedule}

pub data Event {ℓ} (A : Type ℓ) : Type ℓ where
  ran : A → Event A
  waited stopped : Event A
  reported : Error → Event A

-- How a run stands: it has returned an error, panicked, or goes on.
pub data Outcome : Type 0 where
  returned : Error → Outcome
  panicked running : Outcome

-- One turn: `ctx.Err()` and `launce.Stopping(ctx)` at its top, the tasks that the task schedules while
-- it runs, what it returns, what `OnStop` and what `wait` return if they are called.
pub record Round {ℓ} (A : Type ℓ) : Type ℓ where
  pub ctx_err : Option Error
  pub stopping : Bool
  pub scheduled : List (A × Bool)
  pub result : Option Error
  pub on_stop : Option Error
  pub wait_err : Option Error

pub record Trace {ℓ} (A : Type ℓ) : Type ℓ where
  pub events : List (Event A)
  pub outcome : Outcome

module _ {ℓ} {A : Type ℓ} where
  abbrev pub after_event : Event A → Trace A → Trace A
  after_event e t = record t { events = e ∷ t.events }

  abbrev pub ends : List (Event A) → Error → Trace A
  ends es e = record { events = es; outcome = returned e }

  -- The wait at the end of a turn. An error of it ends the run, with `OnStop` if it is a cancellation.
  unfoldable pub wait : Option Error → Trace A → Trace A
  wait none rest = after_event waited rest
  wait (some canceled) rest = ends (waited ∷ stopped ∷ []) canceled
  wait (some e) rest = ends (waited ∷ []) e

  -- `OnStop` behind an interrupt: an error of it that says to stop takes the place of the other one.
  unfoldable pub interrupted : Option Error → Error → Trace A
  interrupted none e = ends (stopped ∷ []) e
  interrupted (some f) e = ends (stopped ∷ []) (if is_stop f then f else e)

  -- The default branch. A user without a runner is treated as one that catches, without a report.
  unfoldable pub unexpected : Runner → Error → Trace A → Trace A
  unexpected none e rest = rest
  unexpected (some false) e rest = ends [] e
  unexpected (some true) e rest = after_event (reported e) rest

  -- The switch on what the task returned, where `again` is the run from the next turn on.
  unfoldable pub react : Runner → Round A → Option Error → Trace A → Trace A
  unfolding wait interrupted unexpected
  react runner r none again = wait r.wait_err again
  react runner r (some reschedule) again = wait r.wait_err again
  react runner r (some reschedule_immediately) again = again
  react runner r (some stop_user) again = ends (stopped ∷ []) stop_user
  react runner r (some canceled) again = ends (stopped ∷ []) canceled
  react runner r (some interrupt) again = interrupted r.on_stop reschedule
  react runner r (some interrupt_immediately) again = interrupted r.on_stop reschedule_immediately
  react runner r (some (other n)) again = unexpected runner (other n) (wait r.wait_err again)

  unfoldable pub schedule_each : TaskQueue A → List (A × Bool) → TaskQueue A
  schedule_each q [] = q
  schedule_each q ((t, first) ∷ ts) = schedule_each (schedule q t first) ts

  module _ {κ} {S : Type κ} (next_task : S → Option (A × S)) where
    -- `if tq.Empty() { tq.Schedule(b.taskset.Next(), false) }`, and `tq.Next()`.
    unfoldable pub choose : S → TaskQueue A → Option (A × TaskQueue A × S)
    choose s q =
        if is_empty q
        then elim (next_task s) [
          | none ↦ none
          | some (t, s') ↦ elim (next (schedule q t false)) [
            | none ↦ none
            | some (u, q') ↦ some (u, q', s')
          ]
        ]
        else elim (next q) [ none ↦ none | some (u, q') ↦ some (u, q', s) ]

    -- The loop of `Run`. In the rounds the observation ends where their list does.
    unfoldable pub loop : Runner → S → TaskQueue A → List (Round A) → Trace A
    unfolding choose react schedule_each
    loop runner s q [] = record { events = []; outcome = running }
    loop runner s q (r ∷ rs) = elim r.ctx_err [
      | some e ↦ ends (stopped ∷ []) e
      | none ↦ elim r.stopping [
        | true ↦ ends (stopped ∷ []) canceled
        | false ↦ elim (choose s q) [
          | none ↦ record { events = []; outcome = panicked }
          | some (t, q', s') ↦
              after_event (ran t)
                (react runner r r.result (loop runner s' (schedule_each q' r.scheduled) rs))
        ]
      ]
    ]

    -- `Run`: `OnStart` with what it schedules and returns, and the context behind it.
    unfoldable pub run :
        Runner → S → List (A × Bool) → Option Error → Option Error → List (Round A) → Trace A
    unfolding loop
    run runner s scheduled (some interrupt) ctx_err rs = ends [] reschedule
    run runner s scheduled (some interrupt_immediately) ctx_err rs = ends [] reschedule_immediately
    run runner s scheduled (some e) ctx_err rs = ends [] e
    run runner s scheduled none (some e) rs = ends [] e
    run runner s scheduled none none rs =
        loop runner s (schedule_each (record { tasks = []; current = none }) scheduled) rs

-- `UserImpl.Process`: what it makes of the result of the user's task set.
unfoldable pub process : Option Error → Option Error
process none = none
process (some reschedule) = none
process (some reschedule_immediately) = none
process (some e) = some e
