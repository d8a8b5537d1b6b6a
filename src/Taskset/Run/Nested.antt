-- ===== src/Taskset/Run/Nested.antt =====
-- taskset/taskset.go: a task set whose tasks may be task sets, which `Run` runs inside its own loop. An
-- event carries the depth of the set that it belongs to.
pub mod Order
pub mod Interrupts
pub mod Unwinding
mod Tests
use launce.Base.{
  ℕ, ◌+◌, Bool, true, false, Option, none, some, List, [], ◌∷◌, ◌++◌, map, if◌then◌else◌,
}
use launce.User.{
  Error, canceled, interrupt, interrupt_immediately, reschedule, reschedule_immediately, Runner,
}
use launce.Taskset.Queue.{TaskQueue}
use launce.Taskset.Run.{
  Event, ran, stopped, Outcome, returned, panicked, running, Round, Trace, react, schedule_each,
  choose,
}

-- `OnStart`: what it schedules and returns, and `ctx.Err()` behind it.
pub record Opening {ℓ} (A : Type ℓ) : Type ℓ where
  pub scheduled : List (A × Bool)
  pub result : Option Error
  pub ctx_err : Option Error

-- What the environment answers in a turn. If the task of the turn is a set, the opening and the answers
-- inside stand for what it schedules and returns.
mutual
  pub data Answer {ℓ} (A : Type ℓ) : Type ℓ where
    answer : Round A → Opening A → Answers A → Answer A

  pub data Answers {ℓ} (A : Type ℓ) : Type ℓ where
    nil : Answers A
    cons : Answer A → Answers A → Answers A

-- The events of a run and of the runs inside it, each with its depth.
pub record Deep {ℓ} (A : Type ℓ) : Type ℓ where
  pub events : List (ℕ × Event A)
  pub outcome : Outcome

module _ {ℓ} {A : Type ℓ} where
  abbrev pub before : List (ℕ × Event A) → Deep A → Deep A
  before es t = record t { events = es ++ t.events }

  abbrev pub at_depth : ℕ → List (Event A) → List (ℕ × Event A)
  at_depth d es = map (λ e. (d, e)) es

  -- A turn of the switch by itself: its events, and `running` if the loop goes on.
  abbrev pub turn : Runner → Round A → Option Error → Trace A
  turn runner r p = react runner r p (record { events = []; outcome = running })

  -- The loop goes on behind the turn, or ends with it.
  unfoldable pub go_on : ℕ → Trace A → Deep A → Deep A
  go_on d t rest = elim t.outcome [
    | running ↦ before (at_depth d t.events) rest
    | returned e ↦ record { events = at_depth d t.events; outcome = returned e }
    | panicked ↦ record { events = at_depth d t.events; outcome = panicked }
  ]

  -- What follows the run of a set that is the task of a turn.
  unfoldable pub after_set : ℕ → Runner → Round A → Deep A → Deep A → Deep A
  unfolding go_on
  after_set d runner r inner rest = elim inner.outcome [
    | returned e ↦ before inner.events (go_on d (turn runner r (some e)) rest)
    | panicked ↦ inner
    | running ↦ inner
  ]

  -- The error with which `Run` ends before its loop.
  unfoldable pub early : Opening A → Option Error
  early o = elim o.result [
    | none ↦ o.ctx_err
    | some interrupt ↦ some reschedule
    | some interrupt_immediately ↦ some reschedule_immediately
    | some e ↦ some e
  ]

  module _ {κ} {S : Type κ} (next_task : S → Option (A × S)) (enter : A → Option S) where
    -- The loop of the set at depth `d`. `enter` says whether a task is a set, and how it stands after its
    -- `Init`. A set schedules nothing in the set that it is a task of.
    unfoldable pub loop : ℕ → Runner → S → TaskQueue A → Answers A → Deep A
    unfolding go_on after_set early
    loop d runner s q nil = record { events = []; outcome = running }
    loop d runner s q (cons (answer r o inside) rest) = elim r.ctx_err [
      | some e ↦ record { events = (d, stopped) ∷ []; outcome = returned e }
      | none ↦ elim r.stopping [
        | true ↦ record { events = (d, stopped) ∷ []; outcome = returned canceled }
        | false ↦ elim (choose next_task s q) [
          | none ↦ record { events = []; outcome = panicked }
          | some (t, q', s') ↦ elim (enter t) [
            | none ↦ before ((d, ran t) ∷ []) (
                go_on d (turn runner r r.result)
                  (loop d runner s' (schedule_each q' r.scheduled) rest))
            | some inner ↦ before ((d, ran t) ∷ []) (
                after_set d runner r
                  (elim (early o) [
                    | some e ↦ record { events = []; outcome = returned e }
                    | none ↦
                        loop (d + 1) runner inner
                          (schedule_each (record { tasks = []; current = none }) o.scheduled) inside
                  ])
                  (loop d runner s' q' rest))
          ]
        ]
      ]
    ]
