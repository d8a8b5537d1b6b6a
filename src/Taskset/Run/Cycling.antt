-- ===== src/Taskset/Run/Cycling.antt =====
-- taskset/taskset.go with taskset/sequential.go: the tasks that the loop of a sequential set runs.
mod Tests
use launce.Base.{
  ℕ, suc, ◌<◌, ◌≡◌, refl, ap, ◌∙◌, inl, inr, Bool, true, false, Option, none, some, List, [], ◌∷◌,
  map, arith, All, Bool-cases, Option-cases,
}
use launce.User.{Error, Runner}
use launce.Taskset.Queue.{TaskQueue}
use launce.Taskset.Sequential.{Sequential, init, len, next, take_next, take_next-cycle, cycle_from}
use launce.Taskset.Run.{
  Event, ran, waited, stopped, reported, Round, Trace, react, schedule_each, loop,
}
use launce.Taskset.Run.Counts.{count_ran}
use launce.Taskset.Run.Stopping.{choose_empty}

module _ {ℓ} {A : Type ℓ} where
  -- The tasks that have been run, in order.
  abbrev pub ran_of : List (Event A) → List A
  ran_of [] = []
  ran_of (ran t ∷ es) = t ∷ ran_of es
  ran_of (stopped ∷ es) = ran_of es
  ran_of (waited ∷ es) = ran_of es
  ran_of (reported e ∷ es) = ran_of es

  -- The tasks that have been run are those that the set gives first.
  abbrev AreNext : Sequential A → Trace A → Type ℓ
  AreNext s t = ran_of t.events ≡ take_next (count_ran t.events) s

  react-AreNext :
      (runner : Runner) (r : Round A) (p : Option Error) (s : Sequential A) (t : Trace A)
      → AreNext s t
      → AreNext s (react runner r p t)
  unfolding react take_next
  react-AreNext runner r p s t h = ground arith

  loop-AreNext :
      (runner : Runner) (s : Sequential A) (c : Option A) (rs : List (Round A))
      → All (λ r. r.scheduled ≡ []) rs
      → AreNext s (loop next runner s (record { tasks = []; current = c }) rs)
  unfolding loop take_next schedule_each
  loop-AreNext runner s c [] h = refl
  loop-AreNext runner s c (r ∷ rs) h = elim (Option-cases r.ctx_err) [
    | inr (e, x) ↦ rw (x, loop) refl
    | inl x ↦ elim (Bool-cases r.stopping) [
      | inl y ↦ rw (x, y, loop) refl
      | inr y ↦ elim (Option-cases (next s)) [
        | inl z ↦ rw (x, y, choose_empty next s c, z, loop) refl
        | inr ((t, s'), z) ↦
            rw (x, y, choose_empty next s c, z, h.0, loop)
              (rw (z, take_next)
                (ap (◌∷◌ t)
                  (react-AreNext runner r r.result s' _ (loop-AreNext runner s' (some t) rs h.1))))
      ]
    ]
  ]

  -- Where no task schedules another one, the loop runs just the tasks of a sequential set that is not empty
  -- in their order, again and again, however the tasks, the waits, the context and a stop make it end:
  -- none is left out, and each is run again only when all the others have been.
  pub loop-cycle :
      (runner : Runner) (s : Sequential A) (c : Option A) (rs : List (Round A))
      → All (λ r. r.scheduled ≡ []) rs
      → 0 < len s
      → let t = loop next runner (init s) (record { tasks = []; current = c }) rs in
        map some (ran_of t.events) ≡ cycle_from s.filtered 0 (count_ran t.events)
  loop-cycle runner s c rs h n =
      ap (map some) (loop-AreNext runner (init s) c rs h) ∙ take_next-cycle s _ n
