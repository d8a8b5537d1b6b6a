-- ===== src/Taskset/Run/Stopping.antt =====
-- taskset/taskset.go: which tasks the loop runs, and when it runs no more.
use launce.Base.{
  ℕ, ◌≤◌, ◌≡◌, ◌≢◌, inl, inr, Bool, true, false, ◌||◌, Option, none, some, List, [], ◌∷◌, ◌++◌,
  arith, length, Bool-cases, Option-cases,
}
use launce.User.{Error, Runner}
use launce.Taskset.Queue.{TaskQueue, is_empty, next, schedule}
use launce.Taskset.Run.{panicked, running, Round, Trace, react, schedule_each, choose, loop}
use launce.Taskset.Run.Counts.{count_ran}

module _ {ℓ} {A : Type ℓ} where
  -- A turn that ends the loop at its top.
  abbrev pub is_last : Round A → Bool
  is_last r = r.stopping || elim r.ctx_err [ none ↦ false | some e ↦ true ]

  -- A trace that has ended, well or badly, after at most `n` tasks.
  abbrev pub EndsWithin : ℕ → Trace A → Type 0
  EndsWithin n t = (t.outcome ≢ running) × (count_ran t.events ≤ n)

  react-EndsWithin :
      (runner : Runner) (r : Round A) (p : Option Error) (n : ℕ) (t : Trace A)
      → EndsWithin n t
      → EndsWithin n (react runner r p t)
  unfolding react
  react-EndsWithin runner r p n t h = ground arith

  module _ {κ} {S : Type κ} (next_task : S → Option (A × S)) where
    -- Where the queue is empty, the next task is the next one of the set, and the queue stays empty.
    pub choose_empty :
        (s : S) (c : Option A)
        → choose next_task s (record { tasks = []; current = c }) ≡ elim (next_task s) [
          | none ↦ none
          | some (u, s') ↦ some (u, record { tasks = []; current = some u }, s')
        ]
    unfolding choose is_empty next schedule
    choose_empty s c = ground arith

    -- Otherwise it is the first of the queue, which the set is not asked for.
    pub choose_queued :
        (s : S) (t : A) (ts : List A) (c : Option A)
        → choose next_task s (record { tasks = t ∷ ts; current = c })
          ≡ some (t, record { tasks = ts; current = some t }, s)
    unfolding choose is_empty next schedule
    choose_queued s t ts c = ground arith

    choose-ne-none :
        ((s : S) → next_task s ≢ none)
        → (s : S) (ts : List A) (c : Option A)
        → choose next_task s (record { tasks = ts; current = c }) ≢ none
    choose-ne-none total s (t ∷ ts) c = λ e. cc (choose_queued s t ts c, e)
    choose-ne-none total s [] c = elim (Option-cases (next_task s)) [
      | inl x ↦ absurd (total s x)
      | inr (u, x) ↦ λ e. cc (rw x at (choose_empty s c), e)
    ]

    -- Once the context is done or a graceful stop has begun, no further task is started: the loop ends
    -- at the first turn that sees it, and has run at most one task in each turn before.
    pub loop-EndsWithin :
        (runner : Runner) (s : S) (q : TaskQueue A) (before after : List (Round A)) (r : Round A)
        → is_last r ≡ true
        → EndsWithin (length before) (loop next_task runner s q (before ++ r ∷ after))
    unfolding loop
    loop-EndsWithin runner s q [] after r h = elim (Option-cases r.ctx_err) [
      | inr (e, x) ↦ rw (x, loop) ((λ o. cc), omega arith)
      | inl x ↦ elim (Bool-cases r.stopping) [
        | inl y ↦ rw (x, y, loop) ((λ o. cc), omega arith)
        | inr y ↦ absurd (ground arith)
      ]
    ]
    loop-EndsWithin runner s q (b ∷ before) after r h = elim (Option-cases b.ctx_err) [
      | inr (e, x) ↦ rw (x, loop) ((λ o. cc), omega arith)
      | inl x ↦ elim (Bool-cases b.stopping) [
        | inl y ↦ rw (x, y, loop) ((λ o. cc), omega arith)
        | inr y ↦ elim (Option-cases (choose next_task s q)) [
          | inl z ↦ rw (x, y, z, loop) ((λ o. cc), omega arith)
          | inr (c, z) ↦
              let rest =
                loop next_task runner c.2 (schedule_each c.1 b.scheduled) (before ++ r ∷ after) in
              let (ended, few) =
                react-EndsWithin runner b b.result (length before) rest
                  (loop-EndsWithin runner c.2 (schedule_each c.1 b.scheduled) before after r h) in
              rw (x, y, z, loop) (ended, omega arith)
        ]
      ]
    ]

    react_no_panic :
        (runner : Runner) (r : Round A) (p : Option Error) (t : Trace A)
        → t.outcome ≢ panicked
        → (react runner r p t).outcome ≢ panicked
    unfolding react
    react_no_panic runner r p t h = ground arith

    -- If the set always has a next task, the loop never panics, whatever the tasks schedule and return.
    pub loop_no_panic :
        ((s : S) → next_task s ≢ none)
        → (runner : Runner) (s : S) (q : TaskQueue A) (rs : List (Round A))
        → (loop next_task runner s q rs).outcome ≢ panicked
    unfolding loop
    loop_no_panic total runner s q [] = λ o. cc
    loop_no_panic total runner s q (b ∷ rs) = elim (Option-cases b.ctx_err) [
      | inr (e, x) ↦ rw (x, loop) (λ o. cc)
      | inl x ↦ elim (Bool-cases b.stopping) [
        | inl y ↦ rw (x, y, loop) (λ o. cc)
        | inr y ↦ elim (Option-cases (choose next_task s q)) [
          | inl z ↦ absurd (choose-ne-none total s q.tasks q.current z)
          | inr (c, z) ↦
              rw (x, y, z, loop)
                (react_no_panic runner b b.result _
                  (loop_no_panic total runner c.2 (schedule_each c.1 b.scheduled) rs))
        ]
      ]
    ]
