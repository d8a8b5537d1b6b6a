-- ===== src/Taskset/Queue.antt =====
-- taskset/queue.go: the tasks that wait to be run, and the one that was taken last.
use launce.Base.{
  ℕ, ◌+◌, ◌≡◌, refl, Bool, true, false, Option, none, some, List, [], ◌∷◌, ◌++◌, arith, length,
  ◌==◌, if◌then◌else◌, append_assoc, append-nil, zero, suc, sym, ap, ◌∙◌, ◌≤◌, ◌↔◌, length-append,
  length-reverse,
}
use mathlib.Core.List.{reverse, reverse-cons}

pub record TaskQueue {ℓ} (A : Type ℓ) : Type ℓ where
  pub tasks : List A
  pub current : Option A

module _ {ℓ} {A : Type ℓ} where
  unfoldable pub is_empty : TaskQueue A → Bool
  is_empty q = length q.tasks == 0

  take_first : List A → TaskQueue A → Option (A × TaskQueue A)
  take_first [] q = none
  take_first (t ∷ ts) q = some (t, record q { tasks = ts; current = some t })

  -- `Next`; `none` is the panic of `tq.tasks[0]` on an empty queue.
  unfoldable pub next : TaskQueue A → Option (A × TaskQueue A)
  unfolding take_first
  next q = take_first q.tasks q

  -- `Schedule`.
  unfoldable pub schedule : TaskQueue A → A → Bool → TaskQueue A
  schedule q t first = record q { tasks = if first then t ∷ q.tasks else q.tasks ++ t ∷ [] }

  unfoldable pub schedule_all : TaskQueue A → List A → Bool → TaskQueue A
  schedule_all q [] first = q
  schedule_all q (t ∷ ts) first = schedule_all (schedule q t first) ts first

  -- The tasks that up to `n` calls of `Next` give.
  unfoldable pub take_all : ℕ → TaskQueue A → List A
  take_all zero q = []
  take_all (suc n) q = elim (next q) [ none ↦ [] | some (t, q') ↦ t ∷ take_all n q' ]

  tasks-schedule_all :
      (q : TaskQueue A) (ts : List A) (first : Bool)
      → (schedule_all q ts first).tasks ≡ (if first then reverse ts ++ q.tasks else q.tasks ++ ts)
  unfolding schedule_all schedule
  tasks-schedule_all q [] true = refl
  tasks-schedule_all q [] false = sym (append-nil q.tasks)
  tasks-schedule_all q (t ∷ ts) true =
      tasks-schedule_all (schedule q t true) ts true
      ∙ sym (
          ap (λ xs. xs ++ q.tasks) (reverse-cons t ts) ∙ append_assoc (reverse ts) (t ∷ []) q.tasks)
  tasks-schedule_all q (t ∷ ts) false =
      tasks-schedule_all (schedule q t false) ts false ∙ append_assoc q.tasks (t ∷ []) ts

  take_all_lem :
      (ts : List A) (n : ℕ) (c : Option A)
      → length ts ≤ n
      → take_all n (record { tasks = ts; current = c }) ≡ ts
  unfolding take_all next
  take_all_lem [] zero c h = refl
  take_all_lem [] (suc n) c h = refl
  take_all_lem (t ∷ ts) zero c h = absurd (omega arith)
  take_all_lem (t ∷ ts) (suc n) c h = ap (◌∷◌ t) (take_all_lem ts n (some t) (omega arith))

  next_iff :
      (ts : List A) (c : Option A)
      → (next (record { tasks = ts; current = c }) ≡ none)
        ↔ (is_empty (record { tasks = ts; current = c }) ≡ true)
  unfolding next is_empty
  next_iff [] c = (λ e. refl, λ e. refl)
  next_iff (t ∷ ts) c = (λ e. cc, λ e. ground arith)

  -- Tasks that are scheduled one after another come behind the waiting ones, in the same order;
  -- those scheduled as first come before these, the last of them foremost. As many calls of `Next`
  -- as there are tasks, or more, return them in this order, none lost or doubled; and the queue is
  -- empty exactly when `Next` fails.
  pub take_all-schedule_all :
      (q : TaskQueue A) (ts : List A) (n : ℕ)
      → length q.tasks + length ts ≤ n
      → (take_all n (schedule_all q ts false) ≡ q.tasks ++ ts)
        × (take_all n (schedule_all q ts true) ≡ reverse ts ++ q.tasks)
        × ((next q ≡ none) ↔ (is_empty q ≡ true))
  take_all-schedule_all q ts n h = (
    taken false (ap length (tasks-schedule_all q ts false) ∙ length-append q.tasks ts)
        ∙ tasks-schedule_all q ts false,
    taken true (
          ap length (tasks-schedule_all q ts true)
          ∙ length-append (reverse ts) q.tasks
          ∙ omega (arith, length-reverse ts))
        ∙ tasks-schedule_all q ts true,
    next_iff q.tasks q.current,
  )
    where
      taken :
          (first : Bool)
          → length (schedule_all q ts first).tasks ≡ length q.tasks + length ts
          → take_all n (schedule_all q ts first) ≡ (schedule_all q ts first).tasks
      taken first e =
          take_all_lem (schedule_all q ts first).tasks n (schedule_all q ts first).current
            (omega arith)
