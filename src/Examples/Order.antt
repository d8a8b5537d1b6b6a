-- ===== src/Examples/Order.antt =====
-- _examples/ with taskset/taskset.go: the order in which a program's tasks run.
use launce.Base.{
  ℕ, zero, suc, ◌≡◌, refl, ap, inl, inr, ◌⊎◌, Bool, true, false, Option, none, some, List, [], ◌∷◌,
  ◌++◌, arith, length, Bool-cases, Option-cases,
}
use launce.User.{Error, reschedule, reschedule_immediately, other, Runner}
use launce.Taskset.Queue.{TaskQueue}
use launce.Taskset.Run.{Round, Trace, react, schedule_each, choose, loop}
use launce.Taskset.Run.Cycling.{ran_of}
use launce.Examples.{Env, Program, round_of, play}

-- Whether a set ends with what a task of it returns.
abbrev pub is_end : Runner → Option Error → Bool
is_end runner none = false
is_end runner (some reschedule) = false
is_end runner (some reschedule_immediately) = false
is_end none (some (other n)) = false
is_end (some catch) (some (other n)) = elim catch [ true ↦ false | false ↦ true ]
is_end runner (some _) = true

module _ {ℓ} {A : Type ℓ} where
  abbrev pub IsPrefix : List A → List A → Type ℓ
  IsPrefix xs ys = (rest : List A) × (xs ++ rest ≡ ys)

  react-ran_of :
      (runner : Runner) (r : Round A) (p : Option Error) (t : Trace A)
      → (ran_of (react runner r p t).events ≡ [])
        ⊎ (is_end runner p ≡ false) × (ran_of (react runner r p t).events ≡ ran_of t.events)
  unfolding react
  react-ran_of runner r p t = ground arith

  react-IsPrefix :
      (runner : Runner) (r : Round A) (p : Option Error) (t : Trace A) (ys : List A)
      → IsPrefix (ran_of t.events) ys
      → IsPrefix
          (ran_of (react runner r p t).events)
          (elim (is_end runner p) [ true ↦ [] | false ↦ ys ])
  react-IsPrefix runner r p t ys (rest, h) = elim (react-ran_of runner r p t) [
    | inl x ↦ rw x (_, refl)
    | inr (f, x) ↦ rw (x, f) (rest, h)
  ]

  cons-IsPrefix : (x : A) (xs ys : List A) → IsPrefix xs ys → IsPrefix (x ∷ xs) (x ∷ ys)
  cons-IsPrefix x xs ys (rest, h) = (rest, ap (◌∷◌ x) h)

  module _ {κ} {S : Type κ} (next_task : S → Option (A × S)) (program : Program A) where
    -- The first `n` tasks that a program runs if nothing disturbs it.
    unfoldable pub order : ℕ → Runner → S → TaskQueue A → List A
    unfolding choose schedule_each
    order zero runner s q = []
    order (suc n) runner s q = elim (choose next_task s q) [
      | none ↦ []
      | some (t, q', s') ↦ t ∷ (elim (is_end runner (program t).1) [
        | true ↦ []
        | false ↦ order n runner s' (schedule_each q' (program t).0)
      ])
    ]

    -- Whatever the environment does, the tasks that a program runs are the first of those that it runs if
    -- nothing disturbs it, in the same order.
    pub loop-IsPrefix :
        (runner : Runner) (s : S) (q : TaskQueue A) (es : List Env)
        → IsPrefix
            (ran_of (loop next_task runner s q (play next_task program s q es)).events)
            (order (length es) runner s q)
    unfolding loop play order
    loop-IsPrefix runner s q [] = ([], refl)
    loop-IsPrefix runner s q (e ∷ es) = elim (Option-cases e.ctx_err) [
      | inr (err, x) ↦ elim (Option-cases (choose next_task s q)) [
        | inl z ↦ rw (z, play, x, loop) (_, refl)
        | inr (c, z) ↦ rw (z, play, x, loop) (_, refl)
      ]
      | inl x ↦ elim (Bool-cases e.stopping) [
        | inl y ↦ elim (Option-cases (choose next_task s q)) [
          | inl z ↦ rw (z, play, x, y, loop) (_, refl)
          | inr (c, z) ↦ rw (z, play, x, y, loop) (_, refl)
        ]
        | inr y ↦ elim (Option-cases (choose next_task s q)) [
          | inl z ↦ rw (z, play, x, y, loop, z) (_, refl)
          | inr ((t, q', s'), z) ↦
              rw (z, play, x, y, loop, z, order)
                (cons-IsPrefix t _ _ (
                  react-IsPrefix runner (round_of e (program t)) (program t).1 _ _
                    (loop-IsPrefix runner s' (schedule_each q' (program t).0) es)))
        ]
      ]
    ]
