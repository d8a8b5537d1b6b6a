-- ===== src/Examples/StopTimeout.antt =====
-- _examples/stop-timeout/user.go: a task that looks at its context while it runs. Times are nanoseconds; a
-- timer of `time.After` fires at its time, and a goroutine that becomes ready runs at once.
use launce.Base.{
  ℕ, zero, suc, ◌+◌, ◌-◌, ◌*◌, ◌≤◌, ◌<◌, ◌≡◌, refl, ap, ap₂, ◌∙◌, Bool, ◌&&◌, ◌||◌, Option, none,
  some, arith, max, ltb, leb, inl, inr, if◌then◌else◌,
}
use launce.Base.Int64.{IsNonneg}
use launce.Context.{Context, done_at, with_graceful_stop}
use launce.Waiter.{Timer, Ending, cancelled, blocked, user_wait}
use launce.Waiter.Timers.{idle, user_wait_lem}

abbrev pub task_duration : ℕ
task_duration = 3_000_000_000

abbrev pub step : ℕ
step = 200_000_000

-- How the loop of `Process` ends, and when.
pub data Progress : Type 0 where
  completed interrupted : ℕ → Progress
  out_of_fuel : Progress

-- The loop, from the time `now` on, where the context is done at the time `deadline`, if ever; where both
-- cases of the `select` are ready at once, `takes_done` says which one it takes.
unfoldable pub loop : ℕ → Option ℕ → Bool → ℕ → ℕ → Progress
loop zero deadline takes_done elapsed now = out_of_fuel
loop (suc fuel) deadline takes_done elapsed now =
    let rest = loop fuel deadline takes_done (elapsed + step) (now + step) in
    if ltb elapsed task_duration
    then elim deadline [
      | none ↦ rest
      | some t ↦
          if leb t (now + step) && (ltb t (now + step) || takes_done)
          then interrupted (max now t)
          else rest
    ]
    else completed now

-- The loop of `Process`. Each turn adds a step to `elapsed`, so 16 turns are enough.
unfoldable pub steps : Context → Bool → ℕ → Progress
unfolding loop
steps ctx takes_done now = loop 16 (done_at ctx) takes_done 0 now

-- With fuel for the steps that are left and one more, the loop ends: at the deadline if it comes before
-- the last step is over, or else with this step.
loop_lem :
    (k fuel t : ℕ) (takes_done : Bool) (elapsed now : ℕ)
    → elapsed + suc k * step ≡ task_duration
    → suc k < fuel
    → loop fuel (some t) takes_done elapsed now ≡ (
        if leb t (now + suc k * step) && (ltb t (now + suc k * step) || takes_done)
        then interrupted (max now t)
        else completed (now + suc k * step))
unfolding loop
loop_lem zero zero t takes_done elapsed now e h = absurd (omega arith)
loop_lem zero (suc zero) t takes_done elapsed now e h = absurd (omega arith)
loop_lem zero (suc (suc fuel)) t takes_done elapsed now e h = ground arith
loop_lem (suc k) zero t takes_done elapsed now e h = absurd (omega arith)
loop_lem (suc k) (suc fuel) t takes_done elapsed now e h =
    ground (
      arith,
      loop_lem k fuel t takes_done (elapsed + step) (now + step) (omega arith) (omega arith),
    )

steps_lem :
    (ctx : Context) (t : ℕ) (takes_done : Bool) (now : ℕ)
    → done_at ctx ≡ some t
    → steps ctx takes_done now ≡ (
        if leb t (now + task_duration) && (ltb t (now + task_duration) || takes_done)
        then interrupted (max now t)
        else completed (now + task_duration))
unfolding steps
steps_lem ctx t takes_done now h =
    ap (λ o. loop 16 o takes_done 0 now) h ∙ loop_lem 14 16 t takes_done 0 now refl (omega arith)

-- `Process`: the response time that it reports, if it does, and how it ends. A `cancelled` ending is an error
-- of the context.
unfoldable pub process : Timer → Context → Bool → ℕ → Option ℕ × Ending
unfolding steps user_wait
process timer ctx takes_done now = elim (steps ctx takes_done now) [
  | completed t ↦ (some (t - now), user_wait timer ctx (some 1_000_000_000) t takes_done)
  | interrupted t ↦ (none, cancelled t timer)
  | out_of_fuel ↦ (none, blocked)
]

steps-completed :
    (c : Context) (d started stop_timeout now : ℕ) (takes_done : Bool)
    → done_at c ≡ some d
    → now < d
    → IsNonneg stop_timeout
    → task_duration ≤ stop_timeout
    → steps (with_graceful_stop c stop_timeout started none) takes_done now
      ≡ completed (now + task_duration)
unfolding with_graceful_stop
steps-completed c d started stop_timeout now takes_done h later n long =
    steps_lem (with_graceful_stop c stop_timeout started none) (max started d + stop_timeout)
      takes_done now (ground (arith, h))
    ∙ ground arith

process-steps :
    (timer : Timer) (ctx : Context) (takes_done : Bool) (now t : ℕ)
    → steps ctx takes_done now ≡ completed t
    → process timer ctx takes_done now
      ≡ (some (t - now), user_wait timer ctx (some 1_000_000_000) t takes_done)
unfolding process
process-steps timer ctx takes_done now t h =
    ap
      (λ p. elim p [
        | completed u ↦ (some (u - now), user_wait timer ctx (some 1_000_000_000) u takes_done)
        | interrupted u ↦ (none, cancelled u timer)
        | out_of_fuel ↦ (none, blocked)
      ])
      h

-- The grace period is at least as long as a task, and a user is asked to stop while a task runs that began
-- before. The task runs to its end and reports its whole duration as the response time, and `Process` then
-- returns the error of its context at once, without the wait.
pub process_completes :
    (c : Context) (d started stop_timeout now : ℕ) (takes_done : Bool)
    → done_at c ≡ some d
    → now < d
    → d ≤ now + task_duration
    → IsNonneg stop_timeout
    → task_duration ≤ stop_timeout
    → process idle (with_graceful_stop c stop_timeout started none) takes_done now
      ≡ (some task_duration, cancelled (now + task_duration) idle)
process_completes c d started stop_timeout now takes_done h later soon n long =
    let g = with_graceful_stop c stop_timeout started none in
    let end = now + task_duration in
    let waits = user_wait idle g (some 1_000_000_000) end takes_done in
    let ends : waits ≡ cancelled end idle =
      elim (user_wait_lem c 1_000_000_000 end started stop_timeout d none takes_done h) [
        | inl (x, y) ↦ absurd (ground arith)
        | inr (x, y) ↦ x ∙ ap (λ t. cancelled t idle) (omega arith)
      ] in
    process-steps idle g takes_done now end
      (steps-completed c d started stop_timeout now takes_done h later n long)
    ∙ ap₂ (λ t e. (some t, e)) (omega arith) ends
