-- ===== src/Taskset/Run/Timed/Prompt.antt =====
-- taskset/taskset.go with internal/waiter.go and graceful_stop.go: when a task set that is asked to stop
-- ends.
use launce.Base.{
  ℕ, suc, ◌+◌, ◌≤◌, ◌≡◌, refl, sym, ap, ◌∙◌, Bool, inl, inr, Option, none, some, List, [], ◌∷◌,
  ◌++◌, map, arith, length, leb, max, if◌then◌else◌, Option-cases,
}
use launce.Base.Int64.{IsNonneg, max64}
use launce.Context.{Context, done_at, is_done, with_graceful_stop}
use launce.User.{Runner}
use launce.Waiter.{Ending, waited, cancelled, blocked, wait, user_wait}
use launce.Waiter.Timers.{idle, user_wait_lem, timer_behind-user_wait}
use launce.Taskset.Queue.{TaskQueue}
use launce.Taskset.Run.{Round, loop}
use launce.Taskset.Run.Stopping.{EndsWithin}
use launce.Taskset.Run.Graceful.{at_top, loop_grace}
use launce.Taskset.Run.Timed.{Turn, wait_in, has_wait, round_of, timed}

-- When a wait ends.
abbrev time_of : Ending → ℕ
time_of (waited t timer) = t
time_of (cancelled t timer) = t
time_of blocked = 0

unlimited :
    (ctx : Context) (now : ℕ) (takes_done : Bool)
    → time_of (user_wait idle ctx none now takes_done) ≡ now
unfolding user_wait wait
unlimited ctx now takes_done = ground arith

module _ {ℓ} {A : Type ℓ} where
  -- When the task of a turn returns whose top is at the time `t`.
  abbrev pub returns_at : ℕ → Turn A → ℕ
  returns_at t r = t + r.task_time

  module _ (runner : Runner) where
    -- When the top of the next turn is.
    abbrev pub next_top : Context → ℕ → Turn A → ℕ
    next_top ctx t r =
        if has_wait runner r.result
        then time_of (user_wait idle ctx r.duration (returns_at t r) r.takes_done)
        else returns_at t r

    -- When the top of the next turn would be if nobody asked to stop.
    abbrev pub due_at : ℕ → Turn A → ℕ
    due_at t r =
        if has_wait runner r.result
        then elim r.duration [ none ↦ returns_at t r | some d ↦ returns_at t r + max64 0 d ]
        else returns_at t r

    -- The top of the turn behind a number of turns.
    abbrev pub clock : Context → ℕ → List (Turn A) → ℕ
    clock ctx t [] = t
    clock ctx t (r ∷ rs) = clock ctx (next_top ctx t r) rs

    timed_lem :
        (own : Bool) (ctx : Context) (t : ℕ) (r : Turn A) (rs : List (Turn A))
        → timed runner own ctx idle t (r ∷ rs)
          ≡ (t, round_of r (user_wait idle ctx r.duration (returns_at t r) r.takes_done))
            ∷ timed runner own ctx idle (next_top ctx t r) rs
    unfolding timed wait_in
    timed_lem own ctx t r rs =
        ground (arith, timer_behind-user_wait ctx r.duration (returns_at t r) r.takes_done)

    -- Under a context with a grace period, the next turn begins when it is due, and no later than when
    -- the task has returned and the user is asked to stop.
    next_top_lem :
        (c : Context) (d started stop_timeout t : ℕ) (r : Turn A)
        → done_at c ≡ some d
        → d ≤ due_at t r
        → next_top (with_graceful_stop c stop_timeout started none) t r ≡ max (returns_at t r) d
    next_top_lem c d started stop_timeout t r h le = elim (Option-cases r.duration) [
      | inl x ↦ ground (
        arith,
        x,
        unlimited (with_graceful_stop c stop_timeout started none) (returns_at t r) r.takes_done,
      )
      | inr (w, x) ↦
          ground (
            arith,
            x,
            user_wait_lem c w (returns_at t r) started stop_timeout d none r.takes_done h,
          )
    ]

    timed-append :
        (own : Bool) (ctx : Context) (t : ℕ) (before rest : List (Turn A))
        → (ps : List (ℕ × Round A)) × (length ps ≡ length before)
          × (timed runner own ctx idle t (before ++ rest)
              ≡ ps ++ timed runner own ctx idle (clock ctx t before) rest)
    timed-append own ctx t [] rest = ([], refl, refl)
    timed-append own ctx t (r ∷ before) rest =
        let (ps, l, e) = timed-append own ctx (next_top ctx t r) before rest in
        let p : ℕ × Round A =
          (t, round_of r (user_wait idle ctx r.duration (returns_at t r) r.takes_done)) in
        (p ∷ ps, ap suc l, timed_lem own ctx t r (before ++ rest) ∙ ap (λ qs. p ∷ qs) e)

    clock-append :
        (ctx : Context) (t : ℕ) (before : List (Turn A)) (r : Turn A)
        → clock ctx t (before ++ r ∷ []) ≡ next_top ctx (clock ctx t before) r
    clock-append ctx t [] r = refl
    clock-append ctx t (b ∷ before) r = clock-append ctx (next_top ctx t b) before r

    -- Any number of turns behind which there is one more are the turns before it, and one whose top is
    -- at the time of the clock.
    timed-split :
        (own : Bool) (ctx : Context) (t : ℕ) (before after : List (Turn A)) (r : Turn A)
        → (ps qs : List (ℕ × Round A)) × (p : Round A) × (length ps ≡ length before)
          × (timed runner own ctx idle t (before ++ r ∷ after) ≡ ps ++ (clock ctx t before, p) ∷ qs)
    timed-split own ctx t before after r =
        let (ps, l, e) = timed-append own ctx t before (r ∷ after) in
        let now = clock ctx t before in
        (
          ps,
          timed runner own ctx idle (next_top ctx now r) after,
          round_of r (user_wait idle ctx r.duration (returns_at now r) r.takes_done),
          l,
          e ∙ ap (λ qs. ps ++ qs) (timed_lem own ctx now r after),
        )

    module _ {κ} {S : Type κ} (next_task : S → Option (A × S)) where
      -- A user is asked to stop at the time `d`, and has a grace period. At that time the task of the turn
      -- `r` of a task set runs, or the wait behind it lasts. The loop of the set ends, at the latest, at
      -- the top of the next turn, which is at the later of the end of the task and `d`: the wait is cut
      -- short, and no further task starts. Up to the end of the period the context of the
      -- tasks is not done.
      pub loop_ends_promptly :
          (s : S) (q : TaskQueue A) (own : Bool) (c : Context) (d started stop_timeout t : ℕ)
          (before after : List (Turn A)) (r r' : Turn A)
          → done_at c ≡ some d
          → IsNonneg stop_timeout
          → let g = with_graceful_stop c stop_timeout started none in
            d ≤ due_at (clock g t before) r
            → (clock g t (before ++ r ∷ []) ≡ max (returns_at (clock g t before) r) d)
              × EndsWithin (length (before ++ r ∷ [])) (
                  loop next_task runner s q
                    (map (at_top g) (timed runner own g idle t ((before ++ r ∷ []) ++ r' ∷ after))))
              × ((u : ℕ) → is_done g u ≡ leb (max started d + stop_timeout) u)
      loop_ends_promptly s q own c d started stop_timeout t before after r r' h n le =
          let g = with_graceful_stop c stop_timeout started none in
          let top = clock g t (before ++ r ∷ []) in
          let at : top ≡ max (returns_at (clock g t before) r) d =
            clock-append g t before r
            ∙ next_top_lem c d started stop_timeout (clock g t before) r h le in
          let (ps, qs, p, l, e) = timed-split own g t (before ++ r ∷ []) after r' in
          let (few, grace) =
            loop_grace next_task runner s q c d started stop_timeout top ps qs p h n
              (omega (arith, at)) in
          (at, rw (e, sym l) few, grace)
