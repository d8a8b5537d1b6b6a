-- ===== src/Taskset/Run/Graceful.antt =====
-- taskset/taskset.go with graceful_stop.go: a task set that is stopped with a grace period.
use launce.Base.{
  ℕ, ◌+◌, ◌≤◌, ◌≡◌, refl, sym, true, Option, none, some, List, [], ◌∷◌, ◌++◌, map, map-append,
  arith, length, leb, max, if◌then◌else◌,
}
use launce.Base.Int64.{IsNonneg}
use launce.Context.{Context, done_at, is_done, stopping, with_graceful_stop}
use launce.Context.Grace.{with_graceful_stop_lem}
use launce.User.{canceled, Runner}
use launce.Taskset.Queue.{TaskQueue}
use launce.Taskset.Run.{Round, loop}
use launce.Taskset.Run.Stopping.{EndsWithin, is_last, loop-EndsWithin}

module _ {ℓ} {A : Type ℓ} where
  -- A turn whose top is at a time, under a context.
  abbrev pub at_top : Context → ℕ × Round A → Round A
  at_top ctx (t, r) = record r {
    ctx_err = if is_done ctx t then some canceled else none;
    stopping = stopping ctx t;
  }

  length-map-at_top :
      (ctx : Context) (rs : List (ℕ × Round A)) → length (map (at_top ctx) rs) ≡ length rs
  length-map-at_top ctx [] = refl
  length-map-at_top ctx (r ∷ rs) = omega (arith, length-map-at_top ctx rs)

  module _ {κ} {S : Type κ} (next_task : S → Option (A × S)) where
    -- A user is asked to stop at the time `d`, and has a grace period from then on. The loop of a task
    -- set that is at the top of a turn at a later time `t` ends there, having started at most one task in
    -- each turn before; and up to the end of the period the context that its tasks run under is not
    -- done.
    pub loop_grace :
        (runner : Runner) (s : S) (q : TaskQueue A) (c : Context) (d started stop_timeout t : ℕ)
        (before after : List (ℕ × Round A)) (r : Round A)
        → done_at c ≡ some d
        → IsNonneg stop_timeout
        → d ≤ t
        → let g = with_graceful_stop c stop_timeout started none in
          EndsWithin
            (length before)
            (loop next_task runner s q (map (at_top g) (before ++ (t, r) ∷ after)))
          × ((u : ℕ) → is_done g u ≡ leb (max started d + stop_timeout) u)
    loop_grace runner s q c d started stop_timeout t before after r h n le =
        let g = with_graceful_stop c stop_timeout started none in
        let (w, stop, _, _) = with_graceful_stop_lem c d started t stop_timeout h n in
        let last : is_last (at_top g (t, r)) ≡ true = ground (arith, stop) in
        (
          rw (map-append (at_top g) before ((t, r) ∷ after), sym (length-map-at_top g before))
              (loop-EndsWithin next_task runner s q (map (at_top g) before) (map (at_top g) after)
                (at_top g (t, r)) last),
          λ u. (with_graceful_stop_lem c d started u stop_timeout h n).0,
        )
