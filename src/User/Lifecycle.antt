-- ===== src/User/Lifecycle.antt =====
-- user.go: when a user's loop ends, and what it has called by then.
use launce.Base.{
  ℕ, suc, ◌+◌, ◌≡◌, refl, Bool, true, false, ◌||◌, ◌&&◌, Option, none, some, List, [], ◌∷◌, ◌++◌,
  not, append-nil, subst, sym, ◌∙◌, arith, length, if◌then◌else◌,
}
use launce.User.{
  Error, is_stop, Event, processed, stopped, reported, Round, Runner, Life, loop, process_user,
  after_process, unexpected,
}

abbrev pub count_stops : List Event → ℕ
count_stops [] = 0
count_stops (stopped ∷ es) = suc (count_stops es)
count_stops (processed ∷ es) = count_stops es
count_stops (reported e ∷ es) = count_stops es

abbrev pub count_processed : List Event → ℕ
count_processed [] = 0
count_processed (processed ∷ es) = suc (count_processed es)
count_processed (stopped ∷ es) = count_processed es
count_processed (reported e ∷ es) = count_processed es

-- A turn in which the loop ends: the context is done, or `Process` says to stop.
abbrev pub is_last : Round → Bool
is_last r = r.ctx_done || elim r.process [ none ↦ false | some e ↦ is_stop e ]

-- The runner does not catch exceptions.
abbrev pub is_uncaught : Runner → Bool
is_uncaught none = false
is_uncaught (some catches) = not catches

-- A turn behind which the loop goes on: `Process` is called, and returns nothing or an error that does not ask to
-- stop and that is caught, or passed over without a runner.
abbrev pub goes_on : Runner → Round → Bool
goes_on runner r =
    not (is_last r) && elim r.process [ none ↦ true | some e ↦ not (is_uncaught runner) ]

unfoldable pub AllGoOn : Runner → List Round → Type 0
AllGoOn runner [] = Unit
AllGoOn runner (r ∷ rs) = (goes_on runner r ≡ true) × AllGoOn runner rs

-- How a life stands: its result, how often `OnStop` was called, and how often `Process`.
abbrev pub Stands : Life → Option (Option Error) → ℕ → ℕ → Type 0
Stands l result stops calls =
    (l.result ≡ result) × (count_stops l.events ≡ stops) × (count_processed l.events ≡ calls)

goes_on_step :
    (runner : Runner) (on_stop : Option Error) (b : Round) (rs : List Round)
    (result : Option (Option Error)) (stops n : ℕ)
    → goes_on runner b ≡ true
    → Stands (loop runner on_stop rs) result stops n
    → Stands (loop runner on_stop (b ∷ rs)) result stops (n + 1)
unfolding loop after_process unexpected
goes_on_step runner on_stop b rs result stops n g h = ground (arith, g, h)

loop_through :
    (runner : Runner) (on_stop : Option Error) (before rs : List Round)
    (result : Option (Option Error)) (stops n : ℕ)
    → AllGoOn runner before
    → Stands (loop runner on_stop rs) result stops n
    → Stands (loop runner on_stop (before ++ rs)) result stops (length before + n)
unfolding AllGoOn
loop_through runner on_stop [] rs result stops n g h = ground (arith, h)
loop_through runner on_stop (b ∷ before) rs result stops n g h =
    let k = loop_through runner on_stop before rs result stops n g.1 h in
    let (x, y, z) =
      goes_on_step runner on_stop b (before ++ rs) result stops (length before + n) g.0 k in
    (x, y, z ∙ omega arith)

loop_last :
    (runner : Runner) (on_stop : Option Error) (r : Round) (after : List Round)
    → is_last r ≡ true
    → Stands (loop runner on_stop (r ∷ after)) (some on_stop) 1 (if r.ctx_done then 0 else 1)
unfolding loop after_process unexpected
loop_last runner on_stop r after h = ground (arith, h)

loop_uncaught :
    (on_stop : Option Error) (r : Round) (after : List Round) (e : Error)
    → r.ctx_done ≡ false
    → r.process ≡ some e
    → is_stop e ≡ false
    → Stands (loop (some false) on_stop (r ∷ after)) (some (some e)) 0 1
unfolding loop after_process unexpected
loop_uncaught on_stop r after e c p h = ground (arith, c, p, h)

still_running :
    (runner : Runner) (on_stop : Option Error) (before : List Round)
    → AllGoOn runner before
    → Stands (loop runner on_stop before) none 0 (length before)
unfolding loop
still_running runner on_stop before g =
    let (x, y, z) = loop_through runner on_stop before [] none 0 0 g (refl, refl, refl) in
    subst (λ l. Stands (loop runner on_stop l) none 0 (length before)) (append-nil before)
      (x, y, z ∙ omega arith)

-- A user whose `OnStart` returns nothing goes on over the turns in which `Process` returns nothing, or an error that
-- does not ask to stop and that its runner catches, or that it has no runner for. As long as there are only such turns it is still running,
-- and has not called `OnStop`. In the first turn in which the context is done or `Process` asks to stop it ends: it has called
-- `OnStop` once and returns what that returned. By the first error that is not caught it ends with this
-- error, without `OnStop`. Up to then `Process` is called once in each turn, but not in one that finds
-- the context done. If `OnStart` asks to stop, the user calls `OnStop` and returns what that returned; by another
-- error of `OnStart` it ends with it, without `OnStop`; and neither calls `Process`.
pub process_user_lem :
    (runner : Runner) (on_stop : Option Error) (before after : List Round) (r : Round) (e : Error)
    → AllGoOn runner before
    → Stands (process_user runner none on_stop before) none 0 (length before)
      × (is_last r ≡ true
          → Stands
              (process_user runner none on_stop (before ++ r ∷ after))
              (some on_stop)
              1
              (length before + (if r.ctx_done then 0 else 1)))
      × (runner ≡ some false
          → r.ctx_done ≡ false
          → r.process ≡ some e
          → is_stop e ≡ false
          → Stands
              (process_user runner none on_stop (before ++ r ∷ after))
              (some (some e))
              0
              (length before + 1))
      × (is_stop e ≡ true → Stands (process_user runner (some e) on_stop after) (some on_stop) 1 0)
      × (is_stop e ≡ false
          → Stands (process_user runner (some e) on_stop after) (some (some e)) 0 0)
unfolding process_user
process_user_lem runner on_stop before after r e g = (
  still_running runner on_stop before g,
  λ h.
      loop_through runner on_stop before (r ∷ after) (some on_stop) 1 (if r.ctx_done then 0 else 1)
        g (loop_last runner on_stop r after h),
  λ u c p h. loop_through runner on_stop before (r ∷ after) (some (some e)) 0 1 g (
      subst (λ x. Stands (loop x on_stop (r ∷ after)) (some (some e)) 0 1) (sym u)
        (loop_uncaught on_stop r after e c p h)),
  λ h. ground (arith, h),
  λ h. ground (arith, h),
)
