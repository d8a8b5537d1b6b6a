-- ===== src/User/Base/Tests.antt =====
-- Tests of Base.antt.
use launce.Base.{ℕ, ◌+◌, ◌*◌, ◌≡◌, refl, arith, true, none, some, [], ◌∷◌, String}
use launce.Context.{
  Context, background, with_cancel, done_at, without_graceful_stop, with_graceful_stop,
}
use launce.Wait.{Pace, constant_pacing}
use launce.User.Base.{gives, panics, BaseUserImpl, zero_base, init, init_user, report, runner_of}
use launce.User.Base.Paced.{goes_on, goes_on-init}

abbrev new_base : BaseUserImpl Pace String ℕ
new_base = zero_base

-- A user that is no task set user, and a report before `Init`.
panics_test :
    (init_user {S = ℕ} (record { base = new_base; taskset = none }) none "runner" 1 0 0 ≡ panics)
    × (report {A = String} new_base "args" ≡ panics)
    × (runner_of new_base ≡ none)
unfolding init_user report runner_of zero_base
panics_test = (refl, refl, refl)

-- A context of a user whom nobody asks to stop.
abbrev ctx : Context
ctx = with_graceful_stop (with_cancel background none) 0 0 none

goes_on-init_example :
    (b b' : BaseUserImpl Pace String ℕ) × (init new_base
        (some (some (constant_pacing 1000)))
        "runner"
        1
        1000
        1005
      ≡ gives b)
    × (goes_on 100 ctx true (gives (1000, b)) (50 ∷ 100 ∷ 0 ∷ []) ≡ gives (1000 + 3 * 100, b'))
goes_on-init_example =
    goes_on-init 100 "runner" 1 ctx true 1000 1005 (50 ∷ 100 ∷ 0 ∷ []) new_base
      (unfold done_at without_graceful_stop with_graceful_stop in refl) (omega arith)
      (omega arith, (omega arith, (omega arith, tt))) (omega arith)
