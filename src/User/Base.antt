-- ===== src/User/Base.antt =====
-- user.go and taskset/user.go: `BaseUserImpl` and `UserImpl`, the parts of a user that the library fills in. A
-- wait time function is the variables of its closure; runners, reporters and task sets are of any types.
pub mod Paced
mod Tests
use launce.Base.{ℕ, Bool, true, false, Option, none, some, List, [], ◌∷◌}
use launce.Context.{Context}
use launce.Waiter.{Timer, Ending, user_wait, timer_behind}
use launce.Waiter as Waiter

-- How a call ends that may panic, or wait for ever.
pub data Attempt {ℓ} (A : Type ℓ) : Type ℓ where
  gives : A → Attempt A
  panics blocks : Attempt A

-- `BaseUserImpl` with the fields of its waiter. The timer, the runner and the reporter are nil at first, and
-- a wait time function may be.
pub record BaseUserImpl {ω ρ κ} (W : Type ω) (R : Type ρ) (P : Type κ) : Type (ω ⊔ ρ ⊔ κ) where
  pub wait_time : Option W
  pub timer : Option Timer
  pub runner : Option R
  pub reporter : Option P

-- `UserImpl`.
pub record UserImpl {ω ρ κ σ} (W : Type ω) (R : Type ρ) (P : Type κ) (S : Type σ)
    : Type (ω ⊔ ρ ⊔ κ ⊔ σ) where
  pub base : BaseUserImpl W R P
  pub taskset : Option S

module _ {ω ρ κ} {W : Type ω} {R : Type ρ} {P : Type κ} where
  unfoldable pub zero_base : BaseUserImpl W R P
  zero_base = record { wait_time = none; timer = none; runner = none; reporter = none }

  -- `Init` of `BaseUserImpl`. The user that it is given is a `BaseUser`, whose `WaitTime` returns a function
  -- or nil, or it is none. The timer is made at the time `made` and stopped at the time `now`.
  unfoldable pub init :
      BaseUserImpl W R P → Option (Option W) → R → P → ℕ → ℕ → Attempt (BaseUserImpl W R P)
  init b none r rep made now = panics
  init b (some f) r rep made now = elim (Waiter.init made now) [
    | none ↦ blocks
    | some t ↦
        gives (record { wait_time = f; timer = some t; runner = some r; reporter = some rep })
  ]

  -- `Runner`.
  unfoldable pub runner_of : BaseUserImpl W R P → Option R
  runner_of b = b.runner

  module _ {α} {A : Type α} where
    -- `Report`: the reporter that is called, with the same arguments.
    unfoldable pub report : BaseUserImpl W R P → A → Attempt (P × A)
    report b args = elim b.reporter [ none ↦ panics | some rep ↦ gives (rep, args) ]

  -- `Wait`, at the time `now`, where `call` is what the wait time function does with its variables. The
  -- variables and the timer afterwards are those of the new state.
  unfoldable pub wait :
      (ℕ → W → ℕ × W)
      → BaseUserImpl W R P
      → Context
      → ℕ
      → Bool
      → Attempt (Ending × BaseUserImpl W R P)
  wait call b ctx now takes_done = elim b.wait_time [
    | none ↦
        let idle : Timer = record { deadline = none; has_tick = false } in
        gives (user_wait idle ctx none now takes_done, b)
    | some f ↦ elim b.timer [
      | none ↦ panics
      | some t ↦
          let (d, f') = call now f in
          let ending = user_wait t ctx (some d) now takes_done in
          gives (ending, record b { wait_time = some f'; timer = timer_behind ending })
    ]
  ]

  module _ {σ} {S : Type σ} where
    -- `Init` of `UserImpl`. The user is a task set user, which is a `BaseUser` with a task set, or it is none.
    unfoldable pub init_user :
        UserImpl W R P S → Option (Option W × S) → R → P → ℕ → ℕ → Attempt (UserImpl W R P S)
    unfolding init
    init_user u none r rep made now = panics
    init_user u (some (f, tasks)) r rep made now = elim (init u.base (some f) r rep made now) [
      | gives b ↦ gives (record { base = b; taskset = some tasks })
      | panics ↦ panics
      | blocks ↦ blocks
    ]
