-- ===== src/User/Base/Paced.antt =====
-- user.go, wait.go and internal/waiter.go: when the tasks of a user begin that waits with `ConstantPacing`.
use launce.Base.{
  ℕ, suc, ◌+◌, ◌*◌, ◌^◌, ◌≤◌, ◌<◌, ◌≡◌, refl, sym, ap, ◌∙◌, Bool, Option, none, some, List, [], ◌∷◌,
  arith, length, max,
}
use launce.Context.{Context, done_at, without_graceful_stop}
use launce.Wait.{Pace, constant_pacing, pace}
use launce.Wait.Pacing.{due, pace-due}
use launce.Waiter.{Timer, Ending, waited, cancelled, blocked, user_wait, wait_for, timer_behind}
use launce.Waiter as Waiter
use launce.Waiter.Timers.{idle, init-idle, wait_for-idle}
use launce.User.Base.{Attempt, gives, panics, blocks, BaseUserImpl, init, wait}

-- One wait without a stop ends after its duration.
user_wait-unstopped :
    (ctx : Context) (d now : ℕ) (takes_done : Bool)
    → done_at (without_graceful_stop ctx) ≡ none
    → user_wait idle ctx (some d) now takes_done ≡ waited (now + launce.Base.Int64.max64 0 d) idle
unfolding user_wait Waiter.wait
user_wait-unstopped ctx d now takes_done h =
    ground (arith, h, wait_for-idle (without_graceful_stop ctx) d now takes_done)

-- The calls of the function that `ConstantPacing` makes.
abbrev pub paced : ℕ → ℕ → Pace → ℕ × Pace
paced d now p = pace d p now

-- No task takes longer than the interval.
abbrev pub AreShort : ℕ → List ℕ → Type 0
AreShort d [] = Unit
AreShort d (x ∷ xs) = (x ≤ d) × AreShort d xs

module _ {ρ κ} {R : Type ρ} {P : Type κ} (d : ℕ) where
  abbrev next_start : Attempt (Ending × BaseUserImpl Pace R P) → Attempt (ℕ × BaseUserImpl Pace R P)
  next_start (gives (waited t timer, b)) = gives (t, b)
  next_start (gives (cancelled t timer, b)) = blocks
  next_start (gives (blocked, b)) = blocks
  next_start panics = panics
  next_start blocks = blocks

  -- The time at which the user goes on behind a number of tasks, each with a wait behind it, where the
  -- tasks take these times. A wait that is cut short counts as one that blocks.
  unfoldable pub goes_on :
      Context
      → Bool
      → Attempt (ℕ × BaseUserImpl Pace R P)
      → List ℕ
      → Attempt (ℕ × BaseUserImpl Pace R P)
  unfolding wait
  goes_on ctx takes_done panics xs = panics
  goes_on ctx takes_done blocks xs = blocks
  goes_on ctx takes_done (gives (t, b)) [] = gives (t, b)
  goes_on ctx takes_done (gives (t, b)) (x ∷ xs) =
      goes_on ctx takes_done (next_start (wait (paced d) b ctx (t + x) takes_done)) xs

  abbrev ready : Pace → R → P → BaseUserImpl Pace R P
  ready p r rep = record {
    wait_time = some p;
    timer = some idle;
    runner = some r;
    reporter = some rep;
  }

  module _ (r : R) (rep : P) (ctx : Context) (takes_done : Bool) where
    one_turn :
        (p : Pace) (x : ℕ)
        → done_at (without_graceful_stop ctx) ≡ none
        → x ≤ d
        → due p + 2 * d < 2 ^ 61
        → next_start (wait (paced d) (ready p r rep) ctx (due p + x) takes_done)
          ≡ gives (due p + d, ready (pace d p (due p + x)).1 r rep)
    unfolding wait
    one_turn p x h le small =
        let now = due p + x in
        let (ends, _, _) =
          pace-due d p now (omega (arith, small)) (omega (arith, small, le)) (omega (arith, small))
            (omega (arith, small)) (omega arith) in
        let (w, p') = pace d p now in
        ap
          (λ e.
            next_start
              (gives (e, record (ready p r rep) { wait_time = some p'; timer = timer_behind e })))
          (user_wait-unstopped ctx w now takes_done h)
        ∙ ap (λ t. gives (t, ready p' r rep)) (ground arith)

    turns_lem :
        (p : Pace) (xs : List ℕ)
        → done_at (without_graceful_stop ctx) ≡ none
        → AreShort d xs
        → due p + suc (length xs) * d < 2 ^ 61
        → (p' : Pace) × (goes_on ctx takes_done (gives (due p, ready p r rep)) xs
            ≡ gives (due p + length xs * d, ready p' r rep))
    unfolding goes_on
    turns_lem p [] h short small = (p, ap (λ t. gives (t, ready p r rep)) (omega arith))
    turns_lem p (x ∷ xs) h short small =
        let p' = (pace d p (due p + x)).1 in
        let (ends, kept, _) =
          pace-due d p (due p + x) (grind arith) (grind arith) (grind arith) (grind arith)
            (omega arith) in
        let later : due p' ≡ due p + d = omega (arith, ends, kept, short.0) in
        let (q, e) = turns_lem p' xs h short.1 (grind arith) in
        (
          q,
          ap (λ a. goes_on ctx takes_done a xs) (one_turn p x h short.0 (grind arith))
              ∙ ap (λ t. goes_on ctx takes_done (gives (t, ready p' r rep)) xs) (sym later)
              ∙ e
              ∙ ap (λ t. gives (t, ready q r rep)) (grind arith),
        )

    -- A user with a `ConstantPacing` of `d` that is made at the time `start`, and whose tasks take no
    -- longer than `d`, the first one together with what comes before it from `start` on. As long as nobody asks it
    -- to stop, and all times are below 2 ^ 61 ns: behind `n` tasks it goes on at `start + n * d` exactly.
    -- Neither `Init` nor a wait panics or blocks.
    pub goes_on-init :
        (start now : ℕ) (xs : List ℕ) (old : BaseUserImpl Pace R P)
        → done_at (without_graceful_stop ctx) ≡ none
        → start ≤ now
        → AreShort d xs
        → start + suc (length xs) * d < 2 ^ 61
        → (b b' : BaseUserImpl Pace R P) × (init old
              (some (some (constant_pacing start)))
              r
              rep
              start
              now
            ≡ gives b)
          × (goes_on ctx takes_done (gives (start, b)) xs ≡ gives (start + length xs * d, b'))
    unfolding init
    goes_on-init start now xs old h made short small =
        let p = constant_pacing start in
        let (q, e) = turns_lem p xs h short (grind arith) in
        (
          ready p r rep,
          ready q r rep,
          ap
              (λ o. elim o [
                | none ↦ blocks
                | some t ↦ gives (record (ready p r rep) { timer = some t })
              ])
              (init-idle start now),
          ap (λ t. goes_on ctx takes_done (gives (t, ready p r rep)) xs) (omega arith)
              ∙ e
              ∙ ap (λ t. gives (t, ready q r rep)) (omega arith),
        )
