-- ===== src/Wait/Pacing.antt =====
-- wait.go: the times at which a paced user goes on, and the range of a random wait.
use launce.Base.{
  ℕ, suc, ◌+◌, ◌*◌, ◌^◌, ◌≤◌, ◌<◌, ◌≡◌, ◌≢◌, ◌∙◌, List, [], ◌∷◌, arith, min, max, length,
}
use launce.Base.Int64.{IsNonneg}
use launce.Wait.{Pace, constant_pacing, pace, Range, between, spread}

-- Readings of the clock and durations below half of what fits: some 73 years each.
abbrev pub IsSmall : ℕ → Type 0
IsSmall t = t < 2 ^ 61

-- The time at which the wait of the last call ends.
abbrev pub due : Pace → ℕ
due p = p.last_run + p.last_wait_time

-- For times and durations below 2 ^ 61 ns, and a clock that does not go back: whenever it is
-- called, the closure lets the user go on one interval after the last wait was due to end, or at
-- once if that is past, even if the last wait was cut short. It remembers when, and the wait.
pub pace-due :
    (d : ℕ) (p : Pace) (now : ℕ)
    → IsSmall d
    → IsSmall now
    → IsSmall p.last_run
    → IsSmall p.last_wait_time
    → p.last_run ≤ now
    → let (wait, p') = pace d p now in
      (now + wait ≡ max now (due p + d)) × (due p' ≡ now + wait) × (p'.last_run ≡ now)
unfolding pace
pace-due d p now hd hn hr hw h = ground arith

-- Successive calls of the closure.
unfoldable pub paces : ℕ → Pace → List ℕ → Pace
paces d p [] = p
paces d p (now ∷ nows) = paces d (pace d p now).1 nows

-- Each call is made when the last wait is over, and before the next interval is.
abbrev pub IsPunctual : ℕ → ℕ → List ℕ → Type 0
IsPunctual d start [] = Unit
IsPunctual d start (now ∷ nows) = (start ≤ now) × (now ≤ start + d) × IsPunctual d (start + d) nows

paces_lem :
    (d : ℕ) (p : Pace) (start : ℕ) (nows : List ℕ)
    → due p ≡ start
    → IsPunctual d start nows
    → start + suc (length nows) * d < 2 ^ 61
    → due (paces d p nows) ≡ start + length nows * d
unfolding paces
paces_lem d p start [] e h k = omega arith
paces_lem d p start (now ∷ nows) e h k =
    let (wait, kept, run) =
      pace-due d p now (grind arith) (grind arith) (grind arith) (grind arith) (omega arith) in
    paces_lem d (pace d p now).1 (start + d) nows (omega arith) h.2 (grind arith) ∙ grind arith

-- A user that is called for its next wait within an interval after each was due to end, never
-- before, and with all times below 2 ^ 61 ns, has its waits end exactly one interval apart: they do
-- not drift, whatever the tasks take.
pub paces_punctual :
    (d start : ℕ) (nows : List ℕ)
    → IsPunctual d start nows
    → start + suc (length nows) * d < 2 ^ 61
    → due (paces d (constant_pacing start) nows) ≡ start + length nows * d
paces_punctual d start nows h k = paces_lem d (constant_pacing start) start nows (omega arith) h k

-- For bounds that are not negative and a random number below their distance, a random wait lies
-- between the two bounds, in whichever order they were given, and the later calls find them in
-- order.
pub between_range :
    (g : Range) (r : ℕ)
    → IsNonneg g.low
    → IsNonneg g.high
    → (g.low ≢ g.high → r < spread g)
    → let (wait, g') = between g r in
      (min g.low g.high ≤ wait)
      × (wait ≤ max g.low g.high)
      × (g'.low ≡ min g.low g.high)
      × (g'.high ≡ max g.low g.high)
unfolding between spread
between_range g r hl hh h = ground arith
