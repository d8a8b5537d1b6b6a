-- ===== src/Worker/Heartbeat/Timeout.antt =====
-- worker.go: when the worker gives the master up.
use launce.Base.{ℕ, ◌+◌, ◌≤◌, ◌<◌, ◌≡◌, refl, ◌∙◌, true, false, some, List, [], ◌∷◌, arith}
use launce.Base.Int64.{max64, IsNonneg}
use launce.Waiter.{Timer, stop_and_drain}
use launce.Worker.Heartbeat.{beat, done, Event, quits, stops, check, start_check}

-- Heartbeats at these times, one after another, each at the latest when the timer fires that runs from the one
-- before.
unfoldable pub IsSteady : ℕ → ℕ → List ℕ → Type 0
IsSteady timeout now [] = Unit
IsSteady timeout now (t ∷ ts) = (now ≤ t) × (t ≤ now + timeout) × IsSteady timeout t ts

unfoldable pub last_of : ℕ → List ℕ → ℕ
last_of now [] = now
last_of now (t ∷ ts) = last_of t ts

unfoldable pub beats : List ℕ → List Event → List Event
beats [] es = es
beats (t ∷ ts) es = record { time = t; kind = beat; is_taken = true } ∷ beats ts es

abbrev running : ℕ → ℕ → Timer
running now timeout = record { deadline = some (now + max64 0 timeout); has_tick = false }

check-beat :
    (timeout now t : ℕ) (es : List Event)
    → IsNonneg timeout
    → now ≤ t
    → t ≤ now + timeout
    → check now
        (running now timeout)
        timeout
        (record { time = t; kind = beat; is_taken = true } ∷ es)
      ≡ check t (running t timeout) timeout es
unfolding check stop_and_drain
check-beat timeout now t es n le lt = ground (arith, n, le, lt)

check-beats :
    (timeout now : ℕ) (ts : List ℕ) (es : List Event)
    → IsNonneg timeout
    → IsSteady timeout now ts
    → check now (running now timeout) timeout (beats ts es)
      ≡ check (last_of now ts) (running (last_of now ts) timeout) timeout es
unfolding beats last_of IsSteady
check-beats timeout now [] es n s = refl
check-beats timeout now (t ∷ ts) es n (le, lt, s) =
    check-beat timeout now t (beats ts es) n le lt ∙ check-beats timeout t ts es n s

check_last :
    (timeout now : ℕ) (e : Event) (es : List Event)
    → IsNonneg timeout
    → (check now (running now timeout) timeout [] ≡ quits (now + timeout))
      × (now + timeout < e.time
          → check now (running now timeout) timeout (e ∷ es) ≡ quits (now + timeout))
      × (e.kind ≡ done
          → e.time < now + timeout
          → check now (running now timeout) timeout (e ∷ es) ≡ stops e.time)
unfolding check
check_last timeout now e es n = ground (arith, n)

-- Let each heartbeat come within the timeout from the one before, or from the start; one that comes at the very
-- time at which the timer fires is taken before the tick. Then the worker hears all of them, and none makes it
-- wait for ever or quit by the tick of a timer that a heartbeat has stopped: it quits at the end of the timeout
-- from the last one if nothing comes up to there; and if its context is done before, it ends there and does
-- not quit.
pub start_check-beats :
    (timeout now : ℕ) (ts : List ℕ) (e : Event) (es : List Event)
    → IsNonneg timeout
    → IsSteady timeout now ts
    → (start_check now timeout (beats ts []) ≡ quits (last_of now ts + timeout))
      × (last_of now ts + timeout < e.time
          → start_check now timeout (beats ts (e ∷ es)) ≡ quits (last_of now ts + timeout))
      × (e.kind ≡ done
          → e.time < last_of now ts + timeout
          → start_check now timeout (beats ts (e ∷ es)) ≡ stops e.time)
unfolding start_check
start_check-beats timeout now ts e es n s =
    rw (check-beats timeout now ts [] n s, check-beats timeout now ts (e ∷ es) n s)
      (check_last timeout (last_of now ts) e es n)
