-- ===== src/Worker/Heartbeat.antt =====
-- worker.go: the goroutines of `startHeartbeatProcess` and `startHeartbeatCheckProcess`. The second one waits for
-- heartbeats nearly all the time; what it hears is a list in the order of time, in nanoseconds.
pub mod Timeout
mod Tests
use launce.Base.{
  ℕ, ◌+◌, Bool, true, false, ◌&&◌, ◌||◌, Option, none, some, List, [], ◌∷◌, String, ltb, leb, ◌==◌,
  if◌then◌else◌,
}
use launce.Base.Int64.{max64, le64}
use launce.Worker.{State, state_name}
use launce.Waiter.{Timer, at_time, stop_and_drain}

-- `heartbeatPayload` over the type of the metrics.
pub record HeartbeatPayload {ℓ} (M : Type ℓ) : Type ℓ where
  pub state : String
  pub current_cpu_usage : M
  pub current_memory_usage : M

-- The messages of `startHeartbeatProcess`, for the worker's state and metrics at each tick.
unfoldable pub heartbeats {ℓ} : {M : Type ℓ} → ℕ → List (State × M × M) → List (HeartbeatPayload M)
heartbeats interval [] = []
heartbeats interval ((state, cpu, memory) ∷ ts) =
    let rest = heartbeats interval ts in
    if le64 interval 0
    then []
    else record { state = state_name state; current_cpu_usage = cpu; current_memory_usage = memory }
      ∷ rest

-- A heartbeat of the master, or the end of the context; and whether its case is taken if the timer fires at
-- the same time.
pub data Kind : Type 0 where
  beat done : Kind

pub record Event : Type 0 where
  pub time : ℕ
  pub kind : Kind
  pub is_taken : Bool

-- How the goroutine ends: it calls `Quit` at a time, the context ends it, or it waits for ever.
pub data Verdict : Type 0 where
  quits stops : ℕ → Verdict
  blocked : Verdict

-- When the timer's case is ready, from the time `now` on: at once if a tick is left in its channel.
abbrev pub ready_at : ℕ → Timer → Option ℕ
ready_at now timer = if timer.has_tick then some now else timer.deadline

-- Whether the timer's case is taken before the event.
abbrev fires_first : ℕ → Timer → Event → Bool
fires_first now timer e = elim (ready_at now timer) [
  | none ↦ false
  | some d ↦ ltb d e.time || (d == e.time && (if e.is_taken then false else true))
]

abbrev fired : ℕ → Timer → Verdict
fired now timer = elim (ready_at now timer) [ none ↦ blocked | some d ↦ quits d ]

-- `timer.Reset(timeout)`.
abbrev reset : Timer → ℕ → ℕ → Timer
reset timer now timeout = record timer { deadline = some (now + max64 0 timeout) }

-- The loop, which comes to its `select` at the time `now`.
unfoldable pub check : ℕ → Timer → ℕ → List Event → Verdict
unfolding stop_and_drain
check now timer timeout [] = fired now timer
check now timer timeout (e ∷ es) =
    if fires_first now timer e then fired now timer else elim e.kind [
      | done ↦ stops e.time
      | beat ↦ elim (stop_and_drain (at_time timer e.time)) [
        | none ↦ blocked
        | some stopped ↦ check e.time (reset stopped e.time timeout) timeout es
      ]
    ]

-- `startHeartbeatCheckProcess` at the time `now`.
unfoldable pub start_check : ℕ → ℕ → List Event → Verdict
unfolding check
start_check now timeout es =
    check now (reset (record { deadline = none; has_tick = false }) now timeout) timeout es
