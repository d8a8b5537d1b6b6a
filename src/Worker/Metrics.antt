-- ===== src/Worker/Metrics.antt =====
-- process.go and worker.go: the metrics of the process, and what users read of the worker. The values that gopsutil
-- gives are arguments; the bits of a float64 are the number itself.
use launce.Base.{ℕ, ◌≡◌, refl, true, false, Option, none, some, List, [], ◌∷◌, String}
use launce.Base.Int64.{le64}
use launce.Worker.{Worker, State}

-- The two atomic fields of `processInfo`.
pub record Metrics {ℓ} (M : Type ℓ) : Type ℓ where
  pub cpu_usage : M
  pub memory_usage : M

module _ {ℓ} {M : Type ℓ} where
  -- `Update`, where `MemoryInfo` and `Percent` may fail.
  unfoldable pub update : Metrics M → Option M → Option M → Metrics M
  update m none cpu = m
  update m (some memory) none = m
  update m (some memory) (some cpu) = record { cpu_usage = cpu; memory_usage = memory }

  -- `startMetricsMonitorProcess`: an update at the start, and one at each tick.
  unfoldable pub updates : Metrics M → List (Option M × Option M) → Metrics M
  unfolding update
  updates m [] = m
  updates m ((memory, cpu) ∷ us) = updates (update m memory cpu) us

  unfoldable pub monitor : ℕ → Metrics M → List (Option M × Option M) → Metrics M
  unfolding updates
  monitor interval m us = elim (le64 interval 0) [ true ↦ m | false ↦ updates m us ]

  -- The last update that got both values.
  unfoldable pub last_both : Metrics M → List (Option M × Option M) → Metrics M
  last_both m [] = m
  last_both m ((some memory, some cpu) ∷ us) =
      last_both (record { cpu_usage = cpu; memory_usage = memory }) us
  last_both m (u ∷ us) = last_both m us

  -- Behind an update, the metrics are those of the last update that got both values.
  pub updates_lem :
      (m : Metrics M) (us : List (Option M × Option M)) → updates m us ≡ last_both m us
  unfolding updates last_both
  updates_lem m [] = refl
  updates_lem m ((none, cpu) ∷ us) = updates_lem m us
  updates_lem m ((some memory, none) ∷ us) = updates_lem m us
  updates_lem m ((some memory, some cpu) ∷ us) =
      updates_lem (record { cpu_usage = cpu; memory_usage = memory }) us

-- `Host`, `StopTimeout`, `Index` and `State`. A host that was never stored reads as the empty one.
abbrev pub host : Worker → String
host w = w.host

abbrev pub stop_timeout : Worker → ℕ
stop_timeout w = w.stop_timeout

abbrev pub index : Worker → ℕ
index w = w.index

abbrev pub state : Worker → State
state w = w.state
