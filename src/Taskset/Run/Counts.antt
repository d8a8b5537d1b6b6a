-- ===== src/Taskset/Run/Counts.antt =====
-- taskset/taskset.go: how many tasks the loop of a task set has run.
use launce.Base.{ℕ, suc, List, [], ◌∷◌}
use launce.Taskset.Run.{Event, ran, waited, stopped, reported}

module _ {ℓ} {A : Type ℓ} where
  abbrev pub count_ran : List (Event A) → ℕ
  count_ran [] = 0
  count_ran (ran t ∷ es) = suc (count_ran es)
  count_ran (stopped ∷ es) = count_ran es
  count_ran (waited ∷ es) = count_ran es
  count_ran (reported e ∷ es) = count_ran es
