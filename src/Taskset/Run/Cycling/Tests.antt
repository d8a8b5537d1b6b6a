-- ===== src/Taskset/Run/Cycling/Tests.antt =====
-- Tests of Cycling.antt.
use launce.Base.{ℕ, ◌≡◌, refl, arith, false, true, none, some, [], ◌∷◌, map}
use launce.User.{other}
use launce.Taskset.Sequential.{Sequential, new, init, len, next, cycle_from}
use launce.Taskset.Run.{Round, loop}
use launce.Taskset.Run.Counts.{count_ran}
use launce.Taskset.Run.Cycling.{ran_of, loop-cycle}

abbrev two : Sequential ℕ
two = new (7 ∷ 8 ∷ [])

-- A turn whose task fails.
abbrev failing : Round ℕ
failing = record {
  ctx_err = none;
  stopping = false;
  scheduled = [];
  result = some (other 5);
  on_stop = none;
  wait_err = none;
}

loop-cycle_example :
    let t =
      loop next
        (some true)
        (init two)
        (record { tasks = []; current = none })
        (failing ∷ failing ∷ failing ∷ []) in
    map some (ran_of t.events) ≡ cycle_from (7 ∷ 8 ∷ []) 0 (count_ran t.events)
unfolding new
loop-cycle_example =
    loop-cycle (some true) two none (failing ∷ failing ∷ failing ∷ []) (refl, (refl, (refl, tt)))
      (unfold len in omega arith)
