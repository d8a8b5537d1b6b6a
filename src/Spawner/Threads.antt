-- ===== src/Spawner/Threads.antt =====
-- spawner/thread.go: the cancel functions of the running threads. A thread is its number; what `cancel`
-- does is the environment's, and the list keeps the numbers of the threads that it has cancelled, in
-- that order. `pop` with a number below 0 does what it does with 0.
pub mod Cancelled
mod Tests
use launce.Base.{
  ℕ, suc, ◌+◌, ◌-◌, ◌≤◌, ◌≡◌, refl, Bool, true, false, List, [], ◌∷◌, ◌++◌, arith, min, length,
  take, drop, ◌==◌, if◌then◌else◌, length-append, length-drop,
}
use launce.Base.Int64.{add64}

pub record ThreadList : Type 0 where
  pub count : ℕ
  pub threads : List ℕ
  pub current_id : ℕ
  pub cancelled : List ℕ

abbrev pub empty : ThreadList
empty = record { count = 0; threads = []; current_id = 0; cancelled = [] }

-- The number of threads that are taken off, and the list afterwards: the oldest go.
unfoldable pub pop : ThreadList → ℕ → ℕ × ThreadList
pop tl n =
    let k = min n (length tl.threads) in
    if k == 0 then (0, tl) else (
      k,
      record tl { threads = drop k tl.threads; cancelled = tl.cancelled ++ take k tl.threads },
    )

-- `Cap`. The new slice has the same threads.
unfoldable pub cap : ThreadList → ℕ → ℕ × ThreadList
unfolding pop
cap tl n = pop (record tl { count = n }) (length tl.threads - n)

-- `Add`: the new thread's number, and the list afterwards.
unfoldable pub add : ThreadList → ℕ × ThreadList
unfolding pop
add tl =
    let id = add64 tl.current_id 1 in
    let threads = tl.threads ++ id ∷ [] in
    (id, (pop (record tl { current_id = id; threads = threads }) (length threads - tl.count)).1)

-- `Delete`.
unfoldable pub with_id : ℕ → List ℕ → List ℕ
with_id id [] = []
with_id id (u ∷ us) = if u == id then u ∷ with_id id us else with_id id us

unfoldable pub without_id : ℕ → List ℕ → List ℕ
without_id id [] = []
without_id id (u ∷ us) = if u == id then without_id id us else u ∷ without_id id us

unfoldable pub delete : ThreadList → ℕ → ThreadList
delete tl id = record tl {
  threads = without_id id tl.threads;
  cancelled = tl.cancelled ++ with_id id tl.threads;
}

-- `Clear`.
unfoldable pub clear : ThreadList → ThreadList
unfolding pop
clear tl = (pop tl (length tl.threads)).1

-- The calls of the methods, and a sequence of them.
pub data Op : Type 0 where
  caps pops deletes : ℕ → Op
  adds clears : Op

unfoldable pub step : ThreadList → Op → ThreadList
unfolding cap add delete clear
step tl (caps n) = (cap tl n).1
step tl (pops n) = (pop tl n).1
step tl (deletes id) = delete tl id
step tl adds = (add tl).1
step tl clears = clear tl

unfoldable pub run : ThreadList → List Op → ThreadList
run tl [] = tl
run tl (op ∷ ops) = run (step tl op) ops
