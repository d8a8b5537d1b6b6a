-- ===== src/Taskset/Filter/Readiness.antt =====
-- taskset/filter.go: the sets that are left have a task to run.
use launce.Base.{
  ◌<◌, ◌≡◌, refl, Bool, true, false, List, arith, if◌then◌else◌, Bool-cases, inl, inr,
}
use launce.Taskset.Task.{
  Task, Tasks, func, tagged, weighted, sequential, random, nil, cons, get_tags, length,
}
use launce.Taskset.Filter.{
  FilterOptions, FilterOption, included, inside, has_any, narrow, filter_all, filter_tasks, options,
}

abbrev mutual
  -- No set, at any depth of the filtered tasks, is without a filtered task.
  pub IsReady : Task → Type 0
  IsReady (func n) = Unit
  IsReady (tagged t tags) = IsReady t
  IsReady (weighted t w) = IsReady t
  IsReady (sequential all filtered index) = (0 < length filtered) × AreReady filtered
  IsReady (random all filtered) = (0 < length filtered) × AreReady filtered

  pub AreReady : Tasks → Type 0
  AreReady nil = Unit
  AreReady (cons t ts) = IsReady t × AreReady ts

AreReady-cons_if :
    (keep : Bool) (t : Task) (ts : Tasks)
    → (keep ≡ true → IsReady t)
    → AreReady ts
    → AreReady (if keep then cons t ts else ts)
AreReady-cons_if true t ts h k = (h refl, k)
AreReady-cons_if false t ts h k = k

mutual
  unfolding narrow

  narrow-IsReady :
      (o : FilterOptions) (add : Bool) (t : Task)
      → (narrow o add t).1 ≡ true
      → IsReady (narrow o add t).0
  narrow-IsReady o add (func n) h = tt
  narrow-IsReady o add (tagged t tags) h = narrow-IsReady o add t h
  narrow-IsReady o add (weighted t w) h = narrow-IsReady o add t h
  narrow-IsReady o add (sequential all filtered index) h =
      (ground arith, filter_all-AreReady (inside o add) all)
  narrow-IsReady o add (random all filtered) h =
      (ground arith, filter_all-AreReady (inside o add) all)

  filter_all-AreReady : (o : FilterOptions) (ts : Tasks) → AreReady (filter_all o ts).1
  filter_all-AreReady o nil = tt
  filter_all-AreReady o (cons t ts) = elim (Bool-cases (has_any (get_tags t) o.exclude_tags)) [
    | inl e ↦ rw e (filter_all-AreReady o ts)
    | inr e ↦ rw e (
        AreReady-cons_if (narrow o (included o (get_tags t)) t).1
          (narrow o (included o (get_tags t)) t).0 (filter_all o ts).1
          (narrow-IsReady o (included o (get_tags t)) t) (filter_all-AreReady o ts))
  ]

-- Filtering leaves no set inside the selected tasks, at any depth, without a filtered task. This says nothing of
-- the outermost set, whose tasks may all go, nor of the index at which a sequential set stands, which `Init` resets.
pub filter_tasks-AreReady : (fs : List FilterOption) (ts : Tasks) → AreReady (filter_tasks fs ts)
unfolding filter_tasks
filter_tasks-AreReady fs ts = filter_all-AreReady (options fs) ts
