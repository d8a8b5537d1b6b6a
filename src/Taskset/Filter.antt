-- ===== src/Taskset/Filter.antt =====
-- taskset/filter.go: which tasks the tags select. Filtering a set replaces its `filtered` by what is
-- selected of its `tasks`, and so for the sets inside, of which it keeps those that keep a task.
pub mod Selection
pub mod Readiness
use launce.Base.{
  ℕ, ◌+◌, ◌<◌, ◌≡◌, refl, Bool, true, false, Option, none, some, List, [], ◌∷◌, ◌++◌, String, ◌||◌,
  ◌&&◌, not, arith, ltb, if◌then◌else◌, str_eq,
}
use launce.Taskset.Task.{
  Task, Tasks, func, tagged, weighted, sequential, random, nil, cons, get_tags, length,
}

pub record FilterOptions : Type 0 where
  pub tags : Option (List String)
  pub exclude_tags : List String

-- The values of type `filterOption`.
pub data FilterOption : Type 0 where
  include_tags : List String → FilterOption
  exclude_tags : List String → FilterOption

abbrev apply : FilterOption → FilterOptions → FilterOptions
apply (include_tags tags) o = record o { tags = some tags }
apply (exclude_tags tags) o = record o { exclude_tags = tags }

-- The first loop of `filterTasks`: a later option of one kind replaces an earlier one.
apply_all : FilterOptions → List FilterOption → FilterOptions
apply_all o [] = o
apply_all o (f ∷ fs) = apply_all (apply f o) fs

abbrev no_options : FilterOptions
no_options = record { tags = none; exclude_tags = [] }

unfoldable pub options : List FilterOption → FilterOptions
unfolding apply_all
options fs = apply_all no_options fs

-- A look-up in a map of tags.
unfoldable pub has : String → List String → Bool
has t [] = false
has t (u ∷ us) = str_eq u t || has t us

-- Whether one of the task's tags is in the map.
unfoldable pub has_any : List String → List String → Bool
has_any [] us = false
has_any (t ∷ ts) us = has t us || has_any ts us

-- The variable `add`.
abbrev pub included : FilterOptions → List String → Bool
included o tags = elim o.tags [ none ↦ true | some wanted ↦ has_any tags wanted ]

-- The options for the tasks of a set: where the set itself is selected, only the excluded tags count.
abbrev pub inside : FilterOptions → Bool → FilterOptions
inside o true = record { tags = none; exclude_tags = o.exclude_tags }
inside o false = o

unfoldable mutual
  -- The body of the loop behind `add`: a set under the wrappers is filtered, and added if a task of it
  -- is left.
  pub narrow : FilterOptions → Bool → Task → Task × Bool
  narrow o add (func n) = (func n, add)
  narrow o add (tagged t tags) = let (t', keep) = narrow o add t in (tagged t' tags, keep)
  narrow o add (weighted t w) = let (t', keep) = narrow o add t in (weighted t' w, keep)
  narrow o add (sequential all filtered index) =
      let (all', kept) = filter_all (inside o add) all in
      (sequential all' kept index, ltb 0 (length kept))
  narrow o add (random all filtered) =
      let (all', kept) = filter_all (inside o add) all in (random all' kept, ltb 0 (length kept))

  -- The loop of `filterTasks`: the given tasks afterwards, and those that are selected.
  pub filter_all : FilterOptions → Tasks → Tasks × Tasks
  filter_all o nil = (nil, nil)
  filter_all o (cons t ts) =
      let (ts', kept) = filter_all o ts in
      let (t', keep) = narrow o (included o (get_tags t)) t in
      if has_any (get_tags t) o.exclude_tags
      then (cons t ts', kept)
      else (cons t' ts', if keep then cons t' kept else kept)

-- `filterTasks`, without what it does to the tasks that it is given.
unfoldable pub filter_tasks : List FilterOption → Tasks → Tasks
filter_tasks fs ts = (filter_all (options fs) ts).1
