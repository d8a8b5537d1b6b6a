-- ===== src/Taskset/Task.antt =====
-- taskset/task.go, taskset/tag.go, taskset/weight.go and the structures of taskset/sequential.go and
-- taskset/random.go: the values that implement `Task`. A task function is a number. A task set is
-- written as a tree: an object that stands at two places is two equal trees.
use launce.Base.{ℕ, suc, ◌≡◌, refl, List, [], ◌∷◌, ◌++◌, Option, some, none, String}

mutual
  pub data Task : Type 0 where
    func : ℕ → Task
    tagged : Task → List String → Task
    weighted : Task → ℕ → Task
    -- `tasks`, `filtered` and `index`.
    sequential : Tasks → Tasks → ℕ → Task
    -- `tasks` and `filtered`.
    random : Tasks → Tasks → Task

  pub data Tasks : Type 0 where
    nil : Tasks
    cons : Task → Tasks → Tasks

-- `GetTags`: the tags of the outermost tagged wrapper.
unfoldable pub get_tags : Task → List String
get_tags (tagged t tags) = tags
get_tags (weighted t w) = get_tags t
get_tags (func n) = []
get_tags (sequential all filtered index) = []
get_tags (random all filtered) = []

-- `Tag`.
unfoldable pub tag : Task → List String → Task
tag t tags = tagged t (get_tags t ++ tags)

-- `GetWeight`: the weight of the outermost weighted wrapper, an `int`.
unfoldable pub get_weight : Task → ℕ
get_weight (weighted t w) = w
get_weight (tagged t tags) = get_weight t
get_weight (func n) = 0
get_weight (sequential all filtered index) = 0
get_weight (random all filtered) = 0

-- `Weight`.
unfoldable pub weight : Task → ℕ → Task
weight t w = weighted t w

-- `unwrapTask[TaskSet]`: the task set under the wrappers.
unfoldable pub unwrap_task_set : Task → Option Task
unwrap_task_set (func n) = none
unwrap_task_set (tagged t tags) = unwrap_task_set t
unwrap_task_set (weighted t w) = unwrap_task_set t
unwrap_task_set (sequential all filtered index) = some (sequential all filtered index)
unwrap_task_set (random all filtered) = some (random all filtered)

unfoldable pub length : Tasks → ℕ
length nil = 0
length (cons t ts) = suc (length ts)

unfoldable pub to_list : Tasks → List Task
to_list nil = []
to_list (cons t ts) = t ∷ to_list ts

-- The two kinds of wrapper do not hide one another's value, in either order; a further `Tag` adds to
-- the tags, a further `Weight` replaces the weight, and neither hides the task set.
pub wrappers :
    (t : Task) (a b : List String) (w : ℕ)
    → (get_tags (tag t a) ≡ get_tags t ++ a)
      × (get_tags (tag (weight (tag t a) w) b) ≡ get_tags t ++ a ++ b)
      × (get_weight (tag (weight t w) a) ≡ w)
      × (get_weight (tag t a) ≡ get_weight t)
      × (get_tags (weight t w) ≡ get_tags t)
      × (unwrap_task_set (tag (weight t w) a) ≡ unwrap_task_set t)
unfolding get_tags tag get_weight weight unwrap_task_set
wrappers t a b w = (refl, refl, refl, refl, refl, refl)
