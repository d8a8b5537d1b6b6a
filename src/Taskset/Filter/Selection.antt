-- ===== src/Taskset/Filter/Selection.antt =====
-- taskset/filter.go: the functions that are left to run, against the tags on their paths.
use launce.Base.{
  ℕ, ◌≡◌, refl, sym, ap, ap₂, ◌∙◌, Bool, true, false, List, [], ◌∷◌, ◌++◌, String, ◌||◌, ◌&&◌, not,
  arith, ltb, if◌then◌else◌, Bool-cases, inl, inr,
}
use launce.Taskset.Task.{
  Task, Tasks, func, tagged, weighted, sequential, random, nil, cons, get_tags, length,
}
use launce.Taskset.Filter.{
  FilterOptions, FilterOption, included, inside, has_any, narrow, filter_all, filter_tasks, options,
}

unfoldable mutual
  -- The functions that a task can run, in the order of the filtered tasks of each set.
  pub runs : Task → List ℕ
  runs (func n) = n ∷ []
  runs (tagged t tags) = runs t
  runs (weighted t w) = runs t
  runs (sequential all filtered index) = runs_all filtered
  runs (random all filtered) = runs_all filtered

  pub runs_all : Tasks → List ℕ
  runs_all nil = []
  runs_all (cons t ts) = runs t ++ runs_all ts

-- The tags of the tasks on the way to a function, the function's own first.
abbrev pub TagPath : Type 0
TagPath = List (List String)

unfoldable mutual
  -- All functions under a task, each with its path.
  pub leaves : TagPath → Task → List (ℕ × TagPath)
  leaves p (func n) = (n, p) ∷ []
  leaves p (tagged t tags) = leaves p t
  leaves p (weighted t w) = leaves p t
  leaves p (sequential all filtered index) = leaves_all p all
  leaves p (random all filtered) = leaves_all p all

  pub leaves_all : TagPath → Tasks → List (ℕ × TagPath)
  leaves_all p nil = []
  leaves_all p (cons t ts) = leaves (get_tags t ∷ p) t ++ leaves_all p ts

-- Some task on the path has an excluded tag.
abbrev pub is_excluded : FilterOptions → TagPath → Bool
is_excluded o [] = false
is_excluded o (tags ∷ p) = has_any tags o.exclude_tags || is_excluded o p

-- Some task on the path has a tag that is asked for, or no tag is.
abbrev pub is_included : FilterOptions → TagPath → Bool
is_included o [] = false
is_included o (tags ∷ p) = included o tags || is_included o p

abbrev pub is_selected : FilterOptions → TagPath → Bool
is_selected o p = not (is_excluded o p) && is_included o p

unfoldable pub pick : FilterOptions → List (ℕ × TagPath) → List ℕ
pick o [] = []
pick o ((n, p) ∷ ls) = if is_selected o p then n ∷ pick o ls else pick o ls

pick-append :
    (o : FilterOptions) (xs ys : List (ℕ × TagPath)) → pick o (xs ++ ys) ≡ pick o xs ++ pick o ys
unfolding pick
pick-append o [] ys = refl
pick-append o ((n, p) ∷ xs) ys = ground (arith, pick-append o xs ys)

-- Under an excluded task nothing is selected.
mutual
  unfolding leaves pick

  pick-excluded :
      (o : FilterOptions) (p : TagPath) (t : Task)
      → is_excluded o p ≡ true
      → pick o (leaves p t) ≡ []
  pick-excluded o p (func n) h = ground arith
  pick-excluded o p (tagged t tags) h = pick-excluded o p t h
  pick-excluded o p (weighted t w) h = pick-excluded o p t h
  pick-excluded o p (sequential all filtered index) h = pick_all-excluded o p all h
  pick-excluded o p (random all filtered) h = pick_all-excluded o p all h

  pick_all-excluded :
      (o : FilterOptions) (p : TagPath) (ts : Tasks)
      → is_excluded o p ≡ true
      → pick o (leaves_all p ts) ≡ []
  pick_all-excluded o p nil h = refl
  pick_all-excluded o p (cons t ts) h =
      pick-append o (leaves (get_tags t ∷ p) t) (leaves_all p ts)
      ∙ ap₂ ◌++◌ (pick-excluded o (get_tags t ∷ p) t (ground arith)) (pick_all-excluded o p ts h)

abbrev runs_if : Task × Bool → List ℕ
runs_if (t, keep) = if keep then runs t else []

runs_all-none : (ts : Tasks) → (if ltb 0 (length ts) then runs_all ts else []) ≡ runs_all ts
unfolding length runs_all
runs_all-none nil = refl
runs_all-none (cons t ts) = ground arith

inside-inside :
    (o : FilterOptions) (b c : Bool) → (b ≡ true → c ≡ true) → inside (inside o b) c ≡ inside o c
inside-inside o b true h = ground arith
inside-inside o false false h = refl
inside-inside o true false h = ground (arith, h refl)

exclude_tags-inside : (o : FilterOptions) (b : Bool) → (inside o b).exclude_tags ≡ o.exclude_tags
exclude_tags-inside o true = refl
exclude_tags-inside o false = refl

included-inside :
    (o : FilterOptions) (b : Bool) (tags : List String)
    → included (inside o b) tags ≡ (included o tags || b)
included-inside o true tags = ground arith
included-inside o false tags = ground arith

runs_all-cons_if :
    (r : Task × Bool) (ts : Tasks)
    → runs_all (if r.1 then cons r.0 ts else ts) ≡ runs_if r ++ runs_all ts
unfolding runs_all
runs_all-cons_if (t, true) ts = refl
runs_all-cons_if (t, false) ts = refl

included-inside-true :
    (o : FilterOptions) (b : Bool) (tags : List String)
    → b ≡ true
    → included (inside o b) tags ≡ true
included-inside-true o true tags h = refl
included-inside-true o false tags h = cc

mutual
  unfolding runs leaves narrow pick

  runs-narrow :
      (o : FilterOptions) (b : Bool) (p : TagPath) (c : Bool) (t : Task)
      → is_excluded o p ≡ false
      → is_included o p ≡ c
      → (b ≡ true → c ≡ true)
      → runs_if (narrow (inside o b) c t) ≡ pick o (leaves p t)
  runs-narrow o b p c (func n) e h k = ground arith
  runs-narrow o b p c (tagged t tags) e h k = runs-narrow o b p c t e h k
  runs-narrow o b p c (weighted t w) e h k = runs-narrow o b p c t e h k
  runs-narrow o b p c (sequential all filtered index) e h k =
      runs_all-none (filter_all (inside (inside o b) c) all).1
      ∙ ap (λ q. runs_all (filter_all q all).1) (inside-inside o b c k)
      ∙ runs-filter_all o c p all e h
  runs-narrow o b p c (random all filtered) e h k =
      runs_all-none (filter_all (inside (inside o b) c) all).1
      ∙ ap (λ q. runs_all (filter_all q all).1) (inside-inside o b c k)
      ∙ runs-filter_all o c p all e h

  runs-filter_all :
      (o : FilterOptions) (b : Bool) (p : TagPath) (ts : Tasks)
      → is_excluded o p ≡ false
      → is_included o p ≡ b
      → runs_all (filter_all (inside o b) ts).1 ≡ pick o (leaves_all p ts)
  runs-filter_all o b p nil e h = refl
  runs-filter_all o b p (cons t ts) e h =
      let tags = get_tags t in
      let rest = runs-filter_all o b p ts e h in
      let first = runs-narrow o b (tags ∷ p) (included (inside o b) tags) t in
      rw (pick-append o (leaves (tags ∷ p) t) (leaves_all p ts), exclude_tags-inside o b)
        (elim (Bool-cases (has_any tags o.exclude_tags)) [
          | inl x ↦ rw x (
              rest
              ∙ ap (λ ns. ns ++ pick o (leaves_all p ts))
                  (sym (pick-excluded o (tags ∷ p) t (rw x))))
          | inr x ↦ rw x (
              runs_all-cons_if (narrow (inside o b) (included (inside o b) tags) t)
                (filter_all (inside o b) ts).1
              ∙ ap₂ ◌++◌
                  (first (rw x e)
                    (ap (λ d. included o tags || d) h ∙ sym (included-inside o b tags))
                    (included-inside-true o b tags))
                  rest)
        ])

-- What is left to run after filtering is, in order and as often, what the tags of the paths select:
-- every function that has no excluded tag on its path, neither its own nor that of a set around it,
-- and, if tags are asked for, has one of these on its path.
pub runs-filter_tasks :
    (fs : List FilterOption) (ts : Tasks)
    → runs_all (filter_tasks fs ts) ≡ pick (options fs) (leaves_all [] ts)
unfolding filter_tasks
runs-filter_tasks fs ts = runs-filter_all (options fs) false [] ts refl refl
