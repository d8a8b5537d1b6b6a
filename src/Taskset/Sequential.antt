-- ===== src/Taskset/Sequential.antt =====
-- taskset/sequential.go: the tasks in order, round and round.
use native.Mathlib.Nat.{mod-eq_of_lt, mod-add-mod, mod-lt}
use launce.Base.{
  ℕ, zero, suc, ◌+◌, ◌%◌, ◌≤◌, ◌<◌, ◌≡◌, refl, sym, ap, ap₂, map, ◌↔◌, ◌∙◌, Option, none, some,
  List, [], ◌∷◌, arith, length, get_elem?, dec_lt, ◌==◌, if◌then◌else◌,
}

-- The fields of `Sequential`, over any type of tasks; `BaseImpl` is in Taskset/Run.antt.
pub record Sequential {ℓ} (A : Type ℓ) : Type ℓ where
  pub tasks : List A
  pub filtered : List A
  pub index : ℕ

module _ {ℓ} {A : Type ℓ} where
  -- `NewSequential`.
  unfoldable pub new : List A → Sequential A
  new tasks = record { tasks = tasks; filtered = tasks; index = 0 }

  -- `Init`, as far as it concerns the set itself.
  unfoldable pub init : Sequential A → Sequential A
  init s = record s { index = 0 }

  unfoldable pub len : Sequential A → ℕ
  len s = length s.filtered

  -- `Next`. `none` is a panic: a division by the length 0, or a read past the end.
  unfoldable pub next : Sequential A → Option (A × Sequential A)
  next s = if length s.filtered == 0 then none else elim (get_elem? s.filtered s.index) [
    | none ↦ none
    | some t ↦ some (t, record s { index = (s.index + 1) % length s.filtered })
  ]

  -- `FilterTasks`. The index stays as it is.
  unfoldable pub filter_tasks : Sequential A → (List A → List A) → Sequential A
  filter_tasks s f = record s { filtered = f s.tasks }

  -- What `n` calls of `Next` give, up to a panic.
  unfoldable pub take_next : ℕ → Sequential A → List A
  take_next zero s = []
  take_next (suc n) s = elim (next s) [ none ↦ [] | some (t, s') ↦ t ∷ take_next n s' ]

  get_elem?-some : (xs : List A) (i : ℕ) → i < length xs → (t : A) × (get_elem? xs i ≡ some t)
  get_elem?-some [] i h = absurd (omega arith)
  get_elem?-some (x ∷ xs) zero h = (x, refl)
  get_elem?-some (x ∷ xs) (suc i) h = get_elem?-some xs i (omega arith)

  get_elem?-none : (xs : List A) (i : ℕ) → length xs ≤ i → get_elem? xs i ≡ none
  get_elem?-none [] i h = refl
  get_elem?-none (x ∷ xs) zero h = absurd (omega arith)
  get_elem?-none (x ∷ xs) (suc i) h = get_elem?-none xs i (omega arith)

  -- `Next` gives the task at the index and moves on; past the last task it comes back to the first.
  next_lem :
      (s : Sequential A)
      → s.index < length s.filtered
      → (t : A) × (get_elem? s.filtered s.index ≡ some t)
        × (next s ≡ some (t, record s { index = (s.index + 1) % length s.filtered }))
  unfolding next
  next_lem s h = let (t, e) = get_elem?-some s.filtered s.index h in (t, e, ground arith)

  -- The `n` tasks from the `i`-th on, going round.
  abbrev pub cycle_from : List A → ℕ → ℕ → List (Option A)
  cycle_from xs i zero = []
  cycle_from xs i (suc n) = get_elem? xs (i % length xs) ∷ cycle_from xs (i + 1) n

  take_next_lem :
      (n i : ℕ) (all xs : List A)
      → 0 < length xs
      → map some (take_next n (record { tasks = all; filtered = xs; index = i % length xs }))
        ≡ cycle_from xs i n
  unfolding take_next
  take_next_lem zero i all xs h = refl
  take_next_lem (suc n) i all xs h =
      let (t, e, step) =
        next_lem (record { tasks = all; filtered = xs; index = i % length xs }) (mod-lt i h) in
      rw (step, take_next)
        (ap₂ ◌∷◌ (sym e) (
          ap (λ k. map some (take_next n (record { tasks = all; filtered = xs; index = k })))
            (mod-add-mod i (length xs) 1)
          ∙ take_next_lem n (i + 1) all xs h))

  -- After `Init` a set that is not empty never panics: for every `n`, `n` calls of `Next` give `n` tasks,
  -- and these are the tasks of the set in their order, again and again.
  pub take_next-cycle :
      (s : Sequential A) (n : ℕ)
      → 0 < len s
      → map some (take_next n (init s)) ≡ cycle_from s.filtered 0 n
  unfolding len init
  take_next-cycle s n h =
      ap (λ k. map some (take_next n (record s { index = k }))) (sym (mod-eq_of_lt h))
      ∙ take_next_lem n 0 s.tasks s.filtered h

  -- `FilterTasks` does not move the index. Where it leaves too few tasks for the index, or none at all,
  -- `Next` panics, unless `Init` comes first and a task is left.
  pub next-filter_tasks :
      (s : Sequential A) (f : List A → List A)
      → ((next (filter_tasks s f) ≡ none) ↔ (length (f s.tasks) ≤ s.index))
        × ((next (init (filter_tasks s f)) ≡ none) ↔ (length (f s.tasks) ≡ 0))
  unfolding next filter_tasks init
  next-filter_tasks s f = (
    (λ e. next_fails e, λ h. ground (arith, get_elem?-none (f s.tasks) s.index h)),
    (λ e. first_fails e, λ h. ground arith),
  )
    where
      next_fails : next (filter_tasks s f) ≡ none → length (f s.tasks) ≤ s.index
      next_fails e = elim (dec_lt s.index (length (f s.tasks))) [
        | yes h ↦ let (t, g) = get_elem?-some (f s.tasks) s.index h in ground arith
        | no h ↦ omega arith
      ]

      first_fails : next (init (filter_tasks s f)) ≡ none → length (f s.tasks) ≡ 0
      first_fails e = elim (dec_lt 0 (length (f s.tasks))) [
        | yes h ↦ let (t, g) = get_elem?-some (f s.tasks) 0 h in ground arith
        | no h ↦ omega arith
      ]
