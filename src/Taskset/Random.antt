-- ===== src/Taskset/Random.antt =====
-- taskset/random.go: a task at random, by weight. The numbers that `rand.Intn` gives are an argument.
use launce.Base.{
  ℕ, zero, suc, ◌+◌, ◌<◌, ◌≡◌, refl, sym, ap, ◌∙◌, Option, none, some, List, [], ◌∷◌, ◌++◌, arith,
  length, get_elem?, replicate, length-append, length-replicate, ◌==◌, if◌then◌else◌, append_assoc,
}
use launce.Base.Int64.{max64}
use launce.Taskset.Task.{Task, get_weight}

-- The fields of `Random`; `BaseImpl` is in Taskset/Run.antt.
pub record Random {ℓ} (A : Type ℓ) : Type ℓ where
  pub tasks : List A
  pub filtered : List A

-- `max(GetWeight(t), 1)`.
abbrev pub copies : Task → ℕ
copies t = max64 (get_weight t) 1

-- The first loop of `NewRandom`.
unfoldable pub total_weight : List Task → ℕ
total_weight [] = 0
total_weight (t ∷ ts) = copies t + total_weight ts

-- The second loop of `NewRandom`: each task as often as its weight says.
unfoldable pub spread : List Task → List Task
spread [] = []
spread (t ∷ ts) = replicate (copies t) t ++ spread ts

-- `NewRandom`.
unfoldable pub new : List Task → Random Task
new tasks = record { tasks = spread tasks; filtered = spread tasks }

module _ {ℓ} {A : Type ℓ} where
  unfoldable pub len : Random A → ℕ
  len r = length r.filtered

  -- `Next`, where `rand.Intn` gives `i`. `none` is the panic of `rand.Intn(0)`.
  unfoldable pub next : Random A → ℕ → Option A
  next r i = if length r.filtered == 0 then none else get_elem? r.filtered i

  -- `FilterTasks`.
  unfoldable pub filter_tasks : Random A → (List A → List A) → Random A
  filter_tasks r f = record r { filtered = f r.tasks }

-- The slots that the second loop fills are those that the first loop counts.
pub length-spread : (ts : List Task) → length (spread ts) ≡ total_weight ts
unfolding spread total_weight
length-spread [] = refl
length-spread (t ∷ ts) = omega (
  arith,
  length-append (replicate (copies t) t) (spread ts),
  length-replicate (copies t) t,
  length-spread ts,
)

get_elem?-replicate :
    (n i : ℕ) (t : Task) (ts : List Task) → i < n → get_elem? (replicate n t ++ ts) i ≡ some t
get_elem?-replicate zero i t ts h = absurd (omega arith)
get_elem?-replicate (suc n) zero t ts h = refl
get_elem?-replicate (suc n) (suc i) t ts h = get_elem?-replicate n i t ts (omega arith)

get_elem?-append :
    (xs ys : List Task) (i : ℕ) → get_elem? (xs ++ ys) (length xs + i) ≡ get_elem? ys i
get_elem?-append [] ys i = ap (get_elem? ys) (omega arith)
get_elem?-append (x ∷ xs) ys i =
    ap (get_elem? (x ∷ xs ++ ys)) {y = suc (length xs + i)} (omega arith) ∙ get_elem?-append xs ys i

spread-append : (xs ys : List Task) → spread (xs ++ ys) ≡ spread xs ++ spread ys
unfolding spread
spread-append [] ys = refl
spread-append (x ∷ xs) ys =
    ap (◌++◌ (replicate (copies x) x)) (spread-append xs ys)
    ∙ sym (append_assoc (replicate (copies x) x) (spread xs) (spread ys))

-- Among as many equally likely numbers as the weights add up to, a task is given by as many as its own
-- weight says, at least by one: those that follow the numbers of the tasks before it.
pub next-new :
    (before after : List Task) (t : Task) (i : ℕ)
    → i < copies t
    → (len (new (before ++ t ∷ after)) ≡ total_weight before + copies t + total_weight after)
      × (next (new (before ++ t ∷ after)) (total_weight before + i) ≡ some t)
      × (0 < copies t)
unfolding len next new spread
next-new before after t i h = (size, given, omega arith)
  where
    slots : List Task
    slots = replicate (copies t) t ++ spread after

    size :
        length (spread (before ++ t ∷ after)) ≡ total_weight before + copies t + total_weight after
    size =
        ap length (spread-append before (t ∷ after))
        ∙ omega (
          arith,
          length-append (spread before) slots,
          length-append (replicate (copies t) t) (spread after),
          length-replicate (copies t) t,
          length-spread before,
          length-spread after,
        )

    slot : get_elem? (spread (before ++ t ∷ after)) (total_weight before + i) ≡ some t
    slot =
        ap (λ xs. get_elem? xs (total_weight before + i)) (spread-append before (t ∷ after))
        ∙ ap (λ k. get_elem? (spread before ++ slots) (k + i)) (sym (length-spread before))
        ∙ get_elem?-append (spread before) slots i
        ∙ get_elem?-replicate (copies t) i t (spread after) h

    given : next (new (before ++ t ∷ after)) (total_weight before + i) ≡ some t
    given = ground (arith, size, slot)
