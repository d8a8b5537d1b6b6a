-- ===== src/Spawner/Threads/Cancelled.antt =====
-- spawner/thread.go: every thread is cancelled once, and the list stays within its capacity.
use launce.Base.{
  ℕ, zero, suc, ◌+◌, ◌-◌, ◌^◌, ◌≤◌, ◌<◌, ◌≡◌, ◌∙◌, refl, sym, ap, ◌&&◌, List, [], ◌∷◌, ◌++◌, arith,
  min, length, take, drop, leb, ltb, ◌==◌, if◌then◌else◌, length-drop, append-nil,
}
use launce.Base.Int64.{add64}
use launce.Spawner.Threads.{
  ThreadList, empty, pop, cap, add, with_id, without_id, delete, clear, Op, caps, pops, deletes,
  adds, clears, step, run,
}

-- How often a number stands in a list.
abbrev pub count : ℕ → List ℕ → ℕ
count x [] = 0
count x (u ∷ us) = if u == x then suc (count x us) else count x us

pub count-append : (x : ℕ) (us vs : List ℕ) → count x (us ++ vs) ≡ count x us + count x vs
count-append x [] vs = omega arith
count-append x (u ∷ us) vs = ground (arith, count-append x us vs)

count-take-drop : (x k : ℕ) (us : List ℕ) → count x (take k us) + count x (drop k us) ≡ count x us
count-take-drop x zero us = omega arith
count-take-drop x (suc k) [] = refl
count-take-drop x (suc k) (u ∷ us) = ground (arith, count-take-drop x k us)

pub count-with_id :
    (x id : ℕ) (us : List ℕ) → count x (with_id id us) + count x (without_id id us) ≡ count x us
unfolding with_id without_id
count-with_id x id [] = refl
count-with_id x id (u ∷ us) = ground (arith, count-with_id x id us)

length-without_id : (id : ℕ) (us : List ℕ) → length (without_id id us) ≤ length us
unfolding without_id
length-without_id id [] = omega arith
length-without_id id (u ∷ us) = ground (arith, length-without_id id us)

-- 1 for the numbers that were given out so far, and 0 for all others.
abbrev pub given : ℕ → ℕ → ℕ
given last x = if ltb 0 x && leb x last then 1 else 0

-- Of the threads that were ever added, which have the numbers from 1 to `current_id`, each either stands
-- in the list once and is not cancelled, or does not stand there and was cancelled once.
pub record IsValid (tl : ThreadList) : Type 0 where
  pub within : length tl.threads ≤ tl.count
  pub once : (x : ℕ) → count x tl.cancelled + count x tl.threads ≡ given tl.current_id x

pub pop-once :
    (tl : ThreadList) (n x : ℕ)
    → count x (pop tl n).1.cancelled + count x (pop tl n).1.threads
      ≡ count x tl.cancelled + count x tl.threads
unfolding pop
pop-once tl n x =
    let k = min n (length tl.threads) in
    ground (arith, count-append x tl.cancelled (take k tl.threads), count-take-drop x k tl.threads)

-- `pop` takes off as many as it is told, or all there are, and says how many.
pub pop-length :
    (tl : ThreadList) (n : ℕ)
    → ((pop tl n).0 ≡ min n (length tl.threads))
      × (length (pop tl n).1.threads ≡ length tl.threads - n)
      × ((pop tl n).1.count ≡ tl.count)
      × ((pop tl n).1.current_id ≡ tl.current_id)
unfolding pop
pop-length tl n = ground (arith, length-drop (min n (length tl.threads)) tl.threads)

pop-IsValid :
    (tl : ThreadList) (n : ℕ)
    → length tl.threads ≤ tl.count + n
    → ((x : ℕ) → count x tl.cancelled + count x tl.threads ≡ given tl.current_id x)
    → IsValid (pop tl n).1
pop-IsValid tl n h once = record {
  within = omega (arith, pop-length tl n);
  once = λ x. pop-once tl n x ∙ once x ∙ ap (λ c. given c x) (sym (pop-length tl n).3);
}

delete-IsValid : (tl : ThreadList) (id : ℕ) → IsValid tl → IsValid (delete tl id)
unfolding delete
delete-IsValid tl id v = record {
  within = omega (arith, v.within, length-without_id id tl.threads);
  once = λ x.
      omega
        (arith, count-append x tl.cancelled (with_id id tl.threads), count-with_id x id tl.threads)
      ∙ v.once x;
}

add-IsValid : (tl : ThreadList) → tl.current_id + 1 < 2 ^ 64 → IsValid tl → IsValid (add tl).1
unfolding add
add-IsValid tl h v =
    pop-IsValid
      (record tl {
        current_id = add64 tl.current_id 1;
        threads = tl.threads ++ add64 tl.current_id 1 ∷ [];
      })
      (length (tl.threads ++ add64 tl.current_id 1 ∷ []) - tl.count) (omega arith)
      (λ x. ground (arith, count-append x tl.threads (add64 tl.current_id 1 ∷ []), v.once x))

step-IsValid :
    (tl : ThreadList) (op : Op) → tl.current_id + 1 < 2 ^ 64 → IsValid tl → IsValid (step tl op)
unfolding step cap clear
step-IsValid tl (caps n) h v =
    pop-IsValid (record tl { count = n }) (length tl.threads - n) (omega arith) v.once
step-IsValid tl (pops n) h v = pop-IsValid tl n (omega (arith, v.within)) v.once
step-IsValid tl (deletes id) h v = delete-IsValid tl id v
step-IsValid tl adds h v = add-IsValid tl h v
step-IsValid tl clears h v = pop-IsValid tl (length tl.threads) (omega arith) v.once

current_id-step :
    (tl : ThreadList) (op : Op)
    → tl.current_id + 1 < 2 ^ 64
    → (step tl op).current_id ≤ tl.current_id + 1
unfolding step cap add clear delete
current_id-step tl (caps n) h =
    omega (arith, pop-length (record tl { count = n }) (length tl.threads - n))
current_id-step tl (pops n) h = omega (arith, pop-length tl n)
current_id-step tl (deletes id) h = omega arith
current_id-step tl adds h = omega (
  arith,
  pop-length
      (record tl {
        current_id = add64 tl.current_id 1;
        threads = tl.threads ++ add64 tl.current_id 1 ∷ [];
      })
      (length (tl.threads ++ add64 tl.current_id 1 ∷ []) - tl.count),
)
current_id-step tl clears h = omega (arith, pop-length tl (length tl.threads))

run-step-IsValid :
    (tl : ThreadList) (ops : List Op)
    → tl.current_id + length ops < 2 ^ 64
    → IsValid tl
    → IsValid (run tl ops)
unfolding run
run-step-IsValid tl [] h v = v
run-step-IsValid tl (op ∷ ops) h v =
    run-step-IsValid (step tl op) ops (omega (arith, current_id-step tl op (omega arith)))
      (step-IsValid tl op (omega arith) v)

-- After any sequence of calls on a new list, fewer than 2 ^ 64 of them: no more threads stand in the list
-- than its capacity allows; and every thread that was added stands there once and was not cancelled, or
-- does not stand there and was cancelled exactly once, whichever of the calls took it off.
pub run-IsValid : (ops : List Op) → length ops < 2 ^ 64 → IsValid (run empty ops)
run-IsValid ops h =
    run-step-IsValid empty ops (omega arith)
      (record { within = omega arith; once = λ x. ground arith })

-- `Cap` cancels just as many threads as are too many, reports that number, and keeps the newest.
pub cap_lem :
    (tl : ThreadList) (n : ℕ)
    → let (cancelled, tl') = cap tl n in
      (cancelled ≡ length tl.threads - n)
      × (tl'.threads ≡ drop (length tl.threads - n) tl.threads)
      × (tl'.cancelled ≡ tl.cancelled ++ take (length tl.threads - n) tl.threads)
      × (tl'.count ≡ n)
unfolding cap pop
cap_lem tl n = ground (arith, append-nil tl.cancelled)
