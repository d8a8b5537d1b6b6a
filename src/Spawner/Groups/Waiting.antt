-- ===== src/Spawner/Groups/Waiting.antt =====
-- spawner/spawner.go: `StopAllThreads` waits for nothing that was not told to end.
use launce.Base.{
  ℕ, suc, ◌+◌, ◌-◌, ◌≤◌, ◌<◌, ◌≡◌, refl, subst, Bool, true, false, ◌&&◌, List, [], ◌∷◌, ◌++◌, arith,
  inl, inr, Bool-cases, min, length, take, ◌==◌, if◌then◌else◌,
}
use launce.Base.Int64.{add64}
use launce.Spawner.Threads.{
  ThreadList, pop, cap, add, with_id, delete, clear, Op, caps, pops, deletes, adds, clears, step,
}
use launce.Spawner.Threads.Cancelled.{count, count-append, count-with_id, pop-once, pop-length}
use launce.Spawner.Groups.{
  Groups, begin, spawn, remove, finish, has_member, without, stop_all_threads, end_wait, Move,
  spawns, stops, finishes, returns, move, moves,
}
use launce.Spawner.Groups

-- What the list holds of a thread, cancelled or not.
abbrev held : ℕ → ThreadList → ℕ
held x tl = count x tl.cancelled + count x tl.threads

-- No operation forgets a thread or a cancellation.
record Grows (tl tl' : ThreadList) : Type 0 where
  pub cancels : (x : ℕ) → count x tl.cancelled ≤ count x tl'.cancelled
  pub holds : (x : ℕ) → held x tl ≤ held x tl'

pop-Grows : (tl : ThreadList) (n : ℕ) → Grows tl (pop tl n).1
unfolding pop
pop-Grows tl n = record {
  cancels = λ x.
      ground (arith, count-append x tl.cancelled (take (min n (length tl.threads)) tl.threads));
  holds = λ x. ground (arith, pop-once tl n x);
}

step-Grows : (tl : ThreadList) (op : Op) → Grows tl (step tl op)
unfolding step cap add delete clear
step-Grows tl (caps n) =
    let p = pop-Grows (record tl { count = n }) (length tl.threads - n) in
    record { cancels = p.cancels; holds = p.holds }
step-Grows tl (pops n) = pop-Grows tl n
step-Grows tl (deletes id) = record {
  cancels = λ x. omega (arith, count-append x tl.cancelled (with_id id tl.threads));
  holds = λ x.
      omega
        (arith, count-append x tl.cancelled (with_id id tl.threads), count-with_id x id tl.threads);
}
step-Grows tl adds =
    let added : ThreadList = record tl {
      current_id = add64 tl.current_id 1;
      threads = tl.threads ++ add64 tl.current_id 1 ∷ [];
    } in
    let p = pop-Grows added (length added.threads - tl.count) in
    record {
      cancels = p.cancels;
      holds = λ x. omega (arith, p.holds x, count-append x tl.threads (add64 tl.current_id 1 ∷ []));
    }
step-Grows tl clears = pop-Grows tl (length tl.threads)

-- A thread that is added is in the list, or is cancelled at once.
holds-add : (tl : ThreadList) → 0 < held (add tl).0 (add tl).1
unfolding add
holds-add tl =
    let id = add64 tl.current_id 1 in
    let added : ThreadList = record tl { current_id = id; threads = tl.threads ++ id ∷ [] } in
    let p = pop-Grows added (length added.threads - tl.count) in
    ground (arith, p.holds id, count-append id tl.threads (id ∷ []))

count_none : (x : ℕ) (us : List ℕ) → length us ≡ 0 → count x us ≡ 0
count_none x [] h = refl
count_none x (u ∷ us) h = absurd (omega (arith, h))

-- `Clear` leaves no thread uncancelled.
cancels-clear : (tl : ThreadList) (x : ℕ) → count x (clear tl).cancelled ≡ held x tl
unfolding clear
cancels-clear tl x =
    let n = length tl.threads in
    omega
      (arith, pop-once tl n x, count_none x (pop tl n).1.threads (omega (arith, pop-length tl n)))

-- What is known of the goroutines: none is of a later group, all have a thread that is held, and those of
-- earlier groups are cancelled.
unfoldable pub AreTold : ℕ → ThreadList → List (ℕ × ℕ) → Type 0
AreTold group tl [] = Unit
AreTold group tl ((id, g) ∷ ls) =
    (g ≤ group) × (0 < held id tl) × (g < group → 0 < count id tl.cancelled) × AreTold group tl ls

AreTold-Grows :
    (group : ℕ) (tl tl' : ThreadList) (ls : List (ℕ × ℕ))
    → Grows tl tl'
    → AreTold group tl ls
    → AreTold group tl' ls
unfolding AreTold
AreTold-Grows group tl tl' [] r t = tt
AreTold-Grows group tl tl' ((id, g) ∷ ls) r (le, h, c, t) = (
  le,
  omega (arith, h, r.holds id),
  λ lt. omega (arith, c lt, r.cancels id),
  AreTold-Grows group tl tl' ls r t,
)

AreTold-remove :
    (group id : ℕ) (tl : ThreadList) (ls : List (ℕ × ℕ))
    → AreTold group tl ls
    → AreTold group tl (remove id ls)
unfolding AreTold remove
AreTold-remove group id tl [] t = tt
AreTold-remove group id tl ((j, g) ∷ ls) (le, h, c, t) = elim (Bool-cases (j == id)) [
  | inl e ↦ rw e t
  | inr e ↦ rw e (le, h, c, AreTold-remove group id tl ls t)
]

AreTold-clear :
    (group : ℕ) (tl : ThreadList) (ls : List (ℕ × ℕ))
    → AreTold group tl ls
    → AreTold (suc group) (clear tl) ls
unfolding AreTold
AreTold-clear group tl [] t = tt
AreTold-clear group tl ((id, g) ∷ ls) (le, h, c, t) =
    let e = cancels-clear tl id in
    (omega (arith, le), omega (arith, h, e), λ lt. omega (arith, h, e), AreTold-clear group tl ls t)

unfoldable pub is_waiting : ℕ → List ℕ → Bool
is_waiting g [] = false
is_waiting g (h ∷ hs) = if h == g then true else is_waiting g hs

unfoldable pub is_live : ℕ → ℕ → List (ℕ × ℕ) → Bool
is_live id g [] = false
is_live id g ((j, h) ∷ ls) = if j == id && h == g then true else is_live id g ls

told_lem :
    (group id g : ℕ) (tl : ThreadList) (ls : List (ℕ × ℕ))
    → AreTold group tl ls
    → is_live id g ls ≡ true
    → (g ≤ group) × (g < group → 0 < count id tl.cancelled)
unfolding AreTold is_live
told_lem group id g tl [] t h = cc
told_lem group id g tl ((j, k) ∷ ls) (le, hd, c, t) h = elim (Bool-cases (j == id && k == g)) [
  | inl e ↦
      let e₁ : j ≡ id = ground (arith, e) in
      let e₂ : k ≡ g = ground (arith, e) in
      subst (λ n. (n ≤ group) × (n < group → 0 < count id tl.cancelled)) e₂
        (le, subst (λ n. k < group → 0 < count n tl.cancelled) e₁ c)
  | inr e ↦ told_lem group id g tl ls t (rw e at h)
]

-- The groups that are waited for are earlier ones.
unfoldable AreEarlier : ℕ → List ℕ → Type 0
AreEarlier group [] = Unit
AreEarlier group (g ∷ gs) = (g < group) × AreEarlier group gs

AreEarlier-suc : (group : ℕ) (gs : List ℕ) → AreEarlier group gs → AreEarlier (suc group) gs
unfolding AreEarlier
AreEarlier-suc group [] a = tt
AreEarlier-suc group (g ∷ gs) (h, a) = (omega (arith, h), AreEarlier-suc group gs a)

AreEarlier-without :
    (group g : ℕ) (gs : List ℕ) → AreEarlier group gs → AreEarlier group (without g gs)
unfolding AreEarlier without
AreEarlier-without group g [] a = tt
AreEarlier-without group g (h ∷ hs) (lt, a) = elim (Bool-cases (h == g)) [
  | inl e ↦ rw e a
  | inr e ↦ rw e (lt, AreEarlier-without group g hs a)
]

earlier_lem : (group g : ℕ) (gs : List ℕ) → AreEarlier group gs → is_waiting g gs ≡ true → g < group
unfolding AreEarlier is_waiting
earlier_lem group g [] a h = cc
earlier_lem group g (k ∷ ks) (lt, a) h = ground (arith, lt, h, earlier_lem group g ks a)

record IsValid (s : Groups) : Type 0 where
  pub told : AreTold s.group s.threads s.live
  pub earlier : AreEarlier s.group s.waits

end_wait-IsValid : (s : Groups) (g : ℕ) → IsValid s → IsValid (end_wait s g)
unfolding end_wait
end_wait-IsValid s g v = elim (Bool-cases (has_member g s.live)) [
  | inl e ↦ rw e v
  | inr e ↦
      rw e (record { told = v.told; earlier = AreEarlier-without s.group g s.waits v.earlier })
]

spawn-IsValid : (s : Groups) → IsValid s → IsValid (spawn s)
unfolding spawn AreTold
spawn-IsValid s v = record {
  told = (
    omega arith,
    holds-add s.threads,
    λ lt. absurd (omega (arith, lt)),
    AreTold-Grows s.group s.threads (add s.threads).1 s.live
        (unfold step in step-Grows s.threads adds) v.told,
  );
  earlier = v.earlier;
}

move-IsValid : (s : Groups) (m : Move) → IsValid s → IsValid (move s m)
unfolding move finish stop_all_threads AreEarlier step
move-IsValid s spawns v = spawn-IsValid s v
move-IsValid s stops v = record {
  told = AreTold-clear s.group s.threads s.live v.told;
  earlier = (omega arith, AreEarlier-suc s.group s.waits v.earlier);
}
move-IsValid s (finishes id) v = record {
  told = AreTold-remove s.group id (delete s.threads id) s.live (
      AreTold-Grows s.group s.threads (delete s.threads id) s.live
        (step-Grows s.threads (deletes id)) v.told);
  earlier = v.earlier;
}
move-IsValid s (Groups.caps n) v = record {
  told =
      AreTold-Grows s.group s.threads (cap s.threads n).1 s.live (step-Grows s.threads (caps n))
        v.told;
  earlier = v.earlier;
}
move-IsValid s (Groups.pops n) v = record {
  told =
      AreTold-Grows s.group s.threads (pop s.threads n).1 s.live (step-Grows s.threads (pops n))
        v.told;
  earlier = v.earlier;
}
move-IsValid s (returns g) v = end_wait-IsValid s g v

moves-IsValid : (s : Groups) (ms : List Move) → IsValid s → IsValid (moves s ms)
unfolding moves
moves-IsValid s [] v = v
moves-IsValid s (m ∷ ms) v = moves-IsValid (move s m) ms (move-IsValid s m v)

cleared :
    (s : Groups) (id g : ℕ)
    → IsValid s
    → is_live id g (stop_all_threads s).live ≡ true
    → 0 < count id (stop_all_threads s).threads.cancelled
unfolding stop_all_threads
cleared s id g v h =
    let (le, c) =
      told_lem (suc s.group) id g (clear s.threads) s.live
        (AreTold-clear s.group s.threads s.live v.told) h in
    c (omega (arith, (told_lem s.group id g s.threads s.live v.told h).0))

not_own : (group : ℕ) (gs : List ℕ) → AreEarlier group gs → is_waiting group gs ≡ false
unfolding AreEarlier is_waiting
not_own group [] a = refl
not_own group (g ∷ gs) (lt, a) = ground (arith, lt, not_own group gs a)

-- However spawns, ends of goroutines, `Cap`, the migration and calls of `StopAllThreads` interleave: every goroutine
-- that a `StopAllThreads` still waits for has been cancelled; behind the first section of `StopAllThreads` every
-- goroutine there is has been; and no call waits for the group of the goroutines that are spawned from now on.
pub moves-begin_told :
    (ms : List Move) (id g : ℕ)
    → let s = moves begin ms in
      (is_waiting g s.waits ≡ true → is_live id g s.live ≡ true → 0 < count id s.threads.cancelled)
      × (is_live id g (stop_all_threads s).live ≡ true
          → 0 < count id (stop_all_threads s).threads.cancelled)
      × (is_waiting s.group s.waits ≡ false)
moves-begin_told ms id g =
    let s = moves begin ms in
    let v : IsValid s =
      moves-IsValid begin ms
        (unfold AreTold in unfold AreEarlier in record { told = tt; earlier = tt }) in
    (
      λ w h.
          (told_lem s.group id g s.threads s.live v.told h).1
            (earlier_lem s.group g s.waits v.earlier w),
      λ h. cleared s id g v h,
      not_own s.group s.waits v.earlier,
    )
