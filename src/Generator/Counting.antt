-- ===== src/Generator/Counting.antt =====
-- generator.go, stats/aggregator.go: an aggregator is open just as long as someone may report to it.
use launce.Base.{
  ℕ, zero, suc, ◌+◌, ◌-◌, ◌^◌, ◌≤◌, ◌<◌, ◌≡◌, ◌↔◌, refl, ap, true, Option, none, some, List, [],
  ◌∷◌, ◌++◌, arith, length, ◌==◌, if◌then◌else◌, Bool-cases, Option-cases, inl, inr,
}
use launce.Generator.{
  Aggregator, new_collector, retain, release, Aggregation, new, at, release_current, renew, join,
  start_user, drop_one, end_user, reset,
}

-- Outside the list stands what an aggregator is in the end.
abbrev gone : Aggregator
gone = record { count = 0; closed = true }

abbrev pub nth : ℕ → List Aggregator → Aggregator
nth i [] = gone
nth zero (a ∷ xs) = a
nth (suc i) (a ∷ xs) = nth i xs

abbrev pub count_held : ℕ → List ℕ → ℕ
count_held i [] = 0
count_held i (j ∷ js) = if j == i then suc (count_held i js) else count_held i js

abbrev pub holds : Option ℕ → ℕ → ℕ
holds none i = 0
holds (some j) i = if j == i then 1 else 0

-- The references to the aggregator `i`: one of each user that holds it, and one of the generator while
-- it is the current one.
abbrev pub references : Aggregation → ℕ → ℕ
references g i = count_held i g.held + holds g.current i

pub record IsValid (g : Aggregation) : Type 0 where
  -- The count of every aggregator is the number of references to it.
  pub counted : (i : ℕ) → (nth i g.made).count ≡ references g i
  -- It is closed just when there is none.
  pub closed_when : (i : ℕ) → (nth i g.made).closed ≡ (references g i == 0)
  -- Where there is no current aggregator, the next user makes one.
  pub fresh : g.current ≡ none → g.user_counter ≡ 0

nth-at :
    (i j : ℕ) (f : Aggregator → Aggregator) (xs : List Aggregator)
    → i < length xs
    → nth j (at i f xs) ≡ (if i == j then f (nth j xs) else nth j xs)
unfolding at
nth-at i j f [] h = absurd (omega arith)
nth-at zero zero f (a ∷ xs) h = refl
nth-at zero (suc j) f (a ∷ xs) h = ground arith
nth-at (suc i) zero f (a ∷ xs) h = ground arith
nth-at (suc i) (suc j) f (a ∷ xs) h = ground (arith, nth-at i j f xs)

nth-snoc :
    (j : ℕ) (xs : List Aggregator) (a : Aggregator)
    → nth j (xs ++ a ∷ []) ≡ (if j == length xs then a else nth j xs)
nth-snoc zero [] a = refl
nth-snoc (suc j) [] a = ground arith
nth-snoc zero (x ∷ xs) a = ground arith
nth-snoc (suc j) (x ∷ xs) a = ground (arith, nth-snoc j xs a)

length-at :
    (i : ℕ) (f : Aggregator → Aggregator) (xs : List Aggregator) → length (at i f xs) ≡ length xs
unfolding at
length-at i f [] = refl
length-at zero f (a ∷ xs) = refl
length-at (suc i) f (a ∷ xs) = ap suc (length-at i f xs)

made_of_counted : (i : ℕ) (xs : List Aggregator) → 0 < (nth i xs).count → i < length xs
made_of_counted i [] h = absurd (omega arith)
made_of_counted zero (a ∷ xs) h = omega arith
made_of_counted (suc i) (a ∷ xs) h = omega (arith, made_of_counted i xs h)

count_held-le : (i : ℕ) (js : List ℕ) → count_held i js ≤ length js
count_held-le i [] = omega arith
count_held-le i (j ∷ js) = ground (arith, count_held-le i js)

count_held-drop_one :
    (i j : ℕ) (js : List ℕ)
    → 0 < count_held i js
    → count_held j (drop_one i js) ≡ (if i == j then count_held j js - 1 else count_held j js)
unfolding drop_one
count_held-drop_one i j [] h = absurd (omega arith)
count_held-drop_one i j (k ∷ js) h = ground (arith, count_held-drop_one i j js)

end_user-IsValid :
    (g : Aggregation) (i : ℕ)
    → 0 < count_held i g.held
    → length g.held + 1 < 2 ^ 64
    → IsValid g
    → IsValid (end_user g i)
unfolding end_user release
end_user-IsValid g i h b v = record {
  counted = λ j. ground (
    arith,
    nth-at i j release g.made,
    made_of_counted i g.made,
    v.counted i,
    v.counted j,
    count_held-drop_one i j g.held,
    count_held-le j g.held,
  );
  closed_when = λ j. ground (
    arith,
    nth-at i j release g.made,
    made_of_counted i g.made,
    v.counted i,
    v.counted j,
    v.closed_when j,
    count_held-drop_one i j g.held,
    count_held-le j g.held,
  );
  fresh = v.fresh;
}

-- Releasing the current aggregator takes its reference away.
nth-release_current :
    (g : Aggregation) (j : ℕ)
    → length g.held + 1 < 2 ^ 64
    → IsValid g
    → ((nth j (release_current g.current g.made)).count ≡ count_held j g.held)
      × ((nth j (release_current g.current g.made)).closed ≡ (count_held j g.held == 0))
unfolding release_current release
nth-release_current g j b v = elim (Option-cases g.current) [
  | inl e ↦ rw e (ground (arith, v.counted j, v.closed_when j))
  | inr (i, e) ↦ rw e (
      ground (
        arith,
        nth-at i j release g.made,
        made_of_counted i g.made,
        v.counted i,
        v.counted j,
        v.closed_when j,
        count_held-le j g.held,
      ))
]

length-release_current :
    (c : Option ℕ) (xs : List Aggregator) → length (release_current c xs) ≡ length xs
unfolding release_current
length-release_current none xs = refl
length-release_current (some i) xs = length-at i release xs

nth_past : (i : ℕ) (xs : List Aggregator) → length xs ≤ i → nth i xs ≡ gone
nth_past i [] h = refl
nth_past zero (a ∷ xs) h = absurd (omega arith)
nth_past (suc i) (a ∷ xs) h = nth_past i xs (omega arith)

reset-IsValid : (g : Aggregation) → length g.held + 1 < 2 ^ 64 → IsValid g → IsValid (reset g)
unfolding reset
reset-IsValid g b v = record {
  counted = λ j. omega (arith, nth-release_current g j b v);
  closed_when = λ j. ground (arith, nth-release_current g j b v);
  fresh = λ e. refl;
}

renew-IsValid : (g : Aggregation) → length g.held + 1 < 2 ^ 64 → IsValid g → IsValid (renew g)
unfolding renew retain
renew-IsValid g b v = elim (Bool-cases (g.user_counter == 0)) [
  | inr e ↦ rw e v
  | inl e ↦ rw e (record {
    counted = λ j. ground (
      arith,
      nth-snoc j (release_current g.current g.made) (retain new_collector),
      nth-release_current g j b v,
      length-release_current g.current g.made,
      nth_past (length g.made) g.made,
      v.counted (length g.made),
    );
    closed_when = λ j. ground (
      arith,
      nth-snoc j (release_current g.current g.made) (retain new_collector),
      nth-release_current g j b v,
      length-release_current g.current g.made,
      nth_past (length g.made) g.made,
      v.counted (length g.made),
    );
    fresh = λ f. ground arith;
  })
]

join-IsValid :
    (g : Aggregation) (i : ℕ)
    → g.current ≡ some i
    → length g.held + 2 < 2 ^ 64
    → IsValid g
    → IsValid (join g)
unfolding join retain
join-IsValid g i e b v = rw e (record {
  counted = λ j. ground (
    arith,
    nth-at i j retain g.made,
    made_of_counted i g.made,
    v.counted i,
    v.counted j,
    count_held-le j g.held,
  );
  closed_when = λ j. ground (
    arith,
    nth-at i j retain g.made,
    made_of_counted i g.made,
    v.counted i,
    v.counted j,
    v.closed_when j,
    count_held-le j g.held,
  );
  fresh = λ f. ground arith;
})

renew-current : (g : Aggregation) → IsValid g → (i : ℕ) × ((renew g).current ≡ some i)
unfolding renew
renew-current g v = elim (Option-cases g.current) [
  | inr (i, e) ↦ elim (Bool-cases (g.user_counter == 0)) [
    | inl h ↦ rw h (length g.made, refl)
    | inr h ↦ rw h (i, e)
  ]
  | inl e ↦ rw (v.fresh e) (length g.made, refl)
]

held-renew : (g : Aggregation) → (renew g).held ≡ g.held
unfolding renew
held-renew g = ground arith

start_user-IsValid :
    (g : Aggregation) → length g.held + 2 < 2 ^ 64 → IsValid g → IsValid (start_user g)
unfolding start_user
start_user-IsValid g b v =
    let (i, e) = renew-current g v in
    join-IsValid (renew g) i e (omega (arith, ap length (held-renew g)))
      (renew-IsValid g (omega arith) v)

-- What goroutines do under `aggMutex`, and a user at its end, in any order. A number of users per
-- aggregator of 0 would panic.
pub data Step (g : Aggregation) : Aggregation → Type 0 where
  starts : 0 < g.users_per_aggregator → length g.held + 2 < 2 ^ 64 → Step g (start_user g)
  ends : (i : ℕ) → 0 < count_held i g.held → Step g (end_user g i)
  resets : Step g (reset g)

pub data Reach (g : Aggregation) : Aggregation → Type 0 where
  here : Reach g g
  next : {h k : Aggregation} → Reach g h → Step h k → Reach g k

abbrev IsBounded : Aggregation → Type 0
IsBounded g = length g.held + 1 < 2 ^ 64

length-drop_one : (i : ℕ) (js : List ℕ) → length (drop_one i js) ≤ length js
unfolding drop_one
length-drop_one i [] = omega arith
length-drop_one i (j ∷ js) = ground (arith, length-drop_one i js)

held-join : (g : Aggregation) → length (join g).held ≤ length g.held + 1
unfolding join
held-join g = ground arith

held-start_user : (g : Aggregation) → length (start_user g).held ≤ length g.held + 1
unfolding start_user
held-start_user g = omega (arith, held-join (renew g), ap length (held-renew g))

Step-IsValid : {g h : Aggregation} → Step g h → IsValid g × IsBounded g → IsValid h × IsBounded h
Step-IsValid {g} (starts n b) (v, w) = (start_user-IsValid g b v, omega (arith, held-start_user g))
Step-IsValid {g} (ends i h) (v, w) =
    (end_user-IsValid g i h w v, unfold end_user in omega (arith, length-drop_one i g.held))
Step-IsValid {g} resets (v, w) = (reset-IsValid g w v, unfold reset in w)

Reach-IsValid : {g h : Aggregation} → IsValid g × IsBounded g → Reach g h → IsValid h × IsBounded h
Reach-IsValid v here = v
Reach-IsValid v (next r st) = Step-IsValid st (Reach-IsValid v r)

new-IsValid : (n : ℕ) → IsValid (new n)
new-IsValid n = record { counted = λ i. refl; closed_when = λ i. refl; fresh = λ e. refl }

-- However users start and end and the generator starts and stops, with fewer than 2 ^ 64 - 2 users
-- at a time and at least one user per aggregator: every aggregator counts its references, and it is
-- closed exactly when no running user holds it and it is not the current one. So no user reports to
-- a closed aggregator, and none stays open for nothing.
pub Reach-closed :
    (n : ℕ) {g : Aggregation}
    → Reach (new n) g
    → (i : ℕ)
    → ((nth i g.made).count ≡ references g i)
      × (((nth i g.made).closed ≡ true) ↔ (references g i ≡ 0))
Reach-closed n r i =
    let (v, b) = Reach-IsValid (new-IsValid n, omega arith) r in
    (v.counted i, ground (arith, v.closed_when i))
