-- ===== src/Taskset/Run/Nested/Order.antt =====
-- taskset/taskset.go: the order of events across nested task sets.
use launce.Base.{
  ℕ, ◌+◌, ◌≤◌, ◌<◌, ◌≡◌, ◌⊎◌, refl, inl, inr, true, false, Option, none, some, List, [], ◌∷◌, ◌++◌,
  append-nil, subst, arith, Bool-cases, Option-cases,
}
use launce.User.{
  Error, canceled, stop_user, reschedule, reschedule_immediately, interrupt, interrupt_immediately,
  other, Runner,
}
use launce.Taskset.Queue.{TaskQueue}
use launce.Taskset.Run.{
  Event, ran, waited, stopped, reported, Outcome, returned, panicked, running, Round, Trace, wait,
  interrupted, unexpected, react, schedule_each, choose,
}
use launce.Taskset.Run.Nested.{
  answer, Answers, nil, cons, Deep, turn, go_on, after_set, early, loop,
}

pub Outcome-cases :
    (o : Outcome) → ((e : Error) × (o ≡ returned e)) ⊎ (o ≡ panicked) ⊎ (o ≡ running)
Outcome-cases (returned e) = inl (e, refl)
Outcome-cases panicked = inr (inl refl)
Outcome-cases running = inr (inr refl)

module _ {ℓ} {A : Type ℓ} where
  -- At which depths an event may come next.
  unfoldable pub May : ℕ × Event A → ℕ → Type 0
  May (i, stopped) j = j < i
  May (i, ran t) j = j ≤ i + 1
  May (i, waited) j = j ≤ i
  May (i, reported e) j = j ≤ i

  unfoldable pub Follows : ℕ × Event A → List (ℕ × Event A) → Type 0
  unfolding May
  Follows x [] = Unit
  Follows x ((j, e) ∷ es) = May x j × Follows (j, e) es

  unfoldable pub Above : ℕ → List (ℕ × Event A) → Type 0
  Above d [] = Unit
  Above d ((j, e) ∷ es) = (d ≤ j) × Above d es

  -- The events begin at the depth, stay there or deeper, and follow one another.
  unfoldable pub IsNested : ℕ → List (ℕ × Event A) → Type 0
  unfolding Follows Above
  IsNested d [] = Unit
  IsNested d ((j, e) ∷ es) = (j ≡ d) × Follows (j, e) es × Above d es

  IsNested-Above : (d : ℕ) (es : List (ℕ × Event A)) → IsNested d es → Above d es
  unfolding IsNested Above
  IsNested-Above d [] n = tt
  IsNested-Above d ((j, e) ∷ es) (h, f, a) = (omega (arith, h), a)

  Above-weaken : (d : ℕ) (es : List (ℕ × Event A)) → Above (d + 1) es → Above d es
  unfolding Above
  Above-weaken d [] a = tt
  Above-weaken d ((j, e) ∷ es) (h, a) = (omega (arith, h), Above-weaken d es a)

  Above-append : (d : ℕ) (es fs : List (ℕ × Event A)) → Above d es → Above d fs → Above d (es ++ fs)
  unfolding Above
  Above-append d [] fs a b = b
  Above-append d ((j, e) ∷ es) fs (h, a) b = (h, Above-append d es fs a b)

  -- From deeper down a run may always come back to the depth.
  May-return : (x : ℕ × Event A) (d : ℕ) → d < x.0 → May x d
  unfolding May
  May-return (i, stopped) d h = h
  May-return (i, ran t) d h = omega (arith, h)
  May-return (i, waited) d h = omega (arith, h)
  May-return (i, reported e) d h = omega (arith, h)

  Follows-return :
      (x : ℕ × Event A) (d : ℕ) (fs : List (ℕ × Event A)) → May x d → IsNested d fs → Follows x fs
  unfolding IsNested Follows
  Follows-return x d [] m n = tt
  Follows-return x d ((j, e) ∷ fs) m (h, f, a) = (rw h m, f)

  Follows-append :
      (x : ℕ × Event A) (d : ℕ) (es fs : List (ℕ × Event A))
      → May x d
      → Follows x es
      → Above (d + 1) es
      → IsNested d fs
      → Follows x (es ++ fs)
  unfolding Follows Above
  Follows-append x d [] fs m f a n = Follows-return x d fs m n
  Follows-append x d ((j, e) ∷ es) fs m (p, f) (h, a) n =
      (p, Follows-append (j, e) d es fs (May-return (j, e) d (omega (arith, h))) f a n)

  -- A task that is a set: its events stand between the start of the task and what follows.
  IsNested-inner :
      (d : ℕ) (t : A) (es fs : List (ℕ × Event A))
      → IsNested (d + 1) es
      → IsNested d fs
      → IsNested d ((d, ran t) ∷ es ++ fs)
  unfolding IsNested
  IsNested-inner d t es fs n m = (
    refl,
    Follows-append (d, ran t) d es fs (omega arith)
        (Follows-return (d, ran t) (d + 1) es (omega arith) n) (IsNested-Above (d + 1) es n) m,
    Above-append d es fs (Above-weaken d es (IsNested-Above (d + 1) es n)) (IsNested-Above d fs m),
  )

  IsNested-entered :
      (d : ℕ) (t : A) (es : List (ℕ × Event A)) → IsNested (d + 1) es → IsNested d ((d, ran t) ∷ es)
  IsNested-entered d t es n =
      subst (λ xs. IsNested d ((d, ran t) ∷ xs)) (append-nil es)
        (IsNested-inner d t es [] n (unfold IsNested in tt))

  -- An event of the set itself, before more of it.
  IsNested-before :
      (d : ℕ) (e : Event A) (es : List (ℕ × Event A))
      → May (d, e) d
      → IsNested d es
      → IsNested d ((d, e) ∷ es)
  unfolding IsNested
  IsNested-before d e es m n = (refl, Follows-return (d, e) d es m n, IsNested-Above d es n)

  IsNested-last : (d : ℕ) (e : Event A) → IsNested d ((d, e) ∷ [])
  unfolding IsNested Follows Above
  IsNested-last d e = (refl, tt, tt)

  abbrev empty : Trace A
  empty = record { events = []; outcome = running }

  module _ (d : ℕ) (rest : Deep A) (n : IsNested d rest.events) where
    go_on-wait : (w : Option Error) → IsNested d (go_on d (wait w empty) rest).events
    unfolding go_on wait
    go_on-wait none = IsNested-before d waited rest.events (unfold May in omega arith) n
    go_on-wait (some canceled) =
        IsNested-before d waited ((d, stopped) ∷ []) (unfold May in omega arith)
          (IsNested-last d stopped)
    go_on-wait (some stop_user) = IsNested-last d waited
    go_on-wait (some reschedule) = IsNested-last d waited
    go_on-wait (some reschedule_immediately) = IsNested-last d waited
    go_on-wait (some interrupt) = IsNested-last d waited
    go_on-wait (some interrupt_immediately) = IsNested-last d waited
    go_on-wait (some (other k)) = IsNested-last d waited

    go_on-interrupted :
        (o : Option Error) (e : Error) → IsNested d (go_on d (interrupted o e) rest).events
    unfolding go_on interrupted
    go_on-interrupted none e = IsNested-last d stopped
    go_on-interrupted (some f) e = IsNested-last d stopped

    go_on-event :
        (e : Event A) (es : List (Event A)) (o : Outcome)
        → (go_on d (record { events = e ∷ es; outcome = o }) rest).events
          ≡ (d, e) ∷ (go_on d (record { events = es; outcome = o }) rest).events
    unfolding go_on
    go_on-event e es (returned f) = refl
    go_on-event e es panicked = refl
    go_on-event e es running = refl

    -- A report, before the wait of the turn.
    go_on-reported :
        (e : Error) (w : Option Error)
        → IsNested d (go_on d (unexpected (some true) e (wait w empty)) rest).events
    unfolding unexpected
    go_on-reported e w =
        rw (go_on-event (reported e) (wait w empty).events (wait w empty).outcome) (
          IsNested-before d (reported e) (go_on d (wait w empty) rest).events
            (unfold May in omega arith) (go_on-wait w))

    go_on-unexpected :
        (runner : Runner) (e : Error) (w : Option Error)
        → IsNested d (go_on d (unexpected runner e (wait w empty)) rest).events
    unfolding unexpected go_on IsNested
    go_on-unexpected none e w = go_on-wait w
    go_on-unexpected (some false) e w = tt
    go_on-unexpected (some true) e w = unfold unexpected in go_on-reported e w

    go_on-turn :
        (runner : Runner) (r : Round A) (p : Option Error)
        → IsNested d (go_on d (turn runner r p) rest).events
    unfolding react go_on
    go_on-turn runner r none = go_on-wait r.wait_err
    go_on-turn runner r (some reschedule) = go_on-wait r.wait_err
    go_on-turn runner r (some reschedule_immediately) = n
    go_on-turn runner r (some stop_user) = IsNested-last d stopped
    go_on-turn runner r (some canceled) = IsNested-last d stopped
    go_on-turn runner r (some interrupt) = go_on-interrupted r.on_stop reschedule
    go_on-turn runner r (some interrupt_immediately) =
        go_on-interrupted r.on_stop reschedule_immediately
    go_on-turn runner r (some (other k)) = go_on-unexpected runner (other k) r.wait_err

  module _ {κ} {S : Type κ} (next_task : S → Option (A × S)) (enter : A → Option S) where
    after_set-IsNested :
        (d : ℕ) (runner : Runner) (r : Round A) (t : A) (inner rest : Deep A)
        → IsNested (d + 1) inner.events
        → IsNested d rest.events
        → IsNested d ((d, ran t) ∷ (after_set d runner r inner rest).events)
    unfolding after_set
    after_set-IsNested d runner r t inner rest n m = elim (Outcome-cases inner.outcome) [
      | inl (e, h) ↦
          rw (h, after_set)
            (IsNested-inner d t inner.events (go_on d (turn runner r (some e)) rest).events n
              (go_on-turn d rest m runner r (some e)))
      | inr (inl h) ↦ rw (h, after_set) (IsNested-entered d t inner.events n)
      | inr (inr h) ↦ rw (h, after_set) (IsNested-entered d t inner.events n)
    ]

    -- However tasks, task sets inside and user code behave: the events of a run begin at the depth of its set and
    -- never leave it upwards. An event one deeper comes only right behind the start of a task, and after
    -- `OnStop` of a set nothing comes of it or of a set inside it any more before the sets around it go on.
    pub loop-IsNested :
        (d : ℕ) (runner : Runner) (s : S) (q : TaskQueue A) (answers : Answers A)
        → IsNested d (loop next_task enter d runner s q answers).events
    unfolding loop
    loop-IsNested d runner s q nil = unfold IsNested in tt
    loop-IsNested d runner s q (cons (answer r o inside) rest) = elim (Option-cases r.ctx_err) [
      | inr (e, x) ↦ rw (x, loop) (IsNested-last d stopped)
      | inl x ↦ elim (Bool-cases r.stopping) [
        | inl y ↦ rw (x, y, loop) (IsNested-last d stopped)
        | inr y ↦ elim (Option-cases (choose next_task s q)) [
          | inl z ↦ rw (x, y, z, loop) (unfold IsNested in tt)
          | inr ((t, q', s'), z) ↦ elim (Option-cases (enter t)) [
            | inl u ↦
                rw (x, y, z, u, loop)
                  (IsNested-inner d t [] _ (unfold IsNested in tt) (
                    go_on-turn d _ (loop-IsNested d runner s' (schedule_each q' r.scheduled) rest)
                      runner r r.result))
            | inr (inner, u) ↦ elim (Option-cases (early o)) [
              | inr (e, v) ↦
                  rw (x, y, z, u, v, loop)
                    (after_set-IsNested d runner r t (record { events = []; outcome = returned e })
                      _ (unfold IsNested in tt) (loop-IsNested d runner s' q' rest))
              | inl v ↦
                  rw (x, y, z, u, v, loop)
                    (after_set-IsNested d runner r t _ _
                      (loop-IsNested (d + 1) runner inner
                        (schedule_each (record { tasks = []; current = none }) o.scheduled) inside)
                      (loop-IsNested d runner s' q' rest))
            ]
          ]
        ]
      ]
    ]
