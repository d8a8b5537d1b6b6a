-- ===== src/Generator/LoadTest/Handlers.antt =====
-- generator.go: which handlers a load test calls, and what becomes of the spawners.
use launce.Base.{
  ℕ, ◌≡◌, ◌↔◌, refl, ap, true, false, Option, none, some, List, [], ◌∷◌, ◌++◌, String, map, arith,
  if◌then◌else◌, inl, inr, Option-cases, All, subst, str_eq, eq_iff,
}
use launce.Base.Maps.{String-key, GoMap, lookup, lookup-store}
use launce.Generator.LoadTest.{
  Spawning, test_start, test_stopping, test_stop, LoadGenerator, call_start, each, start, stop,
  spawn,
}

-- How the start handlers end: all are called and none fails, or the last one that is called fails, and
-- none before.
pub data Called (fails : ℕ → Option ℕ) (fs : List ℕ) : List ℕ × Option ℕ → Type 0 where
  all_pass : All (λ f. fails f ≡ none) fs → Called fails fs (fs, none)
  one_fails :
      (before after : List ℕ) (f e : ℕ)
      → fs ≡ before ++ f ∷ after
      → All (λ g. fails g ≡ none) before
      → fails f ≡ some e
      → Called fails fs (before ++ f ∷ [], some e)

pass-Called :
    (fails : ℕ → Option ℕ) (f : ℕ) (fs : List ℕ) (r : List ℕ × Option ℕ)
    → fails f ≡ none
    → Called fails fs r
    → Called fails (f ∷ fs) (f ∷ r.0, r.1)
pass-Called fails f fs r h (all_pass p) = all_pass (h, p)
pass-Called fails f fs r h (one_fails before after x e q p k) =
    one_fails (f ∷ before) after x e (ap (λ l. f ∷ l) q) (h, p) k

call_start-Called : (fails : ℕ → Option ℕ) (fs : List ℕ) → Called fails fs (call_start fails fs)
unfolding call_start
call_start-Called fails [] = all_pass tt
call_start-Called fails (f ∷ fs) = elim (Option-cases (fails f)) [
  | inl h ↦
      rw (h, call_start)
        (pass-Called fails f fs (call_start fails fs) h (call_start-Called fails fs))
  | inr (e, h) ↦ rw (h, call_start) (one_fails [] fs f e refl tt h)
]

call_start-none :
    (fails : ℕ → Option ℕ) (fs : List ℕ)
    → (call_start fails fs).1 ≡ none
    → (call_start fails fs).0 ≡ fs
unfolding call_start
call_start-none fails [] h = refl
call_start-none fails (f ∷ fs) h = elim (Option-cases (fails f)) [
  | inl e ↦ ground (arith, e, h, call_start-none fails fs)
  | inr (x, e) ↦ ground (arith, e, h)
]

module _ {ℓ} {S : Type ℓ} where
  lookup-each :
      (f : S → S) (name : String) (m : GoMap String S)
      → lookup name (each f m) ≡ elim (lookup name m) [ none ↦ none | some s ↦ some (f s) ]
  unfolding lookup each
  lookup-each f name [] = refl
  lookup-each f name ((n, s) ∷ m) = ground (arith, lookup-each f name m)

  module _ (spawning : Spawning S) where
    -- What `Start` makes of a spawner.
    abbrev pub started_spawner : S → S
    started_spawner s = spawning.start (spawning.set_cap s 0)

    abbrev pub stopped_spawner : S → S
    stopped_spawner s = spawning.stop_all_threads (spawning.stop s)

    abbrev pub apply_to : (S → S) → Option S → Option S
    apply_to f none = none
    apply_to f (some s) = some (f s)

    -- `Start` of a load test that does not run calls the start handlers in order up to the first that
    -- fails, whose error it returns. Only if none fails, the test runs, and every spawner is started
    -- anew; else the spawners are as before.
    pub start_lem :
        (fails : ℕ → Option ℕ) (g : LoadGenerator S)
        → g.started ≡ false
        → let (g', err) = start spawning fails g in
          (called : List ℕ) × Called fails g.test_start_handlers (called, err)
          × (g'.events ≡ g.events ++ map test_start called)
          × (g'.started ≡ elim err [ none ↦ true | some e ↦ false ])
          × ((name : String)
              → lookup name g'.user_spawners ≡ elim err [
                | none ↦ apply_to started_spawner (lookup name g.user_spawners)
                | some e ↦ lookup name g.user_spawners
              ])
    unfolding start
    start_lem fails g h =
        let c = call_start-Called fails g.test_start_handlers in
        elim (Option-cases (call_start fails g.test_start_handlers).1) [
          | inl e ↦ (
            (call_start fails g.test_start_handlers).0,
            rw (h, e, start)
                (subst
                  (λ r.
                    Called fails g.test_start_handlers
                      ((call_start fails g.test_start_handlers).0, r))
                  e c),
            rw (h, e, start) refl,
            rw (h, e, start) refl,
            λ name. rw (h, e, start) (lookup-each (started_spawner) name g.user_spawners),
          )
          | inr (x, e) ↦ (
            (call_start fails g.test_start_handlers).0,
            rw (h, e, start)
                (subst
                  (λ r.
                    Called fails g.test_start_handlers
                      ((call_start fails g.test_start_handlers).0, r))
                  e c),
            rw (h, e, start) refl,
            rw (h, e, start) refl,
            λ name. rw (h, e, start) refl,
          )
        ]

    -- A test that did not run, starts without an error and is stopped has called all handlers, each
    -- once: those for the start, those for the stopping, and those for the stop; every spawner was
    -- started and then stopped with all its threads. To start it while it runs, or to stop it
    -- again, changes nothing.
    pub stop-start :
        (fails : ℕ → Option ℕ) (g : LoadGenerator S)
        → g.started ≡ false
        → (start spawning fails g).1 ≡ none
        → let g' = (start spawning fails g).0 in
          ((stop spawning g').events
            ≡ ((g.events ++ map test_start g.test_start_handlers)
                ++ map test_stopping g.test_stopping_handlers)
              ++ map test_stop g.test_stop_handlers)
          × ((name : String)
              → lookup name (stop spawning g').user_spawners
                ≡ apply_to (λ s. stopped_spawner (started_spawner s)) (lookup name g.user_spawners))
          × (start spawning fails g' ≡ (g', none))
          × (stop spawning (stop spawning g') ≡ stop spawning g')
    unfolding start stop
    stop-start fails g h k = elim (Option-cases (call_start fails g.test_start_handlers).1) [
      | inl e ↦
          let a = call_start-none fails g.test_start_handlers e in
          (
            ground (arith, h, e, a),
            λ name. ground (
              arith,
              h,
              e,
              lookup-each started_spawner name g.user_spawners,
              lookup-each stopped_spawner name (each started_spawner g.user_spawners),
            ),
            ground (arith, h, e),
            ground (arith, h, e),
          )
      | inr (x, e) ↦ ground (arith, h, e, k)
    ]

    -- `Spawn` changes the capacity of the spawner of its class only, and returns an error exactly if there
    -- is none, in which case it changes nothing.
    pub lookup-spawn :
        (g : LoadGenerator S) (user name : String) (n : ℕ)
        → let (g', unknown) = spawn spawning g user n in
          (lookup name g'.user_spawners ≡ (
            if str_eq user name
            then apply_to (λ s. spawning.set_cap s n) (lookup name g.user_spawners)
            else lookup name g.user_spawners))
          × ((unknown ≡ true) ↔ (lookup user g.user_spawners ≡ none))
    unfolding spawn
    lookup-spawn g user name n = elim (Option-cases (lookup user g.user_spawners)) [
      | inl h ↦ ground (arith, h, eq_iff user name)
      | inr (s, h) ↦ ground (
        arith,
        h,
        eq_iff user name,
        lookup-store user name (spawning.set_cap s n) g.user_spawners,
      )
    ]
