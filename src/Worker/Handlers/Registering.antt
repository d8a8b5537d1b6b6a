-- ===== src/Worker/Handlers/Registering.antt =====
-- worker.go: which handlers are called for what.
use launce.Base.{ℕ, ◌≡◌, sym, ◌∙◌, ap, List, [], ◌∷◌, ◌++◌, append_assoc, append-nil, arith}
use launce.Generator.LoadTest.{
  Spawning, new_load_generator, on_test_start, on_test_stopping, on_test_stop, register_user,
}
use launce.Worker.Handlers.{
  Handlers, Registration, connect, quitting, quit, spawning_complete, test_start, test_stopping,
  test_stop, no_handlers, register, register_all,
}

-- The kinds of handlers that take no message.
pub data Kind : Type 0 where
  connects quits_first quits_last spawnings starts stoppings stops : Kind

-- The handlers that a registration adds to a kind.
abbrev pub added : Kind → Registration → List ℕ
added connects (connect f) = f ∷ []
added quits_first (quitting f) = f ∷ []
added quits_last (quit f) = f ∷ []
added spawnings (spawning_complete f) = f ∷ []
added starts (test_start f) = f ∷ []
added stoppings (test_stopping f) = f ∷ []
added stops (test_stop f) = f ∷ []
added _ _ = []

abbrev pub all_added : Kind → List Registration → List ℕ
all_added k [] = []
all_added k (r ∷ rs) = added k r ++ all_added k rs

module _ {ℓ} {S : Type ℓ} (spawning : Spawning S) where
  abbrev pub handlers : Kind → Handlers S → List ℕ
  handlers connects w = w.connect_handlers
  handlers quits_first w = w.quitting_handlers
  handlers quits_last w = w.quit_handlers
  handlers spawnings w = w.spawning_complete_handlers
  handlers starts w = w.load_generator.test_start_handlers
  handlers stoppings w = w.load_generator.test_stopping_handlers
  handlers stops w = w.load_generator.test_stop_handlers

  register_lem :
      (k : Kind) (w : Handlers S) (r : Registration)
      → handlers k (register spawning w r) ≡ handlers k w ++ added k r
  unfolding register on_test_start on_test_stopping on_test_stop register_user
  register_lem k w r = ground (arith, append-nil (handlers k w))

  register_all_from :
      (k : Kind) (w : Handlers S) (rs : List Registration)
      → handlers k (register_all spawning w rs) ≡ handlers k w ++ all_added k rs
  unfolding register_all
  register_all_from k w [] = sym (append-nil (handlers k w))
  register_all_from k w (r ∷ rs) =
      register_all_from k (register spawning w r) rs
      ∙ ap (λ hs. hs ++ all_added k rs) (register_lem k w r)
      ∙ append_assoc (handlers k w) (added k r) (all_added k rs)

  -- After any calls that register handlers with a new worker, in any order, the handlers of each kind are just
  -- those that were given for this kind, in the order of the calls.
  pub handlers-register_all :
      (k : Kind) (rs : List Registration)
      → handlers k (register_all spawning (no_handlers spawning) rs) ≡ all_added k rs
  unfolding no_handlers new_load_generator
  handlers-register_all k rs = ground (arith, register_all_from k (no_handlers spawning) rs)
