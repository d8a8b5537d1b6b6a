-- ===== src/Worker/Handlers/Tests.antt =====
-- A run of registrations.
use launce.Base.{ℕ, ◌≡◌, ◌+◌, refl, List, [], ◌∷◌, some}
use launce.Base.Maps.{lookup, store, String-key}
use launce.Generator.LoadTest.{Spawning, new_load_generator, on_test_start, register_user}
use launce.Worker.Options.{register_message}
use launce.Worker.Handlers.{
  Handlers, Registration, connect, test_start, message, user, no_handlers, register_all,
}

-- A spawner is the number of its calls.
abbrev counted : Spawning ℕ
counted = record {
  make = 0;
  set_cap = λ s n. s + 1;
  start = λ s. s + 1;
  stop = λ s. s + 1;
  stop_all_threads = λ s. s + 1;
  count = λ s. s;
}

abbrev calls : List Registration
calls = connect 1 ∷ message "echo" 2 ∷ test_start 3 ∷ connect 4 ∷ user "A" ∷ message "echo" 5 ∷ []

abbrev w : Handlers ℕ
w = register_all counted (no_handlers counted) calls

calls_test :
    (w.connect_handlers ≡ 1 ∷ 4 ∷ [])
    × (lookup "echo" w.message_handlers ≡ some (2 ∷ 5 ∷ []))
    × (w.load_generator.test_start_handlers ≡ 3 ∷ [])
    × (lookup "A" w.load_generator.user_spawners ≡ some 0)
unfolding register_all no_handlers new_load_generator on_test_start register_user register_message
    store lookup
calls_test = (refl, refl, refl, refl)
