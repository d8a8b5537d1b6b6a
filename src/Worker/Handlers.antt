-- ===== src/Worker/Handlers.antt =====
-- worker.go: the functions that are registered with a worker, before `Join`. A handler is a number.
pub mod Registering
mod Tests
use launce.Base.{ℕ, List, [], ◌∷◌, ◌++◌, String}
use launce.Base.Maps.{GoMap}
use launce.Generator.LoadTest.{
  Spawning, LoadGenerator, new_load_generator, on_test_start, on_test_stopping, on_test_stop,
  register_user,
}
use launce.Worker.Options.{add, register_message}

-- The lists of handlers of the worker, the map of those of messages, and the load generator.
pub record Handlers {ℓ} (S : Type ℓ) : Type ℓ where
  pub connect_handlers : List ℕ
  pub quitting_handlers : List ℕ
  pub quit_handlers : List ℕ
  pub spawning_complete_handlers : List ℕ
  pub message_handlers : GoMap String (List ℕ)
  pub load_generator : LoadGenerator S

-- A call of the worker, by its name.
pub data Registration : Type 0 where
  connect quitting quit spawning_complete test_start test_stopping test_stop : ℕ → Registration
  message : String → ℕ → Registration
  user : String → Registration

module _ {ℓ} {S : Type ℓ} (spawning : Spawning S) where
  -- Those of `NewWorker`.
  unfoldable pub no_handlers : Handlers S
  no_handlers = record {
    connect_handlers = [];
    quitting_handlers = [];
    quit_handlers = [];
    spawning_complete_handlers = [];
    message_handlers = [];
    load_generator = new_load_generator;
  }

  -- `OnConnect`, `OnQuitting`, `OnQuit`, `OnSpawningComplete`, `OnTestStart`, `OnTestStopping`, `OnTestStop`,
  -- `RegisterMessage` and `RegisterUser`.
  unfoldable pub register : Handlers S → Registration → Handlers S
  register w (connect f) = record w { connect_handlers = add w.connect_handlers f }
  register w (quitting f) = record w { quitting_handlers = add w.quitting_handlers f }
  register w (quit f) = record w { quit_handlers = add w.quit_handlers f }
  register w (spawning_complete f) = record w {
    spawning_complete_handlers = w.spawning_complete_handlers ++ f ∷ [];
  }
  register w (test_start f) = record w { load_generator = on_test_start w.load_generator f }
  register w (test_stopping f) = record w { load_generator = on_test_stopping w.load_generator f }
  register w (test_stop f) = record w { load_generator = on_test_stop w.load_generator f }
  register w (message typ f) = record w {
    message_handlers = register_message w.message_handlers typ f;
  }
  register w (user name) = record w {
    load_generator = register_user spawning w.load_generator name;
  }

  unfoldable pub register_all : Handlers S → List Registration → Handlers S
  unfolding register
  register_all w [] = w
  register_all w (r ∷ rs) = register_all (register w r) rs
