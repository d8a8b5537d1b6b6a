-- ===== src/Generator/LoadTest.antt =====
-- generator.go: the load test of a `LoadGenerator` over the spawners of its user classes, whose methods
-- are an interface. A handler is a number; what a start handler returns is an argument. Calls are taken
-- one after another.
pub mod Handlers
use launce.Base.{
  ℕ, ◌≡◌, Bool, true, false, not, Option, none, some, List, [], ◌∷◌, ◌++◌, String, map,
  if◌then◌else◌,
}
use launce.Base.Maps.{Key, String-key, GoMap, lookup, store}
use launce.Generator.{Aggregation, reset}
use launce.Generator

-- The methods of `spawner.Spawner` that the generator calls.
pub record Spawning {ℓ} (S : Type ℓ) : Type ℓ where
  pub make : S
  pub set_cap : S → ℕ → S
  pub start : S → S
  pub stop : S → S
  pub stop_all_threads : S → S
  pub count : S → ℕ

-- Calls of handlers.
pub data Event : Type 0 where
  test_start test_stopping test_stop : ℕ → Event

-- `LoadGenerator`.
pub record LoadGenerator {ℓ} (S : Type ℓ) : Type ℓ where
  pub user_spawners : GoMap String S
  pub test_start_handlers : List ℕ
  pub test_stopping_handlers : List ℕ
  pub test_stop_handlers : List ℕ
  pub started : Bool
  pub aggregation : Aggregation
  pub events : List Event

-- The start handlers in order, up to the first that fails: those that are called, and the error.
unfoldable pub call_start : (ℕ → Option ℕ) → List ℕ → List ℕ × Option ℕ
call_start fails [] = ([], none)
call_start fails (f ∷ fs) =
    let (called, err) = call_start fails fs in
    elim (fails f) [ none ↦ (f ∷ called, err) | some e ↦ (f ∷ [], some e) ]

module _ {ℓ} {S : Type ℓ} where
  -- A method call on each spawner.
  unfoldable pub each : (S → S) → GoMap String S → GoMap String S
  each f [] = []
  each f ((name, s) ∷ m) = (name, f s) ∷ each f m

  -- `NewLoadGenerator`, with the default number of users per aggregator.
  unfoldable pub new_load_generator : LoadGenerator S
  new_load_generator = record {
    user_spawners = [];
    test_start_handlers = [];
    test_stopping_handlers = [];
    test_stop_handlers = [];
    started = false;
    aggregation = Generator.new 100;
    events = [];
  }

  -- `OnTestStart`, `OnTestStopping` and `OnTestStop`.
  unfoldable pub on_test_start : LoadGenerator S → ℕ → LoadGenerator S
  on_test_start g f = record g { test_start_handlers = g.test_start_handlers ++ f ∷ [] }

  unfoldable pub on_test_stopping : LoadGenerator S → ℕ → LoadGenerator S
  on_test_stopping g f = record g { test_stopping_handlers = g.test_stopping_handlers ++ f ∷ [] }

  unfoldable pub on_test_stop : LoadGenerator S → ℕ → LoadGenerator S
  on_test_stop g f = record g { test_stop_handlers = g.test_stop_handlers ++ f ∷ [] }

  module _ (spawning : Spawning S) where
    -- `RegisterUser`, whose function is in Generator.
    unfoldable pub register_user : LoadGenerator S → String → LoadGenerator S
    register_user g name = record g { user_spawners = store name spawning.make g.user_spawners }

    -- `Start`, with what it returns.
    unfoldable pub start : (ℕ → Option ℕ) → LoadGenerator S → LoadGenerator S × Option ℕ
    unfolding call_start each
    start fails g =
        if g.started
        then (g, none)
        else (let (called, err) = call_start fails g.test_start_handlers in
            let g' : LoadGenerator S = record g {
              aggregation = reset g.aggregation;
              events = g.events ++ map test_start called;
            } in
            elim err [
              | some e ↦ (record g' { started = false }, some e)
              | none ↦ (
                record g' {
                  started = true;
                  user_spawners = each (λ s. spawning.start (spawning.set_cap s 0)) g.user_spawners;
                },
                none,
              )
            ])

    -- `Stop`.
    unfoldable pub stop : LoadGenerator S → LoadGenerator S
    unfolding each
    stop g =
        if g.started
        then record g {
          started = false;
          user_spawners = each (λ s. spawning.stop_all_threads (spawning.stop s)) g.user_spawners;
          aggregation = reset g.aggregation;
          events =
              (g.events ++ map test_stopping g.test_stopping_handlers)
              ++ map test_stop g.test_stop_handlers;
        }
        else g

    -- `Spawn`; the Boolean is whether it returns an `UnknownUserError`.
    unfoldable pub spawn : LoadGenerator S → String → ℕ → LoadGenerator S × Bool
    spawn g user n = elim (lookup user g.user_spawners) [
      | none ↦ (g, true)
      | some s ↦
          (record g { user_spawners = store user (spawning.set_cap s n) g.user_spawners }, false)
    ]

    -- `StopUsers`.
    unfoldable pub stop_users : LoadGenerator S → LoadGenerator S
    unfolding each
    stop_users g = record g {
      user_spawners = each (λ s. spawning.stop_all_threads (spawning.set_cap s 0)) g.user_spawners;
    }

    -- `Users`.
    unfoldable pub users : GoMap String S → GoMap String ℕ
    users [] = []
    users ((name, s) ∷ m) = (name, spawning.count s) ∷ users m
