-- ===== src/Worker/Options/Tests.antt =====
-- A run of `NewWorker`.
use launce.Base.{◌≡◌, refl, true, some, List, [], ◌∷◌}
use launce.Spawner.Channel.{restart_never}
use launce.Worker.Options.{
  WorkerOption, with_version, with_restart_mode, with_heartbeat_interval, defaults, apply,
  new_worker,
}

abbrev options : List WorkerOption
options = with_heartbeat_interval 5 ∷ with_version "2.0" ∷ with_restart_mode restart_never ∷ []

new_worker_test :
    new_worker (some "w") true options
    ≡ some (record (defaults "w") {
      heartbeat_interval = 5;
      version = "2.0";
      restart_mode = restart_never;
    })
unfolding new_worker apply
new_worker_test = refl
