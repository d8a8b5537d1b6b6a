-- ===== src/Worker/Messages.antt =====
-- worker.go: the messages of the master, in whatever order they come.
use launce.Base.{◌||◌, ◌≡◌, ◌≢◌, false, arith, max}
use launce.Worker.{Worker, SpawnPayload, is_down, stop, quit, receive, receive_spawn, spawn}

-- Two spawn requests of different times leave the same state in whichever order they arrive, that of the
-- later one if it is news at all; and a request that arrives again changes nothing.
pub receive-spawn_comm :
    (w : Worker) (p q : SpawnPayload)
    → p.timestamp ≢ q.timestamp
    → (receive (receive w (spawn p)) (spawn q) ≡ receive (receive w (spawn q)) (spawn p))
      × (receive (receive w (spawn p)) (spawn p) ≡ receive w (spawn p))
      × ((receive (receive w (spawn p)) (spawn q)).last_timestamp
          ≡ max w.last_timestamp (max p.timestamp q.timestamp))
unfolding receive receive_spawn
receive-spawn_comm w p q h = ground arith

-- Quitting twice is quitting once, and so is stopping. After quitting nothing is left to cancel, and the
-- load test is down if there was something to cancel or it was down before.
pub quit_idem :
    (w : Worker)
    → (quit (quit w) ≡ quit w)
      × ((quit w).cancel ≡ false)
      × (is_down (quit w).state ≡ (w.cancel || is_down w.state))
      × (stop (stop w) ≡ stop w)
unfolding quit stop
quit_idem w = ground arith
