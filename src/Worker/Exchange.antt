-- ===== src/Worker/Exchange.antt =====
-- worker.go: what the load test cycle tells the master, under any interleaving of the worker's goroutines.
use launce.Base.{
  ◌≡◌, refl, ap, ◌∙◌, Bool, true, false, Option, none, some, List, [], ◌∷◌, ◌++◌, String, arith,
  Bool-cases, Option-cases, inl, inr,
}
use launce.Worker.{
  Worker, UserCounts, Message, Position, choosing, looks, starts, begins, announces, spawns_users,
  completes, ends, reports_failure, cleans, stops_generator, forgets_host, forgets_options,
  says_stopped, readies, says_ready, Effect, sends, closes, opens, hears_heartbeat,
  generator_starts, generator_start_fails, generator_stops, cancels, quitting_handlers,
  spawning_complete_handlers, spawns, message_handlers, client_ready, client_stopped, is_spawning,
  sends_stats, spawning_complete, exception, is_down, stop, quit, receive, receive_spawn, emit,
  send, spawn_users, spawn_requested, take_spawn, take_stop, look, start_returns, cycle_step, Turn,
  turn, run, receives, cycles, calls_stop, calls_quit, new_worker, ack, spawn, spawning_completed,
  stops, reconnects, quits, failed, bad, heartbeats, custom,
}
use launce.Worker.Cycle.{known_spawns, spawn_users_lem}

-- What the master has been told: nothing is under way, users are being spawned, or the test is stopped.
pub data Stage : Type 0 where
  idle spawning halted : Stage

-- The stage behind an effect, if it may come in this stage: users are spawned only between the announcement and
-- the completion, and the client is ready again only once it has said that it is stopped.
unfoldable pub follow : Stage → Effect → Option Stage
follow idle (sends is_spawning) = some spawning
follow s (sends is_spawning) = none
follow spawning (spawns name count) = some spawning
follow s (spawns name count) = none
follow spawning (sends (spawning_complete done total)) = some idle
follow s (sends (spawning_complete done total)) = none
follow idle (sends client_stopped) = some halted
follow s (sends client_stopped) = none
follow halted (sends client_ready) = some idle
follow s (sends client_ready) = none
follow s e = some s

unfoldable pub follow_all : Stage → List Effect → Option Stage
follow_all s [] = some s
follow_all s (e ∷ es) = elim (follow s e) [ none ↦ none | some s' ↦ follow_all s' es ]

-- The stage at each position of the cycle.
unfoldable pub stage_of : Position → Stage
stage_of (spawns_users counts) = spawning
stage_of (completes done total) = spawning
stage_of readies = halted
stage_of says_ready = halted
stage_of p = idle

follow_all-append :
    (s t : Stage) (es fs : List Effect)
    → follow_all s es ≡ some t
    → follow_all s (es ++ fs) ≡ follow_all t fs
unfolding follow_all
follow_all-append s t [] fs h = ground (arith, h)
follow_all-append s t (e ∷ es) fs h = elim (Option-cases (follow s e)) [
  | inl n ↦ ground (arith, n, h)
  | inr (u, n) ↦ rw (n, follow_all) (follow_all-append u t es fs (rw (n, follow_all) at h))
]

abbrev IsAt : Worker → Type 0
IsAt w = follow_all idle w.effects ≡ some (stage_of w.cycle)

-- An effect that keeps the stage.
abbrev IsNeutral : Stage → Effect → Type 0
IsNeutral s e = follow s e ≡ some s

follow_one :
    (es : List Effect) (s t : Stage) (e : Effect)
    → follow_all idle es ≡ some s
    → follow s e ≡ some t
    → follow_all idle (es ++ e ∷ []) ≡ some t
unfolding follow_all
follow_one es s t e h k = follow_all-append idle s es (e ∷ []) h ∙ rw (k, follow_all) refl

-- What the goroutines but the cycle's do keeps the stage.
emit-IsAt : (e : Effect) (w : Worker) → ((s : Stage) → IsNeutral s e) → IsAt w → IsAt (emit e w)
emit-IsAt e w n h =
    follow_one w.effects (stage_of w.cycle) (stage_of w.cycle) e h (n (stage_of w.cycle))

stop-IsAt : (w : Worker) → IsAt w → IsAt (stop w)
unfolding stop follow
stop-IsAt w h = elim (Bool-cases (is_down w.state)) [
  | inl d ↦ rw (d, stop) h
  | inr d ↦ rw (d, stop) (emit-IsAt generator_stops w (λ s. ground arith) h)
]

quit-IsAt : (w : Worker) → IsAt w → IsAt (quit w)
unfolding quit follow
quit-IsAt w h = elim (Bool-cases w.cancel) [
  | inl d ↦
      let called : Worker = emit quitting_handlers (record w { cancel = false }) in
      rw (d, quit)
        (emit-IsAt cancels (stop called) (λ s. ground arith)
          (stop-IsAt called
            (emit-IsAt quitting_handlers (record w { cancel = false }) (λ s. ground arith) h)))
  | inr d ↦ rw (d, quit) h
]

receive-IsAt : (w : Worker) (m : Message) → IsAt w → IsAt (receive w m)
unfolding receive receive_spawn follow
receive-IsAt w (ack i) h = h
receive-IsAt w (spawn p) h = ground (arith, h)
receive-IsAt w (spawning_completed users) h =
    emit-IsAt (spawning_complete_handlers users) w (λ s. ground arith) h
receive-IsAt w stops h = h
receive-IsAt w reconnects h =
    emit-IsAt opens (emit closes w) (λ s. ground arith) (emit-IsAt closes w (λ s. ground arith) h)
receive-IsAt w (heartbeats true) h = emit-IsAt hears_heartbeat w (λ s. ground arith) h
receive-IsAt w (heartbeats false) h = h
receive-IsAt w quits h =
    quit-IsAt (send sends_stats (stop w))
      (emit-IsAt (sends sends_stats) (stop w) (λ s. ground arith) (stop-IsAt w h))
receive-IsAt w failed h = quit-IsAt w h
receive-IsAt w bad h = emit-IsAt (sends exception) w (λ s. ground arith) h
receive-IsAt w (custom typ) h = emit-IsAt (message_handlers typ) w (λ s. ground arith) h

follow_all-known_spawns :
    (known : String → Bool) (counts : UserCounts)
    → follow_all spawning (known_spawns known counts) ≡ some spawning
unfolding follow_all follow
follow_all-known_spawns known [] = refl
follow_all-known_spawns known ((name, count) ∷ rest) = elim (Bool-cases (known name)) [
  | inl k ↦ rw (k, follow_all) (follow_all-known_spawns known rest)
  | inr k ↦ rw (k, follow_all) (follow_all-known_spawns known rest)
]

spawn_requested-IsAt :
    (known : String → Bool) (w : Worker) (counts : UserCounts)
    → follow_all idle w.effects ≡ some spawning
    → IsAt (spawn_requested known w counts)
unfolding spawn_requested stage_of
spawn_requested-IsAt known w counts h =
    let e : (spawn_users known counts [] 0 []).2 ≡ known_spawns known counts =
      (spawn_users_lem known counts [] 0 []).1 in
    ap (λ es. follow_all idle (w.effects ++ es)) e
    ∙ follow_all-append idle spawning w.effects (known_spawns known counts) h
    ∙ follow_all-known_spawns known counts

cycle_step-IsAt :
    (w : Worker) (p : Position) (takes_stop : Bool) (known : String → Bool) (fails : Bool)
    → p ≡ w.cycle
    → follow_all idle w.effects ≡ some (stage_of p)
    → IsAt (cycle_step w p takes_stop known fails)
unfolding cycle_step take_spawn take_stop look start_returns stage_of follow
cycle_step-IsAt w choosing takes_stop known fails q h = ground (arith, h, q)
cycle_step-IsAt w (looks counts) takes_stop known fails q h = ground (arith, h)
cycle_step-IsAt w (starts counts) takes_stop known true q h =
    follow_one w.effects idle idle generator_start_fails h refl
cycle_step-IsAt w (starts counts) takes_stop known false q h =
    follow_one w.effects idle idle generator_starts h refl
cycle_step-IsAt w reports_failure takes_stop known fails q h =
    follow_one w.effects idle idle (sends exception) h refl
cycle_step-IsAt w (begins counts) takes_stop known fails q h = h
cycle_step-IsAt w (announces counts) takes_stop known fails q h =
    follow_one w.effects idle spawning (sends is_spawning) h refl
cycle_step-IsAt w (spawns_users counts) takes_stop known fails q h =
    spawn_requested-IsAt known w counts h
cycle_step-IsAt w (completes done total) takes_stop known fails q h =
    follow_one w.effects spawning idle (sends (spawning_complete done total)) h refl
cycle_step-IsAt w ends takes_stop known fails q h = h
cycle_step-IsAt w cleans takes_stop known fails q h = h
cycle_step-IsAt w stops_generator takes_stop known fails q h =
    follow_one w.effects idle idle generator_stops h refl
cycle_step-IsAt w forgets_host takes_stop known fails q h = h
cycle_step-IsAt w forgets_options takes_stop known fails q h = h
cycle_step-IsAt w says_stopped takes_stop known fails q h =
    follow_one w.effects idle halted (sends client_stopped) h refl
cycle_step-IsAt w readies takes_stop known fails q h = h
cycle_step-IsAt w says_ready takes_stop known fails q h =
    follow_one w.effects halted idle (sends client_ready) h refl

turn-IsAt : (w : Worker) (t : Turn) → IsAt w → IsAt (turn w t)
unfolding turn
turn-IsAt w (receives m) h = receive-IsAt w m h
turn-IsAt w (cycles takes_stop known fails) h =
    cycle_step-IsAt w w.cycle takes_stop known fails refl h
turn-IsAt w calls_stop h = stop-IsAt w h
turn-IsAt w calls_quit h = quit-IsAt w h

run-IsAt : (w : Worker) (ts : List Turn) → IsAt w → IsAt (run w ts)
unfolding run
run-IsAt w [] h = h
run-IsAt w (t ∷ ts) h = run-IsAt (turn w t) ts (turn-IsAt w t h)

-- However the messages of the master, the steps of the load test cycle, and the calls of `Stop` and `Quit`
-- interleave, whatever classes are known and whether the load generator starts or fails to: the cycle tells the master of spawning and
-- of its completion in turn, and of the client that is stopped and of the one that is ready in turn, and
-- never the one while the other is under way; it spawns users only between the announcement and the completion;
-- and what is under way is just what its position says.
pub run-new_worker :
    (ts : List Turn)
    → follow_all idle (run new_worker ts).effects ≡ some (stage_of (run new_worker ts).cycle)
unfolding new_worker
run-new_worker ts = run-IsAt new_worker ts (unfold follow_all in unfold stage_of in refl)
