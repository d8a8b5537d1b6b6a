-- ===== src/Worker.antt =====
-- worker.go and worker_payload.go: the worker's state, the messages that it gets, and its load test
-- cycle. A turn of the goroutine that receives, with the relay's, is a function on the state, and so is each step of
-- the goroutine that runs the cycle; what the master's messages hold after decoding, what
-- the load generator returns and the other effects outside are arguments.
pub mod Cycle
pub mod Exchange
pub mod Heartbeat
pub mod Join
pub mod Logs
pub mod Options
pub mod Metrics
pub mod Messages
pub mod Payload
pub mod Reporting
pub mod Shutdown
pub mod Wire
pub mod Parsed
pub mod Transport
pub mod ClientId
pub mod Handlers
mod Tests
use launce.Base.{
  ℕ, ◌+◌, ◌-◌, ◌^◌, ◌≡◌, Bool, true, false, ◌||◌, ◌&&◌, not, Option, none, some, List, [], ◌∷◌,
  ◌++◌, String, leb, ltb, ◌==◌, if◌then◌else◌,
}
use launce.Base.Int64.{add64}
use launce.Base.Maps.{Key, String-key, GoMap, store}

-- `WorkerState`; the source numbers them from 0 in this order.
pub data State : Type 0 where
  init spawning running cleanup stopped : State

-- `workerStateNames`.
unfoldable pub state_name : State → String
state_name init = "ready"
state_name spawning = "spawning"
state_name running = "running"
state_name cleanup = "cleanup"
state_name stopped = "stopped"

-- The users to run of each class.
abbrev pub UserCounts : Type 0
UserCounts = GoMap String ℕ

-- Of the options of the master, `ResetStats`, which the worker itself reads, and the tags, which task set users
-- read. The others are passed on to users.
pub record ParsedOptions : Type 0 where
  pub reset_stats : Bool
  pub tags : Option (List String)
  pub exclude_tags : Option (List String)

-- `spawnPayload`. Of a timestamp, a float64, only the order matters; the stop timeout is in nanoseconds.
pub record SpawnPayload : Type 0 where
  pub timestamp : ℕ
  pub user_classes_count : UserCounts
  pub host : String
  pub stop_timeout : ℕ
  pub parsed_options : ParsedOptions

-- What the worker sends.
pub data Sent : Type 0 where
  client_ready client_stopped is_spawning sends_stats sends_quit : Sent
  spawning_complete : UserCounts → ℕ → Sent
  exception : Sent

-- What else can be seen of it: calls of handlers, of the transport and of the load generator.
pub data Effect : Type 0 where
  sends : Sent → Effect
  closes opens hears_heartbeat : Effect
  generator_starts generator_start_fails generator_stops cancels : Effect
  quitting_handlers : Effect
  spawning_complete_handlers : ℕ → Effect
  spawns : String → ℕ → Effect
  message_handlers : String → Effect

-- Where the load test cycle stands: at its `select`; with a spawn request, before each step of that turn; or in the
-- turn on a stop request, before each of its steps.
pub data Position : Type 0 where
  choosing reports_failure ends : Position
  looks starts begins announces spawns_users : UserCounts → Position
  completes : UserCounts → ℕ → Position
  cleans stops_generator forgets_host forgets_options says_stopped readies says_ready : Position

-- The fields that the goroutines share, and where the cycle stands. A channel with a buffer of one is whether the buffer is full;
-- `pending` is the request that the relay keeps; `cancel` is whether a cancel function is set.
pub record Worker : Type 0 where
  pub index : ℕ
  pub state : State
  pub host : String
  pub parsed_options : Option ParsedOptions
  pub stop_timeout : ℕ
  pub last_timestamp : ℕ
  pub ack_ch : Bool
  pub stop_ch : Bool
  pub reset_stats_ch : Bool
  pub pending : Option UserCounts
  pub cancel : Bool
  pub effects : List Effect
  pub cycle : Position

abbrev pub emit : Effect → Worker → Worker
emit e w = record w { effects = w.effects ++ e ∷ [] }

abbrev pub send : Sent → Worker → Worker
send s w = emit (sends s) w

abbrev pub is_down : State → Bool
is_down cleanup = true
is_down stopped = true
is_down _ = false

-- `Stop`.
unfoldable pub stop : Worker → Worker
stop w =
    if is_down w.state
    then w
    else record (emit generator_stops (record w { state = cleanup })) { state = stopped }

-- `Quit`.
unfoldable pub quit : Worker → Worker
unfolding stop
quit w =
    if w.cancel
    then emit cancels (stop (emit quitting_handlers (record w { cancel = false })))
    else w

-- A message of the master, or the failure to get one. `bad` is a payload that cannot be decoded.
pub data Message : Type 0 where
  ack : ℕ → Message
  spawn : SpawnPayload → Message
  spawning_completed : ℕ → Message
  stops reconnects quits failed bad : Message
  heartbeats : Bool → Message
  custom : String → Message

unfoldable pub receive_spawn : Worker → SpawnPayload → Worker
receive_spawn w p = if leb p.timestamp w.last_timestamp then w else record w {
  last_timestamp = p.timestamp;
  host = p.host;
  parsed_options = some p.parsed_options;
  stop_timeout = p.stop_timeout;
  pending = some p.user_classes_count;
}

abbrev asks_reset : Option ParsedOptions → Bool
asks_reset none = false
asks_reset (some p) = p.reset_stats

-- A heartbeat is lost unless the goroutine that times the master out waits for one.
-- One turn of `startMessageProcess`, with the relay's turn that takes a spawn request over. A custom
-- message goes to the handlers of its type, if any.
unfoldable pub receive : Worker → Message → Worker
unfolding receive_spawn stop quit
receive w (ack i) = record w { index = i; ack_ch = true }
receive w (spawn p) = receive_spawn w p
receive w (spawning_completed users) =
    emit (spawning_complete_handlers users)
      (record w { reset_stats_ch = if asks_reset w.parsed_options then true else w.reset_stats_ch })
receive w stops = record w { stop_ch = true }
receive w reconnects = emit opens (emit closes w)
receive w (heartbeats waiting) = if waiting then emit hears_heartbeat w else w
receive w quits = quit (send sends_stats (stop w))
receive w failed = quit w
receive w bad = send exception w
receive w (custom typ) = emit (message_handlers typ) w

-- The loop over the requested users: `known` says whether `Spawn` finds the class.
unfoldable pub spawn_users :
    (String → Bool) → UserCounts → UserCounts → ℕ → List Effect → UserCounts × ℕ × List Effect
spawn_users known [] done total es = (done, total, es)
spawn_users known ((name, count) ∷ rest) done total es =
    if known name
    then spawn_users known rest (store name count done) (add64 total count)
        (es ++ spawns name count ∷ [])
    else spawn_users known rest done total es

abbrev pub is_up : State → Bool
is_up running = true
is_up spawning = true
is_up _ = false

-- The cycle's turn on a spawn request, a step at a time. At its `select` it takes what the relay has.
unfoldable pub take_spawn : Worker → Worker
take_spawn w = elim w.pending [
  | none ↦ w
  | some counts ↦ record w { pending = none; cycle = looks counts }
]

-- The look at the state: whether `Start` is called.
unfoldable pub look : Worker → UserCounts → Worker
look w counts = record w { cycle = if is_up w.state then begins counts else starts counts }

-- The return of the load generator's `Start`, with an error or not, and the report of the error.
unfoldable pub start_returns : Worker → UserCounts → Bool → Worker
start_returns w counts true = record (emit generator_start_fails w) { cycle = reports_failure }
start_returns w counts false = record (emit generator_starts w) { cycle = begins counts }

-- The users are spawned.
unfoldable pub spawn_requested : (String → Bool) → Worker → UserCounts → Worker
unfolding spawn_users
spawn_requested known w counts =
    let (done, total, es) = spawn_users known counts [] 0 [] in
    record w { effects = w.effects ++ es; cycle = completes done total }

-- At its `select` the cycle takes a stop request.
unfoldable pub take_stop : Worker → Worker
take_stop w = if w.stop_ch then record w { stop_ch = false; cycle = cleans } else w

-- The next step of the cycle. At the `select`, `takes_stop` is the case that it takes; `known` says which classes
-- `Spawn` finds, and `fails` what `Start` returns.
unfoldable pub cycle_step : Worker → Position → Bool → (String → Bool) → Bool → Worker
unfolding take_spawn look start_returns spawn_requested take_stop
cycle_step w choosing takes_stop known fails = if takes_stop then take_stop w else take_spawn w
cycle_step w (looks counts) takes_stop known fails = look w counts
cycle_step w (starts counts) takes_stop known fails = start_returns w counts fails
cycle_step w reports_failure takes_stop known fails = record (send exception w) { cycle = choosing }
cycle_step w (begins counts) takes_stop known fails = record w {
  state = spawning;
  cycle = announces counts;
}
cycle_step w (announces counts) takes_stop known fails = record (send is_spawning w) {
  cycle = spawns_users counts;
}
cycle_step w (spawns_users counts) takes_stop known fails = spawn_requested known w counts
cycle_step w (completes done total) takes_stop known fails =
    record (send (spawning_complete done total) w) { cycle = ends }
cycle_step w ends takes_stop known fails = record w { state = running; cycle = choosing }
cycle_step w cleans takes_stop known fails = record w { state = cleanup; cycle = stops_generator }
cycle_step w stops_generator takes_stop known fails = record (emit generator_stops w) {
  cycle = forgets_host;
}
cycle_step w forgets_host takes_stop known fails = record w { host = ""; cycle = forgets_options }
cycle_step w forgets_options takes_stop known fails = record w {
  parsed_options = none;
  cycle = says_stopped;
}
cycle_step w says_stopped takes_stop known fails = record (send client_stopped w) {
  cycle = readies;
}
cycle_step w readies takes_stop known fails = record w { state = init; cycle = says_ready }
cycle_step w says_ready takes_stop known fails = record (send client_ready w) { cycle = choosing }

-- A message that comes in, a step of the cycle, and the calls of `Stop` and `Quit`.
pub data Turn : Type 0 where
  receives : Message → Turn
  cycles : Bool → (String → Bool) → Bool → Turn
  calls_stop calls_quit : Turn

unfoldable pub turn : Worker → Turn → Worker
unfolding receive cycle_step stop quit
turn w (receives m) = receive w m
turn w (cycles takes_stop known fails) = cycle_step w w.cycle takes_stop known fails
turn w calls_stop = stop w
turn w calls_quit = quit w

unfoldable pub run : Worker → List Turn → Worker
unfolding turn
run w [] = w
run w (t ∷ ts) = run (turn w t) ts

-- `NewWorker`, and the cancel function that `Join` sets. The index -1 is a bit pattern.
unfoldable pub new_worker : Worker
new_worker = record {
  index = 2 ^ 64 - 1;
  state = init;
  host = "";
  parsed_options = none;
  stop_timeout = 0;
  last_timestamp = 0;
  ack_ch = false;
  stop_ch = false;
  reset_stats_ch = false;
  pending = none;
  cancel = true;
  effects = [];
  cycle = choosing;
}

-- `Tags`.
unfoldable pub tags : Worker → Option (List String) × Option (List String)
tags w = elim w.parsed_options [ none ↦ (none, none) | some p ↦ (p.tags, p.exclude_tags) ]
