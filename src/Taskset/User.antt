-- ===== src/Taskset/User.antt =====
-- taskset/user.go: `OnStart` of a task set user, which filters its tasks by the tags of the runner.
use launce.Base.{
  ℕ, ◌≤◌, ◌≢◌, Bool, ◌≡◌, ◌∙◌, ap, true, Option, none, some, List, [], ◌∷◌, ◌++◌, String, arith,
  ltb,
}
use launce.Taskset.Task.{Tasks}
use launce.Taskset.Filter.{
  FilterOptions, FilterOption, include_tags, exclude_tags, filter_tasks, options,
}
use launce.Taskset.Filter.Selection.{runs_all, leaves_all, pick, runs-filter_tasks}
use launce.Worker.{
  Worker, SpawnPayload, ParsedOptions, Message, Position, forgets_options, Turn, receives, cycles,
  calls_stop, calls_quit, receive, receive_spawn, spawn, tags, stop, quit, turn, run, cycle_step,
  take_spawn, look, start_returns, spawn_requested, take_stop,
}

abbrev option_of : (List String → FilterOption) → Option (List String) → List FilterOption
option_of f none = []
option_of f (some ts) = f ts ∷ []

-- The options that `OnStart` makes of what `Tags` returns.
unfoldable pub on_start_options : Option (List String) × Option (List String) → List FilterOption
on_start_options (ts, ex_tags) = option_of include_tags ts ++ option_of exclude_tags ex_tags

-- `OnStart` on the tasks of the user's task set, where the runner is a worker.
unfoldable pub on_start : Worker → Tasks → Tasks
unfolding on_start_options
on_start w tasks = filter_tasks (on_start_options (tags w)) tasks

abbrev list_of : Option (List String) → List String
list_of none = []
list_of (some ts) = ts

-- The options of `filterTasks` that stand for the master's.
abbrev pub master_options : ParsedOptions → FilterOptions
master_options p = record { tags = p.tags; exclude_tags = list_of p.exclude_tags }

options-on_start_options :
    (p : ParsedOptions) → options (on_start_options (p.tags, p.exclude_tags)) ≡ master_options p
unfolding on_start_options options
options-on_start_options p = ground arith

-- A turn that leaves the options behind a request of the time `t`: it takes no newer one, and the cycle does not
-- forget the options in it, as it does when it handles a stop request.
abbrev LeavesOptions : ℕ → Worker → Turn → Type 0
LeavesOptions t w (receives (spawn q)) = q.timestamp ≤ t
LeavesOptions t w (receives m) = Unit
LeavesOptions t w (cycles takes_stop known fails) = w.cycle ≢ forgets_options
LeavesOptions t w calls_stop = Unit
LeavesOptions t w calls_quit = Unit

unfoldable pub LeaveOptions : ℕ → Worker → List Turn → Type 0
LeaveOptions t w [] = Unit
LeaveOptions t w (u ∷ us) = LeavesOptions t w u × LeaveOptions t (turn w u) us

-- Where the options stand, and the time of the last request.
abbrev Has : SpawnPayload → Worker → Type 0
Has p w = (w.parsed_options ≡ some p.parsed_options) × (w.last_timestamp ≡ p.timestamp)

cycle_step-Has :
    (p : SpawnPayload) (w : Worker) (at : Position) (takes_stop : Bool) (known : String → Bool)
    (fails : Bool)
    → at ≢ forgets_options
    → Has p w
    → Has p (cycle_step w at takes_stop known fails)
unfolding cycle_step take_spawn look start_returns spawn_requested take_stop
cycle_step-Has p w at takes_stop known fails n h = ground (arith, n, h)

receive-Has :
    (p : SpawnPayload) (w : Worker) (m : Message)
    → LeavesOptions p.timestamp w (receives m)
    → Has p w
    → Has p (receive w m)
unfolding receive receive_spawn stop quit
receive-Has p w m l h = ground (arith, l, h)

turn-Has :
    (p : SpawnPayload) (w : Worker) (t : Turn)
    → LeavesOptions p.timestamp w t
    → Has p w
    → Has p (turn w t)
unfolding turn stop quit
turn-Has p w (receives m) l h = receive-Has p w m l h
turn-Has p w (cycles takes_stop known fails) l h =
    cycle_step-Has p w w.cycle takes_stop known fails l h
turn-Has p w calls_stop l h = ground (arith, h)
turn-Has p w calls_quit l h = ground (arith, h)

run-Has :
    (p : SpawnPayload) (w : Worker) (ts : List Turn)
    → LeaveOptions p.timestamp w ts
    → Has p w
    → Has p (run w ts)
unfolding run LeaveOptions
run-Has p w [] l h = h
run-Has p w (t ∷ ts) l h = run-Has p (turn w t) ts l.1 (turn-Has p w t l.0 h)

spawn-Has :
    (w : Worker) (p : SpawnPayload)
    → ltb w.last_timestamp p.timestamp ≡ true
    → Has p (receive w (spawn p))
unfolding receive receive_spawn
spawn-Has w p h = ground (arith, h)

tags-Has :
    (p : SpawnPayload) (w : Worker)
    → Has p w
    → tags w ≡ (p.parsed_options.tags, p.parsed_options.exclude_tags)
unfolding tags
tags-Has p w h = ground (arith, h)

-- A spawn request with a newer timestamp brings the master's tags to users: whatever the goroutines of the worker do
-- behind it, as long as they take no newer spawn request and the cycle does not clear the options in a turn on a
-- stop request, a user that starts is left with just the tasks, those of nested sets included, that `--tags`
-- and `--exclude-tags` select, in their order; without the options with all of them.
pub on_start-receive :
    (w : Worker) (p : SpawnPayload) (ts : List Turn) (tree : Tasks)
    → ltb w.last_timestamp p.timestamp ≡ true
    → LeaveOptions p.timestamp (receive w (spawn p)) ts
    → runs_all (on_start (run (receive w (spawn p)) ts) tree)
      ≡ pick (master_options p.parsed_options) (leaves_all [] tree)
unfolding on_start
on_start-receive w p ts tree h l =
    let v = run (receive w (spawn p)) ts in
    runs-filter_tasks (on_start_options (tags v)) tree
    ∙ ap (λ o. pick o (leaves_all [] tree))
        (ap (λ t. options (on_start_options t))
            (tags-Has p v (run-Has p (receive w (spawn p)) ts l (spawn-Has w p h)))
          ∙ options-on_start_options p.parsed_options)
