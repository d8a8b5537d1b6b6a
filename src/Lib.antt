-- ===== src/Lib.antt =====
-- launce, a Locust worker in Go: a model of its core, with the theorems that make it correct.
--
-- The program. A `Worker` (worker.go) gets messages from a master and runs a load test cycle: it starts
-- a `LoadGenerator` (generator.go), which keeps a `Spawner` for each user class (spawner/), and each
-- spawned goroutine runs a user (user.go) until it is cancelled. A user of taskset/ runs the tasks of a
-- task set, and waits between them (wait.go). Users report their requests to aggregators
-- (stats/aggregator.go), which collect them in a `Stats` (stats/stats.go) and hand it to the worker, which
-- merges it into its own and sends it to the master. Log lines are kept in a ring (log.go), which the worker
-- sends too. A user that is stopped has a grace period (graceful_stop.go), in which it does not wait any
-- more (internal/waiter.go).
--
-- The files.
-- - Base and its children: shared names, lists, the bit patterns of int64 (Base/Int64), Go maps as
--   association lists (Base/Maps).
-- - LogCapture: log.go. `append`, `write`, `lines` and `total` are the methods; Ring, Lines and
--   Roundtrip prove.
-- - Stats: stats/stats.go and the map of entries of stats/entry.go. Stats/Counters is the entry of
--   stats/entry.go, Stats/Failures is stats/errors.go, Stats/Round is stats/round.go. Same, Bounds,
--   Algebra, Merging, Reports, Totals and Sums prove. Stats/Collector is the goroutine of stats/aggregator.go.
-- - Pipeline: the collectors with the worker's side of them, which is Worker/Reporting. Holdings and
--   Conservation prove.
-- - Context: graceful_stop.go. Context/Grace proves.
-- - Waiter: internal/waiter.go, with the waits of user.go and taskset/taskset.go. Waiter/Timers proves.
-- - Wait: wait.go. Wait/Pacing proves.
-- - Generator: the aggregators of users in generator.go, with the count of stats/aggregator.go.
--   Generator/Counting has the steps that goroutines take, and proves. Generator/LoadTest has the handlers
--   and the calls of the spawners, which are an interface; LoadTest/Handlers proves. Generator/SpawnFunc is what
--   a spawned goroutine does with its user; SpawnFunc/Reported proves.
-- - Worker: worker.go and the spawn payload of worker_payload.go. Cycle, Exchange and
--   Messages prove. Worker/Payload converts statistics for the master, over an abstract type for float64. Its other
--   goroutines: Worker/Join is `Join` with `connect`, where Order and Leaving prove; Worker/Heartbeat the heartbeats and
--   their check, where Timeout proves; Worker/Logs is `startLogsProcess`, where Newest proves. Worker/Metrics
--   is process.go and what users read. Worker/Options is worker_option.go with `NewWorker` and the handlers
--   of messages, where Settings proves. Worker/Shutdown is `Quit` with `Stop` during a turn of the load test
--   cycle and during `Start`, where Ends proves. Worker/Wire is message.go, error.go, `SendMessage` and `ReportException`,
--   where Sending proves; Worker/Parsed is parsed_options.go; Worker/Transport is
--   transport.go, where Sockets proves; Worker/ClientId is `generateClientID`, where Unique proves;
--   Worker/Handlers is the registration of handlers, where Registering proves.
-- - User: `processUser` of user.go. User/Lifecycle proves. User/Base is `BaseUserImpl`, with `UserImpl.Init` of
--   taskset/user.go; Base/Paced proves.
-- - Taskset: taskset/. Task is task.go, tag.go and weight.go, Queue is queue.go, Sequential and Random are
--   the two task sets, Filter is filter.go, and Run is the loop of taskset.go and `Process` of user.go.
--   Filter/Selection, Filter/Readiness, Run/Counts, Run/Stopping and Run/Graceful prove. Run/Nested is the
--   loop with sets that are tasks of sets; its Order, Interrupts and Unwinding prove. Run/Timed is the loop
--   on a clock, with the contexts of Context and the waits of Waiter; Timed/Prompt proves. Run/Cycling is the
--   loop of a sequential set. Slices is tag.go with the arrays that slices of tags share; Slices/Sharing
--   proves. User is `OnStart` of user.go, with the worker as its runner.
-- - Spawner/Threads: spawner/thread.go. Threads/Cancelled proves.
-- - Spawner/Channel: spawner/spawner.go. The caller of `Cap`, `Start` and `Stop`, the worker and the
--   spawned goroutines are moves. Channel/Tokens proves. Spawner/Groups is `StopAllThreads` with the wait
--   groups; Groups/Waiting proves. Spawner/Running is `Count` with its counter; Running/Counted proves.
-- - Examples: _examples/schedule-task, stop-timeout and tagged-task, as programs over the loops above.
--   Examples/Order proves.
-- The modules Tests hold runs and the theorems at concrete inputs.
--
-- How it is modelled. An int64 is its pattern of 64 bits, a number below 2 ^ 64, with the wrap-around in
-- `add64` and `sub64` and the sign in `lt64`; lengths and indices of slices are plain numbers, as a slice
-- in memory is shorter than 2 ^ 63. A panic is `none` or an outcome of its own. What the environment
-- decides is an argument: the clock, the random numbers, what user code returns, what a context says at
-- each look. Goroutines are sequences of steps in any order: a step is a section under a mutex, an atomic
-- operation, or one turn of a loop. In Worker a message is one step, and so is a call of `Stop` or `Quit`, while a
-- turn of the load test cycle is several steps, with those of the other goroutines between them; in
-- Worker/Shutdown `Start` and `Quit` are several steps too.
--
-- Bounds. `take_lines`, the loop of `Write`, runs on as much fuel as the buffer has bytes, and one more:
-- each round takes a byte off, and Lines proves that the rest has no newline. The loop of
-- Examples/StopTimeout has 15 turns, and fuel for 16. The loops of users and
-- task sets run over a list of what the environment answers, one answer for each turn, and say that they
-- still run when it ends. All other loops are structural.
--
-- `connect` counts its retries, and ends with the 61st tick.
--
-- Time. Contexts, timers and heartbeats stand at times, numbers of nanoseconds; what becomes ready at a time
-- runs at this time, and where two cases of a select are ready an argument says which is taken.
--
-- Not modelled: the packages msgpack, zmq4, uuid and gopsutil, the SHA-256 sum of error keys and the
-- quotients of float64 numbers, which are arguments; errors that wrap several others; and the programs under
-- _examples that print, or wrap HTTP and ZeroMQ.
pub mod Base
pub mod LogCapture
pub mod Stats
pub mod Wait
pub mod Context
pub mod Waiter
pub mod Generator
pub mod Worker
pub mod Examples
pub mod Pipeline
pub mod User
pub mod Taskset
pub mod Spawner
