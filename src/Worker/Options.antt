-- ===== src/Worker/Options.antt =====
-- worker_option.go and worker.go: the options of `NewWorker`, the handlers of the messages that it does not know, and
-- what users read of it. Durations are int64 bit patterns of nanoseconds.
pub mod Settings
mod Tests
use launce.Base.{
  ℕ, ◌*◌, Bool, true, false, Option, none, some, List, [], ◌∷◌, ◌++◌, String, ◌==◌, if◌then◌else◌,
}
use launce.Base.Maps.{Key, String-key, GoMap, lookup, store}
use launce.Spawner.Channel.{RestartMode, restart_locust_compatible}
use launce.LogCapture.{LogCapture}
use launce.Worker.{Worker}

-- The fields of the worker, and of its load generator, that options set.
pub record Config : Type 0 where
  pub version : String
  pub client_id : String
  pub catch_exceptions : Bool
  pub restart_mode : RestartMode
  pub heartbeat_interval : ℕ
  pub master_heartbeat_timeout : ℕ
  pub metrics_monitor_interval : ℕ
  pub stats_report_interval : ℕ
  pub stats_notify_interval : ℕ
  pub stats_aggregation_users : ℕ
  pub log_capture : Option LogCapture
  pub log_report_interval : ℕ

-- `WorkerOption`, by the function that makes it.
pub data WorkerOption : Type 0 where
  with_version with_client_id : String → WorkerOption
  with_catch_exceptions : Bool → WorkerOption
  with_restart_mode : RestartMode → WorkerOption
  with_heartbeat_interval with_master_heartbeat_timeout with_metrics_monitor_interval :
      ℕ → WorkerOption
  with_stats_report_interval with_stats_aggregation_interval with_stats_aggregation_users :
      ℕ → WorkerOption
  with_log_capture : Option LogCapture → WorkerOption
  with_log_report_interval : ℕ → WorkerOption

-- The call of the option's function.
unfoldable pub apply : WorkerOption → Config → Config
apply (with_version s) c = record c { version = s }
apply (with_client_id s) c = record c { client_id = s }
apply (with_catch_exceptions b) c = record c { catch_exceptions = b }
apply (with_restart_mode m) c = record c { restart_mode = m }
apply (with_heartbeat_interval d) c = record c { heartbeat_interval = d }
apply (with_master_heartbeat_timeout d) c = record c { master_heartbeat_timeout = d }
apply (with_metrics_monitor_interval d) c = record c { metrics_monitor_interval = d }
apply (with_stats_report_interval d) c = record c { stats_report_interval = d }
apply (with_stats_aggregation_interval d) c = record c { stats_notify_interval = d }
apply (with_stats_aggregation_users n) c = record c { stats_aggregation_users = n }
apply (with_log_capture l) c = record c { log_capture = l }
apply (with_log_report_interval d) c = record c { log_report_interval = d }

abbrev pub second : ℕ
second = 1_000_000_000

-- The `Worker` literal of `NewWorker`, with that of `NewLoadGenerator`.
unfoldable pub defaults : String → Config
defaults id = record {
  version = "2.46.0.launce-1.4.1";
  client_id = id;
  catch_exceptions = true;
  restart_mode = restart_locust_compatible;
  heartbeat_interval = 1 * second;
  master_heartbeat_timeout = 60 * second;
  metrics_monitor_interval = 5 * second;
  stats_report_interval = 3 * second;
  stats_notify_interval = 100_000_000;
  stats_aggregation_users = 100;
  log_capture = none;
  log_report_interval = 10 * second;
}

unfoldable pub apply_all : List WorkerOption → Config → Config
apply_all [] c = c
apply_all (o ∷ os) c = apply_all os (apply o c)

-- `NewWorker`: `id` is what `generateClientID` gives, `has_process` whether gopsutil finds the process.
unfoldable pub new_worker : Option String → Bool → List WorkerOption → Option Config
unfolding apply_all defaults
new_worker none has_process os = none
new_worker (some id) has_process os =
    if has_process then some (apply_all os (defaults id)) else none

module _ {ℓ} {H : Type ℓ} where
  abbrev handlers_of : Option (List H) → List H
  handlers_of none = []
  handlers_of (some hs) = hs

  -- `RegisterMessage`.
  unfoldable pub register_message : GoMap String (List H) → String → H → GoMap String (List H)
  register_message m typ h = store typ (handlers_of (lookup typ m) ++ h ∷ []) m

  -- The handlers that the `default` case calls for a message of the type, in this order.
  unfoldable pub dispatch : GoMap String (List H) → String → List H
  dispatch m typ = handlers_of (lookup typ m)

  -- `Add` and `Call` of `handlers`.
  abbrev pub add : List H → H → List H
  add hs h = hs ++ h ∷ []
