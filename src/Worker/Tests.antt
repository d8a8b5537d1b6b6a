-- ===== src/Worker/Tests.antt =====
-- The theorems on worker.go at concrete inputs.
use launce.Base.{
  none, some, ◌/◌, map, ℕ, ◌%◌, ◌^◌, ◌≡◌, refl, Bool, true, false, none, List, [], ◌∷◌, ◌++◌,
  replicate, String, str_eq, if◌then◌else◌,
}
use launce.Base.Maps.{lookup, store, String-key}
use launce.Stats.Counters.{new_entry}
use launce.Stats.Failures.{ErrorKey, ErrorKey-key, Errors}
use launce.Stats.{Entries}
use launce.Worker.Payload.{
  convert_payload, sent_plain, plain, sent_times, times, aggregated, sent_error, seen_error,
  convert_payload_lem,
}
use launce.Worker.{
  UserCounts, SpawnPayload, Turn, receives, cycles, spawn, stops, run, turn, receive, receive_spawn,
  cycle_step, take_spawn, look, start_returns, spawn_requested, take_stop, new_worker, spawn_users,
  generator_starts, generator_stops, sends, spawns, is_spawning, spawning_complete, client_stopped,
  client_ready,
}
use launce.Worker.Exchange.{idle, follow_all, stage_of, run-new_worker}
use launce.Worker.Cycle.{known_total, known_spawns, spawn_users-reports}

abbrev counts : UserCounts
counts = ("A", 3) ∷ ("B", 4) ∷ []

abbrev asked : ℕ → SpawnPayload
asked t = record {
  timestamp = t;
  user_classes_count = counts;
  host = "http://localhost";
  stop_timeout = 0;
  parsed_options = record { reset_stats = false; tags = none; exclude_tags = none };
}

abbrev known : String → Bool
known name = str_eq name "A"

-- A step of the cycle, which takes spawn requests, or stop requests.
abbrev spawning_step : Turn
spawning_step = cycles false known false

abbrev stopping_step : Turn
stopping_step = cycles true known false

-- A test is started and stopped, one step after another.
abbrev turns : List Turn
turns =
    receives (spawn (asked 5)) ∷ replicate 8 spawning_step
    ++ receives stops ∷ replicate 8 stopping_step

turns_effects :
    (run new_worker turns).effects
    ≡ generator_starts
      ∷ sends is_spawning
      ∷ spawns "A" 3
      ∷ sends (spawning_complete (("A", 3) ∷ []) 3)
      ∷ generator_stops
      ∷ sends client_stopped
      ∷ sends client_ready
      ∷ []
unfolding new_worker run turn receive receive_spawn cycle_step take_spawn look start_returns
    spawn_requested spawn_users take_stop store
turns_effects = refl

run-new_worker_example :
    follow_all idle (run new_worker turns).effects ≡ some (stage_of (run new_worker turns).cycle)
run-new_worker_example = run-new_worker turns

spawn_users-reports_example :
    let (done, total, es) = spawn_users known counts [] 0 [] in
    ((name : String) → lookup name done ≡ (if known name then lookup name counts else none))
    × (total % 2 ^ 64 ≡ known_total known counts % 2 ^ 64)
    × (es ≡ known_spawns known counts)
unfolding lookup
spawn_users-reports_example = spawn_users-reports known counts (refl, (refl, tt))

-- Numbers for float64, and the text of the error for its code.
abbrev ratio : ℕ → ℕ → ℕ
ratio x d = x / d

abbrev encode : ErrorKey → String
encode k = k.error

abbrev refused : ErrorKey
refused = record { method = "GET"; name = "/"; error = "refused" }

abbrev failures : Errors
failures =
    (refused, record { count = 2; first_seen = 5_000_000_000; last_seen = 9_000_000_000 }) ∷ []

-- A class of requests with two of them.
abbrev requested : Entries
requested =
    (
      record { method = "GET"; name = "/" },
      record new_entry { num_requests = 2; start_time = 3_000_000_000; min_response_time = 7 },
    )
    ∷ []

convert_payload_lem_example :
    let p = convert_payload ratio encode requested new_entry failures in
    (map (sent_plain ratio) p.stats ≡ map (plain ratio) requested)
    × (map (sent_times ratio) p.stats ≡ map (times ratio) requested)
    × (sent_plain ratio p.stats_total ≡ plain ratio (aggregated ratio new_entry))
    × (sent_times ratio p.stats_total ≡ times ratio (aggregated ratio new_entry))
    × (elim (lookup (encode refused) p.errors) [ none ↦ none | some e ↦ some (sent_error ratio e) ]
        ≡ elim (lookup refused failures) [
          | none ↦ none
          | some o ↦ some (seen_error ratio refused o)
        ])
unfolding lookup
convert_payload_lem_example =
    convert_payload_lem ratio encode requested new_entry failures refused (refl, tt)
      ((λ e. refl), tt)
