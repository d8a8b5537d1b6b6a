-- ===== src/Worker/Heartbeat/Tests.antt =====
-- The theorem on the master's silence at concrete times; the second heartbeat comes as the timer fires.
use launce.Base.{ℕ, ◌+◌, ◌<◌, ◌≡◌, false, List, [], ◌∷◌, arith}
use launce.Worker.Heartbeat.{Event, done, quits, stops, start_check}
use launce.Worker.Heartbeat.Timeout.{IsSteady, last_of, beats, start_check-beats}

abbrev ts : List ℕ
ts = 30 ∷ 90 ∷ 139 ∷ []

abbrev stopped : Event
stopped = record { time = 150; kind = done; is_taken = false }

start_check-beats_example :
    (start_check 0 60 (beats ts []) ≡ quits (last_of 0 ts + 60))
    × (last_of 0 ts + 60 < stopped.time
        → start_check 0 60 (beats ts (stopped ∷ [])) ≡ quits (last_of 0 ts + 60))
    × (stopped.kind ≡ done
        → stopped.time < last_of 0 ts + 60
        → start_check 0 60 (beats ts (stopped ∷ [])) ≡ stops stopped.time)
start_check-beats_example =
    unfold IsSteady in
    start_check-beats 60 0 ts stopped [] (omega arith)
      ((omega arith, omega arith, (omega arith, omega arith, (omega arith, omega arith, tt))))
