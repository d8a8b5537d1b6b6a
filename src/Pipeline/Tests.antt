-- ===== src/Pipeline/Tests.antt =====
-- Runs of reports on their way, and the theorem on them at a concrete run.
use launce.Base.{◌%◌, ◌^◌, ◌≡◌, refl, true, false, none, some, List, [], ◌∷◌}
use launce.Stats.Counters.{Time}
use launce.Stats.Reports.{Report}
use launce.Stats.Sums.{weigh_all, requests, failures, content, responses}
use launce.Stats.{EntryKey}
use launce.Stats.Collector.{receive, tick, send, hand_over}
use launce.Worker.Reporting.{merge_stats, reset_stats}
use launce.Pipeline.{
  begin, Move, makes, reports, receives, ticks, hands, asks_reset, resets, sends, move, moves,
}
use launce.Pipeline.Holdings.{accounted}
use launce.Pipeline.Conservation.{accounted-moves}

abbrev now : Time
now = record { unix = 60; unix_nano = 60_000_000_000 }

abbrev login : EntryKey
login = record { method = "GET"; name = "/login" }

abbrev good : Report
good = record {
  key = login;
  request = record { now = now; response_time = 5_000_000; content_length = 10; err = none };
}

abbrev bad : Report
bad = record {
  key = login;
  request = record {
    now = now;
    response_time = 7_000_000;
    content_length = 0;
    err = some "timeout";
  };
}

-- Two reports of one collector are sent, a third is thrown away by a reset, and a fourth is on its way.
abbrev ms : List Move
ms =
    makes now
    ∷ reports 0 good
    ∷ receives 0
    ∷ reports 0 bad
    ∷ receives 0
    ∷ ticks 0
    ∷ hands 0 now
    ∷ sends now [] true
    ∷ reports 0 good
    ∷ receives 0
    ∷ ticks 0
    ∷ hands 0 now
    ∷ asks_reset
    ∷ resets now
    ∷ sends now [] false
    ∷ reports 0 bad
    ∷ []

accepted-ms : (moves (begin now) ms).accepted ≡ good ∷ bad ∷ good ∷ bad ∷ []
unfolding moves move send receive tick hand_over reset_stats merge_stats
accepted-ms = refl

accounted-moves_example :
    let p = moves (begin now) ms in
    (accounted requests login p % 2 ^ 64 ≡ weigh_all requests login p.accepted % 2 ^ 64)
    × (accounted failures login p % 2 ^ 64 ≡ weigh_all failures login p.accepted % 2 ^ 64)
    × (accounted content login p % 2 ^ 64 ≡ weigh_all content login p.accepted % 2 ^ 64)
    × (accounted responses login p % 2 ^ 64 ≡ weigh_all responses login p.accepted % 2 ^ 64)
accounted-moves_example = accounted-moves now ms login
