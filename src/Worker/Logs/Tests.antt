-- ===== src/Worker/Logs/Tests.antt =====
-- Runs of the goroutine that reports the log, and the theorem on it at one.
use launce.Base.{◌≡◌, ◌≢◌, refl, true, false, some, List, [], ◌∷◌, arith}
use launce.LogCapture.{new, write, lines, total}
use launce.Worker.Logs.{Logger, send_logs, look, report, Move, writes, looks, reports, move, moves}
use launce.Worker.Logs.Newest.{begin, latest, volume, latest-report}

-- A line whose message is lost, and another one that is written between the two calls of the next turn.
abbrev ms : List Move
ms =
    writes (97 ∷ 10 ∷ [])
    ∷ looks
    ∷ reports false
    ∷ looks
    ∷ writes (98 ∷ 13 ∷ 10 ∷ 99 ∷ [])
    ∷ reports true
    ∷ []

abbrev after : Logger
after = moves (begin 5) ms

-- The second line is in the message already; the next turn sends it again.
sent-after :
    (after.sent ≡ ((97 ∷ []) ∷ (98 ∷ []) ∷ []) ∷ [])
    × ((report (look after) true).sent ≡ ((97 ∷ []) ∷ (98 ∷ []) ∷ []) ∷ after.sent)
unfolding moves move look report send_logs new write
sent-after = (refl, refl)

latest-report_example :
    (total after.capture ≢ 0 → latest (report (look after) true).sent ≡ some (lines after.capture))
    × (after.last_total ≡ total after.capture
        → total after.capture ≢ 0
        → latest after.sent ≡ some (lines after.capture))
latest-report_example = latest-report 5 ms (unfold volume in omega arith)
