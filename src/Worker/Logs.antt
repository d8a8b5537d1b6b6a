-- ===== src/Worker/Logs.antt =====
-- worker.go: the goroutine of `startLogsProcess`, with `sendLogs`, beside the writers of the log capture.
pub mod Newest
mod Tests
use launce.Base.{
  ℕ, Bool, true, false, Option, none, some, List, [], ◌∷◌, ◌++◌, ◌||◌, not, length, if◌then◌else◌,
}
use launce.Base.Int64.{lt64, le64}
use launce.LogCapture.{LogCapture, Line, write, lines, total}

-- The capture, the goroutine's `lastTotal`, the lines of each message that the transport took, the latest first,
-- and, between the calls of `Total` and of `Lines`, what `Total` returned.
pub record Logger : Type 0 where
  pub capture : LogCapture
  pub last_total : ℕ
  pub sent : List (List Line)
  pub pending : Option ℕ

-- The start: without an interval or a capture there is no goroutine.
unfoldable pub start_logs_process : ℕ → Option LogCapture → Option Logger
start_logs_process interval none = none
start_logs_process interval (some capture) =
    if le64 interval 0
    then none
    else some (record { capture = capture; last_total = 0; sent = []; pending = none })

-- `sendLogs`, and whether it returned no error.
unfoldable pub send_logs : Logger → List Line → Bool → Bool × Logger
send_logs w ls true = (true, record w { sent = ls ∷ w.sent })
send_logs w ls false = (false, w)

-- The ticker fires: `Total` is called, under the mutex of the capture.
unfoldable pub look : Logger → Logger
look w = elim w.pending [
  | none ↦
      let now = total w.capture in
      if lt64 w.last_total now then record w { pending = some now } else w
  | some now ↦ w
]

-- `Lines` is called, under the mutex once more, and its result is sent; `is_sent` says whether the transport takes
-- the message.
unfoldable pub report : Logger → Bool → Logger
unfolding send_logs
report w is_sent = elim w.pending [
  | none ↦ w
  | some now ↦
      let (ok, w') = send_logs (record w { pending = none }) (lines w.capture) is_sent in
      if ok then record w' { last_total = now } else w'
]

-- A write to the capture, or one half of a turn of the goroutine.
pub data Move : Type 0 where
  writes : List ℕ → Move
  looks : Move
  reports : Bool → Move

unfoldable pub move : Logger → Move → Logger
unfolding look report
move w (writes p) = record w { capture = write w.capture p }
move w looks = look w
move w (reports is_sent) = report w is_sent

unfoldable pub moves : Logger → List Move → Logger
moves w [] = w
moves w (m ∷ ms) = moves (move w m) ms
