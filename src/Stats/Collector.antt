-- ===== src/Stats/Collector.antt =====
-- stats/aggregator.go: the channel of reports of an aggregator, and the goroutine that collects them.
use launce.Base.{
  ℕ, Bool, true, false, Option, none, some, List, [], ◌∷◌, ◌++◌, length, ltb, if◌then◌else◌,
}
use launce.Stats.Counters.{Time}
use launce.Stats.Reports.{Report, report}
use launce.Stats.{Stats, new}

-- Where the goroutine stands: at its `select`; before it hands its statistics over, for the last time or
-- not; or gone.
pub data Phase : Type 0 where
  selecting gone : Phase
  handing : Bool → Phase

pub record Collector : Type 0 where
  pub channel : List Report
  pub is_closed : Bool
  pub stats : Stats
  pub phase : Phase

-- The capacity of the channel.
abbrev pub room : ℕ
room = 10

-- `start` at the time `now`.
abbrev pub start : Time → Collector
start now = record { channel = []; is_closed = false; stats = new now; phase = selecting }

-- `Report`: a send, which waits while the channel is full. On a closed channel it panics.
unfoldable pub send : Collector → Report → Option Collector
send c r =
    if c.is_closed
    then none
    else (if ltb (length c.channel) room
        then some (record c { channel = c.channel ++ r ∷ [] })
        else none)

-- The end of `Release` behind the last reference.
unfoldable pub close : Collector → Option Collector
close c = if c.is_closed then none else some (record c { is_closed = true })

unfoldable pub receive_first : List Report → Collector → Option Collector
receive_first [] c = if c.is_closed then some (record c { phase = handing true }) else none
receive_first (r ∷ rs) c = some (record c { channel = rs; stats = report c.stats r })

-- The first case of the `select`: a report is added; a closed channel without one ends the loop.
unfoldable pub receive : Collector → Option Collector
unfolding receive_first
receive c = elim c.phase [ selecting ↦ receive_first c.channel c | gone ↦ none | handing b ↦ none ]

-- The second case: the ticker fires.
unfoldable pub tick : Collector → Option Collector
tick c = elim c.phase [
  | selecting ↦ some (record c { phase = handing false })
  | gone ↦ none
  | handing b ↦ none
]

-- `statsCh <- s` goes through at the time `now`: the statistics that are handed over, and the collector
-- afterwards, which has returned or has a new one.
unfoldable pub hand_over : Collector → Time → Option (Stats × Collector)
hand_over c now = elim c.phase [
  | selecting ↦ none
  | gone ↦ none
  | handing b ↦ some (
    c.stats,
    if b
        then record c { stats = new now; phase = gone }
        else record c { stats = new now; phase = selecting },
  )
]
