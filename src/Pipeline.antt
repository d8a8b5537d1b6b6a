-- ===== src/Pipeline.antt =====
-- stats/aggregator.go with worker.go: reports on their way from the users to the master. The users, the
-- collectors' goroutines and the worker's move in any order.
pub mod Holdings
pub mod Conservation
mod Tests
use launce.Base.{
  ℕ, Bool, true, false, Option, none, some, List, [], ◌∷◌, ◌++◌, String, get_elem?, set,
}
use launce.Base.Maps.{GoMap}
use launce.Stats.Counters.{Time}
use launce.Stats.Reports.{Report}
use launce.Stats.{Entries, Stats, new}
use launce.Stats.Collector.{Collector, start, send, close, receive, tick, hand_over}
use launce.Worker.Reporting.{Reporter, merge_stats, reset_stats, send_stats}

-- All collectors, the worker's side, what the resets threw away, and all reports that were accepted.
pub record Pipeline : Type 0 where
  pub collectors : List Collector
  pub reporter : Reporter
  pub dropped : List Entries
  pub accepted : List Report

abbrev pub begin : Time → Pipeline
begin now = record {
  collectors = [];
  reporter = record { stats = new now; reset_stats_ch = false; sent = []; lost = [] };
  dropped = [];
  accepted = [];
}

pub data Move : Type 0 where
  makes : Time → Move
  reports : ℕ → Report → Move
  closes receives ticks : ℕ → Move
  hands : ℕ → Time → Move
  asks_reset : Move
  resets : Time → Move
  sends : Time → GoMap String ℕ → Bool → Move

-- A collector moves, if it can.
abbrev pub change : Pipeline → ℕ → Option Collector → Pipeline
change p i none = p
change p i (some c) = record p { collectors = set p.collectors i c }

abbrev pub accept : Pipeline → ℕ → Report → Option Collector → Pipeline
accept p i r none = p
accept p i r (some c) = record p {
  collectors = set p.collectors i c;
  accepted = p.accepted ++ r ∷ [];
}

-- The two goroutines meet at `statsCh`.
abbrev pub meet : Pipeline → ℕ → Option (Stats × Collector) → Pipeline
meet p i none = p
meet p i (some (st, c)) = record p {
  collectors = set p.collectors i c;
  reporter = merge_stats p.reporter st;
}

abbrev pub forget : Pipeline → Option Reporter → Pipeline
forget p none = p
forget p (some w) = record p { reporter = w; dropped = p.dropped ++ p.reporter.stats.entries ∷ [] }

-- What collector `i` does, if there is one.
unfoldable pub at_collector : Pipeline → ℕ → (Collector → Pipeline) → Pipeline
at_collector p i f = elim (get_elem? p.collectors i) [ none ↦ p | some c ↦ f c ]

-- One move; one that has to wait changes nothing.
unfoldable pub move : Pipeline → Move → Pipeline
unfolding at_collector
move p (makes now) = record p { collectors = p.collectors ++ start now ∷ [] }
move p (reports i r) = at_collector p i (λ c. accept p i r (send c r))
move p (closes i) = at_collector p i (λ c. change p i (close c))
move p (receives i) = at_collector p i (λ c. change p i (receive c))
move p (ticks i) = at_collector p i (λ c. change p i (tick c))
move p (hands i now) = at_collector p i (λ c. meet p i (hand_over c now))
move p asks_reset = record p { reporter = record p.reporter { reset_stats_ch = true } }
move p (resets now) = forget p (reset_stats p.reporter now)
move p (sends now users is_sent) = record p { reporter = send_stats p.reporter now users is_sent }

unfoldable pub moves : Pipeline → List Move → Pipeline
moves p [] = p
moves p (m ∷ ms) = moves (move p m) ms
