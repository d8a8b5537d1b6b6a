-- ===== src/Pipeline/Holdings.antt =====
-- stats/aggregator.go with worker.go: what each part of the way holds, and what each move makes of it.
use launce.Base.{
  ℕ, zero, suc, ◌+◌, ◌%◌, ◌^◌, ◌≡◌, refl, ap, Option, none, some, List, [], ◌∷◌, ◌++◌, arith,
  get_elem?, set,
}
use launce.Base.Maps.{IsDistinct, lookup}
use launce.Stats.Counters.{Time}
use launce.Stats.Reports.{Report, report-IsDistinct, new-IsDistinct}
use launce.Stats.Sums.{
  Additive, stored, weigh, weigh_all, weigh_all-append, stored-report, stored-none,
}
use launce.Stats.{EntryKey, EntryKey-key, Entries, Stats, new, clear}
use launce.Stats.Collector.{Collector, send, close, receive, tick, hand_over, receive_first}
use launce.Worker.Reporting.{Payload}
use launce.Pipeline.{Pipeline}

abbrev pub IsFine : Collector → Type 0
IsFine c = IsDistinct c.stats.entries

-- What a collector's move makes of it, if it moves.
abbrev pub Fine : Option Collector → Type 0
Fine none = Unit
Fine (some c) = IsFine c

pub receive_first-Fine : (rs : List Report) (c : Collector) → IsFine c → Fine (receive_first rs c)
unfolding receive_first
receive_first-Fine [] c d = ground arith
receive_first-Fine (r ∷ rs) c d = report-IsDistinct c.stats r d

pub receive-Fine : (c : Collector) → IsFine c → Fine (receive c)
unfolding receive
receive-Fine c d = ground (arith, receive_first-Fine c.channel c d)

pub send-Fine : (c : Collector) (r : Report) → IsFine c → Fine (send c r)
unfolding send
send-Fine c r d = ground arith

pub close-Fine : (c : Collector) → IsFine c → Fine (close c)
unfolding close
close-Fine c d = ground arith

pub tick-Fine : (c : Collector) → IsFine c → Fine (tick c)
unfolding tick
tick-Fine c d = ground arith

-- What is handed over, and what takes its place.
abbrev pub Handed : Option (Stats × Collector) → Type 0
Handed none = Unit
Handed (some (st, c)) = IsDistinct st.entries × IsFine c

pub hand_over-Handed : (c : Collector) (now : Time) → IsFine c → Handed (hand_over c now)
unfolding hand_over
hand_over-Handed c now d = ground (arith, new-IsDistinct now)

module _ (a : Additive) (k : EntryKey) where
  -- What a collector has of a key.
  abbrev pub held : Collector → ℕ
  held c = stored a k c.stats.entries + weigh_all a k c.channel

  unfoldable pub held_all : List Collector → ℕ
  held_all [] = 0
  held_all (c ∷ cs) = held c + held_all cs

  unfoldable pub sent_all : List Payload → ℕ
  sent_all [] = 0
  sent_all (p ∷ ps) = stored a k p.entries + sent_all ps

  unfoldable pub dropped_all : List Entries → ℕ
  dropped_all [] = 0
  dropped_all (e ∷ es) = stored a k e + dropped_all es

  pub held_all-append : (cs ds : List Collector) → held_all (cs ++ ds) ≡ held_all cs + held_all ds
  unfolding held_all
  held_all-append [] ds = omega arith
  held_all-append (c ∷ cs) ds = omega (arith, held_all-append cs ds)

  pub sent_all-append : (ps qs : List Payload) → sent_all (ps ++ qs) ≡ sent_all ps + sent_all qs
  unfolding sent_all
  sent_all-append [] qs = omega arith
  sent_all-append (p ∷ ps) qs = omega (arith, sent_all-append ps qs)

  pub dropped_all-append :
      (es fs : List Entries) → dropped_all (es ++ fs) ≡ dropped_all es + dropped_all fs
  unfolding dropped_all
  dropped_all-append [] fs = omega arith
  dropped_all-append (e ∷ es) fs = omega (arith, dropped_all-append es fs)

  pub held_all-set :
      (cs : List Collector) (i : ℕ) (c c' : Collector)
      → get_elem? cs i ≡ some c
      → held_all (set cs i c') + held c ≡ held_all cs + held c'
  unfolding held_all
  held_all-set [] i c c' h = ground arith
  held_all-set (d ∷ cs) zero c c' h = let e : d ≡ c = ground (arith, h) in omega (arith, ap held e)
  held_all-set (d ∷ cs) (suc i) c c' h = omega (arith, held_all-set cs i c c' h)

  -- One move of a collector keeps what it has, but for a report that it accepts.
  abbrev pub Has : ℕ → Option Collector → Type 0
  Has n none = Unit
  Has n (some c) = held c % 2 ^ 64 ≡ n % 2 ^ 64

  pub send-Has : (c : Collector) (r : Report) → Has (held c + weigh a k r) (send c r)
  unfolding send weigh_all
  send-Has c r = ground (arith, weigh_all-append a k c.channel (r ∷ []))

  pub close-Has : (c : Collector) → Has (held c) (close c)
  unfolding close
  close-Has c = ground arith

  pub tick-Has : (c : Collector) → Has (held c) (tick c)
  unfolding tick
  tick-Has c = ground arith

  pub receive_first-Has :
      (rs : List Report) (c : Collector) → c.channel ≡ rs → Has (held c) (receive_first rs c)
  unfolding receive_first weigh_all
  receive_first-Has [] c e = ground (arith, e)
  receive_first-Has (r ∷ rs) c e = omega (arith, stored-report a k c.stats r, ap (weigh_all a k) e)

  pub receive-Has : (c : Collector) → Has (held c) (receive c)
  unfolding receive
  receive-Has c = ground (arith, receive_first-Has c.channel c refl)

  abbrev pub HandsOver : ℕ → Option (Stats × Collector) → Type 0
  HandsOver n none = Unit
  HandsOver n (some (st, c)) = (stored a k st.entries + held c) % 2 ^ 64 ≡ n % 2 ^ 64

  pub stored-new : (now : Time) → stored a k (new now).entries ≡ 0
  unfolding clear lookup
  stored-new now = stored-none a k [] refl

  pub hand_over-HandsOver : (c : Collector) (now : Time) → HandsOver (held c) (hand_over c now)
  unfolding hand_over
  hand_over-HandsOver c now = ground (arith, stored-new now)

  -- What is anywhere on the way, with what was sent, what failed messages lost and what the resets threw away.
  abbrev pub accounted : Pipeline → ℕ
  accounted p =
      held_all p.collectors
      + stored a k p.reporter.stats.entries
      + sent_all p.reporter.sent
      + sent_all p.reporter.lost
      + dropped_all p.dropped
