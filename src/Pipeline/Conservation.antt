-- ===== src/Pipeline/Conservation.antt =====
-- stats/aggregator.go with worker.go: where the reports are that users made.
use launce.Base.{
  ℕ, zero, suc, ◌+◌, ◌%◌, Bool, true, false, ◌^◌, ◌≡◌, refl, sym, ap, Option, none, some, List, [],
  ◌∷◌, ◌++◌, String, arith, get_elem?, set, All, Option-cases, subst, inl, inr,
}
use launce.Base.Maps.{IsDistinct, GoMap}
use launce.Stats.Counters.{Time}
use launce.Stats.Reports.{Report, merge-IsDistinct, new-IsDistinct}
use launce.Stats.Sums.{
  Additive, stored, weigh, weigh_all, weigh_all-append, stored-merge, requests, failures, content,
  responses,
}
use launce.Stats.{EntryKey, EntryKey-key, Stats, new, flush}
use launce.Stats.Collector.{Collector, start, send, close, receive, tick, hand_over}
use launce.Worker.Reporting.{Payload, Reporter, merge_stats, reset_stats, send_stats}
use launce.Pipeline.{
  Pipeline, begin, Move, makes, reports, closes, receives, ticks, hands, asks_reset, resets, sends,
  change, accept, meet, forget, at_collector, move, moves,
}
use launce.Pipeline.Holdings.{
  Fine, Handed, HandsOver, Has, IsFine, accounted, close-Fine, close-Has, dropped_all,
  dropped_all-append, hand_over-Handed, hand_over-HandsOver, held, held_all, held_all-append,
  held_all-set, receive-Fine, receive-Has, send-Fine, send-Has, sent_all, sent_all-append,
  stored-new, tick-Fine, tick-Has,
}

module _ (a : Additive) (k : EntryKey) where
  record IsBalanced (p : Pipeline) : Type 0 where
    collectors_fine : All IsFine p.collectors
    reporter_fine : IsDistinct p.reporter.stats.entries
    balanced : accounted a k p % 2 ^ 64 ≡ weigh_all a k p.accepted % 2 ^ 64

  All-set :
      (cs : List Collector) (i : ℕ) (c : Collector)
      → All IsFine cs
      → IsFine c
      → All IsFine (set cs i c)
  All-set [] i c h d = tt
  All-set (x ∷ cs) zero c h d = (d, h.1)
  All-set (x ∷ cs) (suc i) c h d = (h.0, All-set cs i c h.1 d)

  All-get :
      (cs : List Collector) (i : ℕ) (c : Collector)
      → All IsFine cs
      → get_elem? cs i ≡ some c
      → IsFine c
  All-get [] i c h e = ground (arith, e)
  All-get (x ∷ cs) zero c h e = let q : x ≡ c = ground (arith, e) in subst IsFine q h.0
  All-get (x ∷ cs) (suc i) c h e = All-get cs i c h.1 e

  change-IsBalanced :
      (p : Pipeline) (i : ℕ) (c : Collector) (o : Option Collector)
      → get_elem? p.collectors i ≡ some c
      → Has a k (held a k c) o
      → Fine o
      → IsBalanced p
      → IsBalanced (change p i o)
  change-IsBalanced p i c none e h d v = v
  change-IsBalanced p i c (some c') e h d v = record {
    collectors_fine = All-set p.collectors i c' v.collectors_fine d;
    reporter_fine = v.reporter_fine;
    balanced = omega (arith, h, v.balanced, held_all-set a k p.collectors i c c' e);
  }

  accept-IsBalanced :
      (p : Pipeline) (i : ℕ) (r : Report) (c : Collector) (o : Option Collector)
      → get_elem? p.collectors i ≡ some c
      → Has a k (held a k c + weigh a k r) o
      → Fine o
      → IsBalanced p
      → IsBalanced (accept p i r o)
  unfolding weigh_all
  accept-IsBalanced p i r c none e h d v = v
  accept-IsBalanced p i r c (some c') e h d v = record {
    collectors_fine = All-set p.collectors i c' v.collectors_fine d;
    reporter_fine = v.reporter_fine;
    balanced = omega (
      arith,
      h,
      v.balanced,
      held_all-set a k p.collectors i c c' e,
      weigh_all-append a k p.accepted (r ∷ []),
    );
  }

  meet-IsBalanced :
      (p : Pipeline) (i : ℕ) (c : Collector) (o : Option (Stats × Collector))
      → get_elem? p.collectors i ≡ some c
      → HandsOver a k (held a k c) o
      → Handed o
      → IsBalanced p
      → IsBalanced (meet p i o)
  unfolding merge_stats
  meet-IsBalanced p i c none e h d v = v
  meet-IsBalanced p i c (some (st, c')) e h (ds, dc) v = record {
    collectors_fine = All-set p.collectors i c' v.collectors_fine dc;
    reporter_fine = merge-IsDistinct p.reporter.stats st v.reporter_fine;
    balanced = omega (
      arith,
      h,
      v.balanced,
      held_all-set a k p.collectors i c c' e,
      stored-merge a k p.reporter.stats st ds,
    );
  }

  forget-IsBalanced :
      (p : Pipeline) (now : Time) (o : Option Reporter)
      → reset_stats p.reporter now ≡ o
      → IsBalanced p
      → IsBalanced (forget p o)
  unfolding reset_stats dropped_all
  forget-IsBalanced p now none e v = v
  forget-IsBalanced p now (some w) e v =
      let fresh : w.stats ≡ new now = ground (arith, e) in
      let same : w.sent ≡ p.reporter.sent = ground (arith, e) in
      let same_lost : w.lost ≡ p.reporter.lost = ground (arith, e) in
      record {
        collectors_fine = v.collectors_fine;
        reporter_fine =
            subst (λ (s : Stats). IsDistinct s.entries) (sym fresh) (new-IsDistinct now);
        balanced = omega (
          arith,
          v.balanced,
          ap (λ (s : Stats). stored a k s.entries) fresh,
          ap (sent_all a k) same,
          ap (sent_all a k) same_lost,
          stored-new a k now,
          dropped_all-append a k p.dropped (p.reporter.stats.entries ∷ []),
        );
      }

  sent_all-snoc :
      (ps : List Payload) (p : Payload)
      → sent_all a k (ps ++ p ∷ []) ≡ sent_all a k ps + stored a k p.entries
  unfolding sent_all
  sent_all-snoc ps p = omega (arith, sent_all-append a k ps (p ∷ []))

  sent_all-send_stats :
      (w : Reporter) (now : Time) (users : GoMap String ℕ) (is_sent : Bool)
      → let w' = send_stats w now users is_sent in
        sent_all a k w'.sent + sent_all a k w'.lost
        ≡ sent_all a k w.sent + sent_all a k w.lost + stored a k w.stats.entries
  unfolding send_stats flush
  sent_all-send_stats w now users true = omega (arith, sent_all-snoc w.sent _)
  sent_all-send_stats w now users false = omega (arith, sent_all-snoc w.lost _)

  send_stats-new :
      (w : Reporter) (now : Time) (users : GoMap String ℕ) (is_sent : Bool)
      → (send_stats w now users is_sent).stats ≡ new now
  unfolding send_stats flush
  send_stats-new w now users true = refl
  send_stats-new w now users false = refl

  send_stats-IsBalanced :
      (p : Pipeline) (now : Time) (users : GoMap String ℕ) (is_sent : Bool)
      → IsBalanced p
      → IsBalanced (record p { reporter = send_stats p.reporter now users is_sent })
  send_stats-IsBalanced p now users is_sent v =
      let fresh = send_stats-new p.reporter now users is_sent in
      record {
        collectors_fine = v.collectors_fine;
        reporter_fine =
            subst (λ (s : Stats). IsDistinct s.entries) (sym fresh) (new-IsDistinct now);
        balanced = omega (
          arith,
          v.balanced,
          ap (λ (s : Stats). stored a k s.entries) fresh,
          stored-new a k now,
          sent_all-send_stats p.reporter now users is_sent,
        );
      }

  All-snoc :
      (cs : List Collector) (c : Collector) → All IsFine cs → IsFine c → All IsFine (cs ++ c ∷ [])
  All-snoc [] c h d = (d, tt)
  All-snoc (x ∷ cs) c h d = (h.0, All-snoc cs c h.1 d)

  make-IsBalanced :
      (p : Pipeline) (now : Time)
      → IsBalanced p
      → IsBalanced (record p { collectors = p.collectors ++ start now ∷ [] })
  unfolding held_all weigh_all
  make-IsBalanced p now v = record {
    collectors_fine = All-snoc p.collectors (start now) v.collectors_fine (new-IsDistinct now);
    reporter_fine = v.reporter_fine;
    balanced =
        omega (
          arith,
          v.balanced,
          stored-new a k now,
          held_all-append a k p.collectors (start now ∷ []),
        );
  }

  at_collector-IsBalanced :
      (p : Pipeline) (i : ℕ) (f : Collector → Pipeline)
      → IsBalanced p
      → ((c : Collector) → get_elem? p.collectors i ≡ some c → IsFine c → IsBalanced (f c))
      → IsBalanced (at_collector p i f)
  unfolding at_collector
  at_collector-IsBalanced p i f v keep = elim (Option-cases (get_elem? p.collectors i)) [
    | inl e ↦ rw (e, at_collector) v
    | inr (c, e) ↦ rw (e, at_collector) (keep c e (All-get p.collectors i c v.collectors_fine e))
  ]

  move-IsBalanced : (p : Pipeline) (m : Move) → IsBalanced p → IsBalanced (move p m)
  unfolding move
  move-IsBalanced p (makes now) v = make-IsBalanced p now v
  move-IsBalanced p (reports i r) v =
      at_collector-IsBalanced p i _ v
        λ c e d. accept-IsBalanced p i r c (send c r) e (send-Has a k c r) (send-Fine c r d) v
  move-IsBalanced p (closes i) v =
      at_collector-IsBalanced p i _ v
        λ c e d. change-IsBalanced p i c (close c) e (close-Has a k c) (close-Fine c d) v
  move-IsBalanced p (receives i) v =
      at_collector-IsBalanced p i _ v
        λ c e d. change-IsBalanced p i c (receive c) e (receive-Has a k c) (receive-Fine c d) v
  move-IsBalanced p (ticks i) v =
      at_collector-IsBalanced p i _ v
        λ c e d. change-IsBalanced p i c (tick c) e (tick-Has a k c) (tick-Fine c d) v
  move-IsBalanced p (hands i now) v = at_collector-IsBalanced p i _ v λ c e d.
      meet-IsBalanced p i c (hand_over c now) e (hand_over-HandsOver a k c now)
        (hand_over-Handed c now d) v
  move-IsBalanced p asks_reset v = record {
    collectors_fine = v.collectors_fine;
    reporter_fine = v.reporter_fine;
    balanced = v.balanced;
  }
  move-IsBalanced p (resets now) v = forget-IsBalanced p now (reset_stats p.reporter now) refl v
  move-IsBalanced p (sends now users is_sent) v = send_stats-IsBalanced p now users is_sent v

  moves-IsBalanced : (p : Pipeline) (ms : List Move) → IsBalanced p → IsBalanced (moves p ms)
  unfolding moves
  moves-IsBalanced p [] v = v
  moves-IsBalanced p (m ∷ ms) v = moves-IsBalanced (move p m) ms (move-IsBalanced p m v)

  moves-begin :
      (now : Time) (ms : List Move)
      → accounted a k (moves (begin now) ms) % 2 ^ 64
        ≡ weigh_all a k (moves (begin now) ms).accepted % 2 ^ 64
  unfolding held_all sent_all dropped_all weigh_all
  moves-begin now ms =
      (moves-IsBalanced (begin now) ms (record {
        collectors_fine = tt;
        reporter_fine = new-IsDistinct now;
        balanced = omega (arith, stored-new a k now);
      })).balanced

-- However the users, the collectors and the worker's goroutine interleave, and whenever the statistics
-- are reset: at each key, what the collectors hold, in their channels and statistics, what the worker
-- holds, what it has sent, what it lost with messages that failed, and what resets threw away add up, as
-- 64-bit integers, to what the accepted reports say: their number, their failures, the lengths of their contents and their response times.
pub accounted-moves :
    (now : Time) (ms : List Move) (k : EntryKey)
    → let p = moves (begin now) ms in
      (accounted requests k p % 2 ^ 64 ≡ weigh_all requests k p.accepted % 2 ^ 64)
      × (accounted failures k p % 2 ^ 64 ≡ weigh_all failures k p.accepted % 2 ^ 64)
      × (accounted content k p % 2 ^ 64 ≡ weigh_all content k p.accepted % 2 ^ 64)
      × (accounted responses k p % 2 ^ 64 ≡ weigh_all responses k p.accepted % 2 ^ 64)
accounted-moves now ms k = (
  moves-begin requests k now ms,
  moves-begin failures k now ms,
  moves-begin content k now ms,
  moves-begin responses k now ms,
)
