-- ===== src/Generator/Tests.antt =====
-- The theorem on aggregators at a concrete run.
use launce.Base.{◌≡◌, ◌↔◌, refl, true, arith}
use launce.Generator.{
  Aggregation, new, start_user, end_user, reset, renew, join, release_current, at, retain, release,
  drop_one,
}
use launce.Generator.Counting.{
  nth, references, Reach, here, next, starts, ends, resets, Reach-closed,
}

-- Two users start, of which each aggregator takes one; the first ends, and the test stops.
abbrev stopped : Aggregation
stopped = reset (end_user (start_user (start_user (new 1))) 0)

reached : Reach (new 1) stopped
unfolding start_user end_user reset renew join release_current at retain release drop_one
reached =
    next
      (next
        (next (next here (starts (omega arith) (omega arith))) (starts (omega arith) (omega arith)))
        (ends 0 (omega arith)))
      resets

Reach-closed_example :
    ((nth 0 stopped.made).count ≡ references stopped 0)
    × (((nth 0 stopped.made).closed ≡ true) ↔ (references stopped 0 ≡ 0))
Reach-closed_example = Reach-closed 1 reached 0

still_open : ((nth 0 stopped.made).closed ≡ true) × (references stopped 1 ≡ 1)
unfolding start_user end_user reset renew join release_current at retain release drop_one
still_open = (refl, refl)
