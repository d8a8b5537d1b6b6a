-- ===== src/Wait/Tests.antt =====
-- Runs of the wait time functions.
use launce.Base.{◌≡◌, refl}
use launce.Wait.{Pace, pace, Range, between}

abbrev last : Pace
last = record { last_run = 1000; last_wait_time = 30 }

-- The last wait was due to end at 1030, so the next one is at 1130.
pace_test : pace 100 last 1050 ≡ (80, record { last_run = 1050; last_wait_time = 80 })
unfolding pace
pace_test = refl

abbrev reversed : Range
reversed = record { low = 50; high = 20 }

between_test : between reversed 7 ≡ (27, record { low = 20; high = 50 })
unfolding between
between_test = refl
