-- ===== src/Stats/Round.antt =====
-- stats/round.go. The source divides the microseconds as float64. Below 2 ^ 50 microseconds a
-- quotient that is a tie is exact, and any other is nearer to the exact one than that is to a tie.
-- So `math.Round` gives the integer nearest to the exact quotient, and a tie goes away from zero.
use launce.Base.{ℕ, ◌+◌, ◌*◌, ◌/◌, ◌≤◌, ◌≡◌, arith, ltb, if◌then◌else◌}

-- `math.Round(n / q)` for an even `q`.
abbrev round_div : ℕ → ℕ → ℕ
round_div n q = (n + q / 2) / q

-- For a duration that is not negative, the only ones that `Entry.Add` rounds. The result is in
-- milliseconds.
unfoldable pub round_response_time : ℕ → ℕ
round_response_time d =
    let us = d / 1000 in
    if ltb us 100_000
    then round_div us 1000
    else (if ltb us 1_000_000
        then round_div us 10_000 * 10
        else (if ltb us 10_000_000
            then round_div us 100_000 * 100
            else round_div us 1_000_000 * 1000))

-- The half of the step to which a time of `us` microseconds is rounded, in microseconds.
abbrev pub tolerance : ℕ → ℕ
tolerance us =
    if ltb us 100_000
    then 500
    else (if ltb us 1_000_000 then 5000 else (if ltb us 10_000_000 then 50_000 else 500_000))

-- The rounded time is within half a step of the time: a step is 1 ms below 100 ms, 10 ms below 1 s,
-- 100 ms below 10 s, and 1 s from there on.
pub round_response_time_near :
    (d : ℕ)
    → let us = d / 1000 in
      (round_response_time d * 1000 ≤ us + tolerance us)
      × (us ≤ round_response_time d * 1000 + tolerance us)
unfolding round_response_time
round_response_time_near d = ground arith

-- A longer time is never rounded to a shorter one, also where the step changes.
pub round_response_time_mono : (d e : ℕ) → d ≤ e → round_response_time d ≤ round_response_time e
unfolding round_response_time
round_response_time_mono d e h = ground arith

-- A rounded time, taken for a time again, stays as it is.
pub round_response_time_idem :
    (d : ℕ) → round_response_time (round_response_time d * 1_000_000) ≡ round_response_time d
unfolding round_response_time
round_response_time_idem d = ground arith
