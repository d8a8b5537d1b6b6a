-- ===== src/Context/Grace.antt =====
-- graceful_stop.go: what a context derived for a grace period shows, and when.
use launce.Base.{ℕ, ◌+◌, ◌≡◌, ◌||◌, none, some, arith, max, leb}
use launce.Base.Int64.{IsNonneg}
use launce.Context.{Context, done_at, is_done, with_graceful_stop, stopping, without_graceful_stop}

-- Let a context `c` be asked to stop at the time `d`. The context derived from it at the time `now` for a
-- grace period, and not released before, is done just from the end of the period on; from `d` on it shows
-- that it is stopping; and for waits it is done from `d` on, as `c` itself.
pub with_graceful_stop_lem :
    (c : Context) (d now t stop_timeout : ℕ)
    → done_at c ≡ some d
    → IsNonneg stop_timeout
    → let g = with_graceful_stop c stop_timeout now none in
      (is_done g t ≡ leb (max now d + stop_timeout) t)
      × (stopping g t ≡ leb d t)
      × (is_done (without_graceful_stop g) t ≡ leb d t)
      × (stopping (without_graceful_stop g) t ≡ leb d t)
unfolding with_graceful_stop is_done stopping without_graceful_stop
with_graceful_stop_lem c d now t stop_timeout h n = ground (arith, h)

-- Once it is released, it is done; and it never shows more than the context it is derived from.
pub released_lem :
    (c : Context) (now t stop_timeout r : ℕ)
    → IsNonneg stop_timeout
    → let g = with_graceful_stop c stop_timeout now (some r) in
      (is_done g t ≡ (leb r t || is_done (with_graceful_stop c stop_timeout now none) t))
      × (stopping g t ≡ is_done c t)
unfolding with_graceful_stop is_done stopping without_graceful_stop
released_lem c now t stop_timeout r n = ground arith
