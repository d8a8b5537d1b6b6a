-- ===== src/Worker/Logs/Newest.antt =====
-- worker.go: what the master has of the log.
use launce.Base.{
  ℕ, ◌+◌, ◌^◌, ◌≤◌, ◌<◌, ◌≡◌, ◌≢◌, refl, sym, ◌∙◌, ap, subst, true, false, Option, none, some, List,
  [], ◌∷◌, ◌++◌, map, arith, length, length-append,
}
use launce.LogCapture.{LogCapture, Line, append, new, write, lines, total}
use launce.LogCapture.Lines.{cut, trim, append_all, write_lem, total-append, with_buf}
use launce.Worker.Logs.{Logger, send_logs, look, report, Move, writes, looks, reports, move, moves}

-- The last message that the master has.
unfoldable pub latest : List (List Line) → Option (List Line)
latest [] = none
latest (ls ∷ sent) = some ls

-- The bytes that a run writes.
unfoldable pub volume : List Move → ℕ
volume [] = 0
volume (writes p ∷ ms) = length p + volume ms
volume (looks ∷ ms) = volume ms
volume (reports b ∷ ms) = volume ms

length-cut : (xs : List ℕ) → length (cut xs).0 + length (cut xs).1 ≤ length xs
unfolding cut
length-cut [] = omega arith
length-cut (x ∷ xs) = ground (arith, length-cut xs)

total_exact :
    (c : LogCapture) (ls : List Line)
    → c.total + length ls < 2 ^ 63
    → (append_all c (map trim ls)).total ≡ c.total + length ls
unfolding append_all
total_exact c [] h = omega arith
total_exact c (l ∷ ls) h =
    let first : (append c (trim l)).total ≡ c.total + 1 =
      omega (arith, total-append c (trim l), h) in
    omega (arith, total_exact (append c (trim l)) ls (omega (arith, first, h)), first)

-- Recording lines leaves the lines of a capture if there are none, and else makes its total larger.
lines-recorded :
    (c : LogCapture) (ls : List Line) (r : List ℕ)
    → c.total + length ls < 2 ^ 63
    → c.total ≡ (with_buf (append_all c (map trim ls)) r).total
    → lines (with_buf (append_all c (map trim ls)) r) ≡ lines c
unfolding append_all
lines-recorded c [] r h e = refl
lines-recorded c (l ∷ ls) r h e = absurd (omega (arith, total_exact c (l ∷ ls) h, e))

record Wrote (c : LogCapture) (n : ℕ) (c' : LogCapture) : Type 0 where
  pub fits : c'.total + length c'.buf ≤ c.total + length c.buf + n
  pub grows : c.total ≤ c'.total
  pub keeps : c.total ≡ c'.total → lines c' ≡ lines c

-- A write takes the bytes into the lines and the buffer, and leaves the lines if it leaves the total.
write-Wrote :
    (c : LogCapture) (p : List ℕ)
    → c.total + length c.buf + length p < 2 ^ 63
    → Wrote c (length p) (write c p)
write-Wrote c p h =
    let ls = (cut (c.buf ++ p)).0 in
    let r = (cut (c.buf ++ p)).1 in
    let size : length ls + length r ≤ length c.buf + length p =
      omega (arith, length-cut (c.buf ++ p), length-append c.buf p) in
    let exact = total_exact c ls (omega (arith, size, h)) in
    rw (write_lem c p) (record {
      fits = omega (arith, exact, size);
      grows = omega (arith, exact);
      keeps = lines-recorded c ls r (omega (arith, size, h));
    })

-- The total that the goroutine has read is no newer than the capture.
abbrev IsRead : Logger → Option ℕ → Type 0
IsRead w none = Unit
IsRead w (some now) = (w.last_total < now) × (now ≤ w.capture.total)

-- The last message, if the goroutine is up to date, has what the capture has now.
record IsSynced (w : Logger) (left : ℕ) : Type 0 where
  pub bounded : w.capture.total + length w.capture.buf + left < 2 ^ 63
  pub behind : w.last_total ≤ w.capture.total
  pub read : IsRead w w.pending
  pub shown :
      w.last_total ≡ w.capture.total → w.capture.total ≢ 0 → latest w.sent ≡ some (lines w.capture)

write-IsRead :
    (w : Logger) (o : Option ℕ) (c : LogCapture)
    → w.capture.total ≤ c.total
    → IsRead w o
    → IsRead (record w { capture = c }) o
write-IsRead w none c h r = tt
write-IsRead w (some now) c h r = (r.0, omega (arith, h, r.1))

move-IsSynced :
    (w : Logger) (m : Move) (left : ℕ)
    → IsSynced w (volume (m ∷ []) + left)
    → IsSynced (move w m) left
unfolding move volume look report send_logs latest
move-IsSynced w (writes p) left s =
    let wrote : Wrote w.capture (length p) (write w.capture p) =
      write-Wrote w.capture p (omega (arith, s.bounded)) in
    record {
      bounded = omega (arith, s.bounded, wrote.fits);
      behind = omega (arith, s.behind, wrote.grows);
      read = write-IsRead w w.pending (write w.capture p) wrote.grows s.read;
      shown = λ e ne.
          let same : w.capture.total ≡ (write w.capture p).total =
            omega (arith, e, s.behind, wrote.grows) in
          s.shown (e ∙ sym same) (λ z. ne (sym same ∙ z)) ∙ ap some (sym (wrote.keeps same));
    }
move-IsSynced w looks left s = ground (arith, s.bounded, s.behind, s.shown, s.read)
move-IsSynced w (reports true) left s = ground (arith, s.bounded, s.behind, s.shown, s.read)
move-IsSynced w (reports false) left s = ground (arith, s.bounded, s.behind, s.shown, s.read)

moves-IsSynced : (w : Logger) (ms : List Move) → IsSynced w (volume ms) → IsSynced (moves w ms) 0
unfolding moves volume
moves-IsSynced w [] s = s
moves-IsSynced w (writes p ∷ ms) s =
    moves-IsSynced (move w (writes p)) ms
      (move-IsSynced w (writes p) (volume ms) (subst (IsSynced w) (omega arith) s))
moves-IsSynced w (looks ∷ ms) s =
    moves-IsSynced (move w looks) ms
      (move-IsSynced w looks (volume ms) (subst (IsSynced w) (omega arith) s))
moves-IsSynced w (reports b ∷ ms) s =
    moves-IsSynced (move w (reports b)) ms
      (move-IsSynced w (reports b) (volume ms) (subst (IsSynced w) (omega arith) s))

abbrev pub begin : ℕ → Logger
begin n = record { capture = new n; last_total = 0; sent = []; pending = none }

begin-IsSynced : (n : ℕ) (m : ℕ) → m < 2 ^ 63 → IsSynced (begin n) m
unfolding new
begin-IsSynced n m h = record {
  bounded = omega (arith, h);
  behind = omega arith;
  read = tt;
  shown = λ e ne. absurd (ne refl);
}

-- The goroutine beside writers that write fewer than 2 ^ 63 bytes in all, also between its calls of `Total` and of
-- `Lines`, and whichever messages were lost before. A turn whose message the transport takes, if it has one to
-- send, leaves the master with just what `Lines` returns then, unless no line has been recorded. And
-- whenever the total is the one that the goroutine noted with its last message, the master has all
-- lines already: the test by the total leaves no line unsent.
pub latest-report :
    (n : ℕ) (ms : List Move)
    → volume ms < 2 ^ 63
    → let w = moves (begin n) ms in
      (total w.capture ≢ 0 → latest (report (look w) true).sent ≡ some (lines w.capture))
      × (w.last_total ≡ total w.capture
          → total w.capture ≢ 0
          → latest w.sent ≡ some (lines w.capture))
unfolding look report send_logs latest
latest-report n ms h =
    let w = moves (begin n) ms in
    let s : IsSynced w 0 = moves-IsSynced _ ms (begin-IsSynced n (volume ms) h) in
    ground (arith, s.bounded, s.behind, s.shown, s.read)
