-- ===== src/Spawner/Running/Counted.antt =====
-- spawner/spawner.go: what `Count` returns.
use launce.Base.{ℕ, zero, suc, ◌%◌, ◌^◌, ◌≡◌, refl, List, [], ◌∷◌, ◌++◌, arith, get_or, set}
use launce.Spawner.Running.{
  Phase, launched, running, ended, Counter, begin, spawn, enter, exit, count, Move, spawns, enters,
  exits, move, moves,
}

-- The goroutines that are between the two additions.
abbrev pub count_running : List Phase → ℕ
count_running [] = 0
count_running (running ∷ ps) = suc (count_running ps)
count_running (launched ∷ ps) = count_running ps
count_running (ended ∷ ps) = count_running ps

count_running-append : (ps : List Phase) → count_running (ps ++ launched ∷ []) ≡ count_running ps
count_running-append [] = refl
count_running-append (p ∷ ps) = ground (arith, count_running-append ps)

count_running-enter :
    (ps : List Phase) (i : ℕ)
    → get_or ps i ended ≡ launched
    → count_running (set ps i running) ≡ suc (count_running ps)
count_running-enter [] i h = absurd (ground arith)
count_running-enter (p ∷ ps) zero h = ground (arith, h)
count_running-enter (p ∷ ps) (suc i) h = ground (arith, count_running-enter ps i h)

count_running-exit :
    (ps : List Phase) (i : ℕ)
    → get_or ps i ended ≡ running
    → suc (count_running (set ps i ended)) ≡ count_running ps
count_running-exit [] i h = absurd (ground arith)
count_running-exit (p ∷ ps) zero h = ground (arith, h)
count_running-exit (p ∷ ps) (suc i) h = ground (arith, count_running-exit ps i h)

abbrev IsCounted : Counter → Type 0
IsCounted s = s.spawned ≡ count_running s.goroutines % 2 ^ 64

move-IsCounted : (s : Counter) (m : Move) → IsCounted s → IsCounted (move s m)
unfolding move spawn enter exit
move-IsCounted s spawns h = ground (arith, h, count_running-append s.goroutines)
move-IsCounted s (enters i) h = ground (arith, h, count_running-enter s.goroutines i)
move-IsCounted s (exits i) h = ground (arith, h, count_running-exit s.goroutines i)

moves-IsCounted : (s : Counter) (ms : List Move) → IsCounted s → IsCounted (moves s ms)
unfolding moves
moves-IsCounted s [] h = h
moves-IsCounted s (m ∷ ms) h = moves-IsCounted (move s m) ms (move-IsCounted s m h)

-- However spawns and the additions of the goroutines follow one another, `Count` returns the number of goroutines
-- that have begun and not ended, modulo 2 ^ 64: none is counted twice or left out, and the
-- counter comes back to 0 when all have ended.
pub count-moves :
    (ms : List Move) → count (moves begin ms) ≡ count_running (moves begin ms).goroutines % 2 ^ 64
count-moves ms = moves-IsCounted begin ms refl
