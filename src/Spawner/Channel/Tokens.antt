-- ===== src/Spawner/Channel/Tokens.antt =====
-- spawner/spawner.go: tokens and goroutines correspond.
use launce.Base.{
  ℕ, suc, ◌+◌, ◌≤◌, ◌≡◌, Bool, true, false, ◌||◌, Option, none, some, List, [], ◌∷◌, arith, length,
  Option-cases, inl, inr,
}
use launce.Spawner.Threads.{clear}
use launce.Spawner.Channel.{
  RestartMode, Call, outside, stopping, restarting, migrating, holding, Work, exited, choosing,
  spawning, Spawner, new, set_cap, start, stop, swap_channel, migrate, launch, spawn, remove,
  finish, release, go_on, put, leave, spawn_next, begins, Move, sets_cap, finishes, starts, stops,
  clears, goes_on, puts, leaves, spawns, releases, move, moves,
}

-- Whether the caller is in the middle of a migration, and the token that it may hold.
abbrev pub is_moving : Call → Bool
is_moving migrating = true
is_moving holding = true
is_moving outside = false
is_moving stopping = false
is_moving (restarting n reset) = false

abbrev pub is_waiting : Call → Bool
is_waiting stopping = true
is_waiting (restarting n reset) = true
is_waiting outside = false
is_waiting migrating = false
is_waiting holding = false

abbrev pub in_hand : Call → ℕ
in_hand holding = 1
in_hand migrating = 0
in_hand outside = 0
in_hand stopping = 0
in_hand (restarting n reset) = 0

-- A goroutine that has its token and is not yet spawned.
abbrev pub pending : Work → ℕ
pending spawning = 1
pending exited = 0
pending choosing = 0

abbrev pub is_working : Work → Bool
is_working exited = false
is_working choosing = true
is_working spawning = true

pub record IsValid (s : Spawner) : Type 0 where
  -- There is one token for each goroutine.
  pub conserved : s.tokens + s.old + in_hand s.call ≡ length s.live + s.ending + pending s.work
  pub within : s.tokens ≤ s.room
  -- Behind a migration the old channel is empty.
  pub drained : is_moving s.call ≡ false → s.old ≡ 0
  -- The worker is gone during a migration, and once its channel is closed.
  pub alone : is_moving s.call ≡ true → is_working s.work ≡ false
  pub closed_behind : s.is_closed ≡ true → (is_moving s.call || is_working s.work) ≡ false
  -- A worker, also the one to come, can be stopped, and is told to while the caller waits for it.
  pub stoppable : (is_moving s.call || is_working s.work) ≡ true → s.has_stop ≡ true
  pub told_when : is_waiting s.call ≡ true → is_working s.work ≡ true → s.told ≡ true

length-remove : (id : ℕ) (us vs : List ℕ) → remove id us ≡ some vs → length us ≡ suc (length vs)
unfolding remove
length-remove id [] vs h = ground arith
length-remove id (u ∷ us) vs h = elim (Option-cases (remove id us)) [
  | inl e ↦ ground (arith, e, h)
  | inr (ws, e) ↦ ground (arith, e, h, length-remove id us ws e)
]

abbrev Keeps : Option Spawner → Type 0
Keeps none = Unit
Keeps (some s) = IsValid s

release-Keeps : (s : Spawner) → IsValid s → Keeps (release s)
unfolding release
release-Keeps s v = ground (arith)

put-Keeps : (s : Spawner) → IsValid s → Keeps (put s)
unfolding put
put-Keeps s v = ground (arith)

go_on-Keeps : (s : Spawner) → IsValid s → Keeps (go_on s)
unfolding go_on swap_channel migrate launch
go_on-Keeps s v = ground (arith)

leave-Keeps : (s : Spawner) → IsValid s → Keeps (leave s)
unfolding leave
leave-Keeps s v = ground (arith)

spawn_next-Keeps : (s : Spawner) → IsValid s → Keeps (spawn_next s)
unfolding spawn_next spawn
spawn_next-Keeps s v = ground (arith)

finish-Keeps : (s : Spawner) (id : ℕ) → IsValid s → Keeps (finish s id)
unfolding finish
finish-Keeps s id v = elim (Option-cases (remove id s.live)) [
  | inl e ↦ rw (e, Keeps, finish) tt
  | inr (us, e) ↦ rw (e, Keeps, finish) (ground (arith, length-remove id s.live us e))
]

-- A call that begins outside of the others.
set_cap-Keeps : (s : Spawner) (n : ℕ) → IsValid s → Keeps (begins s (set_cap s n))
unfolding set_cap
set_cap-Keeps s n v = ground (arith)

start-Keeps : (s : Spawner) → IsValid s → Keeps (begins s (start s))
unfolding start
start-Keeps s v = ground (arith)

stop-Keeps : (s : Spawner) → IsValid s → Keeps (begins s (stop s))
unfolding stop
stop-Keeps s v = ground (arith)

clear-IsValid : (s : Spawner) → IsValid s → IsValid (record s { threads = clear s.threads })
clear-IsValid s v = ground (arith)

move-Keeps : (s : Spawner) (m : Move) → IsValid s → Keeps (move s m)
unfolding move
move-Keeps s (sets_cap n) v = set_cap-Keeps s n v
move-Keeps s starts v = start-Keeps s v
move-Keeps s stops v = stop-Keeps s v
move-Keeps s clears v = clear-IsValid s v
move-Keeps s goes_on v = go_on-Keeps s v
move-Keeps s puts v = put-Keeps s v
move-Keeps s leaves v = leave-Keeps s v
move-Keeps s spawns v = spawn_next-Keeps s v
move-Keeps s (finishes id) v = finish-Keeps s id v
move-Keeps s releases v = release-Keeps s v

moves-IsValid : (s : Spawner) (ms : List Move) → IsValid s → IsValid (moves s ms)
unfolding moves
moves-IsValid s [] v = v
moves-IsValid s (m ∷ ms) v = elim (Option-cases (move s m)) [
  | inl e ↦ rw (e, moves) (moves-IsValid s ms v)
  | inr (t, e) ↦ rw (e, moves) (moves-IsValid t ms (rw e at (move-Keeps s m v)))
]

new-IsValid : (mode : RestartMode) → IsValid (new mode)
unfolding new
new-IsValid mode = ground arith

-- However the caller, the workers and the spawned goroutines of a new spawner interleave: outside of a
-- migration there are no more goroutines than the capacity of the channel, and just as many, with one
-- that is about to be spawned, as tokens; so that there is a token for each goroutine at its end.
pub moves-new :
    (mode : RestartMode) (ms : List Move)
    → is_moving (moves (new mode) ms).call ≡ false
    → let s = moves (new mode) ms in
      (length s.live + s.ending + pending s.work ≡ s.tokens)
      × (s.tokens ≤ s.room)
      × (s.ending ≤ s.tokens)
moves-new mode ms h = let v = moves-IsValid (new mode) ms (new-IsValid mode) in ground (arith, h)
