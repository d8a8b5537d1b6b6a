-- ===== src/User.antt =====
-- user.go: the life of a user, `processUser`. What the user's own methods return and whether the
-- context is done at each look is the environment's: the arguments of the loop say it, a round for each
-- turn. The list of rounds that has been played ends where the observation ends.
pub mod Lifecycle
pub mod Base
mod Tests
use launce.Base.{ℕ, Bool, true, false, Option, none, some, List, [], ◌∷◌, if◌then◌else◌}

-- An error by what `errors.Is` finds in it. The four in the middle are those of taskset/taskset.go.
pub data Error : Type 0 where
  canceled stop_user : Error
  reschedule reschedule_immediately interrupt interrupt_immediately : Error
  other : ℕ → Error

-- `errors.Is(err, context.Canceled) || errors.Is(err, StopUser)`.
abbrev pub is_stop : Error → Bool
is_stop canceled = true
is_stop stop_user = true
is_stop _ = false

-- What a user does that can be seen from outside.
pub data Event : Type 0 where
  processed stopped : Event
  reported : Error → Event

-- One turn of the loop: whether the context is done, and what `Process` returns if it is called.
pub record Round : Type 0 where
  pub ctx_done : Bool
  pub process : Option Error

-- The runner of the user: none, or one that catches exceptions or does not.
abbrev pub Runner : Type 0
Runner = Option Bool

-- What has happened so far, and what `processUser` has returned, if it has.
pub record Life : Type 0 where
  pub events : List Event
  pub result : Option (Option Error)

abbrev first : Event → Life → Life
first e l = record l { events = e ∷ l.events }

-- The end of `processUser`: what `OnStop` returns.
abbrev pub stop : Option Error → Life
stop on_stop = record { events = stopped ∷ []; result = some on_stop }

-- What follows an unexpected error of `Process`, where `rest` is the life after the next turn.
unfoldable pub unexpected : Runner → Error → Life → Life
unexpected none e rest = rest
unexpected (some false) e rest = record { events = []; result = some (some e) }
unexpected (some true) e rest = first (reported e) rest

unfoldable pub after_process : Runner → Option Error → Option Error → Life → Life
unfolding unexpected
after_process runner on_stop none rest = rest
after_process runner on_stop (some e) rest =
    if is_stop e then stop on_stop else unexpected runner e rest

-- The loop.
unfoldable pub loop : Runner → Option Error → List Round → Life
unfolding after_process
loop runner on_stop [] = record { events = []; result = none }
loop runner on_stop (r ∷ rs) =
    let rest = loop runner on_stop rs in
    if r.ctx_done
    then stop on_stop
    else first processed (after_process runner on_stop r.process rest)

-- `processUser`.
unfoldable pub process_user : Runner → Option Error → Option Error → List Round → Life
unfolding loop
process_user runner none on_stop rs = loop runner on_stop rs
process_user runner (some e) on_stop rs =
    if is_stop e then stop on_stop else record { events = []; result = some (some e) }
