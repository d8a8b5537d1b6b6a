-- ===== src/Worker/Join.antt =====
-- worker.go: `Join` with `connect`, and `Quit` from other goroutines meanwhile. `Join` is a machine that
-- makes one move up to its next wait; what the transport returns is an argument of the move.
pub mod Order
pub mod Leaving
mod Tests
use launce.Base.{
  ℕ, ◌+◌, Bool, true, false, ◌||◌, not, Option, none, some, List, [], ◌∷◌, ◌++◌, ltb, if◌then◌else◌,
}

-- The contexts whose cancel function `Join` keeps in `cancel`, in this order.
pub data Scope : Type 0 where
  opening processes : Scope

-- `ErrConnection`, the error of a context, and those of the transport.
pub data Err : Type 0 where
  connection canceled : Err
  transport : ℕ → Err

-- Where `Join` stands: in `open`; behind it; behind `startMessageProcess`; in the loop of `connect` after
-- so many retries; in `procWg.Wait`; before it sends the quit message; before it closes; in `wg.Wait`.
pub data Phase : Type 0 where
  enters opened starting running leaving closing waiting : Phase
  connecting : ℕ → Phase
  returned : Option Err → Phase

-- What `Join` has done.
pub data Call : Type 0 where
  opens_transport starts_receiver sends_ready connect_handlers starts_processes : Call
  sends_quit closes_transport quit_handlers : Call

-- Whether the two contexts are cancelled, and how often `Quit` has called its handlers.
pub record Session : Type 0 where
  pub phase : Phase
  pub cancel : Option Scope
  pub open_cancelled : Bool
  pub processes_cancelled : Bool
  pub ack_ch : Bool
  pub quits : ℕ
  pub calls : List Call

-- Behind the first `w.cancel.Store`. An ack of an earlier session may be left.
unfoldable pub begin : Bool → Session
begin left = record {
  phase = enters;
  cancel = some opening;
  open_cancelled = false;
  processes_cancelled = false;
  ack_ch = left;
  quits = 0;
  calls = [];
}

-- `Quit`: the cancel function is taken, the handlers are called and the context is cancelled.
unfoldable pub quit : Session → Session
quit s = elim s.cancel [
  | none ↦ s
  | some opening ↦ record s { cancel = none; open_cancelled = true; quits = s.quits + 1 }
  | some processes ↦ record s { cancel = none; processes_cancelled = true; quits = s.quits + 1 }
]

-- `connectRetryCount`.
abbrev pub connect_retry_count : ℕ
connect_retry_count = 60

abbrev does : List Call → Phase → Session → Option Session
does cs phase s = some (record s { phase = phase; calls = s.calls ++ cs })

-- `_ = w.close()` and the return of an error.
abbrev fails : List Call → Err → Session → Option Session
fails cs err s = does (cs ++ closes_transport ∷ []) (returned (some err)) s

-- `open`.
unfoldable pub open_transport : Session → Option Err → Option Session
open_transport s (some err) = does (opens_transport ∷ []) (returned (some err)) s
open_transport s none = does (opens_transport ∷ []) opened s

-- The second context, and `startMessageProcess`.
unfoldable pub switch : Session → Option Session
switch s = does (starts_receiver ∷ []) starting (record s { cancel = some processes })

-- `connect` up to its loop: old acks are dropped.
unfoldable pub greet : Session → Option Err → Option Session
greet s none = does (sends_ready ∷ []) (connecting 0) (record s { ack_ch = false })
greet s (some err) = fails (sends_ready ∷ []) err (record s { ack_ch = false })

-- The cases of the loop: the ticker, an ack, and the end of the context.
unfoldable pub retry : Session → ℕ → Option Session
retry s n =
    if ltb connect_retry_count (n + 1)
    then fails [] connection s
    else does [] (connecting (n + 1)) s

unfoldable pub connect : Session → Option Session
connect s =
    if s.ack_ch
    then does (connect_handlers ∷ starts_processes ∷ []) running (record s { ack_ch = false })
    else none

unfoldable pub give_up : Session → Option Session
give_up s = if s.processes_cancelled then fails [] canceled s else none

-- `procWg.Wait`: every process returns once its context is done.
unfoldable pub join_processes : Session → Option Session
join_processes s = if s.processes_cancelled then does [] leaving s else none

unfoldable pub say_quit : Session → Option Err → Option Session
say_quit s none = does (sends_quit ∷ []) closing s
say_quit s (some err) = fails (sends_quit ∷ []) err s

unfoldable pub close_transport : Session → Option Err → Option Session
close_transport s none = does (closes_transport ∷ []) waiting s
close_transport s (some err) = does (closes_transport ∷ []) (returned (some err)) s

-- `wg.Wait`, and the end.
unfoldable pub finish : Session → Option Session
finish s = does (quit_handlers ∷ []) (returned none) s

-- A call of `Quit`, an ack that comes in, or the next move of `Join`, with the error of the transport if it
-- calls it, or with the case that the loop of `connect` takes.
pub data Case : Type 0 where
  ticks acks done : Case

pub data Move : Type 0 where
  calls_quit hears_ack : Move
  goes : Option Err → Case → Move

unfoldable pub select : Session → ℕ → Case → Option Session
unfolding retry connect give_up
select s n ticks = retry s n
select s n acks = connect s
select s n done = give_up s

unfoldable pub go : Session → Phase → Option Err → Case → Option Session
unfolding open_transport switch greet select join_processes say_quit close_transport finish
go s enters err case = open_transport s err
go s opened err case = switch s
go s starting err case = greet s err
go s (connecting n) err case = select s n case
go s running err case = join_processes s
go s leaving err case = say_quit s err
go s closing err case = close_transport s err
go s waiting err case = finish s
go s (returned r) err case = none

unfoldable pub move : Session → Move → Session
unfolding quit go
move s calls_quit = quit s
move s hears_ack = record s { ack_ch = true }
move s (goes err case) = elim (go s s.phase err case) [ none ↦ s | some s' ↦ s' ]

unfoldable pub moves : Session → List Move → Session
unfolding move
moves s [] = s
moves s (m ∷ ms) = moves (move s m) ms
