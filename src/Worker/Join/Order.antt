-- ===== src/Worker/Join/Order.antt =====
-- worker.go: the order of what `Join` does, with `Quit` coming in at any time.
use launce.Base.{
  ℕ, zero, suc, ◌+◌, ◌≤◌, ◌<◌, ◌≡◌, ◌≢◌, ◌⊎◌, refl, sym, ◌∙◌, ap, Bool, true, false, Option, none,
  some, List, [], ◌∷◌, ◌++◌, arith, if◌then◌else◌, subst,
}
use launce.Worker.Join.{
  Scope, processes, Err, connection, Phase, enters, opened, starting, running, leaving, closing,
  waiting, connecting, returned, Call, opens_transport, starts_receiver, sends_ready,
  connect_handlers, starts_processes, sends_quit, closes_transport, quit_handlers, Session, begin,
  quit, connect_retry_count, retry, Case, ticks, acks, done, Move, calls_quit, hears_ack, goes,
  select, go, move, moves,
}

-- What `Join` has done up to the loop of `connect`, up to `procWg.Wait`, and up to the end.
abbrev greeted : List Call
greeted = opens_transport ∷ starts_receiver ∷ sends_ready ∷ []

abbrev joined : List Call
joined = greeted ++ connect_handlers ∷ starts_processes ∷ []

abbrev pub all_done : List Call
all_done = joined ++ sends_quit ∷ closes_transport ∷ quit_handlers ∷ []

-- What it has done at each phase.
unfoldable pub Trace : Phase → List Call → Type 0
Trace enters cs = cs ≡ []
Trace opened cs = cs ≡ opens_transport ∷ []
Trace starting cs = cs ≡ opens_transport ∷ starts_receiver ∷ []
Trace (connecting n) cs = (cs ≡ greeted) × (n ≤ connect_retry_count)
Trace running cs = cs ≡ joined
Trace leaving cs = cs ≡ joined
Trace closing cs = cs ≡ joined ++ sends_quit ∷ []
Trace waiting cs = cs ≡ joined ++ sends_quit ∷ closes_transport ∷ []
Trace (returned none) cs = cs ≡ all_done
Trace (returned (some err)) cs =
    (cs ≡ opens_transport ∷ [])
    ⊎ (cs ≡ greeted ++ closes_transport ∷ [])
    ⊎ (cs ≡ joined ++ sends_quit ∷ closes_transport ∷ [])

-- The second context can still be cancelled, or `Quit` has cancelled it.
abbrev Second : Option Scope → Bool → ℕ → Type 0
Second cancel cancelled quits =
    (cancel ≡ some processes) × (cancelled ≡ false)
    ⊎ (cancel ≡ none) × (cancelled ≡ true) × (0 < quits)

-- What the contexts are at each phase.
unfoldable pub Scoped : Phase → Option Scope → Bool → ℕ → Type 0
Scoped enters cancel cancelled quits = (cancel ≢ some processes) × (cancelled ≡ false)
Scoped opened cancel cancelled quits = (cancel ≢ some processes) × (cancelled ≡ false)
Scoped starting cancel cancelled quits = Second cancel cancelled quits
Scoped (connecting n) cancel cancelled quits = Second cancel cancelled quits
Scoped running cancel cancelled quits = Second cancel cancelled quits
Scoped leaving cancel cancelled quits = (cancel ≡ none) × (cancelled ≡ true) × (0 < quits)
Scoped closing cancel cancelled quits = (cancel ≡ none) × (cancelled ≡ true) × (0 < quits)
Scoped waiting cancel cancelled quits = (cancel ≡ none) × (cancelled ≡ true) × (0 < quits)
Scoped (returned none) cancel cancelled quits = (cancel ≡ none) × (cancelled ≡ true) × (0 < quits)
Scoped (returned (some err)) cancel cancelled quits = Unit

unfoldable pub IsInOrder : Session → Type 0
unfolding Trace Scoped
IsInOrder s = Trace s.phase s.calls × Scoped s.phase s.cancel s.processes_cancelled s.quits

unfoldable After : Option Session → Type 0
unfolding IsInOrder
After none = Unit
After (some s) = IsInOrder s

pub begin-IsInOrder : (left : Bool) → IsInOrder (begin left)
unfolding IsInOrder begin
begin-IsInOrder left = ground arith

-- `Quit` leaves the phase and the calls, and takes the contexts on.
quit_cases : (s : Session) → ((quit s).phase ≡ s.phase) × ((quit s).calls ≡ s.calls)
unfolding quit
quit_cases s = ground arith

quit-Scoped :
    (s : Session) (phase : Phase)
    → Scoped phase s.cancel s.processes_cancelled s.quits
    → Scoped phase (quit s).cancel (quit s).processes_cancelled (quit s).quits
unfolding Scoped quit
quit-Scoped s enters c = ground (arith, c)
quit-Scoped s opened c = ground (arith, c)
quit-Scoped s starting c = ground (arith, c)
quit-Scoped s (connecting n) c = ground (arith, c)
quit-Scoped s running c = ground (arith, c)
quit-Scoped s leaving c = ground (arith, c)
quit-Scoped s closing c = ground (arith, c)
quit-Scoped s waiting c = ground (arith, c)
quit-Scoped s (returned none) c = ground (arith, c)
quit-Scoped s (returned (some err)) c = tt

pub quit-IsInOrder : (s : Session) → IsInOrder s → IsInOrder (quit s)
unfolding IsInOrder
quit-IsInOrder s (t, c) = let (p, q) = quit_cases s in (rw (p, q) t, rw p (quit-Scoped s s.phase c))

go-IsInOrder :
    (s : Session) (phase : Phase) (err : Option Err) (case : Case)
    → Trace phase s.calls
    → Scoped phase s.cancel s.processes_cancelled s.quits
    → After (go s phase err case)
unfolding After go
go-IsInOrder s enters none case t c = ground (arith, t, c)
go-IsInOrder s enters (some e) case t c = ground (arith, t, c)
go-IsInOrder s opened err case t c = ground (arith, t, c)
go-IsInOrder s starting none case t c = ground (arith, t, c)
go-IsInOrder s starting (some e) case t c = ground (arith, t, c)
go-IsInOrder s (connecting n) err ticks (t, le) c = ground (arith, t, le, c)
go-IsInOrder s (connecting n) err acks (t, le) c = ground (arith, t, c)
go-IsInOrder s (connecting n) err done (t, le) c = ground (arith, t, le, c)
go-IsInOrder s running err case t c = ground (arith, t, c)
go-IsInOrder s leaving none case t c = ground (arith, t, c)
go-IsInOrder s leaving (some e) case t c = ground (arith, t, c)
go-IsInOrder s closing none case t c = ground (arith, t, c)
go-IsInOrder s closing (some e) case t c = ground (arith, t, c)
go-IsInOrder s waiting err case t c = ground (arith, t, c)
go-IsInOrder s (returned r) err case t c = tt

-- A move that `Join` cannot make leaves the session.
go_or_stay :
    (s : Session) (o : Option Session)
    → IsInOrder s
    → After o
    → IsInOrder (elim o [ none ↦ s | some s' ↦ s' ])
unfolding After
go_or_stay s none i a = i
go_or_stay s (some s') i a = a

pub move-IsInOrder : (s : Session) (m : Move) → IsInOrder s → IsInOrder (move s m)
unfolding move
move-IsInOrder s calls_quit i = quit-IsInOrder s i
move-IsInOrder s hears_ack i = unfold IsInOrder in i
move-IsInOrder s (goes err case) i =
    go_or_stay s (go s s.phase err case) i
      (unfold IsInOrder in go-IsInOrder s s.phase err case i.0 i.1)

pub moves-IsInOrder : (s : Session) (ms : List Move) → IsInOrder s → IsInOrder (moves s ms)
unfolding moves
moves-IsInOrder s [] i = i
moves-IsInOrder s (m ∷ ms) i = moves-IsInOrder (move s m) ms (move-IsInOrder s m i)

-- How often `Join` has closed the transport, and whether it succeeded in opening it.
unfoldable pub closings : List Call → ℕ
closings [] = 0
closings (closes_transport ∷ cs) = closings cs + 1
closings (c ∷ cs) = closings cs

unfoldable pub is_open : List Call → Bool
is_open [] = false
is_open (starts_receiver ∷ cs) = true
is_open (c ∷ cs) = is_open cs

closings_cases :
    (r : Option Err) (cs : List Call)
    → Trace (returned r) cs
    → closings cs ≡ (if is_open cs then 1 else 0)
unfolding Trace closings is_open
closings_cases none cs t = ground (arith, t)
closings_cases (some err) cs t = ground (arith, t)

returned_cases :
    (s : Session) (r : Option Err)
    → s.phase ≡ returned r
    → IsInOrder s
    → (r ≡ none → (s.calls ≡ all_done) × (0 < s.quits))
      × (closings s.calls ≡ (if is_open s.calls then 1 else 0))
unfolding IsInOrder
returned_cases s r h (t, c) =
    let t' : Trace (returned r) s.calls = subst (λ p. Trace p s.calls) h t in
    (
      λ e. (
        subst (λ x. Trace (returned x) s.calls) e t',
        (subst (λ p. Scoped p s.cancel s.processes_cancelled s.quits) (h ∙ ap returned e) c).2,
      ),
      closings_cases r s.calls t',
    )

-- Whatever the transport returns, and whenever `Quit` is called and an ack comes in: a `Join` that has
-- returned without an error has, in this order, opened the transport, said that the client is ready, called the
-- handlers of the connection, run its processes, sent the quit message, closed the transport and called the
-- handlers of the end, and `Quit` had been called; and one that has returned at all, also with
-- an error, has closed the transport once if it had opened it, and else not.
pub moves-begin :
    (left : Bool) (ms : List Move) (r : Option Err)
    → (moves (begin left) ms).phase ≡ returned r
    → (r ≡ none → ((moves (begin left) ms).calls ≡ all_done) × (0 < (moves (begin left) ms).quits))
      × (closings (moves (begin left) ms).calls
          ≡ (if is_open (moves (begin left) ms).calls then 1 else 0))
moves-begin left ms r h =
    let i : IsInOrder (moves (begin left) ms) =
      moves-IsInOrder (begin left) ms (begin-IsInOrder left) in
    returned_cases (moves (begin left) ms) r h i

-- The ticks that are left.
unfoldable pub ticks_of : ℕ → List Move
ticks_of zero = []
ticks_of (suc n) = goes none ticks ∷ ticks_of n

-- What holds of a session with its phase written out holds of the session.
at_phase {ℓ} :
    (s : Session) (phase : Phase)
    → s.phase ≡ phase
    → (P : Session → Type ℓ) → P (record s { phase = phase })
    → P s
at_phase s phase h P p = subst (λ x. P (record s { phase = x })) (sym h) p

retry_again :
    (s : Session) (n : ℕ)
    → n < connect_retry_count
    → move (record s { phase = connecting n }) (goes none ticks)
      ≡ record s { phase = connecting (n + 1); calls = s.calls ++ [] }
unfolding move go select retry
retry_again s n h = ground (arith, h)

retry_last :
    (s : Session) (n : ℕ)
    → n ≡ connect_retry_count
    → (move (record s { phase = connecting n }) (goes none ticks)).phase
      ≡ returned (some connection)
unfolding move go select retry
retry_last s n h = ground (arith, h)

retries :
    (s : Session) (n m : ℕ)
    → n + m ≡ connect_retry_count
    → (moves (record s { phase = connecting n }) (ticks_of (suc m))).phase
      ≡ returned (some connection)
unfolding moves ticks_of
retries s n zero e = retry_last s n (omega (arith, e))
retries s n (suc m) e =
    rw (retry_again s n (omega (arith, e)), moves)
      (retries (record s { calls = s.calls ++ [] }) (n + 1) m (omega (arith, e)))

again :
    (s : Session) (n k : ℕ)
    → n + k ≤ connect_retry_count
    → (moves (record s { phase = connecting n }) (ticks_of k)).phase ≡ connecting (n + k)
unfolding moves ticks_of
again s n zero e = ap connecting (omega (arith, e))
again s n (suc k) e =
    rw (retry_again s n (omega (arith, e)), moves)
      (again (record s { calls = s.calls ++ [] }) (n + 1) k (omega (arith, e))
        ∙ ap connecting (omega (arith, e)))

-- If nothing but the ticker is heard, the loop of `connect` goes on through sixty ticks, and at the next it ends
-- with `ErrConnection`.
pub moves-ticks_of :
    (s : Session) (k : ℕ)
    → s.phase ≡ connecting 0
    → (k ≤ 60 → (moves s (ticks_of k)).phase ≡ connecting k)
      × ((moves s (ticks_of 61)).phase ≡ returned (some connection))
moves-ticks_of s k h = (
  λ le.
      at_phase s (connecting 0) h (λ x. (moves x (ticks_of k)).phase ≡ connecting k)
        (again s 0 k (omega (arith, le)) ∙ ap connecting (omega arith)),
  at_phase s (connecting 0) h (λ x. (moves x (ticks_of 61)).phase ≡ returned (some connection))
      (retries s 0 60 refl),
)
