-- ===== src/Worker/Transport.antt =====
-- transport.go: the transport over ZeroMQ. The package zmq4 is an argument: its options, its sockets, and
-- what they do.
pub mod Sockets
mod Tests
use Prim.Native.String.{◌++◌ as concat}
use launce.Base.{ℕ, ◌⊎◌, inl, inr, Option, none, some, List, [], ◌∷◌, ◌++◌, String}
use launce.Context.{Context}
use launce.Worker.Wire.{Bytes, Error}

-- `ZmqTransport`; the socket is nil at first.
pub record ZmqTransport {ℓ κ} (Opt : Type ℓ) (Socket : Type κ) : Type (ℓ ⊔ κ) where
  pub host : String
  pub port : ℕ
  pub opts : List Opt
  pub socket : Option Socket

-- What is used of zmq4: two options, `NewDealer`, and `Dial`, `Close`, `Send` and `Recv` of a socket, which
-- change it.
pub record Zmq {ℓ κ} (Opt : Type ℓ) (Socket : Type κ) : Type (ℓ ⊔ κ) where
  pub no_max_retries : Opt
  pub with_id : String → Opt
  pub new_dealer : Context → List Opt → Socket
  pub dial : Socket → String → Option Error × Socket
  pub close_socket : Socket → Option Error × Socket
  pub send_msg : Socket → Bytes → Option Error × Socket
  pub recv_msg : Socket → (Error ⊎ Bytes) × Socket

-- A call of the transport.
pub data Call : Type 0 where
  opens : Context → String → Call
  sends : Bytes → Call
  closes receives : Call

module _ {ℓ κ} {Opt : Type ℓ} {Socket : Type κ} (zmq : Zmq Opt Socket) (itoa : ℕ → String) where
  -- `NewZmqTransport`, with `defaultZmqOptions`.
  unfoldable pub new_zmq_transport : String → ℕ → List Opt → ZmqTransport Opt Socket
  new_zmq_transport host port opts = record {
    host = host;
    port = port;
    opts = zmq.no_max_retries ∷ opts;
    socket = none;
  }

  abbrev pub address : ZmqTransport Opt Socket → String
  address t = concat "tcp://" (concat t.host (concat ":" (itoa t.port)))

  -- `Open`.
  unfoldable pub open_socket :
      ZmqTransport Opt Socket → Context → String → Option Error × ZmqTransport Opt Socket
  open_socket t ctx client_id =
      let (err, socket) =
        zmq.dial (zmq.new_dealer ctx (t.opts ++ zmq.with_id client_id ∷ [])) (address t) in
      elim err [ some e ↦ (some e, t) | none ↦ (none, record t { socket = some socket }) ]

  -- `Close`, `Send` and `Receive`; `none` is a panic, on a nil socket.
  unfoldable pub close : ZmqTransport Opt Socket → Option (Option Error × ZmqTransport Opt Socket)
  close t = elim t.socket [
    | none ↦ none
    | some s ↦ let (err, s') = zmq.close_socket s in some (err, record t { socket = some s' })
  ]

  unfoldable pub send :
      ZmqTransport Opt Socket → Bytes → Option (Option Error × ZmqTransport Opt Socket)
  send t b = elim t.socket [
    | none ↦ none
    | some s ↦ let (err, s') = zmq.send_msg s b in some (err, record t { socket = some s' })
  ]

  unfoldable pub receive :
      ZmqTransport Opt Socket → Option ((Error ⊎ Bytes) × ZmqTransport Opt Socket)
  receive t = elim t.socket [
    | none ↦ none
    | some s ↦ let (got, s') = zmq.recv_msg s in some (got, record t { socket = some s' })
  ]

  abbrev behind :
      {A : Type 0} → Option (A × ZmqTransport Opt Socket) → Option (ZmqTransport Opt Socket)
  behind none = none
  behind (some (a, t)) = some t

  unfoldable pub call : ZmqTransport Opt Socket → Call → Option (ZmqTransport Opt Socket)
  unfolding open_socket close send receive
  call t (opens ctx id) = some (open_socket t ctx id).1
  call t (sends b) = behind (send t b)
  call t closes = behind (close t)
  call t receives = behind (receive t)

  -- The transport behind a number of calls, if none of them panics.
  unfoldable pub calls : ZmqTransport Opt Socket → List Call → Option (ZmqTransport Opt Socket)
  unfolding call
  calls t [] = some t
  calls t (c ∷ cs) = elim (call t c) [ none ↦ none | some t' ↦ calls t' cs ]
