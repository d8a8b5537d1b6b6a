-- ===== src/Worker/Transport/Sockets.antt =====
-- transport.go: when the transport has a socket.
use launce.Base.{
  ◌≡◌, refl, true, false, Bool, ◌||◌, ◌&&◌, Option, none, some, List, [], ◌∷◌, ◌++◌, ◌↔◌, arith, ℕ,
  String,
}
use launce.Context.{Context}
use launce.Worker.Transport.{
  Zmq, ZmqTransport, new_zmq_transport, address, open_socket, close, send, receive, Call, opens,
  sends, closes, receives, call, calls,
}

module _ {ℓ κ} {Opt : Type ℓ} {Socket : Type κ} (zmq : Zmq Opt Socket) (itoa : ℕ → String) where
  -- Whether `Dial` succeeds in an `Open` of the transport.
  abbrev pub connects : ZmqTransport Opt Socket → Context → String → Bool
  connects t ctx id =
      let dialled =
        zmq.dial (zmq.new_dealer ctx (t.opts ++ zmq.with_id id ∷ [])) (address zmq itoa t) in
      elim dialled.0 [ none ↦ true | some e ↦ false ]

  -- Whether each use of a socket comes behind an `Open` that succeeds; `opened` is whether one has.
  abbrev pub is_usable : ZmqTransport Opt Socket → Bool → List Call → Bool
  is_usable t opened [] = true
  is_usable t opened (opens ctx id ∷ cs) = is_usable t (opened || connects t ctx id) cs
  is_usable t opened (sends b ∷ cs) = opened && is_usable t opened cs
  is_usable t opened (closes ∷ cs) = opened && is_usable t opened cs
  is_usable t opened (receives ∷ cs) = opened && is_usable t opened cs

  abbrev has_socket : ZmqTransport Opt Socket → Bool
  has_socket t = elim t.socket [ none ↦ false | some s ↦ true ]

  -- The transport with another socket.
  abbrev with_socket : ZmqTransport Opt Socket → Option Socket → ZmqTransport Opt Socket
  with_socket t s = record t { socket = s }

  calls_iff :
      (t : ZmqTransport Opt Socket) (s : Option Socket) (cs : List Call)
      → (calls zmq itoa (with_socket t s) cs ≡ none)
        ↔ (is_usable t (has_socket (with_socket t s)) cs ≡ false)
  unfolding calls call open_socket close send receive
  calls_iff t s [] = ((λ e. cc), λ e. cc)
  calls_iff t s (opens ctx id ∷ cs) =
      let dialled =
        zmq.dial (zmq.new_dealer ctx (t.opts ++ zmq.with_id id ∷ [])) (address zmq itoa t) in
      ground (arith, calls_iff t s cs, calls_iff t (some dialled.1) cs)
  calls_iff t none (sends b ∷ cs) = (λ e. refl, λ e. refl)
  calls_iff t (some s) (sends b ∷ cs) = calls_iff t (some (zmq.send_msg s b).1) cs
  calls_iff t none (closes ∷ cs) = (λ e. refl, λ e. refl)
  calls_iff t (some s) (closes ∷ cs) = calls_iff t (some (zmq.close_socket s).1) cs
  calls_iff t none (receives ∷ cs) = (λ e. refl, λ e. refl)
  calls_iff t (some s) (receives ∷ cs) = calls_iff t (some (zmq.recv_msg s).1) cs

  -- Whatever the sockets do, a new transport panics in a series of calls exactly if one of them uses a
  -- socket before an `Open` has succeeded. A later `Open` that fails leaves the socket as it was.
  pub calls-new_zmq_transport :
      (host : String) (port : ℕ) (opts : List Opt) (cs : List Call)
      → let t = new_zmq_transport zmq itoa host port opts in
        (calls zmq itoa t cs ≡ none) ↔ (is_usable t false cs ≡ false)
  unfolding new_zmq_transport
  calls-new_zmq_transport host port opts cs =
      calls_iff
        (record { host = host; port = port; opts = zmq.no_max_retries ∷ opts; socket = none }) none
        cs
