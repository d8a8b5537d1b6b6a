-- ===== src/Worker/Transport/Tests.antt =====
-- Tests of Transport.antt.
use launce.Base.{
  ℕ, ◌+◌, ◌≡◌, inr, refl, none, some, List, [], ◌∷◌, String, length, ◌==◌, if◌then◌else◌,
}
use launce.Context.{background}
use launce.Worker.Wire.{plain}
use launce.Worker.Transport.{
  Zmq, new_zmq_transport, open_socket, Call, opens, sends, closes, receives, calls,
}

-- A socket is the number of messages that it has sent; it dials if it has been given three options.
abbrev zmq : Zmq ℕ ℕ
zmq = record {
  no_max_retries = 0;
  with_id = λ id. 1;
  new_dealer = λ ctx opts. length opts;
  dial = λ s address. (if s == 3 then none else some (plain address), 0);
  close_socket = λ s. (none, s);
  send_msg = λ s b. (none, s + 1);
  recv_msg = λ s. (inr [], s);
}

abbrev itoa : ℕ → String
itoa n = "5557"

abbrev series : List Call
series = opens background "w" ∷ sends [] ∷ receives ∷ sends [] ∷ closes ∷ []

series_test :
    calls zmq itoa (new_zmq_transport zmq itoa "localhost" 5557 (7 ∷ [])) series
    ≡ some (record { host = "localhost"; port = 5557; opts = 0 ∷ 7 ∷ []; socket = some 2 })
unfolding new_zmq_transport calls
series_test = refl

fails_test :
    (open_socket zmq itoa (new_zmq_transport zmq itoa "localhost" 5557 []) background "w").0
    ≡ some (plain "tcp://localhost:5557")
unfolding new_zmq_transport open_socket
fails_test = refl
