-- ===== src/Worker/Wire/Sending.antt =====
-- message.go, error.go and worker.go: what `SendMessage` and `ReportException` hand to the transport.
use Prim.Native.String.{◌++◌ as concat}
use launce.Base.{
  ℕ, ◌⊎◌, inl, inr, ◌≡◌, refl, ap, Option, none, some, List, [], ◌∷◌, ◌++◌, String, arith,
}
use launce.Worker.Wire.{
  Bytes, Error, wrapped, message_of, stack_trace, Frame, print_frames, wrap, exception_payload,
  in_order, encode_message, send_message,
}

-- The first error of the parts, if there is one.
abbrev pub first_error : List (Error ⊎ Bytes) → Option Error
first_error [] = none
first_error (inl e ∷ ps) = some e
first_error (inr b ∷ ps) = first_error ps

-- The bytes of all parts, in a row.
abbrev pub all_bytes : List (Error ⊎ Bytes) → Bytes
all_bytes [] = []
all_bytes (inl e ∷ ps) = all_bytes ps
all_bytes (inr b ∷ ps) = b ++ all_bytes ps

in_order_lem :
    (ps : List (Error ⊎ Bytes))
    → in_order ps ≡ elim (first_error ps) [ none ↦ inr (all_bytes ps) | some e ↦ inl e ]
unfolding in_order
in_order_lem [] = refl
in_order_lem (inl e ∷ ps) = refl
in_order_lem (inr b ∷ ps) = ground (arith, in_order_lem ps)

module _ {ℓ} {A : Type ℓ} (array_len : ℕ → Error ⊎ Bytes) (string : String → Error ⊎ Bytes)
    (value : A → Error ⊎ Bytes) where
  -- Whatever the encoders and the transport do: a message is handed to the transport at most once, and
  -- whole. If its four parts can all be encoded, it is their bytes in the order of the protocol,
  -- and the call returns what the transport does. Otherwise nothing is handed over, and the
  -- call returns the error of the first part that fails.
  pub send_message_lem :
      (transport : Bytes → Option Error) (client_id typ : String) (payload : A)
      → let parts = array_len 3 ∷ string typ ∷ value payload ∷ string client_id ∷ [] in
        send_message array_len string value transport client_id typ payload
        ≡ elim (first_error parts) [
          | some e ↦ record { handed = []; result = some e }
          | none ↦ record { handed = all_bytes parts ∷ []; result = transport (all_bytes parts) }
        ]
  unfolding send_message encode_message
  send_message_lem transport client_id typ payload =
      ground
        (arith, in_order_lem (array_len 3 ∷ string typ ∷ value payload ∷ string client_id ∷ []))

-- An error that other packages have put texts in front of, the first text last.
abbrev pub prefixed : List String → Error → Error
prefixed [] e = e
prefixed (s ∷ ss) e = wrapped s (prefixed ss e)

abbrev pub with_texts : List String → String → String
with_texts [] msg = msg
with_texts (s ∷ ss) msg = concat s (with_texts ss msg)

message_of-prefixed :
    (texts : List String) (e : Error)
    → message_of (prefixed texts e) ≡ with_texts texts (message_of e)
unfolding message_of
message_of-prefixed [] e = refl
message_of-prefixed (s ∷ ss) e = ap (concat s) (message_of-prefixed ss e)

stack_trace-prefixed :
    (texts : List String) (e : Error) → stack_trace (prefixed texts e) ≡ stack_trace e
unfolding stack_trace
stack_trace-prefixed [] e = refl
stack_trace-prefixed (s ∷ ss) e = stack_trace-prefixed ss e

wrap_lem :
    (itoa : ℕ → String) (frames : List Frame) (e : Error)
    → (message_of (wrap itoa frames e) ≡ message_of e)
      × (stack_trace (wrap itoa frames e) ≡ some (print_frames itoa frames))
unfolding message_of stack_trace wrap
wrap_lem itoa frames e = (refl, refl)

-- An error that was wrapped by `Wrap` at some place, and to which texts were added afterwards, is
-- reported with all texts in front of the message it had, and with the frames of that place, also if
-- it was wrapped at another place before.
pub exception_payload-wrap :
    (itoa : ℕ → String) (frames : List Frame) (texts : List String) (e : Error)
    → exception_payload (prefixed texts (wrap itoa frames e))
      ≡ record { msg = with_texts texts (message_of e); traceback = print_frames itoa frames }
unfolding exception_payload
exception_payload-wrap itoa frames texts e = ground (
  arith,
  message_of-prefixed texts (wrap itoa frames e),
  stack_trace-prefixed texts (wrap itoa frames e),
  wrap_lem itoa frames e,
)
