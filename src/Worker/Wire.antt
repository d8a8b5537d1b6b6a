-- ===== src/Worker/Wire.antt =====
-- message.go, error.go, worker_payload.go and worker.go: how a message of the worker becomes bytes, and
-- what an exception tells the master. The encoders of msgpack and the transport are arguments.
pub mod Sending
mod Tests
use Prim.Native.String.{◌++◌ as concat}
use launce.Base.{ℕ, Bool, ◌⊎◌, inl, inr, Option, none, some, List, [], ◌∷◌, ◌++◌, String}

abbrev pub Bytes : Type 0
Bytes = List ℕ

-- An error: one that wraps no other, one that another package makes of an error and a text in front of
-- it, as `fmt.Errorf` does with `%w`, or a `wrapError`.
pub data Error : Type 0 where
  plain : String → Error
  wrapped : String → Error → Error
  wrap_error : Error → String → Error

-- `Error`.
unfoldable pub message_of : Error → String
message_of (plain s) = s
message_of (wrapped s e) = concat s (message_of e)
message_of (wrap_error e trace) = message_of e

-- `errors.As` with a `wrapError`, and `StackTrace` of what it finds.
unfoldable pub stack_trace : Error → Option String
stack_trace (plain s) = none
stack_trace (wrapped s e) = stack_trace e
stack_trace (wrap_error e trace) = some trace

-- `runtime.Frame`; the line is written by `strconv.Itoa`.
pub record Frame : Type 0 where
  pub function : String
  pub file : String
  pub line : ℕ

module _ (itoa : ℕ → String) where
  -- The loop of `Wrap`, and `builder.String()`.
  unfoldable pub print_frames : List Frame → String
  print_frames [] = ""
  print_frames (f ∷ fs) = concat f.function (
      concat "\n    "
        (concat f.file (concat ":" (concat (itoa f.line) (concat "\n" (print_frames fs))))))

  -- `Wrap` where `runtime.Callers` gives the frames.
  unfoldable pub wrap : List Frame → Error → Error
  unfolding print_frames
  wrap frames e = wrap_error e (print_frames frames)

-- `exceptionPayload`.
pub record ExceptionPayload : Type 0 where
  pub msg : String
  pub traceback : String

-- `message`.
pub record WireMessage {ℓ} (A : Type ℓ) : Type ℓ where
  pub typ : String
  pub data_of : A
  pub node_id : String

-- `Message`: the data are the bytes of a value.
pub record Received : Type 0 where
  pub typ : String
  pub raw : Bytes
  pub node_id : String

-- The bytes of the parts of a message, in a row, or the first error.
unfoldable pub in_order : List (Error ⊎ Bytes) → Error ⊎ Bytes
in_order [] = inr []
in_order (p ∷ ps) = elim p [
  | inl e ↦ inl e
  | inr b ↦ elim (in_order ps) [ inl e ↦ inl e | inr bs ↦ inr (b ++ bs) ]
]

-- What a worker has handed to its transport, and what the call returned.
pub record Sends : Type 0 where
  pub handed : List Bytes
  pub result : Option Error

module _ {ℓ} {A : Type ℓ} (array_len : ℕ → Error ⊎ Bytes) (string : String → Error ⊎ Bytes)
    (value : A → Error ⊎ Bytes) where
  -- `encodeMessage`.
  unfoldable pub encode_message : WireMessage A → Error ⊎ Bytes
  unfolding in_order
  encode_message m = in_order (array_len 3 ∷ string m.typ ∷ value m.data_of ∷ string m.node_id ∷ [])

  -- `SendMessage` of a worker with the client ID, where `transport` is what `Send` returns.
  unfoldable pub send_message : (Bytes → Option Error) → String → String → A → Sends
  unfolding encode_message
  send_message transport client_id typ payload =
      elim (encode_message (record { typ = typ; data_of = payload; node_id = client_id })) [
        | inl e ↦ record { handed = []; result = some e }
        | inr b ↦ record { handed = b ∷ []; result = transport b }
      ]

-- The payload of `ReportException`.
unfoldable pub exception_payload : Error → ExceptionPayload
unfolding stack_trace message_of
exception_payload e = record {
  msg = message_of e;
  traceback = elim (stack_trace e) [ none ↦ "" | some trace ↦ trace ];
}

-- `decodeMessage`, over `msgpack.Unmarshal` into a message.
unfoldable pub decode_message : (Bytes → Error ⊎ Received) → Bytes → Error ⊎ Received
decode_message unmarshal b = unmarshal b

-- `recv`, of what `Receive` of the transport returns.
unfoldable pub recv : (Bytes → Error ⊎ Received) → Error ⊎ Bytes → Error ⊎ Received
unfolding decode_message
recv unmarshal received = elim received [ inl e ↦ inl e | inr b ↦ decode_message unmarshal b ]

module _ {ℓ} {A : Type ℓ} (unmarshal : Bytes → Error ⊎ A) where
  -- `DecodePayload`, over `msgpack.Unmarshal` into a value of the type.
  unfoldable pub decode_payload : Received → Error ⊎ A
  decode_payload m = unmarshal m.raw
