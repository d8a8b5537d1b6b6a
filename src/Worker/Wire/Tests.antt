-- ===== src/Worker/Wire/Tests.antt =====
-- Tests of Wire.antt.
use launce.Base.{
  ℕ, ◌≡◌, ◌⊎◌, inl, inr, refl, Option, none, some, List, [], ◌∷◌, String, ◌==◌, if◌then◌else◌,
}
use launce.Worker.Wire.{Bytes, Error, plain, Frame, print_frames, send_message}
use launce.Worker.Wire.Sending.{first_error, all_bytes, send_message_lem}

-- Encoders of which the one of values fails at 7.
abbrev array_len : ℕ → Error ⊎ Bytes
array_len n = inr (n ∷ [])

abbrev string : String → Error ⊎ Bytes
string s = inr (100 ∷ [])

abbrev value : ℕ → Error ⊎ Bytes
value n = if n == 7 then inl (plain "no 7") else inr (n ∷ [])

abbrev down : Bytes → Option Error
down b = some (plain "down")

sent_test :
    send_message array_len string value down "w" "stats" 5
    ≡ record { handed = (3 ∷ 100 ∷ 5 ∷ 100 ∷ []) ∷ []; result = some (plain "down") }
unfolding send_message
sent_test = refl

send_message_lem_example :
    let parts = array_len 3 ∷ string "stats" ∷ value 7 ∷ string "w" ∷ [] in
    send_message array_len string value down "w" "stats" 7 ≡ elim (first_error parts) [
      | some e ↦ record { handed = []; result = some e }
      | none ↦ record { handed = all_bytes parts ∷ []; result = down (all_bytes parts) }
    ]
send_message_lem_example = send_message_lem array_len string value down "w" "stats" 7

abbrev itoa : ℕ → String
itoa n = if n == 12 then "12" else "?"

abbrev frames : List Frame
frames = record { function = "main.run"; file = "user.go"; line = 12 } ∷ []

trace_test : print_frames itoa frames ≡ "main.run\n    user.go:12\n"
unfolding print_frames
trace_test = refl
