-- ===== src/Worker/ClientId.antt =====
-- worker.go: `generateClientID`. A Go string is its bytes.
pub mod Unique
mod Tests
use launce.Base.{ℕ, ◌+◌, ◌/◌, ◌%◌, ◌⊎◌, inl, inr, List, [], ◌∷◌, ◌++◌, ltb, if◌then◌else◌}
use launce.Worker.Wire.{Bytes, Error}

-- A lower-case digit of `hex.Encode`.
unfoldable pub digit : ℕ → ℕ
digit n = if ltb n 10 then 48 + n else 87 + n

unfoldable pub hex : Bytes → Bytes
unfolding digit
hex [] = []
hex (b ∷ bs) = digit (b / 16) ∷ digit (b % 16) ∷ hex bs

-- `generateClientID`, where `os.Hostname` and `uuid.NewRandom` return these.
unfoldable pub generate_client_id : Error ⊎ Bytes → Error ⊎ Bytes → Error ⊎ Bytes
unfolding hex
generate_client_id (inl e) id = inl e
generate_client_id (inr hostname) (inl e) = inl e
generate_client_id (inr hostname) (inr id) = inr (hostname ++ 95 ∷ hex id)
