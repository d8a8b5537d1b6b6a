-- ===== src/Worker/ClientId/Unique.antt =====
-- worker.go: the client IDs of different workers.
use mathlib.Core.List.{head-eq_of_cons-eq, tail-eq_of_cons-eq}
use launce.Base.{
  ℕ, ◌*◌, ◌/◌, ◌%◌, ◌<◌, ◌≡◌, inr, refl, ap, ap₂, [], ◌∷◌, ◌++◌, arith, length, length-append,
}
use launce.Worker.Wire.{Bytes}
use launce.Worker.ClientId.{digit, hex, generate_client_id}

-- Bytes are below 256.
abbrev pub AreBytes : Bytes → Type 0
AreBytes [] = Unit
AreBytes (b ∷ bs) = (b < 256) × AreBytes bs

digit-inj : (m n : ℕ) → m < 16 → n < 16 → digit m ≡ digit n → m ≡ n
unfolding digit
digit-inj m n h k e = ground arith

length-hex : (bs : Bytes) → length (hex bs) ≡ 2 * length bs
unfolding hex
length-hex [] = refl
length-hex (b ∷ bs) = omega (arith, length-hex bs)

hex-inj : (bs cs : Bytes) → AreBytes bs → AreBytes cs → hex bs ≡ hex cs → bs ≡ cs
unfolding hex
hex-inj [] [] h k e = refl
hex-inj [] (c ∷ cs) h k e = absurd (omega (arith, ap length e))
hex-inj (b ∷ bs) [] h k e = absurd (omega (arith, ap length e))
hex-inj (b ∷ bs) (c ∷ cs) h k e =
    let high : b / 16 ≡ c / 16 =
      digit-inj (b / 16) (c / 16) (omega (arith, h.0)) (omega (arith, k.0))
        (head-eq_of_cons-eq e) in
    let rest = tail-eq_of_cons-eq e in
    let low : b % 16 ≡ c % 16 =
      digit-inj (b % 16) (c % 16) (omega arith) (omega arith) (head-eq_of_cons-eq rest) in
    ap₂ ◌∷◌ (omega (arith, high, low)) (hex-inj bs cs h.1 k.1 (tail-eq_of_cons-eq rest))

suffix_eq : (a b x y : Bytes) → length x ≡ length y → a ++ x ≡ b ++ y → (a ≡ b) × (x ≡ y)
suffix_eq [] [] x y l e = (refl, e)
suffix_eq [] (b ∷ bs) x y l e = absurd (omega (arith, l, ap length e, length-append bs y))
suffix_eq (a ∷ as') [] x y l e = absurd (omega (arith, l, ap length e, length-append as' x))
suffix_eq (a ∷ as') (b ∷ bs) x y l e =
    let (p, q) = suffix_eq as' bs x y l (tail-eq_of_cons-eq e) in
    (ap₂ ◌∷◌ (head-eq_of_cons-eq e) p, q)

-- The client IDs of two workers that run on different hosts, or whose random UUIDs, of 16 bytes, differ,
-- are different: an ID determines both.
pub generate_client_id-inj :
    (host host' id id' : Bytes)
    → length id ≡ 16
    → length id' ≡ 16
    → AreBytes id
    → AreBytes id'
    → generate_client_id (inr host) (inr id) ≡ generate_client_id (inr host') (inr id')
    → (host ≡ host') × (id ≡ id')
unfolding generate_client_id
generate_client_id-inj host host' id id' l l' h h' e =
    let e' : host ++ 95 ∷ hex id ≡ host' ++ 95 ∷ hex id' = cc in
    let (p, q) =
      suffix_eq host host' (95 ∷ hex id) (95 ∷ hex id')
        (omega (arith, l, l', length-hex id, length-hex id')) e' in
    (p, hex-inj id id' h h' (tail-eq_of_cons-eq q))
