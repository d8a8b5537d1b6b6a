-- ===== src/Worker/ClientId/Tests.antt =====
-- Tests of ClientId.antt.
use launce.Base.{◌≡◌, refl, inl, inr, [], ◌∷◌}
use launce.Worker.Wire.{plain}
use launce.Worker.ClientId.{hex, generate_client_id}

hex_test : hex (0 ∷ 175 ∷ []) ≡ 48 ∷ 48 ∷ 97 ∷ 102 ∷ []
unfolding hex
hex_test = refl

id_test :
    (generate_client_id (inr (104 ∷ [])) (inr (10 ∷ [])) ≡ inr (104 ∷ 95 ∷ 48 ∷ 97 ∷ []))
    × (generate_client_id (inr (104 ∷ [])) (inl (plain "no bytes")) ≡ inl (plain "no bytes"))
unfolding generate_client_id
id_test = (refl, refl)
