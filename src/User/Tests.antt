-- ===== src/User/Tests.antt =====
-- The theorems on user.go at concrete inputs.
use launce.Base.{◌+◌, ◌≡◌, refl, true, false, none, some, [], ◌∷◌}
use launce.User.{stop_user, other, is_stop, Round, Runner, process_user}
use launce.User.Lifecycle.{AllGoOn, Stands, is_last, process_user_lem}

-- A turn that fails, and one in which `Process` asks to stop.
abbrev failing : Round
failing = record { ctx_done = false; process = some (other 3) }

abbrev asking : Round
asking = record { ctx_done = false; process = some stop_user }

failing_goes_on : AllGoOn (some true) (failing ∷ failing ∷ [])
unfolding AllGoOn
failing_goes_on = (refl, (refl, tt))

process_user_lem_example :
    Stands (process_user (some true) none (some (other 1)) (failing ∷ failing ∷ [])) none 0 2
    × (is_last asking ≡ true
        → Stands
            (process_user (some true) none (some (other 1)) (failing ∷ failing ∷ asking ∷ []))
            (some (some (other 1)))
            1
            (2 + 1))
    × (◌≡◌ {A = Runner} (some true) (some false)
        → asking.ctx_done ≡ false
        → asking.process ≡ some (other 4)
        → is_stop (other 4) ≡ false
        → Stands
            (process_user (some true) none (some (other 1)) (failing ∷ failing ∷ asking ∷ []))
            (some (some (other 4)))
            0
            (2 + 1))
    × (is_stop (other 4) ≡ true
        → Stands
            (process_user (some true) (some (other 4)) (some (other 1)) [])
            (some (some (other 1)))
            1
            0)
    × (is_stop (other 4) ≡ false
        → Stands
            (process_user (some true) (some (other 4)) (some (other 1)) [])
            (some (some (other 4)))
            0
            0)
process_user_lem_example =
    process_user_lem (some true) (some (other 1)) (failing ∷ failing ∷ []) [] asking (other 4)
      failing_goes_on
