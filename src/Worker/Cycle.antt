-- ===== src/Worker/Cycle.antt =====
-- worker.go: what the load test cycle spawns.
use launce.Base.{
  ℕ, ◌+◌, ◌%◌, ◌^◌, ◌≡◌, refl, sym, ◌∙◌, Bool, none, some, List, [], ◌∷◌, ◌++◌, String, arith,
  if◌then◌else◌, Bool-cases, inl, inr, append_assoc, append-nil, eq_iff,
}
use launce.Base.Int64.{add64}
use launce.Base.Maps.{String-key, store, lookup, lookup-store, IsDistinct}
use launce.Worker.{Effect, spawns, UserCounts, spawn_users}

-- The sum of the counts of the known classes.
abbrev pub known_total : (String → Bool) → UserCounts → ℕ
known_total known [] = 0
known_total known ((name, count) ∷ rest) =
    (if known name then count else 0) + known_total known rest

abbrev pub known_spawns : (String → Bool) → UserCounts → List Effect
known_spawns known [] = []
known_spawns known ((name, count) ∷ rest) =
    if known name then spawns name count ∷ known_spawns known rest else known_spawns known rest

pub spawn_users_lem :
    (known : String → Bool) (counts done : UserCounts) (total : ℕ) (es : List Effect)
    → ((spawn_users known counts done total es).1 % 2 ^ 64
        ≡ (total + known_total known counts) % 2 ^ 64)
      × ((spawn_users known counts done total es).2 ≡ es ++ known_spawns known counts)
unfolding spawn_users
spawn_users_lem known [] done total es = (omega arith, sym (append-nil es))
spawn_users_lem known ((name, count) ∷ rest) done total es = elim (Bool-cases (known name)) [
  | inl h ↦
      let (t, e) =
        spawn_users_lem known rest (store name count done) (add64 total count)
          (es ++ spawns name count ∷ []) in
      rw h
        (omega (arith, t), e ∙ append_assoc es (spawns name count ∷ []) (known_spawns known rest))
  | inr h ↦ let (t, e) = spawn_users_lem known rest done total es in rw h (omega (arith, t), e)
]

lookup-spawn_users :
    (known : String → Bool) (counts done : UserCounts) (total : ℕ) (es : List Effect)
    (name : String)
    → IsDistinct counts
    → lookup name (spawn_users known counts done total es).0 ≡ elim (lookup name counts) [
      | none ↦ lookup name done
      | some c ↦ if known name then some c else lookup name done
    ]
unfolding spawn_users lookup
lookup-spawn_users known [] done total es name d = refl
lookup-spawn_users known ((n, c) ∷ rest) done total es name d = elim (Bool-cases (known n)) [
  | inl h ↦ rw h (
      lookup-spawn_users known rest (store n c done) (add64 total c) (es ++ spawns n c ∷ []) name
        d.1
      ∙ ground (arith, lookup-store n name c done, eq_iff n name, d.0, h))
  | inr h ↦
      rw h (
        lookup-spawn_users known rest done total es name d.1
        ∙ ground (arith, eq_iff n name, d.0, h))
]

-- For a spawn request with distinct classes: `Spawn` is called once for each known class, with its
-- count; the count reported for a class is the requested one if the class is known, else it has none;
-- and the total reported is the sum of the counts of the known classes, as a pattern of 64 bits.
pub spawn_users-reports :
    (known : String → Bool) (counts : UserCounts)
    → IsDistinct counts
    → let (done, total, es) = spawn_users known counts [] 0 [] in
      ((name : String) → lookup name done ≡ (if known name then lookup name counts else none))
      × (total % 2 ^ 64 ≡ known_total known counts % 2 ^ 64)
      × (es ≡ known_spawns known counts)
unfolding lookup
spawn_users-reports known counts d =
    let (t, e) = spawn_users_lem known counts [] 0 [] in
    (λ name. ground (arith, lookup-spawn_users known counts [] 0 [] name d), omega (arith, t), e)
