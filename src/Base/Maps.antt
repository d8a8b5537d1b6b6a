-- ===== src/Base/Maps.antt =====
-- Go maps as association lists with one entry for each key. `range` visits the entries in the
-- order of the list; the lemmas are about lookups, which no order changes.
use Prim.Native.Nat.{ℕ, ◌%◌, ◌^◌}
use Prim.Native.String.{String}
use mathlib.Core.Path.{◌≡◌, refl}
use mathlib.Core.Logic.{◌↔◌}
use mathlib.Core.Bool.{Bool, true}
use mathlib.Core.Option.{Option, none, some}
use mathlib.Core.List.{List, [], ◌∷◌}
use native.Mathlib.Omega.{arith}
use text.Mathlib.Text.{◌==◌ as str_eq}
use text.Mathlib.TextEquality.{eq_iff}
use launce.Base.Tests.{◌==◌, ==_iff, if◌then◌else◌}
use launce.Base.Int64.{add64}

-- A type whose values can be keys.
pub record Key {ℓ} (K : Type ℓ) : Type ℓ where
  pub same : K → K → Bool
  pub same_iff : (a b : K) → (same a b ≡ true) ↔ (a ≡ b)

instance abbrev pub ℕ-key : Key ℕ
ℕ-key = record { same = ◌==◌; same_iff = ==_iff }

instance abbrev pub String-key : Key String
String-key = record { same = str_eq; same_iff = eq_iff }

abbrev pub GoMap {ℓ κ} : Type ℓ → Type κ → Type (ℓ ⊔ κ)
GoMap K V = List (K × V)

pub same_refl {ℓ} : {K : Type ℓ} ⦃k : Key K⦄ (a : K) → k.same a a ≡ true
same_refl ⦃k⦄ a = (k.same_iff a a).1 refl

module _ {ℓ κ} {K : Type ℓ} {V : Type κ} ⦃k : Key K⦄ where
  unfoldable pub lookup : K → GoMap K V → Option V
  lookup j [] = none
  lookup j ((i, v) ∷ m) = if k.same i j then some v else lookup j m

  -- `m[j] = v`.
  unfoldable pub store : K → V → GoMap K V → GoMap K V
  store j v [] = (j, v) ∷ []
  store j v ((i, w) ∷ m) = if k.same i j then (i, v) ∷ m else (i, w) ∷ store j v m

  -- No key stands twice.
  abbrev pub IsDistinct : GoMap K V → Type κ
  IsDistinct [] = Unit
  IsDistinct ((i, v) ∷ m) = (lookup i m ≡ none) × IsDistinct m

  pub lookup-store :
      (i j : K) (v : V) (m : GoMap K V)
      → lookup j (store i v m) ≡ (if k.same i j then some v else lookup j m)
  unfolding lookup store
  lookup-store i j v [] = refl
  lookup-store i j v ((h, w) ∷ m) =
      ground (arith, k.same_iff i j, k.same_iff h i, k.same_iff h j, lookup-store i j v m)

  pub store-IsDistinct : (i : K) (v : V) (m : GoMap K V) → IsDistinct m → IsDistinct (store i v m)
  unfolding lookup store
  store-IsDistinct i v [] d = (refl, tt)
  store-IsDistinct i v ((h, w) ∷ m) d =
      ground
        (arith, k.same_iff h i, k.same_iff i h, lookup-store i h v m, store-IsDistinct i v m d.1)

-- Maps that count: `map[K]int64`.
module _ {ℓ} {K : Type ℓ} ⦃k : Key K⦄ where
  -- What a read of the map returns: 0 for a key that is not there.
  abbrev pub read : K → GoMap K ℕ → ℕ
  read j m = elim (lookup j m) [ none ↦ 0 | some v ↦ v ]

  -- The same as a pattern of 64 bits.
  abbrev pub count : K → GoMap K ℕ → ℕ
  count j m = read j m % 2 ^ 64

  -- `if _, ok := m[j]; !ok { m[j] = v } else { m[j] += v }`.
  unfoldable pub add_at : K → ℕ → GoMap K ℕ → GoMap K ℕ
  add_at j v m = elim (lookup j m) [ none ↦ store j v m | some w ↦ store j (add64 w v) m ]

  -- `for j, v := range src { … }` round it.
  unfoldable pub add_all : GoMap K ℕ → GoMap K ℕ → GoMap K ℕ
  add_all dst [] = dst
  add_all dst ((j, v) ∷ src) = add_all (add_at j v dst) src

  pub count-add_at :
      (i j : K) (v : ℕ) (m : GoMap K ℕ)
      → count j (add_at i v m) ≡ (if k.same i j then add64 (count j m) v else count j m)
  unfolding add_at
  count-add_at i j v m =
      ground (arith, k.same_iff i j, lookup-store i j v m, lookup-store i j (add64 (read i m) v) m)

  pub add_at-IsDistinct : (i : K) (v : ℕ) (m : GoMap K ℕ) → IsDistinct m → IsDistinct (add_at i v m)
  unfolding add_at
  add_at-IsDistinct i v m d =
      ground (arith, store-IsDistinct i v m d, store-IsDistinct i (add64 (read i m) v) m d)

  pub add_all-IsDistinct : (dst src : GoMap K ℕ) → IsDistinct dst → IsDistinct (add_all dst src)
  unfolding add_all
  add_all-IsDistinct dst [] d = d
  add_all-IsDistinct dst ((j, v) ∷ src) d =
      add_all-IsDistinct (add_at j v dst) src (add_at-IsDistinct j v dst d)

  -- The counts of two maps add up, key by key.
  pub count-add_all :
      (j : K) (dst src : GoMap K ℕ)
      → IsDistinct src
      → count j (add_all dst src) ≡ add64 (count j dst) (count j src)
  unfolding add_all lookup
  count-add_all j dst [] d = omega arith
  count-add_all j dst ((i, v) ∷ src) d =
      ground
        (arith, k.same_iff i j, count-add_at i j v dst, count-add_all j (add_at i v dst) src d.1)

  -- `m[j] += v`.
  pub count-store-read :
      (i j : K) (v : ℕ) (m : GoMap K ℕ)
      → count j (store i (add64 (read i m) v) m)
        ≡ (if k.same i j then add64 (count j m) v else count j m)
  count-store-read i j v m = ground (arith, k.same_iff i j, lookup-store i j (add64 (read i m) v) m)
